-- ===== src/Cache/Memory.antt =====
-- MemoryCacheBackend of services/cache/backends/memory-cache.backend.ts. A map is the list of its
-- entries in the order of insertion; times are in milliseconds, and an interval is a whole number of
-- seconds that is not negative.
use sdcorejs_nestjs.Base.{
  ℕ, ◌+◌, ◌*◌, Bool, ◌&&◌, Option, none, some, List, [], ◌∷◌, ◌++◌, Text, lookup, length, ltb,
  or_default, if◌then◌else◌,
}
use sdcorejs_nestjs.Cache.Flights.{remove}

-- CacheEntry
pub record Entry (V : Type 0) : Type 0 where
  pub value : V
  pub expires_at : ℕ

abbrev pub Store : Type 0 → Type 0
Store V = List (Text × Entry V)

pub record Limits : Type 0 where
  pub max_entries : ℕ
  pub default_ttl : ℕ

-- `ttl > 0 ? Date.now() + ttl * 1000 : 0`
abbrev pub expiry : ℕ → ℕ → ℕ
expiry ttl now = if ltb 0 ttl then now + ttl * 1000 else 0

module _ {V : Type 0} where
  abbrev pub is_expired : ℕ → Entry V → Bool
  is_expired now e = ltb 0 e.expires_at && ltb e.expires_at now

  -- An entry that is read moves to the end.
  abbrev pub read_entry : Text → ℕ → Option (Entry V) → Store V → Option V × Store V
  read_entry key now none store = (none, store)
  read_entry key now (some e) store =
      if is_expired now e
      then (none, remove key store)
      else (some e.value, remove key store ++ (key, e) ∷ [])

  unfoldable pub memory_get : Text → ℕ → Store V → Option V × Store V
  unfolding lookup remove
  memory_get key now store = read_entry key now (lookup key store) store

  -- `while (size > maxEntries)`, from the oldest entry on.
  unfoldable pub evict : ℕ → Store V → Store V
  evict max [] = []
  evict max (e ∷ store) =
      let rest = evict max store in if ltb max (length (e ∷ store)) then rest else e ∷ store

  abbrev pub entry_of : Limits → V → Option ℕ → ℕ → Entry V
  entry_of limits value ttl now = record {
    value = value;
    expires_at = expiry (or_default ttl limits.default_ttl) now;
  }

  unfoldable pub memory_set : Limits → Text → V → Option ℕ → ℕ → Store V → Store V
  unfolding remove evict
  memory_set limits key value ttl now store =
      evict limits.max_entries (remove key store ++ (key, entry_of limits value ttl now) ∷ [])

  abbrev pub memory_del : Text → Store V → Store V
  memory_del = remove

  abbrev pub memory_clear : Store V → Store V
  memory_clear store = []

  abbrev pub memory_size : Store V → ℕ
  memory_size = length
