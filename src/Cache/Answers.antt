-- ===== src/Cache/Answers.antt =====
-- What services/cache/backends/memory-cache.backend.ts answers after a write.
use sdcorejs_nestjs.Base.{
  ℕ, ◌-◌, ◌≤◌, ◌<◌, ◌≡◌, refl, ◌∙◌, ap, false, Option, some, [], ◌∷◌, ◌++◌, Text, text_eq,
  text_eq_self, text_eq_iff, lookup, length, length-append, ltb, arith, Bool-cases, inl, inr,
}
use sdcorejs_nestjs.Cache.Flights.{remove}
use sdcorejs_nestjs.Cache.Memory.{
  Entry, Store, Limits, is_expired, memory_get, evict, entry_of, memory_set,
}
use sdcorejs_nestjs.Cache.Recency.{IsAbsent, IsAbsent-remove_self}

module _ {V : Type 0} where
  -- What is evicted are the oldest entries, and no more of them than are too many.
  pub evict-oldest :
      (max : ℕ) (store : Store V)
      → (old : Store V) × (store ≡ old ++ evict max store) × (length old ≡ length store - max)
  unfolding evict
  evict-oldest max [] = ([], refl, omega arith)
  evict-oldest max (e ∷ store) = elim (Bool-cases (ltb max (length (e ∷ store)))) [
    | inl over ↦
        let (old, split, count) = evict-oldest max store in
        (e ∷ old, rw over (ap (λ s. e ∷ s) split), ground arith)
    | inr fits ↦ ([], rw fits refl, ground arith)
  ]

  lookup-append_last :
      (key : Text) (e : Entry V) (store : Store V)
      → IsAbsent key store
      → lookup key (store ++ (key, e) ∷ []) ≡ some e
  unfolding lookup
  lookup-append_last key e [] a = ground (arith, text_eq_self key)
  lookup-append_last key e ((k, d) ∷ store) (a, rest) =
      ground (arith, lookup-append_last key e store rest)

  lookup-evict_last :
      (max : ℕ) (key : Text) (e : Entry V) (store : Store V)
      → 1 ≤ max
      → IsAbsent key store
      → lookup key (evict max (store ++ (key, e) ∷ [])) ≡ some e
  unfolding evict
  lookup-evict_last max key e [] h a = elim (Bool-cases (ltb max 1)) [
    | inl over ↦ absurd (ground arith)
    | inr fits ↦ rw fits (lookup-append_last key e [] tt)
  ]
  lookup-evict_last max key e (p ∷ store) h (a, rest) =
      elim (Bool-cases (ltb max (length (p ∷ store ++ (key, e) ∷ [])))) [
        | inl over ↦ rw over (lookup-evict_last max key e store h rest)
        | inr fits ↦ rw fits (lookup-append_last key e (p ∷ store) (a, rest))
      ]

  -- A value that was written is read back until it expires, in a cache that may hold an entry.
  pub memory_get-memory_set :
      (limits : Limits) (key : Text) (value : V) (ttl : Option ℕ) (now later : ℕ) (store : Store V)
      → 1 ≤ limits.max_entries
      → is_expired later (entry_of limits value ttl now) ≡ false
      → (memory_get key later (memory_set limits key value ttl now store)).0 ≡ some value
  unfolding memory_get memory_set
  memory_get-memory_set limits key value ttl now later store room live =
      rw
        (
          lookup-evict_last limits.max_entries key (entry_of limits value ttl now)
              (remove key store) room (IsAbsent-remove_self key store),
          live,
        )
        refl

  lookup-remove_other :
      (key k : Text) (m : Store V) → text_eq key k ≡ false → lookup k (remove key m) ≡ lookup k m
  unfolding lookup remove
  lookup-remove_other key k [] other = refl
  lookup-remove_other key k ((j, v) ∷ m) other = ground (
    arith,
    lookup-remove_other key k m other,
    text_eq_iff j key,
    text_eq_iff j k,
    text_eq_iff key k,
  )

  lookup-append_other :
      (key k : Text) (e : Entry V) (store : Store V)
      → text_eq key k ≡ false
      → lookup k (store ++ (key, e) ∷ []) ≡ lookup k store
  unfolding lookup
  lookup-append_other key k e [] other = ground arith
  lookup-append_other key k e ((j, d) ∷ store) other =
      ground (arith, lookup-append_other key k e store other)

  evict-fits : (max : ℕ) (store : Store V) → length store ≤ max → evict max store ≡ store
  unfolding evict
  evict-fits max [] h = refl
  evict-fits max (e ∷ store) h = ground arith

  -- While there is room, a write leaves the entries of the other keys as they are.
  pub memory_set-frame :
      (limits : Limits) (key k : Text) (value : V) (ttl : Option ℕ) (now : ℕ) (store : Store V)
      → length (remove key store) < limits.max_entries
      → text_eq key k ≡ false
      → lookup k (memory_set limits key value ttl now store) ≡ lookup k store
  unfolding memory_set
  memory_set-frame limits key k value ttl now store room other =
      let e = entry_of limits value ttl now in
      let fits : length (remove key store ++ (key, e) ∷ []) ≤ limits.max_entries =
        omega (arith, room, length-append (remove key store) ((key, e) ∷ [])) in
      rw (evict-fits limits.max_entries (remove key store ++ (key, e) ∷ []) fits) (
        lookup-append_other key k e (remove key store) other
        ∙ lookup-remove_other key k store other)
