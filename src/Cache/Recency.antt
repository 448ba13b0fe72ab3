-- ===== src/Cache/Recency.antt =====
-- The order, the bounds and the answers of services/cache/backends/memory-cache.backend.ts.
use sdcorejs_nestjs.Base.{
  ℕ, ◌≤◌, ◌<◌, ◌≡◌, refl, false, Option, none, some, [], ◌∷◌, ◌++◌, Text, text_eq, text_eq_iff,
  lookup, length, length-append, ltb, arith, Bool-cases, inl, inr, All, All-append,
}
use sdcorejs_nestjs.Cache.Flights.{remove}
use sdcorejs_nestjs.Cache.Memory.{
  Entry, Store, Limits, is_expired, read_entry, memory_get, evict, memory_del, memory_clear,
  entry_of, memory_set,
}

module _ {V : Type 0} where
  -- No other entry has the key.
  abbrev pub IsAbsent : Text → Store V → Type 0
  IsAbsent key = All (λ (p : Text × Entry V). text_eq p.0 key ≡ false)

  abbrev pub IsDistinct : Store V → Type 0
  IsDistinct [] = Unit
  IsDistinct ((k, e) ∷ store) = IsAbsent k store × IsDistinct store

  -- What always holds of the store: one entry a key, and no more entries than allowed.
  pub record IsValid (limits : Limits) (store : Store V) : Type 0 where
    pub distinct : IsDistinct store
    pub bounded : length store ≤ limits.max_entries

  pub IsAbsent-remove_self : (key : Text) (store : Store V) → IsAbsent key (remove key store)
  unfolding remove
  IsAbsent-remove_self key [] = tt
  IsAbsent-remove_self key ((k, e) ∷ store) = elim (Bool-cases (text_eq k key)) [
    | inl same ↦ rw same (IsAbsent-remove_self key store)
    | inr other ↦ rw other (other, IsAbsent-remove_self key store)
  ]

  IsAbsent-remove :
      (j key : Text) (store : Store V) → IsAbsent j store → IsAbsent j (remove key store)
  unfolding remove
  IsAbsent-remove j key [] h = tt
  IsAbsent-remove j key ((k, e) ∷ store) (h, hs) = elim (Bool-cases (text_eq k key)) [
    | inl same ↦ rw same (IsAbsent-remove j key store hs)
    | inr other ↦ rw other (h, IsAbsent-remove j key store hs)
  ]

  IsDistinct-remove :
      (key : Text) (store : Store V) → IsDistinct store → IsDistinct (remove key store)
  unfolding remove
  IsDistinct-remove key [] h = tt
  IsDistinct-remove key ((k, e) ∷ store) (h, hs) = elim (Bool-cases (text_eq k key)) [
    | inl same ↦ rw same (IsDistinct-remove key store hs)
    | inr other ↦ rw other (IsAbsent-remove k key store h, IsDistinct-remove key store hs)
  ]

  length-remove : (key : Text) (store : Store V) → length (remove key store) ≤ length store
  unfolding remove
  length-remove key [] = omega arith
  length-remove key ((k, e) ∷ store) = ground (arith, length-remove key store)

  -- A stored key makes room for itself.
  length-remove_found :
      (key : Text) (store : Store V) (e : Entry V)
      → lookup key store ≡ some e
      → length (remove key store) < length store
  unfolding remove lookup
  length-remove_found key [] e h = cc
  length-remove_found key ((k, d) ∷ store) e h =
      ground (arith, length-remove key store, length-remove_found key store e)

  IsDistinct-append :
      (key : Text) (e : Entry V) (store : Store V)
      → IsDistinct store
      → IsAbsent key store
      → IsDistinct (store ++ (key, e) ∷ [])
  IsDistinct-append key e [] h a = (tt, tt)
  IsDistinct-append key e ((k, d) ∷ store) (h, hs) (a, as_) = (
    All-append (λ (p : Text × Entry V). text_eq p.0 k ≡ false) store ((key, e) ∷ []) h
        (ground (arith, text_eq_iff key k, text_eq_iff k key), tt),
    IsDistinct-append key e store hs as_,
  )

  IsDistinct-evict : (max : ℕ) (store : Store V) → IsDistinct store → IsDistinct (evict max store)
  unfolding evict
  IsDistinct-evict max [] h = tt
  IsDistinct-evict max ((k, e) ∷ store) (h, hs) =
      elim (Bool-cases (ltb max (length ((k, e) ∷ store)))) [
        | inl over ↦ rw over (IsDistinct-evict max store hs)
        | inr fits ↦ rw fits (h, hs)
      ]

  length-evict : (max : ℕ) (store : Store V) → length (evict max store) ≤ max
  unfolding evict
  length-evict max [] = omega arith
  length-evict max (e ∷ store) = ground (arith, length-evict max store)

  memory_set-IsValid :
      (limits : Limits) (key : Text) (value : V) (ttl : Option ℕ) (now : ℕ) (store : Store V)
      → IsValid limits store
      → IsValid limits (memory_set limits key value ttl now store)
  unfolding memory_set
  memory_set-IsValid limits key value ttl now store valid =
      let e = entry_of limits value ttl now in
      let moved =
        IsDistinct-append key e (remove key store) (IsDistinct-remove key store valid.distinct)
          (IsAbsent-remove_self key store) in
      record {
        distinct = IsDistinct-evict limits.max_entries (remove key store ++ (key, e) ∷ []) moved;
        bounded = length-evict limits.max_entries (remove key store ++ (key, e) ∷ []);
      }

  remove-IsValid :
      (limits : Limits) (key : Text) (store : Store V)
      → IsValid limits store
      → IsValid limits (remove key store)
  remove-IsValid limits key store valid = record {
    distinct = IsDistinct-remove key store valid.distinct;
    bounded = omega (arith, length-remove key store, valid.bounded);
  }

  read_entry-IsValid :
      (limits : Limits) (key : Text) (now : ℕ) (store : Store V) (found : Option (Entry V))
      → lookup key store ≡ found
      → IsValid limits store
      → IsValid limits (read_entry key now found store).1
  read_entry-IsValid limits key now store none e valid = valid
  read_entry-IsValid limits key now store (some d) e valid = elim (Bool-cases (is_expired now d)) [
    | inl late ↦ rw late (remove-IsValid limits key store valid)
    | inr live ↦ rw live (record {
      distinct =
          IsDistinct-append key d (remove key store) (IsDistinct-remove key store valid.distinct)
            (IsAbsent-remove_self key store);
      bounded = omega (
        arith,
        length-append (remove key store) ((key, d) ∷ []),
        length-remove_found key store d e,
        valid.bounded,
      );
    })
  ]

  -- What a client of the cache may do.
  pub data Step (limits : Limits) (store : Store V) : Store V → Type 0 where
    gets : (key : Text) (now : ℕ) → Step limits store (memory_get key now store).1
    sets :
        (key : Text) (value : V) (ttl : Option ℕ) (now : ℕ)
        → Step limits store (memory_set limits key value ttl now store)
    deletes : (key : Text) → Step limits store (memory_del key store)
    clears : Step limits store (memory_clear store)

  pub data Reach (limits : Limits) : Store V → Type 0 where
    start : Reach limits []
    later : {s t : Store V} → Reach limits s → Step limits s t → Reach limits t

  Step-IsValid :
      {limits : Limits} {s t : Store V} → Step limits s t → IsValid limits s → IsValid limits t
  unfolding memory_get
  Step-IsValid {limits} {s} (gets key now) valid =
      read_entry-IsValid limits key now s (lookup key s) refl valid
  Step-IsValid {limits} {s} (sets key value ttl now) valid =
      memory_set-IsValid limits key value ttl now s valid
  Step-IsValid {limits} {s} (deletes key) valid = remove-IsValid limits key s valid
  Step-IsValid {limits} {s} clears valid = record { distinct = tt; bounded = omega arith }

  -- Whatever is read, written and deleted, the cache holds one entry a key and never more entries
  -- than it is allowed.
  pub Reach-IsValid :
      {limits : Limits} {store : Store V} → Reach limits store → IsValid limits store
  Reach-IsValid start = record { distinct = tt; bounded = omega arith }
  Reach-IsValid (later reached step) = Step-IsValid step (Reach-IsValid reached)
