-- ===== src/JobScheduler/Locking.antt =====
-- Acquisition as an operation on one register for each lock key
-- (features/job-scheduler/job-scheduler.service.ts).
use sdcorejs_nestjs.Base.{
  ℕ, ◌≡◌, refl, subst, sym, false, Option, none, some, [], ◌∷◌, ◌++◌, Text, text_eq, text_eq_iff,
  text_eq_self, if◌then◌else◌, Bool-cases, Option-cases, inl, inr, arith,
}
use sdcorejs_nestjs.JobScheduler.Options.{Identity}
use sdcorejs_nestjs.JobScheduler.Table.{
  Row, Table, has_key, find_key, insert_or_ignore, update_where, returned_id,
}
use sdcorejs_nestjs.JobScheduler.Service.{
  Draws, Acquired, lost, won, is_reclaimable, reclaims, take_over, new_row, lease_of, reclaim,
  claim,
}
use sdcorejs_nestjs.JobScheduler.Rows.{
  IsUnique, KeepsKey, find_key-update_where, find_key-append, find_key-append_found,
  find_key-has_key, IsUnique-append, IsUnique-update_where,
}

-- What `acquire` promises of the row under its key, before and after.
unfoldable pub claim_register :
    Draws → Text → Identity → Option Text → ℕ → Option Row → Acquired × Option Row
unfolding is_reclaimable
claim_register d key identity name lease none =
    (won (lease_of d key d.new_id), some (new_row d key identity name))
claim_register d key identity name lease (some r) =
    if is_reclaimable lease d.now r
    then (won (lease_of d key r.id), some (take_over d r))
    else (lost, some r)

module _ (key : Text) (lease now : ℕ) where
  returned_id-none :
      (table : Table)
      → find_key key table ≡ none
      → returned_id (reclaims key lease now) table ≡ none
  unfolding find_key returned_id reclaims
  returned_id-none [] h = refl
  returned_id-none (r ∷ rs) h = ground (arith, returned_id-none rs)

  returned_id-some :
      (table : Table) (r : Row)
      → IsUnique table
      → find_key key table ≡ some r
      → returned_id (reclaims key lease now) table
        ≡ (if is_reclaimable lease now r then some r.id else none)
  unfolding find_key returned_id reclaims
  returned_id-some [] r u h = cc
  returned_id-some (s ∷ rs) r (n, u) h = elim (Bool-cases (has_key key s)) [
    | inl here ↦
        let same : s ≡ r = ground arith in
        let none_later : find_key key rs ≡ none =
          unfold has_key in ground (arith, text_eq_iff s.lock_key key) in
        ground (arith, returned_id-none rs)
    | inr there ↦ ground (arith, returned_id-some rs r u)
  ]

take_over-KeepsKey : (d : Draws) → KeepsKey (take_over d)
take_over-KeepsKey d r = refl

module _ (d : Draws) (key : Text) (identity : Identity) (name : Option Text) (lease : ℕ) where
  reclaim-register :
      (table : Table) (r : Row)
      → IsUnique table
      → find_key key table ≡ some r
      → ((reclaim d key lease table).0 ≡ (claim_register d key identity name lease (some r)).0)
        × (find_key key (reclaim d key lease table).1
            ≡ (claim_register d key identity name lease (some r)).1)
  unfolding reclaim claim_register
  reclaim-register table r u h =
      let owner = find_key-has_key key table r h in
      let stepped =
        find_key-update_where (reclaims key lease d.now) (take_over d) key table
          (take_over-KeepsKey d) in
      elim (Bool-cases (is_reclaimable lease d.now r)) [
        | inl free ↦
            unfold reclaims in ground (arith, returned_id-some key lease d.now table r u h, stepped)
        | inr busy ↦ ground (arith, returned_id-some key lease d.now table r u h)
      ]

  -- The insert and the conditional update of `acquire` act on the row under the lock key as one
  -- step on a register: a missing row is inserted, a failed or expired one is taken over, and any
  -- other is left as it is, to the loser.
  pub claim-register :
      (table : Table)
      → IsUnique table
      → ((claim d key identity name lease table).0
          ≡ (claim_register d key identity name lease (find_key key table)).0)
        × (find_key key (claim d key identity name lease table).1
            ≡ (claim_register d key identity name lease (find_key key table)).1)
  unfolding claim insert_or_ignore
  claim-register table u = elim (Option-cases (find_key key table)) [
    | inl free ↦
        unfold claim_register has_key in
        ground
          (arith, find_key-append key (new_row d key identity name) table free, text_eq_self key)
    | inr (r, taken) ↦ ground (arith, reclaim-register table r u taken)
  ]

  reclaim-other :
      (k : Text) (table : Table)
      → text_eq key k ≡ false
      → find_key k (reclaim d key lease table).1 ≡ find_key k table
  unfolding reclaim
  reclaim-other k table other =
      let stepped =
        find_key-update_where (reclaims key lease d.now) (take_over d) k table
          (take_over-KeepsKey d) in
      elim (Option-cases (find_key k table)) [
        | inl absent ↦ ground (arith, stepped, absent)
        | inr (r, found) ↦
            let owner = find_key-has_key k table r found in
            unfold reclaims has_key in
            ground (
              arith,
              stepped,
              found,
              text_eq_iff r.lock_key k,
              text_eq_iff r.lock_key key,
              text_eq_iff key k,
            )
      ]

  -- Acquiring one lock leaves the rows of all others as they are.
  pub claim-other :
      (k : Text) (table : Table)
      → text_eq key k ≡ false
      → find_key k (claim d key identity name lease table).1 ≡ find_key k table
  unfolding claim insert_or_ignore
  claim-other k table other = elim (Option-cases (find_key key table)) [
    | inr (r, taken) ↦ ground (arith, taken, reclaim-other k table other)
    | inl free ↦ elim (Option-cases (find_key k table)) [
      | inl absent ↦
          unfold has_key in
          ground (arith, find_key-append k (new_row d key identity name) table absent)
      | inr (s, found) ↦
          ground (arith, find_key-append_found k (new_row d key identity name) s table found)
    ]
  ]

  -- Lock keys stay unique.
  pub claim-IsUnique :
      (table : Table) → IsUnique table → IsUnique (claim d key identity name lease table).1
  unfolding claim insert_or_ignore reclaim
  claim-IsUnique table u = elim (Option-cases (find_key key table)) [
    | inl free ↦
        let row = new_row d key identity name in
        let after : (claim d key identity name lease table).1 ≡ table ++ row ∷ [] = ground arith in
        subst IsUnique (sym after) (IsUnique-append row table free u)
    | inr (r, taken) ↦ elim (Option-cases (returned_id (reclaims key lease d.now) table)) [
      | inl none_here ↦
          let after : (claim d key identity name lease table).1 ≡ table = ground arith in
          subst IsUnique (sym after) u
      | inr (id, touched) ↦
          let change = take_over d in
          let after : (claim d key identity name lease table).1
              ≡ update_where (reclaims key lease d.now) change table =
            ground arith in
          subst IsUnique (sym after)
            (IsUnique-update_where (reclaims key lease d.now) change table (take_over-KeepsKey d) u)
    ]
  ]

  -- A node that loses changes no row, and the row under its key is neither failed nor expired.
  pub claim-lost :
      (table : Table)
      → IsUnique table
      → (claim d key identity name lease table).0 ≡ lost
      → ((claim d key identity name lease table).1 ≡ table)
        × ((r : Row) × (find_key key table ≡ some r) × (is_reclaimable lease d.now r ≡ false))
  claim-lost table u h = elim (Option-cases (find_key key table)) [
    | inl free ↦ unfold claim insert_or_ignore in ground arith
    | inr (r, taken) ↦ elim (Bool-cases (is_reclaimable lease d.now r)) [
      | inl free ↦
          unfold claim insert_or_ignore reclaim in
          ground (arith, returned_id-some key lease d.now table r u taken)
      | inr busy ↦ (
        unfold claim insert_or_ignore reclaim in
            ground (arith, returned_id-some key lease d.now table r u taken),
        (r, taken, busy),
      )
    ]
  ]
