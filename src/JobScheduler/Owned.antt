-- ===== src/JobScheduler/Owned.antt =====
-- The row behind a lease of features/job-scheduler/job-scheduler.service.ts, when it is acquired and
-- when it is completed.
use sdcorejs_nestjs.Base.{
  ℕ, suc, ◌≡◌, refl, sym, ◌∙◌, ap, subst, Bool, true, Option, none, some, [], ◌∷◌, ◌++◌, Text,
  text_eq_sound, In, Result, ok, Bool-cases, Option-cases, Result-cases, inl, inr, arith, ◌==◌,
}
use sdcorejs_nestjs.JobScheduler.Options.{
  JobError, Identity, AcquireOptions, resolve_lease_timing, resolve_identity,
}
use sdcorejs_nestjs.JobScheduler.Table.{
  Status, running, success, fail, Row, Table, find_key, insert_or_ignore, update_where, affected,
  returned_id,
}
use sdcorejs_nestjs.JobScheduler.Service.{
  Draws, JobLease, Acquired, won, is_status, reclaims, take_over, new_row, lease_of, reclaim, claim,
  owns, mutate_owned, complete, lock_key, acquire,
}

-- A row that is running under the lease's identifier and token.
pub record IsRunning (lease : JobLease) (r : Row) : Type 0 where
  pub same_id : r.id ≡ lease.id
  pub same_token : r.owner_token ≡ lease.owner_token
  pub is_running : r.status ≡ running

-- The table has the row of a lease that was just won: it runs, with the caller's own token, from
-- now on.
pub record IsTaken (d : Draws) (lease : JobLease) (t : Table) : Type 0 where
  pub row : Row
  pub listed : In row t
  pub held : IsRunning lease row
  pub own_token : lease.owner_token ≡ d.owner_token
  pub modified : row.modified_at ≡ d.now

-- The lease's row was running under it, and is then the same row as a success.
pub record IsFinished (now : ℕ) (lease : JobLease) (t t' : Table) : Type 0 where
  pub row : Row
  pub listed : In row t
  pub held : IsRunning lease row
  pub finished : In (record row { status = success; payload = none; modified_at = now }) t'

In-last : (r : Row) (t : Table) → In r (t ++ r ∷ [])
In-last r [] = inl refl
In-last r (s ∷ t) = inr (In-last r t)

update_where-In :
    (test : Row → Bool) (change : Row → Row) (r : Row) (t : Table)
    → In r t
    → test r ≡ true
    → In (change r) (update_where test change t)
unfolding update_where
update_where-In test change r [] i h = elim i [ ]
update_where-In test change r (s ∷ t) (inl e) h =
    let met : test s ≡ true = ap test (sym e) ∙ h in rw met (inl (ap change e))
update_where-In test change r (s ∷ t) (inr i) h = inr (update_where-In test change r t i h)

-- A row that the test finds.
abbrev Hit : (Row → Bool) → Table → Type 0
Hit test t = (r : Row) × In r t × (test r ≡ true)

Hit-later : (test : Row → Bool) (s : Row) (t : Table) → Hit test t → Hit test (s ∷ t)
Hit-later test s t (r, i, h) = (r, inr i, h)

affected-Hit : (test : Row → Bool) (n : ℕ) (t : Table) → affected test t ≡ suc n → Hit test t
unfolding affected
affected-Hit test n [] h = absurd (ground arith)
affected-Hit test n (s ∷ t) h = elim (Bool-cases (test s)) [
  | inl met ↦ (s, inl refl, met)
  | inr other ↦ Hit-later test s t (affected-Hit test n t (rw other at h))
]

returned_id-Hit :
    (test : Row → Bool) (id : Text) (t : Table)
    → returned_id test t ≡ some id
    → (r : Row) × In r t × (test r ≡ true) × (r.id ≡ id)
unfolding returned_id
returned_id-Hit test id [] h = cc
returned_id-Hit test id (s ∷ t) h = elim (Bool-cases (test s)) [
  | inl met ↦ (s, inl refl, met, cc (rw met at h))
  | inr other ↦
      let (r, i, met, same) = returned_id-Hit test id t (rw other at h) in (r, inr i, met, same)
]

is_status-running : (s : Status) → is_status s running ≡ true → s ≡ running
unfolding is_status
is_status-running running h = refl
is_status-running success h = cc
is_status-running fail h = cc

owns-IsRunning : (lease : JobLease) (r : Row) → owns lease r ≡ true → IsRunning lease r
unfolding owns
owns-IsRunning lease r h = record {
  same_id = text_eq_sound r.id lease.id (ground arith);
  same_token = text_eq_sound r.owner_token lease.owner_token (ground arith);
  is_running = is_status-running r.status (ground arith);
}

pub complete-IsFinished :
    (now : ℕ) (lease : JobLease) (t t' : Table)
    → complete now lease none t ≡ (true, t')
    → IsFinished now lease t t'
unfolding complete mutate_owned
complete-IsFinished now lease t t' h =
    let one : (affected (owns lease) t == 1) ≡ true = λ i. (h i).0 in
    let (r, i, met) = affected-Hit (owns lease) 0 t (ground arith) in
    let change = λ (r : Row). record r { status = success; payload = none; modified_at = now } in
    let after : update_where (owns lease) change t ≡ t' = λ i. (h i).1 in
    record {
      row = r;
      listed = i;
      held = owns-IsRunning lease r met;
      finished = subst (In (change r)) after (update_where-In (owns lease) change r t i met);
    }

module _ (d : Draws) (key : Text) (identity : Identity) (name : Option Text) (lease_ms : ℕ) where
  inserted-IsTaken :
      (t : Table) → IsTaken d (lease_of d key d.new_id) (t ++ new_row d key identity name ∷ [])
  inserted-IsTaken t = record {
    row = new_row d key identity name;
    listed = In-last (new_row d key identity name) t;
    held = record { same_id = refl; same_token = refl; is_running = refl };
    own_token = refl;
    modified = refl;
  }

  reclaim-IsTaken :
      (lease : JobLease) (t t' : Table)
      → reclaim d key lease_ms t ≡ (won lease, t')
      → IsTaken d lease t'
  unfolding reclaim
  reclaim-IsTaken lease t t' h =
      let test = reclaims key lease_ms d.now in
      elim (Option-cases (returned_id test t)) [
        | inl missed ↦ cc (rw (missed, reclaim) at h)
        | inr (id, touched) ↦
            let (r, i, met, same) = returned_id-Hit test id t touched in
            let done : (won (lease_of d key id), update_where test (take_over d) t)
                ≡ (won lease, t') =
              rw (touched, reclaim) at h in
            let won_it : won (lease_of d key id) ≡ won lease = λ i. (done i).0 in
            let leased : lease_of d key id ≡ lease = cc (won_it) in
            let after : update_where test (take_over d) t ≡ t' = λ i. (done i).1 in
            let taken : IsTaken d (lease_of d key id) (update_where test (take_over d) t) = record {
              row = take_over d r;
              listed = update_where-In test (take_over d) r t i met;
              held = record { same_id = same; same_token = refl; is_running = refl };
              own_token = refl;
              modified = refl;
            } in
            subst (IsTaken d lease) after
              (subst (λ l. IsTaken d l (update_where test (take_over d) t)) leased taken)
      ]

  claim-IsTaken :
      (lease : JobLease) (t t' : Table)
      → claim d key identity name lease_ms t ≡ (won lease, t')
      → IsTaken d lease t'
  unfolding claim insert_or_ignore
  claim-IsTaken lease t t' h = elim (Option-cases (find_key key t)) [
    | inr (r, taken) ↦
        let first : (claim d key identity name lease_ms t).0 ≡ (reclaim d key lease_ms t).0 =
          ground arith in
        let second : (claim d key identity name lease_ms t).1 ≡ (reclaim d key lease_ms t).1 =
          ground arith in
        let given : (claim d key identity name lease_ms t).0 ≡ won lease = λ i. (h i).0 in
        let ended : (claim d key identity name lease_ms t).1 ≡ t' = λ i. (h i).1 in
        let same = sym first ∙ given in
        let after = sym second ∙ ended in reclaim-IsTaken lease t t' (λ i. (same i, after i))
    | inl free ↦
        let row = new_row d key identity name in
        let first : (claim d key identity name lease_ms t).0 ≡ won (lease_of d key d.new_id) =
          ground arith in
        let second : (claim d key identity name lease_ms t).1 ≡ t ++ row ∷ [] = ground arith in
        let given : (claim d key identity name lease_ms t).0 ≡ won lease = λ i. (h i).0 in
        let ended : (claim d key identity name lease_ms t).1 ≡ t' = λ i. (h i).1 in
        let same : won (lease_of d key d.new_id) ≡ won lease = sym first ∙ given in
        let leased : lease_of d key d.new_id ≡ lease = cc (same) in
        let after : t ++ row ∷ [] ≡ t' = sym second ∙ ended in
        subst (IsTaken d lease) after
          (subst (λ l. IsTaken d l (t ++ row ∷ [])) leased (inserted-IsTaken t))
  ]

pub acquire-IsTaken :
    (stringify : Identity → Text) (sha256 : Text → Text) (d : Draws) (opts : AcquireOptions)
    (lease : JobLease) (t t' : Table)
    → acquire stringify sha256 d opts t ≡ (ok (won lease), t')
    → IsTaken d lease t'
unfolding acquire
acquire-IsTaken stringify sha256 d opts lease t t' h =
    elim (Result-cases (resolve_lease_timing opts)) [
      | inr (e, bad) ↦ cc (rw (bad, acquire) at h)
      | inl (timing, good) ↦ elim (Result-cases (resolve_identity opts)) [
        | inr (e, bad) ↦ cc (rw (good, bad, acquire) at h)
        | inl (identity, named) ↦
            let key = lock_key stringify sha256 identity in
            let done : (
              ok (claim d key identity opts.name timing.lease_ms t).0,
              (claim d key identity opts.name timing.lease_ms t).1,
            )
                ≡ (ok (won lease), t') =
              rw (good, named, acquire) at h in
            let kept : Path (Result JobError Acquired)
                (ok (claim d key identity opts.name timing.lease_ms t).0) (ok (won lease)) =
              λ i. (done i).0 in
            let first : (claim d key identity opts.name timing.lease_ms t).0 ≡ won lease =
              cc (kept) in
            claim-IsTaken d key identity opts.name timing.lease_ms lease t t'
              (λ i. (first i, (done i).1))
      ]
    ]
