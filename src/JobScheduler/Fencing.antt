-- ===== src/JobScheduler/Fencing.antt =====
-- Finished runs stay finished and superseded workers are fenced out, whatever the nodes do
-- (features/job-scheduler/job-scheduler.service.ts).
use sdcorejs_nestjs.Base.{
  ℕ, ◌≡◌, refl, subst, ◌∙◌, sym, Bool, false, Option, some, [], ◌∷◌, ◌++◌, Text, text_eq,
  text_eq_iff, Bool-cases, Option-cases, inl, inr, arith, String, All, All-append,
}
use sdcorejs_nestjs.JobScheduler.Options.{Identity}
use sdcorejs_nestjs.JobScheduler.Table.{
  success, fail, Row, Table, find_key, insert_or_ignore, update_where, affected, returned_id,
}
use sdcorejs_nestjs.JobScheduler.Service.{
  Draws, JobLease, reclaims, take_over, new_row, reclaim, claim, owns, mutate_owned, touch, finish,
  heartbeat, complete, fail_lease,
}
use sdcorejs_nestjs.JobScheduler.Rows.{
  IsUnique, KeepsKey, find_key-update_where, IsUnique-update_where,
}
use sdcorejs_nestjs.JobScheduler.Locking.{
  claim_register, claim-register, claim-other, claim-IsUnique,
}

-- What any node may do to the table; `release` is a failure.
pub data Step (t : Table) : Table → Type 0 where
  acquired :
      (d : Draws) (key : Text) (identity : Identity) (name : Option Text) (lease : ℕ)
      → Step t (claim d key identity name lease t).1
  beat : (now : ℕ) (l : JobLease) → Step t (heartbeat now l t).1
  completed :
      (now : ℕ) (l : JobLease) (payload : Option String) → Step t (complete now l payload t).1
  failed :
      (now : ℕ) (l : JobLease) (payload : Option String) → Step t (fail_lease now l payload t).1

pub data Reach (t : Table) : Table → Type 0 where
  here : Reach t t
  next : {u v : Table} → Reach t u → Step u v → Reach t v

mutate_owned-IsUnique :
    (l : JobLease) (change : Row → Row) (t : Table)
    → KeepsKey change
    → IsUnique t
    → IsUnique (mutate_owned l change t).1
unfolding mutate_owned
mutate_owned-IsUnique l change t k u = IsUnique-update_where (owns l) change t k u

Step-IsUnique : {t u : Table} → Step t u → IsUnique t → IsUnique u
unfolding heartbeat complete fail_lease
Step-IsUnique {t} (acquired d key identity name lease) u =
    claim-IsUnique d key identity name lease t u
Step-IsUnique {t} (beat now l) u = mutate_owned-IsUnique l (touch now) t (λ r. refl) u
Step-IsUnique {t} (completed now l p) u =
    mutate_owned-IsUnique l (finish success p now) t (λ r. refl) u
Step-IsUnique {t} (failed now l p) u = mutate_owned-IsUnique l (finish fail p now) t (λ r. refl) u

-- The run under the key has succeeded, with this row.
pub record IsDone (key : Text) (r : Row) (t : Table) : Type 0 where
  pub unique : IsUnique t
  pub found : find_key key t ≡ some r
  pub status : r.status ≡ success

claim-done :
    (d : Draws) (k key : Text) (identity : Identity) (name : Option Text) (lease : ℕ) (r : Row)
    (t : Table)
    → IsDone key r t
    → find_key key (claim d k identity name lease t).1 ≡ some r
claim-done d k key identity name lease r t done = elim (Bool-cases (text_eq k key)) [
  | inr other ↦ claim-other d k identity name lease key t other ∙ done.found
  | inl same ↦
      let k_eq : k ≡ key = (text_eq_iff k key).0 same in
      let spec = (claim-register d key identity name lease t done.unique).1 in
      rw k_eq (unfold claim_register in ground (arith, spec, done.found, done.status))
]

mutate_owned-done :
    (l : JobLease) (change : Row → Row) (key : Text) (r : Row) (t : Table)
    → KeepsKey change
    → IsDone key r t
    → find_key key (mutate_owned l change t).1 ≡ some r
unfolding mutate_owned
mutate_owned-done l change key r t k done =
    let stepped = find_key-update_where (owns l) change key t k in
    unfold owns in ground (arith, stepped, done.found, done.status)

Step-found :
    {key : Text} {r : Row} {t u : Table} → Step t u → IsDone key r t → find_key key u ≡ some r
unfolding heartbeat complete fail_lease
Step-found {key} {r} {t} (acquired d k identity name lease) done =
    claim-done d k key identity name lease r t done
Step-found {key} {r} {t} (beat now l) done =
    mutate_owned-done l (touch now) key r t (λ s. refl) done
Step-found {key} {r} {t} (completed now l p) done =
    mutate_owned-done l (finish success p now) key r t (λ s. refl) done
Step-found {key} {r} {t} (failed now l p) done =
    mutate_owned-done l (finish fail p now) key r t (λ s. refl) done

-- A run that has succeeded keeps its row, field by field, through whatever the nodes do: it is
-- never run again, failed or overwritten.
pub Reach-IsDone :
    {key : Text} {r : Row} {t u : Table} → IsDone key r t → Reach t u → IsDone key r u
Reach-IsDone done here = done
Reach-IsDone done (next reached step) =
    let before = Reach-IsDone done reached in
    record {
      unique = Step-IsUnique step before.unique;
      found = Step-found step before;
      status = done.status;
    }

-- No row carries the lease's token.
abbrev pub IsSuperseded : JobLease → Table → Type 0
IsSuperseded l = All (λ (r : Row). text_eq r.owner_token l.owner_token ≡ false)

-- The calls that follow draw other tokens.
abbrev pub AvoidsStep : JobLease → {t u : Table} → Step t u → Type 0
AvoidsStep l (acquired d k identity name lease) = text_eq d.owner_token l.owner_token ≡ false
AvoidsStep l (beat now m) = Unit
AvoidsStep l (completed now m p) = Unit
AvoidsStep l (failed now m p) = Unit

abbrev pub Avoids : JobLease → {t u : Table} → Reach t u → Type 0
Avoids l here = Unit
Avoids l (next reached step) = Avoids l reached × AvoidsStep l step

update_where-IsSuperseded :
    (l : JobLease) (test : Row → Bool) (change : Row → Row) (t : Table)
    → ((r : Row)
        → text_eq r.owner_token l.owner_token ≡ false
        → text_eq (change r).owner_token l.owner_token ≡ false)
    → IsSuperseded l t
    → IsSuperseded l (update_where test change t)
unfolding update_where
update_where-IsSuperseded l test change [] k s = tt
update_where-IsSuperseded l test change (r ∷ rs) k (h, s) =
    (ground (arith, k r h), update_where-IsSuperseded l test change rs k s)

claim-IsSuperseded :
    (l : JobLease) (d : Draws) (key : Text) (identity : Identity) (name : Option Text) (lease : ℕ)
    (t : Table)
    → text_eq d.owner_token l.owner_token ≡ false
    → IsSuperseded l t
    → IsSuperseded l (claim d key identity name lease t).1
unfolding claim insert_or_ignore reclaim
claim-IsSuperseded l d key identity name lease t fresh s = elim (Option-cases (find_key key t)) [
  | inl free ↦
      let row = new_row d key identity name in
      let after : (claim d key identity name lease t).1 ≡ t ++ row ∷ [] = ground arith in
      subst (IsSuperseded l) (sym after) (
        All-append (λ (r : Row). text_eq r.owner_token l.owner_token ≡ false) t (row ∷ []) s
          (fresh, tt))
  | inr (r, taken) ↦ elim (Option-cases (returned_id (reclaims key lease d.now) t)) [
    | inl none_here ↦
        let after : (claim d key identity name lease t).1 ≡ t = ground arith in
        subst (IsSuperseded l) (sym after) s
    | inr (id, touched) ↦
        let after : (claim d key identity name lease t).1
            ≡ update_where (reclaims key lease d.now) (take_over d) t =
          ground arith in
        subst (IsSuperseded l) (sym after)
          (update_where-IsSuperseded l (reclaims key lease d.now) (take_over d) t (λ r h. fresh) s)
  ]
]

Step-IsSuperseded :
    (l : JobLease) {t u : Table} (step : Step t u)
    → AvoidsStep l step
    → IsSuperseded l t
    → IsSuperseded l u
unfolding heartbeat complete fail_lease mutate_owned
Step-IsSuperseded l {t} (acquired d k identity name lease) fresh s =
    claim-IsSuperseded l d k identity name lease t fresh s
Step-IsSuperseded l {t} (beat now m) a s =
    update_where-IsSuperseded l (owns m) (touch now) t (λ r h. h) s
Step-IsSuperseded l {t} (completed now m p) a s =
    update_where-IsSuperseded l (owns m) (finish success p now) t (λ r h. h) s
Step-IsSuperseded l {t} (failed now m p) a s =
    update_where-IsSuperseded l (owns m) (finish fail p now) t (λ r h. h) s

Reach-IsSuperseded :
    (l : JobLease) {t u : Table} (reached : Reach t u)
    → Avoids l reached
    → IsSuperseded l t
    → IsSuperseded l u
Reach-IsSuperseded l here a s = s
Reach-IsSuperseded l (next reached step) (a, fresh) s =
    Step-IsSuperseded l step fresh (Reach-IsSuperseded l reached a s)

mutate_owned-IsSuperseded :
    (l : JobLease) (change : Row → Row) (t : Table)
    → IsSuperseded l t
    → (affected (owns l) t ≡ 0) × (update_where (owns l) change t ≡ t)
unfolding affected update_where owns
mutate_owned-IsSuperseded l change [] s = (refl, refl)
mutate_owned-IsSuperseded l change (r ∷ rs) (h, s) =
    let later = mutate_owned-IsSuperseded l change rs s in (ground arith, ground arith)

-- Once no row carries a worker's token, and while no later acquisition draws that token again, its
-- heartbeat, its completion and its failure all answer false and change no row.
pub superseded_fenced :
    (l : JobLease) {t u : Table} (reached : Reach t u) (now : ℕ) (payload : Option String)
    → IsSuperseded l t
    → Avoids l reached
    → (heartbeat now l u ≡ (false, u))
      × (complete now l payload u ≡ (false, u))
      × (fail_lease now l payload u ≡ (false, u))
unfolding heartbeat complete fail_lease mutate_owned
superseded_fenced l {u} reached now payload s a =
    let gone = Reach-IsSuperseded l reached a s in
    let beats = mutate_owned-IsSuperseded l (touch now) u gone in
    let completes = mutate_owned-IsSuperseded l (finish success payload now) u gone in
    let fails = mutate_owned-IsSuperseded l (finish fail payload now) u gone in
    (ground arith, ground arith, ground arith)
