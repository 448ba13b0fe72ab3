-- ===== src/Publication/Refusals.antt =====
-- The errors of `run` (features/uploaded-file/publication/coordinator.ts).
use sdcorejs_nestjs.Base.{
  ◌≡◌, refl, ◌∙◌, ap, ◌≢◌, Bool, true, false, Option, none, some, List, [], ◌∷◌, Text, ok, err,
  Bool-cases, Result-cases, inl, inr,
}
use sdcorejs_nestjs.Publication.Intent.{
  Failure, publication, foreign, Code, deadline, invalid_descriptor, not_configured,
  namespace_denied, policy_denied, generation_conflict, Checked, is_part, part,
}
use sdcorejs_nestjs.Publication.Target.{Runtime, Config}
use sdcorejs_nestjs.Publication.Ports.{
  Ports, Trace, Event, claimed, Lease, Outcome, in_time, within, pending,
}
use sdcorejs_nestjs.Publication.Claim.{check_lease}
use sdcorejs_nestjs.Publication.Run.{recover, run, run_owned, rejected, claim_work, after_claim}

-- An error with a code, the deadline's excepted.
pub record IsRefusal (e : Failure) : Type 0 where
  pub code : Code
  pub coded : e ≡ publication code
  pub in_time : code ≢ deadline

-- The calls of a run that owned no lease: none at all, a claim that failed, or a claim whose lease
-- the checks of a lease refuse.
pub data IsUnowned (runtime : Runtime) (config : Config) (id : Text) : List Event → Type 0 where
  never_claimed : IsUnowned runtime config id []
  claim_failed : (f : Failure) → IsUnowned runtime config id (claimed (err f) ∷ [])
  lease_refused :
      (raw : Lease) (f : Failure)
      → check_lease runtime config id raw ≡ err f
      → IsUnowned runtime config id (claimed (ok (some raw)) ∷ [])

part-IsRefusal : (v : Text) (e : Failure) → part v ≡ err e → IsRefusal e
unfolding part
part-IsRefusal v e h = elim (Bool-cases (is_part v)) [
  | inl fine ↦ cc (rw fine at h)
  | inr bad ↦ record { code = invalid_descriptor; coded = cc (rw bad at h); in_time = λ c. cc }
]

module _ {W : Type 0} (ports : Ports W) (runtime : Runtime) (config : Config) where
  rejected-IsRefusal : (e e' : Failure) → rejected ports config e ≡ err e' → IsRefusal e'
  unfolding rejected
  rejected-IsRefusal foreign e' h = cc
  rejected-IsRefusal (publication deadline) e' h = cc
  rejected-IsRefusal (publication invalid_descriptor) e' h = record {
    code = invalid_descriptor;
    coded = cc;
    in_time = λ c. cc;
  }
  rejected-IsRefusal (publication not_configured) e' h = record {
    code = not_configured;
    coded = cc;
    in_time = λ c. cc;
  }
  rejected-IsRefusal (publication namespace_denied) e' h = record {
    code = namespace_denied;
    coded = cc;
    in_time = λ c. cc;
  }
  rejected-IsRefusal (publication policy_denied) e' h = record {
    code = policy_denied;
    coded = cc;
    in_time = λ c. cc;
  }
  rejected-IsRefusal (publication generation_conflict) e' h = record {
    code = generation_conflict;
    coded = cc;
    in_time = λ c. cc;
  }

  -- Once the lease is owned, the run answers.
  recover-ok :
      (work : Lease) (x : Checked Outcome × Trace W)
      → (o : Outcome) × ((recover ports config work x).0 ≡ ok o)
  unfolding recover
  recover-ok work (ok o, t) = (o, refl)
  recover-ok work (err e, t) = elim (Bool-cases (ports.aborted t.world)) [
    | inl late ↦ (pending, rw late refl)
    | inr early ↦ (pending, rw early refl)
  ]

  abbrev pub IsRefused : Text → Checked Outcome × Trace W → Failure → Type 0
  IsRefused id x e = IsRefusal e × IsUnowned runtime config id x.1.events

  claimed-IsRefused :
      (id : Text) (r : Checked (Option Lease)) (w : W) (b : Bool) (e : Failure)
      → (after_claim ports config runtime id
          (in_time b r, record { world = w; events = claimed r ∷ [] })).0
        ≡ err e
      → IsRefused id
          (after_claim ports config runtime id
            (in_time b r, record { world = w; events = claimed r ∷ [] }))
          e
  unfolding rejected
  claimed-IsRefused id r w true e h = cc
  claimed-IsRefused id (err f) w false e h = (rejected-IsRefusal f e h, claim_failed f)
  claimed-IsRefused id (ok none) w false e h = cc
  claimed-IsRefused id (ok (some raw)) w false e h =
      elim (Result-cases (check_lease runtime config id raw)) [
        | inr (f, bad) ↦ rw bad (rejected-IsRefusal f e (rw bad at h), lease_refused raw f bad)
        | inl (work, good) ↦
            let (o, answers) = recover-ok work (
              run_owned ports config work
                (record { world = w; events = claimed (ok (some raw)) ∷ [] })) in
            cc
      ]

  -- A run throws only an error with a code other than the deadline's, and only while it owns no
  -- lease: it made no call, or only a claim that failed, or only a claim whose lease the checks of
  -- a lease refuse. From the moment a lease passes those checks in time, the run answers.
  pub run-IsRefused :
      (id : Text) (w : W) (e : Failure)
      → (run ports config runtime id (record { world = w; events = [] })).0 ≡ err e
      → IsRefused id (run ports config runtime id (record { world = w; events = [] })) e
  unfolding run within
  run-IsRefused id w e h = elim (Result-cases (part id)) [
    | inr (f, bad) ↦ rw bad (
      (let same : f ≡ e = cc (rw bad at h) in part-IsRefusal id e (bad ∙ ap err same)),
      never_claimed,
    )
    | inl (i, good) ↦ elim (Bool-cases (ports.aborted w)) [
      | inl late ↦
          rw (good, late)
            (rejected-IsRefusal (publication deadline) e (rw (good, late) at h), never_claimed)
      | inr early ↦
          rw (good, early)
            (claimed-IsRefused id (claim_work ports config id (ports.clock w) w).0
              (claim_work ports config id (ports.clock w) w).1
              (ports.aborted (claim_work ports config id (ports.clock w) w).1) e
              (rw (good, early) at h))
    ]
  ]
