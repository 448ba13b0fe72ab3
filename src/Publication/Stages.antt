-- ===== src/Publication/Stages.antt =====
-- The stages of `run` in features/uploaded-file/publication/coordinator.ts follow the protocol.
use sdcorejs_nestjs.Base.{
  ◌≡◌, Bool, true, false, Option, none, some, List, [], ◌∷◌, Text, ok, err, leb, Bool-cases,
  Result-cases, inl, inr,
}
use sdcorejs_nestjs.Publication.Intent.{
  Checked, Failure, publication, foreign, deadline, invalid_descriptor, not_configured,
  namespace_denied, policy_denied, generation_conflict, part,
}
use sdcorejs_nestjs.Publication.Target.{Runtime, Config}
use sdcorejs_nestjs.Publication.Claim.{check_lease}
use sdcorejs_nestjs.Publication.Ports.{
  Lease, State, Note, Commit, ready, stale, lost, unrecognised, Observed, matching, absent, unknown,
  conflict, acknowledged, Ports, Event, claimed, checked, inspected, published, removed, committed,
  recorded, Trace, Run, Outcome, within, in_time,
}
use sdcorejs_nestjs.Publication.Run.{
  is_retire, recording, kept_as, committing, if_current, save, report, acknowledged_by, acknowledge,
  written_by, check_current, publish_absent, finish_retirement, removed_by, remove_matching,
  observe, inspect_object, run_owned, recover, rejected, claim_work, run, after_claim,
}
use sdcorejs_nestjs.Publication.Protocol.{
  Owned, Justified, claims, checks, inspects, publishes, removes, commits_published,
  commits_matching, retires_removed, retires_absent, blocks, doubts, hides, IsJustified, Announced,
  ready_after, retired_after, blocked_after, idle_after, pending_after, lost_after, thrown_after,
  IsSound, step-IsSound,
}

module _ (runtime : Runtime) (config : Config) (id : Text) where
  module _ {W : Type 0} (ports : Ports W) where
    report-IsSound :
        (work : Lease) (s : State) (n : Note) (o : Outcome) (t : Trace W)
        → IsJustified runtime config id t.events
        → ((r : Checked Bool) → Justified runtime config id (recorded work s n r) t.events)
        → ((l : List Event) → Announced (ok o) (recorded work s n (ok true) ∷ l))
        → IsSound runtime config id (report ports config work s n o t)
    unfolding report save
    report-IsSound work s n o t h j a =
        step-IsSound runtime config id ports.aborted (recorded work s n)
          (recording ports config work s n) (kept_as ports config o) t h j
          (elim [ true ↦ λ v k. (k, a t.events) | false ↦ λ v k. (k, lost_after _) ])

    acknowledge-IsSound :
        (work : Lease) (t : Trace W)
        → IsJustified runtime config id t.events
        → ((r : Checked Commit) → Justified runtime config id (committed work r) t.events)
        → IsSound runtime config id (acknowledge ports config work t)
    unfolding acknowledge acknowledged_by
    acknowledge-IsSound work t h j =
        step-IsSound runtime config id ports.aborted (committed work) (committing ports config work)
          (acknowledged_by ports config work) t h j
          (elim [
            | ready ↦ λ v k. (k, ready_after work t.events)
            | lost ↦ λ v k. (k, lost_after _)
            | stale ↦
                λ v k. report-IsSound work _ _ _ _ k (λ r. hides work _ r _) (λ l. pending_after _)
            | unrecognised ↦ λ v k. (k, thrown_after _ _)
          ])

    -- What runs while the binding is current.
    check_current-IsSound :
        (work : Lease) (next : Run W Outcome) (t : Trace W)
        → IsJustified runtime config id t.events
        → ((v : W)
            → IsJustified runtime config id (checked work (ok true) ∷ t.events)
            → IsSound runtime config id
                (next (record { world = v; events = checked work (ok true) ∷ t.events })))
        → IsSound runtime config id (check_current ports config work next t)
    unfolding check_current
    check_current-IsSound work next t h k =
        step-IsSound runtime config id ports.aborted (checked work) (ports.is_current work)
          (if_current ports config work next) t h (λ r. checks work r t.events)
          (elim [
            | true ↦ λ v j. k v j
            | false ↦
                λ v j. report-IsSound work _ _ _ _ j (λ r. hides work _ r _) (λ l. pending_after _)
          ])

    module _ (work raw : Lease) (owned : Owned runtime config id work raw) where
      abbrev begun : List Event
      begun = claimed (ok (some raw)) ∷ []

      abbrev seen : Observed → List Event → List Event
      seen o l = inspected work.intent (ok o) ∷ l

      publish_absent-IsSound :
          (w : W)
          → is_retire work.action ≡ false
          → IsJustified runtime config id (seen absent (checked work (ok true) ∷ begun))
          → IsSound runtime config id (
              publish_absent ports config work
                (record { world = w; events = seen absent (checked work (ok true) ∷ begun) }))
      unfolding publish_absent written_by
      publish_absent-IsSound w e h = check_current-IsSound work _ _ h (λ v j.
          step-IsSound runtime config id ports.aborted (published work.intent)
            (ports.publish_object work.intent) (written_by ports config work) _ j
            (λ r. publishes r owned e)
            (elim [
              | acknowledged ↦ λ u k. acknowledge-IsSound work _ k (λ r. commits_published r owned)
              | unknown ↦ λ u k.
                  report-IsSound work _ _ _ _ k (λ r. doubts work _ r _) (λ l. pending_after _)
            ]))

      remove_matching-IsSound :
          (w : W)
          → is_retire work.action ≡ true
          → IsJustified runtime config id (seen matching begun)
          → IsSound runtime config id (
              remove_matching ports config work
                (record { world = w; events = seen matching begun }))
      unfolding remove_matching removed_by finish_retirement
      remove_matching-IsSound w e h =
          step-IsSound runtime config id ports.aborted (removed work.intent)
            (ports.remove_exact work.intent) (removed_by ports config work) _ h
            (λ r. removes r owned e)
            (elim [
              | acknowledged ↦ λ u k.
                  report-IsSound work _ _ _ _ k (λ r. retires_removed r owned) (retired_after work)
              | unknown ↦ λ u k.
                  report-IsSound work _ _ _ _ k (λ r. hides work _ r _) (λ l. pending_after _)
            ])

      -- A run that publishes has checked that the binding is current before it looks.
      observe_publish :
          (o : Observed) (w : W)
          → is_retire work.action ≡ false
          → IsJustified runtime config id (seen o (checked work (ok true) ∷ begun))
          → IsSound runtime config id (
              observe ports config work o
                (record { world = w; events = seen o (checked work (ok true) ∷ begun) }))
      unfolding observe
      observe_publish conflict w e h =
          report-IsSound work _ _ _ _ h (λ r. blocks work r _) (blocked_after work)
      observe_publish unknown w e h =
          rw e (report-IsSound work _ _ _ _ h (λ r. doubts work _ r _) (λ l. pending_after _))
      observe_publish unrecognised w e h = (h, thrown_after _ _)
      observe_publish matching w e h =
          rw e (acknowledge-IsSound work _ h (λ r. commits_matching r owned))
      observe_publish absent w e h = rw e (publish_absent-IsSound w e h)

      observe_retire :
          (o : Observed) (w : W)
          → is_retire work.action ≡ true
          → IsJustified runtime config id (seen o begun)
          → IsSound runtime config id
              (observe ports config work o (record { world = w; events = seen o begun }))
      unfolding observe finish_retirement
      observe_retire conflict w e h =
          report-IsSound work _ _ _ _ h (λ r. blocks work r _) (blocked_after work)
      observe_retire unknown w e h =
          rw e (report-IsSound work _ _ _ _ h (λ r. hides work _ r _) (λ l. pending_after _))
      observe_retire unrecognised w e h = (h, thrown_after _ _)
      observe_retire matching w e h = rw e (remove_matching-IsSound w e h)
      observe_retire absent w e h =
          rw e (report-IsSound work _ _ _ _ h (λ r. retires_absent r owned e) (retired_after work))

      run_owned-IsSound :
          (w : W)
          → IsJustified runtime config id begun
          → IsSound runtime config id
              (run_owned ports config work (record { world = w; events = begun }))
      unfolding run_owned inspect_object
      run_owned-IsSound w h = elim (Bool-cases (leb work.lease_until (ports.clock w))) [
        | inl late ↦ rw late (h, lost_after _)
        | inr early ↦ elim (Bool-cases (is_retire work.action)) [
          | inl e ↦
              rw (early, e)
                (step-IsSound runtime config id ports.aborted (inspected work.intent)
                  (ports.inspect work.intent) (observe ports config work) _ h
                  (λ r. inspects r begun owned) (λ o v k. observe_retire o v e k))
          | inr e ↦
              rw (early, e)
                (check_current-IsSound work _ _ h (λ u j.
                  step-IsSound runtime config id ports.aborted (inspected work.intent)
                    (ports.inspect work.intent) (observe ports config work) _ j
                    (λ r. inspects r _ owned) (λ o v k. observe_publish o v e k)))
        ]
      ]

    recover-IsSound :
        (work : Lease) (x : Checked Outcome × Trace W)
        → IsSound runtime config id x
        → IsSound runtime config id (recover ports config work x)
    unfolding recover save within
    recover-IsSound work (ok o, t) h = h
    recover-IsSound work (err e, t) h = elim (Bool-cases (ports.aborted t.world)) [
      | inl late ↦ rw late (h.0, pending_after _)
      | inr early ↦ elim (Bool-cases (is_retire work.action)) [
        | inl e ↦ rw (early, e) ((hides work _ _ _, h.0), pending_after _)
        | inr e ↦ rw (early, e) ((doubts work _ _ _, h.0), pending_after _)
      ]
    ]

    rejected-Announced : (e : Failure) (l : List Event) → Announced (rejected ports config e) l
    unfolding rejected
    rejected-Announced foreign l = pending_after l
    rejected-Announced (publication deadline) l = pending_after l
    rejected-Announced (publication invalid_descriptor) l = thrown_after _ l
    rejected-Announced (publication not_configured) l = thrown_after _ l
    rejected-Announced (publication namespace_denied) l = thrown_after _ l
    rejected-Announced (publication policy_denied) l = thrown_after _ l
    rejected-Announced (publication generation_conflict) l = thrown_after _ l

    claimed-IsSound :
        (r : Checked (Option Lease)) (w : W) (b : Bool)
        → IsSound runtime config id (
            after_claim ports config runtime id
              (in_time b r, record { world = w; events = claimed r ∷ [] }))
    claimed-IsSound r w true = ((claims r, tt), rejected-Announced (publication deadline) _)
    claimed-IsSound (err e) w false = ((claims (err e), tt), rejected-Announced e _)
    claimed-IsSound (ok none) w false = ((claims (ok none), tt), idle_after)
    claimed-IsSound (ok (some raw)) w false =
        elim (Result-cases (check_lease runtime config id raw)) [
          | inr (e, bad) ↦ rw bad ((claims (ok (some raw)), tt), rejected-Announced e _)
          | inl (work, good) ↦ rw good (
              recover-IsSound work _
                (run_owned-IsSound work raw (record { checked_lease = good }) w (claims _, tt)))
        ]

    -- Whatever the parts answer and whenever the deadline passes, the calls of a run follow the
    -- protocol. A rendition is published only after a check that the binding is current, a look that
    -- found nothing, and a second check; an object is removed only in a retirement, after a look that
    -- found exactly it; readiness is committed only for what was just acknowledged or found; and only
    -- a removal or an absence is recorded as a retirement. The outcomes ready, retired, blocked and
    -- idle are answered only when the latest call says so.
    pub run-IsSound :
        (w : W)
        → IsSound runtime config id
            (run ports config runtime id (record { world = w; events = [] }))
    unfolding run within
    run-IsSound w = elim (Result-cases (part id)) [
      | inr (e, bad) ↦ rw bad (tt, thrown_after e [])
      | inl (checked_id, good) ↦ rw good (elim (Bool-cases (ports.aborted w)) [
        | inl late ↦ rw late (tt, rejected-Announced (publication deadline) [])
        | inr early ↦ rw early (
            claimed-IsSound (claim_work ports config id (ports.clock w) w).0
              (claim_work ports config id (ports.clock w) w).1
              (ports.aborted (claim_work ports config id (ports.clock w) w).1))
      ])
    ]
