-- ===== src/Publication/Run.antt =====
-- `run` of features/uploaded-file/publication/coordinator.ts: one claimed intent is published or
-- retired, in the code's order of calls.
use sdcorejs_nestjs.Base.{
  ℕ, Bool, true, false, Option, none, some, Text, ok, err, leb, ◌+◌, if◌then◌else◌,
}
use sdcorejs_nestjs.Publication.Claim.{check_lease}
use sdcorejs_nestjs.Publication.Intent.{
  invalid_descriptor, deadline, Failure, publication, foreign, Checked, fail, part,
}
use sdcorejs_nestjs.Publication.Target.{Runtime, Config, interval}
use sdcorejs_nestjs.Publication.Ports.{
  Action, retire, unrecognised, Lease, State, uncertain, retiring, retired, blocked, Note,
  binding_retired, object_conflict, outcome_unknown, retirement_unknown, retirement_done, Commit,
  ready, stale, lost, Observed, matching, absent, unknown, conflict, Written, acknowledged, Ports,
  claimed, checked, inspected, published, removed, committed, recorded, Outcome, idle, pending,
  Trace, Run, return, throw, lift, ◌>>=◌, within,
}

unfoldable pub is_retire : Action → Bool
is_retire retire = true
is_retire _ = false

module _ {W : Type 0} (ports : Ports W) (config : Config) where
  -- `save`
  abbrev pub recording : Lease → State → Note → W → Checked Bool × W
  recording work state note w =
      ports.record_state work state note (ports.clock w + interval config.retry_ms) w

  unfoldable pub save : Lease → State → Note → Run W Bool
  unfolding within
  save work state note = within ports.aborted (recorded work state note) (recording work state note)

  -- `(await record(state, code)) ? outcome : 'lost'`
  abbrev pub kept_as : Outcome → Bool → Run W Outcome
  kept_as outcome true = return outcome
  kept_as outcome false = return lost

  unfoldable pub report : Lease → State → Note → Outcome → Run W Outcome
  unfolding save
  report work state note outcome = save work state note >>= kept_as outcome

  unfoldable pub acknowledged_by : Lease → Commit → Run W Outcome
  unfolding report
  acknowledged_by work ready = return ready
  acknowledged_by work lost = return lost
  acknowledged_by work stale = report work retiring binding_retired pending
  acknowledged_by work unrecognised = throw (publication invalid_descriptor)

  abbrev pub committing : Lease → W → Checked Commit × W
  committing work w = ports.commit_ready work (ports.clock w) w

  unfoldable pub acknowledge : Lease → Run W Outcome
  unfolding acknowledged_by within
  acknowledge work =
      within ports.aborted (committed work) (committing work) >>= acknowledged_by work

  unfoldable pub written_by : Lease → Written → Run W Outcome
  unfolding acknowledge report
  written_by work acknowledged = acknowledge work
  written_by work unknown = report work uncertain outcome_unknown pending

  -- `if (!(await isCurrent(owned)))` records the retirement; else the run goes on.
  abbrev pub if_current : Lease → Run W Outcome → Bool → Run W Outcome
  if_current work next true = next
  if_current work next false = report work retiring binding_retired pending

  unfoldable pub check_current : Lease → Run W Outcome → Run W Outcome
  unfolding within report
  check_current work next =
      within ports.aborted (checked work) (ports.is_current work) >>= if_current work next

  unfoldable pub publish_absent : Lease → Run W Outcome
  unfolding check_current within written_by
  publish_absent work = check_current work (
      within ports.aborted (published work.intent) (ports.publish_object work.intent)
      >>= written_by work)

  unfoldable pub finish_retirement : Lease → Run W Outcome
  unfolding report
  finish_retirement work = report work retired retirement_done retired

  unfoldable pub removed_by : Lease → Written → Run W Outcome
  unfolding report finish_retirement
  removed_by work acknowledged = finish_retirement work
  removed_by work unknown = report work retiring retirement_unknown pending

  unfoldable pub remove_matching : Lease → Run W Outcome
  unfolding within removed_by
  remove_matching work =
      within ports.aborted (removed work.intent) (ports.remove_exact work.intent)
      >>= removed_by work

  unfoldable pub observe : Lease → Observed → Run W Outcome
  unfolding report is_retire remove_matching finish_retirement acknowledge publish_absent
  observe work conflict = report work blocked object_conflict blocked
  observe work unknown =
      report work (if is_retire work.action then retiring else uncertain) outcome_unknown pending
  observe work unrecognised = throw (publication invalid_descriptor)
  observe work matching = if is_retire work.action then remove_matching work else acknowledge work
  observe work absent =
      if is_retire work.action then finish_retirement work else publish_absent work

  unfoldable pub inspect_object : Lease → Run W Outcome
  unfolding within observe
  inspect_object work =
      within ports.aborted (inspected work.intent) (ports.inspect work.intent) >>= observe work

  -- The body of `try` from the point where the lease is owned.
  unfoldable pub run_owned : Lease → Run W Outcome
  unfolding is_retire inspect_object check_current
  run_owned work t =
      if leb work.lease_until (ports.clock t.world)
      then (ok lost, t)
      else if is_retire work.action
      then inspect_object work t
      else check_current work (inspect_object work) t

  -- `catch` while the lease is owned: the outcome is recorded as unknown unless the deadline is past,
  -- and what that recording throws is dropped.
  abbrev pub dropped : Checked Bool × Trace W → Checked Outcome × Trace W
  dropped (r, t) = (ok pending, t)

  unfoldable pub recover : Lease → Checked Outcome × Trace W → Checked Outcome × Trace W
  unfolding is_retire save
  recover work (ok outcome, t) = (ok outcome, t)
  recover work (err e, t) =
      if ports.aborted t.world
      then (ok pending, t)
      else dropped
          (save work (if is_retire work.action then retiring else uncertain) outcome_unknown t)

  -- `catch` before a lease is owned.
  unfoldable pub rejected : Failure → Checked Outcome
  rejected foreign = ok pending
  rejected (publication deadline) = ok pending
  rejected (publication code) = fail code

  -- The claim, with a fresh token.
  abbrev with_token : Text → ℕ → Checked Text × W → Checked (Option Lease) × W
  with_token intent_id now (err e, w) = (err e, w)
  with_token intent_id now (ok token, w) =
      ports.claim intent_id token now (now + interval config.lease_ms) w

  unfoldable pub claim_work : Text → ℕ → W → Checked (Option Lease) × W
  unfolding part
  claim_work intent_id now w =
      let (token, w') = ports.new_id w in with_token intent_id now (part token, w')

  module _ (runtime : Runtime) where
    abbrev pub own : Trace W → Checked Lease → Checked Outcome × Trace W
    own t (err e) = (rejected e, t)
    own t (ok work) = recover work (run_owned work t)

    abbrev pub after_claim : Text → Checked (Option Lease) × Trace W → Checked Outcome × Trace W
    after_claim intent_id (err e, t) = (rejected e, t)
    after_claim intent_id (ok none, t) = (ok idle, t)
    after_claim intent_id (ok (some work), t) = own t (check_lease runtime config intent_id work)

    unfoldable pub run : Text → Run W Outcome
    unfolding part within claim_work rejected recover run_owned check_lease
    run intent_id = lift (part intent_id) >>= λ id. λ t.
        after_claim intent_id
          (within ports.aborted claimed (claim_work intent_id (ports.clock t.world)) t)
