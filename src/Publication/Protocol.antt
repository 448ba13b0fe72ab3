-- ===== src/Publication/Protocol.antt =====
-- The order of the calls that `run` makes: which calls stand directly before each of them.
use sdcorejs_nestjs.Base.{
  ◌≡◌, Bool, true, false, Option, none, some, List, [], ◌∷◌, Text, ok, err, Bool-cases, inl, inr,
}
use sdcorejs_nestjs.Publication.Intent.{Checked, Failure}
use sdcorejs_nestjs.Publication.Target.{Runtime, Config}
use sdcorejs_nestjs.Publication.Claim.{check_lease}
use sdcorejs_nestjs.Publication.Ports.{
  Lease, uncertain, retiring, retired, blocked, idle, pending, Note, retirement_done,
  object_conflict, Commit, ready, lost, Observed, matching, absent, conflict, Written, acknowledged,
  Event, claimed, checked, inspected, published, removed, committed, recorded, Trace, Run, Outcome,
  within, in_time, continue, ◌>>=◌,
}
use sdcorejs_nestjs.Publication.Run.{is_retire}

-- What an outcome says of the latest call.
pub data Announced : Checked Outcome → List Event → Type 0 where
  ready_after : (w : Lease) (l : List Event) → Announced (ok ready) (committed w (ok ready) ∷ l)
  retired_after :
      (w : Lease) (l : List Event)
      → Announced (ok retired) (recorded w retired retirement_done (ok true) ∷ l)
  blocked_after :
      (w : Lease) (l : List Event)
      → Announced (ok blocked) (recorded w blocked object_conflict (ok true) ∷ l)
  idle_after : Announced (ok idle) (claimed (ok none) ∷ [])
  pending_after : (l : List Event) → Announced (ok pending) l
  lost_after : (l : List Event) → Announced (ok lost) l
  thrown_after : (e : Failure) (l : List Event) → Announced (err e) l

module _ (runtime : Runtime) (config : Config) (id : Text) where
  -- The lease is the checked one of the claim with which the calls began.
  pub record Owned (work : Lease) (raw : Lease) : Type 0 where
    pub checked_lease : check_lease runtime config id raw ≡ ok work

  -- A call may be made after the calls of the list, of which the latest is first.
  pub data Justified : Event → List Event → Type 0 where
    claims : (r : Checked (Option Lease)) → Justified (claimed r) []
    checks : (w : Lease) (r : Checked Bool) (l : List Event) → Justified (checked w r) l
    inspects :
        {w raw : Lease} (r : Checked Observed) (l : List Event)
        → Owned w raw
        → Justified (inspected w.intent r) l
    publishes :
        {w raw : Lease} (r : Checked Written)
        → Owned w raw
        → is_retire w.action ≡ false
        → Justified (published w.intent r) (
            checked w (ok true)
            ∷ inspected w.intent (ok absent)
            ∷ checked w (ok true)
            ∷ claimed (ok (some raw))
            ∷ [])
    removes :
        {w raw : Lease} (r : Checked Written)
        → Owned w raw
        → is_retire w.action ≡ true
        → Justified
            (removed w.intent r)
            (inspected w.intent (ok matching) ∷ claimed (ok (some raw)) ∷ [])
    commits_published :
        {w raw : Lease} (r : Checked Commit)
        → Owned w raw
        → Justified (committed w r) (
            published w.intent (ok acknowledged)
            ∷ checked w (ok true)
            ∷ inspected w.intent (ok absent)
            ∷ checked w (ok true)
            ∷ claimed (ok (some raw))
            ∷ [])
    commits_matching :
        {w raw : Lease} (r : Checked Commit)
        → Owned w raw
        → Justified
            (committed w r)
            (inspected w.intent (ok matching) ∷ checked w (ok true) ∷ claimed (ok (some raw)) ∷ [])
    retires_removed :
        {w raw : Lease} (r : Checked Bool)
        → Owned w raw
        → Justified (recorded w retired retirement_done r) (
            removed w.intent (ok acknowledged)
            ∷ inspected w.intent (ok matching)
            ∷ claimed (ok (some raw))
            ∷ [])
    retires_absent :
        {w raw : Lease} (r : Checked Bool)
        → Owned w raw
        → is_retire w.action ≡ true
        → Justified
            (recorded w retired retirement_done r)
            (inspected w.intent (ok absent) ∷ claimed (ok (some raw)) ∷ [])
    blocks :
        (w : Lease) (r : Checked Bool) (l : List Event)
        → Justified (recorded w blocked object_conflict r) (inspected w.intent (ok conflict) ∷ l)
    doubts :
        (w : Lease) (n : Note) (r : Checked Bool) (l : List Event)
        → Justified (recorded w uncertain n r) l
    hides :
        (w : Lease) (n : Note) (r : Checked Bool) (l : List Event)
        → Justified (recorded w retiring n r) l

  -- Each call is justified by those before it.
  abbrev pub IsJustified : List Event → Type 0
  IsJustified [] = Unit
  IsJustified (e ∷ l) = Justified e l × IsJustified l

  module _ {W : Type 0} where
    -- The calls are justified, and the outcome agrees with the latest.
    abbrev pub IsSound : Checked Outcome × Trace W → Type 0
    IsSound x = IsJustified x.1.events × Announced x.0 x.1.events

  module _ {W : Type 0} (aborted : W → Bool) where
    step_answered :
        {A : Type 0} (event : Checked A → Event) (f : A → Run W Outcome) (l : List Event)
        (r : Checked A) (w : W) (b : Bool)
        → IsJustified l
        → ((r' : Checked A) → Justified (event r') l)
        → ((a : A) (v : W)
            → IsJustified (event (ok a) ∷ l)
            → IsSound (f a (record { world = v; events = event (ok a) ∷ l })))
        → IsSound (continue (in_time b r) f (record { world = w; events = event r ∷ l }))
    step_answered event f l r w true h j k = ((j r, h), thrown_after _ _)
    step_answered event f l (err e) w false h j k = ((j (err e), h), thrown_after e _)
    step_answered event f l (ok a) w false h j k = k a w (j (ok a), h)

    -- A justified call whose continuation is justified.
    pub step-IsSound :
        {A : Type 0} (event : Checked A → Event) (call : W → Checked A × W) (f : A → Run W Outcome)
        (t : Trace W)
        → IsJustified t.events
        → ((r : Checked A) → Justified (event r) t.events)
        → ((a : A) (v : W)
            → IsJustified (event (ok a) ∷ t.events)
            → IsSound (f a (record { world = v; events = event (ok a) ∷ t.events })))
        → IsSound ((within aborted event call >>= f) t)
    unfolding within
    step-IsSound event call f t h j k = elim (Bool-cases (aborted t.world)) [
      | inl late ↦ rw late (h, thrown_after _ _)
      | inr early ↦ rw early (
          step_answered event f t.events (call t.world).0 (call t.world).1
            (aborted (call t.world).1) h j k)
    ]
