-- ===== src/Publication/Ports.antt =====
-- The parts that the coordinator of features/uploaded-file/publication/coordinator.ts is given (the
-- interfaces of features/uploaded-file/publication/types.ts) over the state of a world, and the
-- computations that call them within the deadline. Each call that is made is logged.
use sdcorejs_nestjs.Base.{ℕ, Bool, true, false, Option, List, ◌∷◌, Text, ok, err, if◌then◌else◌}
use sdcorejs_nestjs.Publication.Intent.{
  publication, deadline, Failure, Checked, Binding, Source, Intent,
}

pub data Action : Type 0 where
  publish retire unrecognised : Action

-- UploadedFilePublicationLease
pub record Lease : Type 0 where
  pub intent : Intent
  pub token : Text
  pub revision : ℕ
  pub lease_until : ℕ
  pub action : Action

-- UploadedFilePublicationState; `unrecognised` stands for any other text of a stored row.
pub data State : Type 0 where
  pending uncertain ready retiring retired blocked unrecognised : State

-- The codes that `record` writes.
pub data Note : Type 0 where
  binding_retired object_conflict outcome_unknown retirement_unknown retirement_done : Note

pub data Commit : Type 0 where
  ready stale lost unrecognised : Commit

-- What `run` answers.
pub data Outcome : Type 0 where
  idle ready pending retired blocked lost : Outcome

pub data Observed : Type 0 where
  matching absent unknown conflict unrecognised : Observed

pub data Written : Type 0 where
  acknowledged unknown : Written

-- What the policy resolved an assignment to.
pub data Resolved : Type 0 where
  private_file : Binding → Resolved
  public_file : Binding → Source → Resolved
  neither : Binding → Resolved

pub record Row : Type 0 where
  pub intent : Intent
  pub state : State

-- The repository, the storage, the policy, the clock, the identifiers and the deadline's signal,
-- which the passing of time raises: the world tells whether it is raised.
pub record Ports (W : Type 0) : Type 0 where
  pub clock : W → ℕ
  pub new_id : W → Text × W
  pub aborted : W → Bool
  pub claim : Text → Text → ℕ → ℕ → W → Checked (Option Lease) × W
  pub is_current : Lease → W → Checked Bool × W
  pub commit_ready : Lease → ℕ → W → Checked Commit × W
  pub record_state : Lease → State → Note → ℕ → W → Checked Bool × W
  pub inspect : Intent → W → Checked Observed × W
  pub publish_object : Intent → W → Checked Written × W
  pub remove_exact : Intent → W → Checked Written × W
  pub resolve : W → Checked Resolved × W
  pub retire_logical : Text → Text → Text → Text → W → Checked (Unit {0}) × W
  pub stage : Intent → W → Checked Intent × W
  pub retire : Binding → W → Checked (Unit {0}) × W
  pub read_current : Binding → W → Checked (Option Row) × W

-- A call that was made, with its outcome.
pub data Event : Type 0 where
  claimed : Checked (Option Lease) → Event
  checked : Lease → Checked Bool → Event
  inspected : Intent → Checked Observed → Event
  published : Intent → Checked Written → Event
  removed : Intent → Checked Written → Event
  committed : Lease → Checked Commit → Event
  recorded : Lease → State → Note → Checked Bool → Event

-- The latest event stands first.
pub record Trace (W : Type 0) : Type 0 where
  pub world : W
  pub events : List Event

-- A computation that may throw.
abbrev pub Run : Type 0 → Type 0 → Type 0
Run W A = Trace W → Checked A × Trace W

abbrev pub return : {W A : Type 0} → A → Run W A
return a t = (ok a, t)

abbrev pub throw : {W A : Type 0} → Failure → Run W A
throw e t = (err e, t)

abbrev pub lift : {W A : Type 0} → Checked A → Run W A
lift r t = (r, t)

abbrev pub continue : {W A B : Type 0} → Checked A → (A → Run W B) → Run W B
continue (err e) f t = (err e, t)
continue (ok a) f t = f a t

infixl 5 ◌>>=◌
abbrev pub ◌>>=◌ : {W A B : Type 0} → Run W A → (A → Run W B) → Run W B
◌>>=◌ m f t = let (r, t') = m t in continue r f t'

-- What a call answers within the deadline: it is rejected if the signal is raised meanwhile.
abbrev pub in_time : {A : Type 0} → Bool → Checked A → Checked A
in_time true r = err (publication deadline)
in_time false r = r

-- `within(() => call())`: no call is made after the deadline.
unfoldable pub within :
    {W A : Type 0} → (W → Bool) → (Checked A → Event) → (W → Checked A × W) → Run W A
within aborted event call t =
    if aborted t.world
    then (err (publication deadline), t)
    else let (r, w) = call t.world in
      (in_time (aborted w) r, record { world = w; events = event r ∷ t.events })
