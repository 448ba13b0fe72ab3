-- ===== src/JobScheduler/Options.antt =====
-- resolveIdentity and resolveLeaseTiming of features/job-scheduler/job-scheduler.service.ts, with
-- the types of features/job-scheduler/types.ts.
use sdcorejs_nestjs.Base.{
  ℕ, ◌-◌, ◌*◌, ◌/◌, ◌^◌, min, max, String, Bool, true, false, not, ◌&&◌, ◌||◌, Option, none, some,
  [], Text, trim, length, is_empty, ltb, leb, Result, ok, err, guard, ◌>>=◌, ◌>>◌, if◌then◌else◌,
}

pub data JobType : Type 0 where
  initial schedule : JobType

-- A string option as an unknown value.
pub data TextArg : Type 0 where
  missing not_text : TextArg
  text : Text → TextArg

pub data TypeArg : Type 0 where
  default_type other_type : TypeArg
  given : JobType → TypeArg

-- A number option as an unknown value: not given, no integer, an integer.
pub data NumberArg : Type 0 where
  omitted not_integer negative : NumberArg
  integer : ℕ → NumberArg

-- JobAcquireOptions
pub record AcquireOptions : Type 0 where
  pub code : TextArg
  pub run_key : TextArg
  pub name : Option Text
  pub job_type : TypeArg
  pub lease_ms : NumberArg
  pub heartbeat_ms : NumberArg

pub data JobError : Type 0 where
  invalid_identity invalid_lease : String → JobError
  -- LostJobLeaseError(jobId)
  lost_lease : Text → JobError
  -- what the job itself threw
  job_failed : String → JobError

abbrev pub Checked : Type 0 → Type 0
Checked A = Result JobError A

abbrev pub default_lease_ms : ℕ
default_lease_ms = 900000

abbrev pub default_heartbeat_ms : ℕ
default_heartbeat_ms = 60000

abbrev pub max_safe : ℕ
max_safe = 2 ^ 53 - 1

pub record Timing : Type 0 where
  pub heartbeat_ms : ℕ
  pub lease_ms : ℕ

unfoldable pub resolve_lease : NumberArg → Checked ℕ
resolve_lease omitted = ok default_lease_ms
resolve_lease (integer n) =
    if not (leb n max_safe) || leb n 2
    then err (invalid_lease "leaseMs must be a safe integer greater than 2")
    else ok n
resolve_lease _ = err (invalid_lease "leaseMs must be a safe integer greater than 2")

unfoldable pub resolve_heartbeat : NumberArg → ℕ → Checked ℕ
resolve_heartbeat omitted lease = ok (min default_heartbeat_ms (max 1 (lease / 3)))
resolve_heartbeat (integer n) lease =
    if not (leb n max_safe)
    then err (invalid_lease "heartbeatMs must be a non-negative safe integer")
    else ok n
resolve_heartbeat _ lease = err (invalid_lease "heartbeatMs must be a non-negative safe integer")

unfoldable pub resolve_lease_timing : AcquireOptions → Checked Timing
unfolding resolve_lease resolve_heartbeat
resolve_lease_timing opts = do
  lease ← resolve_lease opts.lease_ms
  heartbeat ← resolve_heartbeat opts.heartbeat_ms lease
  guard (not (ltb 0 heartbeat && leb lease (heartbeat * 2)))
      (invalid_lease "heartbeatMs must be less than half of leaseMs")
  ok (record { heartbeat_ms = heartbeat; lease_ms = lease })

-- The canonical tuple that is hashed into the lock key.
pub record Identity : Type 0 where
  pub job_type : JobType
  pub code : Text
  pub run_key : Option Text

abbrev pub is_missing : TextArg → Bool
is_missing missing = true
is_missing _ = false

unfoldable pub resolve_code : TextArg → Text
unfolding trim
resolve_code (text s) = trim s
resolve_code _ = []

unfoldable pub resolve_type : TypeArg → Checked JobType
resolve_type default_type = ok schedule
resolve_type (given t) = ok t
resolve_type other_type = err (invalid_identity "type must be INITIAL or SCHEDULE")

abbrev pub within : ℕ → Text → Bool
within limit s = not (is_empty s) && leb (length s) limit

unfoldable pub resolve_run_key : JobType → TextArg → Checked (Option Text)
unfolding trim
resolve_run_key schedule (text s) =
    if within 1024 (trim s)
    then ok (some (trim s))
    else err
        (invalid_identity "SCHEDULE jobs require a non-empty runKey no longer than 1024 characters")
resolve_run_key schedule _ =
    err (invalid_identity "SCHEDULE jobs require a non-empty runKey no longer than 1024 characters")
resolve_run_key initial missing = ok none
resolve_run_key initial _ = err (invalid_identity "INITIAL jobs must not define runKey")

unfoldable pub resolve_identity : AcquireOptions → Checked Identity
unfolding resolve_code resolve_type resolve_run_key
resolve_identity opts = do
  let code = resolve_code opts.code
  guard (within 64 code) (invalid_identity "code must contain 1 to 64 non-whitespace characters")
  job_type ← resolve_type opts.job_type
  run_key ← resolve_run_key job_type opts.run_key
  ok (record { job_type = job_type; code = code; run_key = run_key })
