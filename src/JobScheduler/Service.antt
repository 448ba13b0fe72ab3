-- ===== src/JobScheduler/Service.antt =====
-- JobSchedulerService of features/job-scheduler/job-scheduler.service.ts. The clock is the
-- database's; a new id and a random owner token come from outside.
use sdcorejs_nestjs.Base.{
  ℕ, ◌+◌, Bool, true, false, ◌&&◌, ◌||◌, Option, none, some, ◌++◌, Text, lit, text_eq, ltb, ◌==◌,
  String, Result, ok, err, if◌then◌else◌,
}
use sdcorejs_nestjs.JobScheduler.Options.{
  AcquireOptions, integer, lost_lease, job_failed, Checked, Timing, Identity, resolve_lease_timing,
  resolve_identity,
}
use sdcorejs_nestjs.JobScheduler.Table.{
  Status, running, success, fail, Row, Table, has_key, insert_or_ignore, update_where, affected,
  returned_id,
}

-- What a call draws from outside.
pub record Draws : Type 0 where
  pub now : ℕ
  pub new_id : Text
  pub owner_token : Text

pub record JobLease : Type 0 where
  pub id : Text
  pub owner_token : Text
  pub idempotency_key : Text

pub data Acquired : Type 0 where
  lost : Acquired
  won : JobLease → Acquired

unfoldable pub is_status : Status → Status → Bool
is_status running running = true
is_status success success = true
is_status fail fail = true
is_status _ _ = false

-- status = FAIL, or RUNNING and "modifiedAt" < CURRENT_TIMESTAMP - lease
unfoldable pub is_reclaimable : ℕ → ℕ → Row → Bool
unfolding is_status
is_reclaimable lease now r =
    is_status r.status fail || (is_status r.status running && ltb (r.modified_at + lease) now)

unfoldable pub reclaims : Text → ℕ → ℕ → Row → Bool
unfolding has_key is_reclaimable
reclaims key lease now r = has_key key r && is_reclaimable lease now r

abbrev pub take_over : Draws → Row → Row
take_over d r = record r {
  status = running;
  payload = none;
  owner_token = d.owner_token;
  modified_at = d.now;
}

abbrev pub new_row : Draws → Text → Identity → Option Text → Row
new_row d key identity name = record {
  id = d.new_id;
  lock_key = key;
  code = identity.code;
  name = name;
  job_type = identity.job_type;
  status = running;
  owner_token = d.owner_token;
  payload = none;
  modified_at = d.now;
}

abbrev pub lease_of : Draws → Text → Text → JobLease
lease_of d key id = record { id = id; owner_token = d.owner_token; idempotency_key = key }

-- The second step of `acquire`: the conditional update.
unfoldable pub reclaim : Draws → Text → ℕ → Table → Acquired × Table
unfolding returned_id update_where reclaims
reclaim d key lease table = elim (returned_id (reclaims key lease d.now) table) [
  | none ↦ (lost, table)
  | some id ↦ (won (lease_of d key id), update_where (reclaims key lease d.now) (take_over d) table)
]

-- Both steps of `acquire`, from the identity on.
unfoldable pub claim : Draws → Text → Identity → Option Text → ℕ → Table → Acquired × Table
unfolding insert_or_ignore reclaim
claim d key identity name lease table =
    let (inserted, table') = insert_or_ignore (new_row d key identity name) table in
    elim inserted [
      | some id ↦ (won (lease_of d key id), table')
      | none ↦ reclaim d key lease table'
    ]

unfoldable pub owns : JobLease → Row → Bool
unfolding is_status text_eq
owns lease r =
    text_eq r.id lease.id && text_eq r.owner_token lease.owner_token && is_status r.status running

-- mutateOwnedLease; TypeORM also touches the update date of a changed row.
unfoldable pub mutate_owned : JobLease → (Row → Row) → Table → Bool × Table
unfolding owns affected update_where
mutate_owned lease change table =
    (affected (owns lease) table == 1, update_where (owns lease) change table)

abbrev pub touch : ℕ → Row → Row
touch now r = record r { modified_at = now }

abbrev pub finish : Status → Option String → ℕ → Row → Row
finish status payload now r = record r { status = status; payload = payload; modified_at = now }

unfoldable pub heartbeat : ℕ → JobLease → Table → Bool × Table
unfolding mutate_owned
heartbeat now lease table = mutate_owned lease (touch now) table

unfoldable pub complete : ℕ → JobLease → Option String → Table → Bool × Table
unfolding mutate_owned
complete now lease payload table = mutate_owned lease (finish success payload now) table

unfoldable pub fail_lease : ℕ → JobLease → Option String → Table → Bool × Table
unfolding mutate_owned
fail_lease now lease payload table = mutate_owned lease (finish fail payload now) table

unfoldable pub release : ℕ → JobLease → Option String → Table → Bool × Table
unfolding fail_lease
release now lease payload table = fail_lease now lease payload table

abbrev pub with_timing : AcquireOptions → Timing → AcquireOptions
with_timing opts timing = record opts {
  lease_ms = integer timing.lease_ms;
  heartbeat_ms = integer timing.heartbeat_ms;
}

-- What the job does while it runs, with what other nodes and its own heartbeats do to the table.
abbrev pub Job : Type 0
Job = JobLease → Table → Result String String × Table

-- The `try` and `catch` of `runExclusive`, at the time when the job ended.
unfoldable pub settle :
    ℕ → JobLease → Result String String → Table → Checked (Option String) × Table
unfolding complete fail_lease
settle now lease (ok value) table =
    let (owned, table') = complete now lease none table in
    if owned then (ok (some value), table') else (err (lost_lease lease.id), table')
settle now lease (err reason) table =
    let (recorded, table') = fail_lease now lease (some reason) table in
    (err (job_failed reason), table')

unfoldable pub run_acquired : ℕ → Job → Acquired → Table → Checked (Option String) × Table
unfolding settle
run_acquired later fn lost table = (ok none, table)
run_acquired later fn (won lease) table =
    let (result, table') = fn lease table in settle later lease result table'

-- JSON.stringify of the canonical tuple, and SHA-256 in base64url.
module _ (stringify : Identity → Text) (sha256 : Text → Text) where
  unfoldable pub lock_key : Identity → Text
  lock_key identity = lit "v2:" ++ sha256 (stringify identity)

  unfoldable pub acquire : Draws → AcquireOptions → Table → Checked Acquired × Table
  unfolding resolve_lease_timing resolve_identity lock_key claim
  acquire d opts table = elim (resolve_lease_timing opts) [
    | err e ↦ (err e, table)
    | ok timing ↦ elim (resolve_identity opts) [
      | err e ↦ (err e, table)
      | ok identity ↦
          let (result, table') =
            claim d (lock_key identity) identity opts.name timing.lease_ms table in
          (ok result, table')
    ]
  ]

  -- `none` is { acquired: false }.
  unfoldable pub run_exclusive :
      Draws → ℕ → AcquireOptions → Job → Table → Checked (Option String) × Table
  unfolding resolve_lease_timing acquire run_acquired
  run_exclusive d later opts fn table = elim (resolve_lease_timing opts) [
    | err e ↦ (err e, table)
    | ok timing ↦
        let (claimed, table') = acquire d (with_timing opts timing) table in
        elim claimed [
          | err e ↦ (err e, table')
          | ok acquired ↦ run_acquired later fn acquired table'
        ]
  ]
