-- ===== src/JobScheduler/Tests.antt =====
-- Runs of the job scheduler at concrete tables.
use sdcorejs_nestjs.Base.{◌≡◌, refl, false, [], ◌∷◌, Text, lit, ok, some, none, text_eq}
use sdcorejs_nestjs.JobScheduler.Options.{
  AcquireOptions, text, default_type, schedule, omitted, integer, Timing, Identity,
  resolve_lease_timing,
}
use sdcorejs_nestjs.JobScheduler.Table.{Row, Table, running, success, find_key}
use sdcorejs_nestjs.JobScheduler.Service.{
  Draws, JobLease, lost, won, claim, heartbeat, complete, fail_lease, Job, run_exclusive, take_over,
}
use sdcorejs_nestjs.JobScheduler.Timing.{IsSafe, resolve_lease_timing-IsSafe}
use sdcorejs_nestjs.JobScheduler.Rows.{IsUnique}
use sdcorejs_nestjs.JobScheduler.Locking.{claim_register, claim-register}
use sdcorejs_nestjs.JobScheduler.Fencing.{
  acquired, here, next, IsDone, Reach-IsDone, superseded_fenced,
}
use sdcorejs_nestjs.JobScheduler.Exclusive.{run_exclusive-skipped}

abbrev options : AcquireOptions
options = record {
  code = text (lit " sync ");
  run_key = text (lit "r1");
  name = none;
  job_type = default_type;
  lease_ms = integer 30;
  heartbeat_ms = omitted;
}

abbrev timing : Timing
timing = record { heartbeat_ms = 10; lease_ms = 30 }

timing_run : resolve_lease_timing options ≡ ok timing
unfolding resolve_lease_timing
timing_run = refl

resolve_lease_timing-IsSafe_example : IsSafe timing
resolve_lease_timing-IsSafe_example = resolve_lease_timing-IsSafe options timing timing_run

abbrev key : Text
key = lit "k"

abbrev identity : Identity
identity = record { job_type = schedule; code = lit "sync"; run_key = some (lit "r1") }

abbrev first_draws : Draws
first_draws = record { now = 100; new_id = lit "i1"; owner_token = lit "o1" }

abbrev later_draws : Draws
later_draws = record { now = 200; new_id = lit "i2"; owner_token = lit "o2" }

abbrev row_with : Text → Row
row_with token = record {
  id = lit "i1";
  lock_key = key;
  code = lit "sync";
  name = none;
  job_type = schedule;
  status = running;
  owner_token = token;
  payload = none;
  modified_at = 100;
}

abbrev old_row : Row
old_row = row_with (lit "o1")

abbrev table : Table
table = old_row ∷ []

abbrev taken : Table
taken = take_over later_draws old_row ∷ []

expired_run :
    claim later_draws key identity none 30 table
    ≡ (won (record { id = lit "i1"; owner_token = lit "o2"; idempotency_key = key }), taken)
unfolding claim
expired_run = refl

live_run : claim later_draws key identity none 300 table ≡ (lost, table)
unfolding claim
live_run = refl

table_unique : IsUnique table
unfolding find_key
table_unique = (refl, tt)

claim-register_example :
    ((claim later_draws key identity none 30 table).0
      ≡ (claim_register later_draws key identity none 30 (find_key key table)).0)
    × (find_key key (claim later_draws key identity none 30 table).1
        ≡ (claim_register later_draws key identity none 30 (find_key key table)).1)
claim-register_example = claim-register later_draws key identity none 30 table table_unique

abbrev done_row : Row
done_row = record old_row { status = success }

abbrev done_table : Table
done_table = done_row ∷ []

done : IsDone key done_row done_table
unfolding find_key
done = record { unique = (refl, tt); found = refl; status = refl }

abbrev retried : Table
retried = (claim later_draws key identity none 30 done_table).1

Reach-IsDone_example : IsDone key done_row retried
Reach-IsDone_example = Reach-IsDone done (next here (acquired later_draws key identity none 30))

abbrev old_lease : JobLease
old_lease = record { id = lit "i1"; owner_token = lit "o1"; idempotency_key = key }

superseded_fenced_example :
    (heartbeat 210 old_lease taken ≡ (false, taken))
    × (complete 210 old_lease none taken ≡ (false, taken))
    × (fail_lease 210 old_lease none taken ≡ (false, taken))
unfolding text_eq
superseded_fenced_example = superseded_fenced old_lease {t = taken} here 210 none (refl, tt) tt

abbrev stringify : Identity → Text
stringify i = i.code

abbrev sha256 : Text → Text
sha256 s = s

abbrev job : Job
job lease t = (ok "done", t)

abbrev final : Table
final = (run_exclusive stringify sha256 first_draws 110 options job []).1

abbrev busy : Table
busy = record old_row { lock_key = lit "v2:sync"; modified_at = 190 } ∷ []

busy_unique : IsUnique busy
unfolding find_key
busy_unique = (refl, tt)

run_exclusive-skipped_example :
    (busy ≡ busy)
    × ((other : Job)
        → run_exclusive stringify sha256 later_draws 210 options other busy ≡ (ok none, busy))
unfolding run_exclusive
run_exclusive-skipped_example =
    run_exclusive-skipped stringify sha256 later_draws 210 options job busy busy busy_unique refl
