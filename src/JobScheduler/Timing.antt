-- ===== src/JobScheduler/Timing.antt =====
-- The timing that resolveLeaseTiming accepts
-- (features/job-scheduler/job-scheduler.service.ts).
use sdcorejs_nestjs.Base.{ℕ, ◌*◌, ◌/◌, ◌≤◌, ◌<◌, min, max, ◌≡◌, refl, ok, >>=-eq-ok, arith}
use sdcorejs_nestjs.JobScheduler.Options.{
  AcquireOptions, NumberArg, omitted, Timing, max_safe, resolve_lease, resolve_heartbeat,
  resolve_lease_timing,
}

-- A live worker's heartbeats come at least twice within its lease.
pub record IsSafe (t : Timing) : Type 0 where
  pub lease_above : 2 < t.lease_ms
  pub lease_bounded : t.lease_ms ≤ max_safe
  pub heartbeat_bounded : t.heartbeat_ms ≤ max_safe
  pub beats : 0 < t.heartbeat_ms → t.heartbeat_ms * 2 < t.lease_ms

resolve_lease_bounds :
    (arg : NumberArg) (n : ℕ) → resolve_lease arg ≡ ok n → (2 < n) × (n ≤ max_safe)
unfolding resolve_lease
resolve_lease_bounds arg n h = ground arith

resolve_heartbeat_bounds :
    (arg : NumberArg) (lease n : ℕ) → resolve_heartbeat arg lease ≡ ok n → n ≤ max_safe
unfolding resolve_heartbeat
resolve_heartbeat_bounds arg lease n h = ground arith

-- Every accepted timing is safe: a lease above 2 ms, within the safe integers, and, unless the
-- heartbeat is off, more than twice the heartbeat.
pub resolve_lease_timing-IsSafe :
    (opts : AcquireOptions) (t : Timing) → resolve_lease_timing opts ≡ ok t → IsSafe t
unfolding resolve_lease_timing
resolve_lease_timing-IsSafe opts t h =
    let (lease, l, h') = >>=-eq-ok (resolve_lease opts.lease_ms) _ h in
    let (heartbeat, b, h'') = >>=-eq-ok (resolve_heartbeat opts.heartbeat_ms lease) _ h' in
    let bounds = resolve_lease_bounds opts.lease_ms lease l in
    let bounded = resolve_heartbeat_bounds opts.heartbeat_ms lease heartbeat b in ground arith

-- A lease that is accepted on its own is accepted with the default heartbeat, which is then
-- positive: a shortened lease never inherits an unsafe interval.
pub resolve_lease_timing-omitted :
    (opts : AcquireOptions) (lease : ℕ)
    → opts.heartbeat_ms ≡ omitted
    → resolve_lease opts.lease_ms ≡ ok lease
    → (t : Timing) × (resolve_lease_timing opts ≡ ok t)
      × (t.lease_ms ≡ lease)
      × (0 < t.heartbeat_ms)
unfolding resolve_lease_timing
resolve_lease_timing-omitted opts lease o l =
    let bounds = resolve_lease_bounds opts.lease_ms lease l in
    let t : Timing = record { heartbeat_ms = min 60000 (max 1 (lease / 3)); lease_ms = lease } in
    (t, unfold resolve_heartbeat in ground arith, refl, omega arith)
