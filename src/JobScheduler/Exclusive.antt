-- ===== src/JobScheduler/Exclusive.antt =====
-- What runExclusive answers (features/job-scheduler/job-scheduler.service.ts).
use sdcorejs_nestjs.Base.{
  ℕ, ◌≡◌, ◌≢◌, none, Text, Result-cases, inl, inr, arith, String, Result, ok, err,
}
use sdcorejs_nestjs.JobScheduler.Options.{
  Identity, AcquireOptions, Timing, resolve_lease_timing, resolve_identity,
}
use sdcorejs_nestjs.JobScheduler.Table.{Table}
use sdcorejs_nestjs.JobScheduler.Service.{
  Draws, JobLease, lost, won, claim, lock_key, acquire, with_timing, Job, settle, run_acquired,
  run_exclusive,
}
use sdcorejs_nestjs.JobScheduler.Rows.{IsUnique}
use sdcorejs_nestjs.JobScheduler.Owned.{IsTaken, IsFinished}
use sdcorejs_nestjs.JobScheduler.Locking.{claim-lost}

settle-ne-none :
    (now : ℕ) (lease : JobLease) (result : Result String String) (t t' : Table)
    → settle now lease result t ≢ (ok none, t')
unfolding settle
settle-ne-none now lease (ok value) t t' h = ground arith
settle-ne-none now lease (err reason) t t' h = ground arith

acquire-lost :
    (stringify : Identity → Text) (sha256 : Text → Text) (d : Draws) (opts : AcquireOptions)
    (t t' : Table)
    → IsUnique t
    → acquire stringify sha256 d opts t ≡ (ok lost, t')
    → t' ≡ t
unfolding acquire
acquire-lost stringify sha256 d opts t t' u h = elim (Result-cases (resolve_lease_timing opts)) [
  | inr (e, bad) ↦ ground arith
  | inl (timing, good) ↦ elim (Result-cases (resolve_identity opts)) [
    | inr (e, bad) ↦ ground arith
    | inl (identity, named) ↦
        let key = lock_key stringify sha256 identity in
        let missed : (claim d key identity opts.name timing.lease_ms t).0 ≡ lost = ground arith in
        let (same, _) = claim-lost d key identity opts.name timing.lease_ms t u missed in
        ground arith
  ]
]

module _ (stringify : Identity → Text) (sha256 : Text → Text) (d : Draws) (later : ℕ)
    (opts : AcquireOptions) (fn : Job) where
  -- A run that reported a result: the lock was acquired with the timing of the options, the job
  -- ran under the lease and returned the result, and the lease's row was then completed.
  pub record HasRun (t t' : Table) (v : String) : Type 0 where
    pub timing : Timing
    pub timed : resolve_lease_timing opts ≡ ok timing
    pub lease : JobLease
    pub locked : Table
    pub ended : Table
    pub acquired : acquire stringify sha256 d (with_timing opts timing) t ≡ (ok (won lease), locked)
    pub taken : IsTaken d lease locked
    pub returned : fn lease locked ≡ (ok v, ended)
    pub finished : IsFinished later lease ended t'

  -- A node that is told that it did not acquire the lock has changed no row and has not run the
  -- job: whatever the job, the answer is the same.
  pub run_exclusive-skipped :
      (t t' : Table)
      → IsUnique t
      → run_exclusive stringify sha256 d later opts fn t ≡ (ok none, t')
      → (t' ≡ t)
        × ((other : Job) → run_exclusive stringify sha256 d later opts other t ≡ (ok none, t))
  unfolding run_exclusive run_acquired
  run_exclusive-skipped t t' u h = elim (Result-cases (resolve_lease_timing opts)) [
    | inr (e, bad) ↦ ground arith
    | inl (timing, good) ↦
        let options = with_timing opts timing in
        let claimed = acquire stringify sha256 d options t in
        elim (Result-cases claimed.0) [
          | inr (e, refused) ↦ ground arith
          | inl (lost, skipped) ↦
              let same =
                acquire-lost stringify sha256 d options t claimed.1 u
                  (λ i. (skipped i, claimed.1)) in
              (ground arith, λ other. ground arith)
          | inl (won lease, taken) ↦
              let ended = fn lease claimed.1 in
              let never = settle-ne-none later lease ended.0 ended.1 t' in
              absurd (never (ground arith))
        ]
  ]
