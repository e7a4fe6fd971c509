-- ===== src/Jobs/Verdicts.antt =====
-- What Probe and ExtendLease tell a worker (internal/jobs/lease.go).
use job_scheduling.Base.{ℕ, ◌≡◌, ◌≢◌, ◌↔◌, true, false, none, some, ◌∷◌, arith, find}
use job_scheduling.Store.{Job, Db, Violation, is_active, same_status, cancelled}
use job_scheduling.Jobs.Claim.{has_id}
use job_scheduling.Jobs.Lease.{
  value, is_fenced, is_cancelled, is_timeout, is_live, past_deadline, probe, probe_found, violation,
}

-- The job is the worker's, and neither claimed nor running.
abbrev pub IsOver : ℕ → Job → Type 0
IsOver fence j = (j.fence ≡ fence) × (is_active j.status ≡ false)

-- What is recorded of a worker that was fenced.
abbrev pub held_under : ℕ → ℕ → ℕ → Job → Violation
held_under job fence worker j = record {
  job = job;
  worker = worker;
  held_fence = fence;
  actual_fence = some j.fence;
  actual_status = some j.status;
}

-- What Probe says of a job that is there, and when exactly: the worker is live where the fence is its own
-- and the job is claimed or running; the job was cancelled, where the fence is its own and the job
-- is cancelled; it timed out, where the fence is its own, the job is neither claimed, running nor
-- cancelled, and its deadline is over; and the worker is fenced where the fence is not its own or the job was taken
-- away otherwise. The verdict that it is fenced leaves one more violation, which names
-- the job, the worker, both fences and the job's status, and nothing else is changed; any other
-- verdict changes nothing.
pub probe_lem :
    (now job fence worker : ℕ) (j : Job) (db : Db)
    → find (has_id job) db.jobs ≡ some j
    → let (answer, db') = probe none now job fence worker db in
      ((answer ≡ value is_live) ↔ ((j.fence ≡ fence) × (is_active j.status ≡ true)))
      × ((answer ≡ value is_cancelled) ↔ (IsOver fence j × (same_status j.status cancelled ≡ true)))
      × ((answer ≡ value is_timeout) ↔ (
          IsOver fence j
          × (same_status j.status cancelled ≡ false)
          × (past_deadline now j.deadline_at ≡ true)))
      × ((answer ≡ value is_fenced) ↔ (
          (j.fence ≡ fence)
          → (is_active j.status ≡ false)
            × (same_status j.status cancelled ≡ false)
            × (past_deadline now j.deadline_at ≡ false)))
      × (answer ≡ value is_fenced
          → db' ≡ record db { violations = held_under job fence worker j ∷ db.violations })
      × (answer ≢ value is_fenced → db' ≡ db)
unfolding probe probe_found violation
probe_lem now job fence worker j db e = rw e (
  (ground arith, ground arith),
  (ground arith, ground arith),
  (ground arith, ground arith),
  (ground arith, ground arith),
  ground arith,
  ground arith,
)
