-- ===== src/Jobs/Lease.antt =====
-- internal/jobs/lease.go: extending a lease, finding out why a job was lost, closing its execution.
use job_scheduling.Base.{
  ℕ, ◌+◌, min, Bool, true, false, Option, none, some, ◌∷◌, String, ltb, ◌==◌, find, modify, not,
  if◌then◌else◌,
}
use job_scheduling.Store.{
  Job, Lease, Outcome, Db, DbError, is_running, is_active, cancelled, same_status,
}
use job_scheduling.Jobs.Start.{owned, close_with, open_execution}
use job_scheduling.Jobs.Claim.{has_id}

-- A Go function's `(value, error)` where no error is told apart.
pub data Answer {ℓ} (A : Type ℓ) : Type ℓ where
  value : A → Answer A
  error : DbError → Answer A

-- `least(a, b)` of SQL passes over a null.
abbrev least : ℕ → Option ℕ → ℕ
least a none = a
least a (some b) = min a b

abbrev coalesce : Option String → Option String → Option String
coalesce none old = old
coalesce (some p) old = some p

unfoldable pub extend_row : ℕ → ℕ → Option String → Job → Lease → Lease
extend_row now lease progress j l = record l {
  expires_at = least (now + lease) j.deadline_at;
  progress = coalesce progress l.progress;
  updated_at = now;
}

abbrev pub lease_of : ℕ → Lease → Bool
lease_of job l = l.job == job

unfoldable pub extend_found : ℕ → ℕ → ℕ → Option String → Option Job → Option Lease → Db → Bool × Db
unfolding extend_row
extend_found now job lease progress (some j) (some l) db =
    (true, record db { leases = modify (lease_of job) (extend_row now lease progress j) db.leases })
extend_found now job lease progress _ _ db = (false, db)

-- ExtendLease: true if it changed one row.
unfoldable pub extend_lease : Option DbError → ℕ → ℕ → ℕ → ℕ → Option String → Db → Answer Bool × Db
unfolding extend_found
extend_lease fault now job fence lease progress db = elim fault [
  | some e ↦ (error e, db)
  | none ↦
      let (done, db') =
        extend_found now job lease progress
          (find (owned (λ j. is_running j.status) job fence) db.jobs)
          (find (lease_of job) db.leases) db in
      (value done, db')
]

-- The Status of report.go.
pub data Verdict : Type 0 where
  is_fenced is_cancelled is_timeout is_live : Verdict

abbrev pub past_deadline : ℕ → Option ℕ → Bool
past_deadline now none = false
past_deadline now (some d) = ltb d now

unfoldable pub violation : ℕ → ℕ → ℕ → Option Job → Db → Db
violation job worker fence actual db = record db {
  violations =
      record {
        job = job;
        worker = worker;
        held_fence = fence;
        actual_fence = elim actual [ none ↦ none | some j ↦ some j.fence ];
        actual_status = elim actual [ none ↦ none | some j ↦ some j.status ];
      }
      ∷ db.violations;
}

-- The `switch` of Probe.
unfoldable pub probe_found : ℕ → ℕ → ℕ → ℕ → Option Job → Db → Verdict × Db
unfolding violation
probe_found now job fence worker none db = (is_fenced, violation job worker fence none db)
probe_found now job fence worker (some j) db =
    if not (j.fence == fence)
    then (is_fenced, violation job worker fence (some j) db)
    else if is_active j.status
    then (is_live, db)
    else if same_status j.status cancelled
    then (is_cancelled, db)
    else if past_deadline now j.deadline_at
    then (is_timeout, db)
    else (is_fenced, violation job worker fence (some j) db)

-- Probe.
unfoldable pub probe : Option DbError → ℕ → ℕ → ℕ → ℕ → Db → Answer Verdict × Db
unfolding probe_found
probe fault now job fence worker db = elim fault [
  | some e ↦ (error e, db)
  | none ↦
      let (verdict, db') = probe_found now job fence worker (find (has_id job) db.jobs) db in
      (value verdict, db')
]

-- The map execOutcome.
abbrev pub exec_outcome : Verdict → Option Outcome
exec_outcome is_cancelled = some Outcome.cancelled
exec_outcome is_fenced = some Outcome.fenced
exec_outcome is_timeout = some Outcome.timeout
exec_outcome is_live = none

-- CloseExecution.
unfoldable pub close_execution : ℕ → ℕ → Verdict → Db → Db
close_execution now exec verdict db = elim (exec_outcome verdict) [
  | none ↦ db
  | some outcome ↦ record db {
    executions = modify (open_execution exec) (close_with outcome now none none) db.executions;
  }
]
