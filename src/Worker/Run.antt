-- ===== src/Worker/Run.antt =====
-- runOne of internal/worker/run.go. The handler runs between two halves, while other transactions
-- change the database; what it comes to is an argument.
use job_scheduling.Base.{ℕ, Bool, not, Option, none, some, List, String, if◌then◌else◌}
use job_scheduling.Store.{Db, DbError, ok, fenced, failed}
use job_scheduling.Jobs.Start.{Started}
use job_scheduling.Jobs.Claim.{Claimed}
use job_scheduling.Jobs.Lease.{Answer, value, error, Verdict, is_live, probe, close_execution}
use job_scheduling.Worker.Logs.{LogLine, LogRow, write_logs}
use job_scheduling.Worker.Retry.{Attempt, start_job, snooze_job, report_job}

-- What the worker knows when it takes up a job.
pub record Setting : Type 0 where
  pub worker : ℕ
  pub has_handler : Bool  -- a handler is registered for the job's type
  pub stopping : Bool  -- stopCtx.Err() != nil

-- The first half: the execution to run the handler under, or none.
unfoldable pub begin_job : (ℕ → Attempt) → Setting → ℕ → Claimed → Db → Option Started × Db
unfolding start_job
begin_job meets set exec c db =
    if not set.has_handler
    then (none, db)
    else if set.stopping
    then (none, db)
    else let (r, db') = start_job meets exec set.worker c fenced db in
      (elim r [ ok s ↦ some s | fenced ↦ none | failed e ↦ none ], db')

-- What the handler returns; a panic is an error.
pub data Returned : Type 0 where
  nothing : Returned
  nap : ℕ → Returned  -- Snooze, in milliseconds
  err : Bool → String → Returned  -- whether it wraps jobs.ErrPermanent, and its text

-- finished of complete.go.
pub record Finished : Type 0 where
  pub claimed : Claimed
  pub exec : ℕ

-- How the second half meets the world.
pub record Ending : Type 0 where
  pub was_fenced : Bool  -- the lease loop was told so
  pub aborted : Bool  -- runCtx.Err() != nil
  pub lines : List LogLine  -- what the handler logged since the lease loop wrote lines last
  pub log_now : ℕ
  pub log_fault : Option DbError
  pub now : ℕ
  pub probe_fault : Option DbError
  pub close_fault : Option DbError

unfoldable pub close_after : ℕ → Option DbError → ℕ → Answer Verdict × Db → Db
unfolding close_execution
close_after now close_fault exec (error e, db) = db
close_after now close_fault exec (value is_live, db) = db
close_after now close_fault exec (value v, db) = elim close_fault [
  | some e ↦ db
  | none ↦ close_execution now exec v db
]

-- probe: the execution is closed unless the job is still this worker's.
unfoldable pub probe_job : ℕ → Option DbError → Option DbError → ℕ → Claimed → ℕ → Db → Db
unfolding probe close_after
probe_job now probe_fault close_fault worker c exec db =
    close_after now close_fault exec (probe probe_fault now c.id c.fence worker db)

-- What the second half does once the lines are written.
unfoldable pub settle_job :
    (ℕ → Attempt) → (ℕ → ℕ) → Ending → ℕ → Claimed → ℕ → Returned → Db → Option Finished × Db
unfolding probe_job snooze_job report_job
settle_job meets draw end worker c exec ret db =
    if end.was_fenced
    then (none, probe_job end.now end.probe_fault end.close_fault worker c exec db)
    else by_return ret
  where
    by_return : Returned → Option Finished × Db
    by_return nothing = (some (record { claimed = c; exec = exec }), db)
    by_return (nap after) = (none, (snooze_job meets exec c after fenced db).1)
    by_return (err permanent message) =
        if end.aborted
        then (none, db)
        else (none, (report_job meets draw c permanent message fenced db).1)

-- The second half: what is handed to completeLoop, job_logs and the other tables after. The lines
-- are written first, whatever the handler came to.
unfoldable pub end_job :
    (ℕ → Attempt)
    → (ℕ → ℕ)
    → Ending
    → ℕ
    → Claimed
    → ℕ
    → Returned
    → List LogRow
    → Db
    → Option Finished × List LogRow × Db
unfolding settle_job write_logs
end_job meets draw end worker c exec ret job_logs db =
    let written = write_logs end.log_fault end.log_now exec end.lines job_logs in
    let (out, db') = settle_job meets draw end worker c exec ret db in (out, written, db')
