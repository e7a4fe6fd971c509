-- ===== src/Api/Cancel.antt =====
-- cancelJob and retryJob of internal/api/jobs.go. The database checks each row that they write
-- (row_check); a row that fails it aborts the transaction.
use job_scheduling.Base.{
  ℕ, Bool, ◌&&◌, Option, none, some, String, [], ◌∷◌, ◌++◌, ◌==◌, if◌then◌else◌, find, modify,
  update_all,
}
use job_scheduling.Store.{
  Job, Outcome, Status, Db, scheduled, queued, claimed, running, completed, retry_wait, dead_letter,
  cancelled, is_terminal, is_active, is_waiting, row_check, check_violation, EventPayload,
  job_cancelled, job_retried,
}
use job_scheduling.Jobs.Slots.{queue_release}
use job_scheduling.Jobs.Start.{close_as, open_of_job, delete_lease, event}
use job_scheduling.Jobs.Claim.{has_id}
use job_scheduling.Api.Problem.{ApiReply, done, refused, not_found, conflict, database}

unfoldable pub cancelled_row : ℕ → Job → Job
cancelled_row now j = record j { status = cancelled; finished_at = some now; worker = none }

-- What a job that was claimed or running leaves behind: its execution, its lease and its slot.
unfoldable pub cancel_held : ℕ → Job → Db → Db
unfolding queue_release
cancel_held now j db =
    if is_active j.status
    then record db {
      executions = update_all (open_of_job j.id) (close_as Outcome.cancelled now) db.executions;
      leases = delete_lease j.id db.leases;
      shards = queue_release j.queue j.shard 1 db.shards;
    }
    else db

-- `"job is already in a terminal state: " + oldStatus`.
abbrev pub ended_detail : Status → String
ended_detail completed = "job is already in a terminal state: completed"
ended_detail dead_letter = "job is already in a terminal state: dead_letter"
ended_detail cancelled = "job is already in a terminal state: cancelled"
ended_detail scheduled = "job is already in a terminal state: scheduled"
ended_detail queued = "job is already in a terminal state: queued"
ended_detail claimed = "job is already in a terminal state: claimed"
ended_detail running = "job is already in a terminal state: running"
ended_detail retry_wait = "job is already in a terminal state: retry_wait"

unfoldable pub cancel_live : ℕ → ℕ → Job → Db → ApiReply Status × Db
unfolding cancelled_row cancel_held row_check
cancel_live now id j db =
    if is_terminal j.status
    then (refused (conflict (ended_detail j.status)), db)
    else if row_check (cancelled_row now j)
    then (
      done j.status,
      let db' =
            cancel_held now j
              (record db { jobs = modify (has_id id) (cancelled_row now) db.jobs }) in
          record db' {
            events =
                db'.events
                ++ event job_cancelled j.id j.project (EventPayload.from_status j.status) ∷ [];
          },
    )
    else (refused (database check_violation), db)

unfoldable pub cancel_found : ℕ → ℕ → Option Job → Db → ApiReply Status × Db
unfolding cancel_live
cancel_found now id none db = (refused (not_found "job"), db)
cancel_found now id (some j) db = cancel_live now id j db

-- cancelJob: the status that the job had.
unfoldable pub cancel_job : ℕ → ℕ → Db → ApiReply Status × Db
unfolding cancel_found
cancel_job now id db = cancel_found now id (find (has_id id) db.jobs) db

-- `where id = $1 and status in ('retry_wait', 'scheduled') and pending_deps = 0`.
unfoldable pub retriable : ℕ → Job → Bool
retriable id j = has_id id j && is_waiting j.status && j.pending_deps == 0

unfoldable pub retry_row : ℕ → Job → Job
retry_row now j = record j { status = queued; run_at = now }

unfoldable pub retry_found : ℕ → ℕ → Option Job → Db → ApiReply Status × Db
unfolding retriable retry_row
retry_found now id none db = (refused (conflict "job is not waiting to retry"), db)
retry_found now id (some j) db = (
  done queued,
  record db {
    jobs = modify (retriable id) (retry_row now) db.jobs;
    events = db.events ++ event job_retried id j.project (EventPayload.status_is queued) ∷ [];
  },
)

-- retryJob.
unfoldable pub retry_job : ℕ → ℕ → Db → ApiReply Status × Db
unfolding retry_found
retry_job now id db = retry_found now id (find (retriable id) db.jobs) db
