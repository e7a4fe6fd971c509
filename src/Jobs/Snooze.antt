-- ===== src/Jobs/Snooze.antt =====
-- fl.report_snooze of migrations/028_shard_release.sql, and Snooze of internal/jobs/report.go.
use job_scheduling.Base.{
  ℕ, ◌+◌, ◌*◌, min, Bool, ◌&&◌, Option, none, some, [], ◌∷◌, ◌++◌, ltb, ◌==◌, find, modify,
  if◌then◌else◌,
}
use job_scheduling.Store.{
  Job, Policy, Outcome, Db, DbError, Reply, failed, scheduled, is_running, EventPayload,
  job_snoozed,
}
use job_scheduling.Jobs.Slots.{queue_release}
use job_scheduling.Jobs.Start.{close_as, open_execution, delete_lease, event}
use job_scheduling.Jobs.Failure.{fence_is}
use job_scheduling.Jobs.Success.{reply_of}

unfoldable pub snoozable : ℕ → Option ℕ → Job → Bool
snoozable job fence j = j.id == job && is_running j.status && fence_is fence j

-- least(delay_ms, max_delay_ms); a negative delay is 0 by then.
unfoldable pub snooze_row : ℕ → ℕ → Policy → Job → Job
snooze_row now delay rp j = record j {
  status = scheduled;
  fence = j.fence + 1;
  run_at = now + min delay rp.max_delay_ms * 1000;
  snooze_count = j.snooze_count + 1;
  worker = none;
  claimed_at = none;
  deadline_at = none;
}

unfoldable pub snooze_of : ℕ → ℕ → Option ℕ → ℕ → ℕ → Job → Option Policy → Db → Option ℕ × Db
unfolding snoozable snooze_row queue_release
snooze_of now job fence exec delay j none db = (none, db)
snooze_of now job fence exec delay j (some rp) db =
    if ltb j.snooze_count rp.max_attempts
    then (
      some j.queue,
      record db {
        jobs = modify (snoozable job fence) (snooze_row now delay rp) db.jobs;
        executions = modify (open_execution exec) (close_as Outcome.snoozed now) db.executions;
        leases = delete_lease job db.leases;
        shards = queue_release j.queue j.shard 1 db.shards;
        events = db.events ++ event job_snoozed job j.project (EventPayload.delay_ms delay) ∷ [];
      },
    )
    else (none, db)

unfoldable pub snooze_found : ℕ → ℕ → Option ℕ → ℕ → ℕ → Option Job → Db → Option ℕ × Db
unfolding snooze_of
snooze_found now job fence exec delay none db = (none, db)
snooze_found now job fence exec delay (some j) db =
    snooze_of now job fence exec delay j (find (λ rp. rp.id == j.policy) db.policies) db

-- fl.report_snooze: the queue of the job, or no row.
unfoldable pub report_snooze : ℕ → ℕ → Option ℕ → ℕ → ℕ → Db → Option ℕ × Db
unfolding snooze_found
report_snooze now job fence exec delay db =
    snooze_found now job fence exec delay (find (snoozable job fence) db.jobs) db

-- Snooze, with the delay in milliseconds. A statement that fails has changed nothing.
unfoldable pub snooze : Option DbError → ℕ → ℕ → ℕ → ℕ → ℕ → Db → Reply ℕ × Db
unfolding report_snooze
snooze fault now job fence exec delay db = elim fault [
  | some e ↦ (failed e, db)
  | none ↦ reply_of (report_snooze now job (some fence) exec delay db)
]
