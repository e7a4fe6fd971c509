-- ===== src/Jobs/Success.antt =====
-- fl.report_success of migrations/028_shard_release.sql, and Complete of internal/jobs/report.go.
use job_scheduling.Base.{
  ℕ, Bool, ◌&&◌, ◌||◌, Option, none, some, List, [], ◌∷◌, ◌++◌, ltb, ◌==◌, find, modify, select,
  sort_by, elem, map,
}
use job_scheduling.Store.{
  Job, Outcome, Db, DbError, Reply, ok, fenced, failed, is_running, is_queued, completed,
  EventPayload, Event, job_queued, job_completed,
}
use job_scheduling.Jobs.Slots.{queue_release}
use job_scheduling.Jobs.Deps.{finish_dependents, woken}
use job_scheduling.Jobs.Start.{
  owned, close_as, open_execution, duration_ms, delete_lease, minute_of, add_stat, event,
}

unfoldable pub completable : ℕ → ℕ → Job → Bool
completable = owned (λ j. is_running j.status)

unfoldable pub complete_row : ℕ → Job → Job
complete_row now j = record j { status = completed; finished_at = some now; worker = none }

-- `order by project_id, id`.
abbrev pub by_project : Job → Job → Bool
by_project a b = ltb a.project b.project || (a.project == b.project && ltb a.id b.id)

-- The events for the jobs that a completion queued.
unfoldable pub queued_events : List ℕ → List Job → List Event
queued_events woke jobs =
    map (λ j. event job_queued j.id j.project EventPayload.empty)
      (sort_by by_project (select (λ j. elem j.id woke && is_queued j.status) jobs))

unfoldable pub success_found : ℕ → ℕ → ℕ → ℕ → Option Job → Db → Option ℕ × Db
unfolding completable complete_row finish_dependents woken add_stat queue_release queued_events
success_found now job fence exec none db = (none, db)
success_found now job fence exec (some j) db =
    let jobs1 = modify (completable job fence) (complete_row now) db.jobs in
    let woke = woken job db.dependencies jobs1 in
    let jobs2 = finish_dependents now job db.dependencies jobs1 in
    (
      some j.queue,
      record db {
        jobs = jobs2;
        executions = modify (open_execution exec) (close_as Outcome.success now) db.executions;
        leases = delete_lease job db.leases;
        stats =
            add_stat
              (record {
                queue = j.queue;
                minute = minute_of now;
                completed = 1;
                failed = 0;
                dead_lettered = 0;
                duration_ms_sum = duration_ms now (find (open_execution exec) db.executions);
              })
              db.stats;
        shards = queue_release j.queue j.shard 1 db.shards;
        events =
            db.events
            ++ queued_events woke jobs2
            ++ event job_completed job j.project
                (EventPayload.status_outcome completed Outcome.success)
              ∷ [];
      },
    )

-- fl.report_success: the queue of the job, or no row.
unfoldable pub report_success : ℕ → ℕ → ℕ → ℕ → Db → Option ℕ × Db
unfolding success_found
report_success now job fence exec db =
    success_found now job fence exec (find (completable job fence) db.jobs) db

abbrev pub reply_of : Option ℕ × Db → Reply ℕ × Db
reply_of (none, db) = (fenced, db)
reply_of (some q, db) = (ok q, db)

-- Complete. A statement that fails has changed nothing.
unfoldable pub complete : Option DbError → ℕ → ℕ → ℕ → ℕ → Db → Reply ℕ × Db
unfolding report_success
complete fault now job fence exec db = elim fault [
  | some e ↦ (failed e, db)
  | none ↦ reply_of (report_success now job fence exec db)
]
