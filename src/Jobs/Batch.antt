-- ===== src/Jobs/Batch.antt =====
-- fl.report_success_batch of migrations/028_shard_release.sql, and CompleteBatch of
-- internal/jobs/report.go. A job that the batch names twice is completed once, since its row is
-- not running any more. What the function groups by queue, shard or minute only adds up, so it is
-- done here for one job after the other.
use job_scheduling.Base.{
  ℕ, not, ◌&&◌, Option, none, some, List, [], ◌∷◌, ◌++◌, ltb, find, modify, select, sort_by, elem,
  map, update_all,
}
use job_scheduling.Store.{
  Job, Execution, Outcome, Db, DbError, Dependency, Shard, Stat, is_set, completed, EventPayload,
  Event, job_completed,
}
use job_scheduling.Jobs.Slots.{queue_release}
use job_scheduling.Jobs.Deps.{finish_dependents, woken}
use job_scheduling.Jobs.Start.{close_as, duration_ms, minute_of, add_stat, event}
use job_scheduling.Jobs.Success.{completable, complete_row, by_project, queued_events}
use job_scheduling.Jobs.Lease.{Answer, value, error}

-- The triple that a worker hands over: Done of report.go.
pub record Done : Type 0 where
  pub job : ℕ
  pub fence : ℕ
  pub exec : ℕ

-- A completed row, as it was, with the execution that it names.
pub record Completed : Type 0 where
  pub row : Job
  pub exec : ℕ

unfoldable pub complete_one :
    ℕ → Done → Option Job → List Completed × List Job → List Completed × List Job
unfolding completable complete_row
complete_one now d none (out, jobs) = (out, jobs)
complete_one now d (some j) (out, jobs) = (
  out ++ record { row = j; exec = d.exec } ∷ [],
  modify (completable d.job d.fence) (complete_row now) jobs,
)

-- `upd`, over the input.
unfoldable pub complete_rows : ℕ → List Done → List Completed × List Job → List Completed × List Job
unfolding complete_one
complete_rows now [] s = s
complete_rows now (d ∷ ds) s =
    complete_rows now ds (complete_one now d (find (completable d.job d.fence) s.1) s)

-- finish_dependents for each job, in the order of their ids.
unfoldable pub finish_each : ℕ → List Dependency → List ℕ → List ℕ × List Job → List ℕ × List Job
unfolding finish_dependents woken
finish_each now deps [] s = s
finish_each now deps (i ∷ is) (woke, jobs) =
    finish_each now deps is (woke ++ woken i deps jobs, finish_dependents now i deps jobs)

unfoldable pub release_each : List Completed → List Shard → List Shard
unfolding queue_release
release_each [] shards = shards
release_each (c ∷ cs) shards = release_each cs (queue_release c.row.queue c.row.shard 1 shards)

-- One row of the counts for each execution in `xs`.
unfoldable pub count_each : ℕ → List Execution → List Stat → List Stat
unfolding add_stat
count_each now [] stats = stats
count_each now (x ∷ xs) stats = count_each now xs (
    add_stat
      (record {
        queue = x.queue;
        minute = minute_of now;
        completed = 1;
        failed = 0;
        dead_lettered = 0;
        duration_ms_sum = elim x.finished_at [ none ↦ 0 | some t ↦ duration_ms t (some x) ];
      })
      stats)

abbrev pub completed_events : List Completed → List Event
completed_events cs =
    map
      (λ j.
        event job_completed j.id j.project (EventPayload.status_outcome completed Outcome.success))
      (sort_by by_project (map (λ c. c.row) cs))

abbrev pub job_ids : List Completed → List ℕ
job_ids = map λ c. c.row.id

abbrev pub exec_ids : List Completed → List ℕ
exec_ids = map λ c. c.exec

unfoldable pub batch_effects : ℕ → List Completed → List Job → Db → Db
unfolding finish_each release_each count_each queued_events
batch_effects now done jobs1 db =
    let (woke, jobs2) = finish_each now db.dependencies (sort_by ltb (job_ids done)) ([], jobs1) in
    let executions' =
      update_all (λ x. elem x.id (exec_ids done) && not (is_set x.finished_at))
        (close_as Outcome.success now) db.executions in
    record db {
      jobs = jobs2;
      executions = executions';
      leases = select (λ l. not (elem l.job (job_ids done))) db.leases;
      stats = count_each now (select (λ x. elem x.id (exec_ids done)) executions') db.stats;
      shards = release_each done db.shards;
      events = db.events ++ queued_events woke jobs2 ++ completed_events done;
    }

unfoldable pub after_batch : ℕ → List Completed × List Job → Db → List ℕ × Db
unfolding batch_effects
after_batch now ([], jobs1) db = ([], db)
after_batch now (c ∷ cs, jobs1) db = (job_ids (c ∷ cs), batch_effects now (c ∷ cs) jobs1 db)

-- The ids of the jobs that were completed.
unfoldable pub report_success_batch : ℕ → List Done → Db → List ℕ × Db
unfolding after_batch complete_rows
report_success_batch now ds db = after_batch now (complete_rows now ds ([], db.jobs)) db

-- CompleteBatch.
unfoldable pub complete_batch : Option DbError → ℕ → List Done → Db → Answer (List ℕ) × Db
unfolding report_success_batch
complete_batch fault now ds db = elim fault [
  | some e ↦ (error e, db)
  | none ↦ let (ids, db') = report_success_batch now ds db in (value ids, db')
]
