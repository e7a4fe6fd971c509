-- ===== src/Jobs/Start.antt =====
-- Start and the closing of executions: internal/jobs/report.go and the statements that end an
-- attempt in migrations/028_shard_release.sql. The trigger je_no_reclose refuses to touch a closed
-- execution; every statement here names open ones only.
use job_scheduling.Base.{
  ℕ, ◌+◌, ◌-◌, ◌/◌, Bool, not, ◌&&◌, Option, none, some, List, [], ◌∷◌, String, ◌==◌, if◌then◌else◌,
  find, modify, select,
}
use job_scheduling.Store.{
  Job, Execution, Outcome, Db, DbError, Reply, ok, fenced, failed, running, is_claimed, is_set,
  Stat, Event, Topic, EventPayload, Lease,
}

abbrev pub owned : (Job → Bool) → ℕ → ℕ → Job → Bool
owned test job fence j = j.id == job && j.fence == fence && test j

-- `where id = $1 and fence = $2 and status = 'claimed'`.
unfoldable pub startable : ℕ → ℕ → Job → Bool
startable = owned (λ j. is_claimed j.status)

unfoldable pub start_row : ℕ → Job → Job
start_row now j = record j {
  status = running;
  started_at = some now;
  attempt_count = j.attempt_count + 1;
}

-- What Start hands back: the execution's id and the attempt it is.
pub record Started : Type 0 where
  pub exec : ℕ
  pub attempt : ℕ

abbrev pub new_execution : ℕ → ℕ → ℕ → Job → Execution
new_execution now exec worker j = record {
  id = exec;
  job = j.id;
  queue = j.queue;
  attempt = j.attempt_count;
  replay_generation = j.replay_generation;
  fence = j.fence;
  worker = worker;
  outcome = none;
  error_class = none;
  error_message = none;
  started_at = now;
  finished_at = none;
}

unfoldable pub start_found : ℕ → ℕ → ℕ → ℕ → ℕ → Option Job → Db → Reply Started × Db
unfolding startable start_row
start_found now exec job fence worker none db = (fenced, db)
start_found now exec job fence worker (some j) db =
    let started = start_row now j in
    (
      ok (record { exec = exec; attempt = started.attempt_count }),
      record db {
        jobs = modify (startable job fence) (start_row now) db.jobs;
        executions = new_execution now exec worker started ∷ db.executions;
      },
    )

-- Start; `exec` is the fresh id of the execution. A statement that fails has changed nothing.
unfoldable pub start : Option DbError → ℕ → ℕ → ℕ → ℕ → ℕ → Db → Reply Started × Db
unfolding start_found
start fault now exec job fence worker db = elim fault [
  | some e ↦ (failed e, db)
  | none ↦ start_found now exec job fence worker (find (startable job fence) db.jobs) db
]

abbrev pub close_with : Outcome → ℕ → Option String → Option String → Execution → Execution
close_with outcome now class message x = record x {
  outcome = some outcome;
  finished_at = some now;
  error_class = class;
  error_message = message;
}

-- The ends that record no error.
abbrev pub close_as : Outcome → ℕ → Execution → Execution
close_as outcome now x = record x { outcome = some outcome; finished_at = some now }

-- `where id = exec and finished_at is null`.
abbrev pub open_execution : ℕ → Execution → Bool
open_execution exec x = x.id == exec && not (is_set x.finished_at)

-- `where job_id = job and finished_at is null`.
abbrev pub open_of_job : ℕ → Execution → Bool
open_of_job job x = x.job == job && not (is_set x.finished_at)

-- The generated column duration_ms, rounded as a cast to bigint does.
abbrev pub duration_ms : ℕ → Option Execution → ℕ
duration_ms now none = 0
duration_ms now (some x) = (now - x.started_at + 500) / 1000

abbrev pub delete_lease : ℕ → List Lease → List Lease
delete_lease job = select (λ l. not (l.job == job))

abbrev pub minute_of : ℕ → ℕ
minute_of now = now / 60000000

-- `insert into queue_stats_minute … on conflict (queue_id, minute) do update`, which adds up.
unfoldable pub add_stat : Stat → List Stat → List Stat
add_stat new [] = new ∷ []
add_stat new (s ∷ ss) =
    if s.queue == new.queue && s.minute == new.minute
    then record s {
      completed = s.completed + new.completed;
      failed = s.failed + new.failed;
      dead_lettered = s.dead_lettered + new.dead_lettered;
      duration_ms_sum = s.duration_ms_sum + new.duration_ms_sum;
    }
      ∷ ss
    else s ∷ add_stat new ss

abbrev pub event : Topic → ℕ → ℕ → EventPayload → Event
event topic entity project payload = record {
  topic = topic;
  entity = entity;
  project = project;
  payload = payload;
}
