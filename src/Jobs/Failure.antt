-- ===== src/Jobs/Failure.antt =====
-- fl.report_failure of migrations/028_shard_release.sql with fl.backoff of 007_functions.sql, and
-- Fail of internal/jobs/report.go.
use job_scheduling.Base.{
  ℕ, ◌+◌, ◌-◌, ◌*◌, ◌^◌, min, max, Bool, true, false, ◌&&◌, ◌||◌, Option, none, some, List, [], ◌∷◌,
  ◌++◌, String, ltb, leb, ◌==◌, if◌then◌else◌, find, modify, update_all, select, sort_by, exists,
  map,
}
use job_scheduling.Store.{
  Job, Execution, Policy, Outcome, Db, DbError, Reply, failed, is_active, BackoffKind, fixed,
  linear, exponential, retry_wait, dead_letter, DeadLetter, Reason, attempts_exhausted,
  lost_exhausted, Topic, EventPayload, Event, job_failed, job_lost, job_dead_lettered,
  job_cancelled,
}
use job_scheduling.Jobs.Slots.{queue_release}
use job_scheduling.Jobs.Deps.{cancel_descendants, killed}
use job_scheduling.Jobs.Start.{close_with, open_of_job, delete_lease, minute_of, add_stat, event}
use job_scheduling.Jobs.Success.{by_project, reply_of}

-- The `case` of fl.backoff.
unfoldable pub delay_factor : BackoffKind → ℕ → ℕ
delay_factor fixed attempt = 1
delay_factor linear attempt = max attempt 1
delay_factor exponential attempt = 2 ^ (attempt - 1)

-- The delay before jitter, in milliseconds.
unfoldable pub base_delay : Policy → ℕ → ℕ
unfolding delay_factor
base_delay rp attempt = min rp.max_delay_ms (rp.base_delay_ms * delay_factor rp.kind attempt)

-- fl.backoff in microseconds. `draw d` stands for `random() * d`.
unfoldable pub backoff : (ℕ → ℕ) → Policy → ℕ → ℕ
unfolding base_delay
backoff draw rp attempt = let d = base_delay rp attempt * 1000 in if rp.jitter then draw d else d

-- `permanent or j.attempt_count >= rp.max_attempts`.
abbrev pub exhausted : Bool → Policy → Job → Bool
exhausted permanent rp j = permanent || leb rp.max_attempts j.attempt_count

-- No fence is given by the reaper.
abbrev pub fence_is : Option ℕ → Job → Bool
fence_is none j = true
fence_is (some fence) j = j.fence == fence

unfoldable pub failable : ℕ → Option ℕ → Job → Bool
failable job fence j = j.id == job && is_active j.status && fence_is fence j

unfoldable pub fail_row : (ℕ → ℕ) → ℕ → Bool → Policy → Job → Job
unfolding backoff
fail_row draw now permanent rp j =
    if exhausted permanent rp j
    then record j { status = dead_letter; finished_at = some now; worker = none }
    else record j {
      status = retry_wait;
      run_at = now + backoff draw rp j.attempt_count;
      finished_at = none;
      worker = none;
    }

abbrev reason_of : Bool → Outcome → Reason
reason_of true outcome = Reason.permanent_error
reason_of false Outcome.lost = lost_exhausted
reason_of false _ = attempts_exhausted

abbrev failure_topic : Bool → Outcome → Topic
failure_topic true outcome = job_dead_lettered
failure_topic false Outcome.lost = job_lost
failure_topic false _ = job_failed

abbrev killed_events : List Job → List Event
killed_events ks =
    map (λ k. event job_cancelled k.id k.project EventPayload.from_ancestor) (sort_by by_project ks)

abbrev by_attempt : Execution → Execution → Bool
by_attempt a b = ltb a.attempt b.attempt

-- `insert … on conflict (job_id) do nothing`.
unfoldable pub add_dead_letter : DeadLetter → List DeadLetter → List DeadLetter
add_dead_letter d ds = if exists (λ x. x.job == d.job) ds then ds else d ∷ ds

-- What a failure is reported with.
pub record Failure : Type 0 where
  pub outcome : Outcome
  pub error_class : Option String
  pub error_message : Option String
  pub permanent : Bool

abbrev to_dead_letter : ℕ → Failure → Job → List Execution → DeadLetter
to_dead_letter now f j xs = record {
  job = j.id;
  queue = j.queue;
  project = j.project;
  reason = reason_of f.permanent f.outcome;
  error_class = f.error_class;
  error_message = f.error_message;
  execution_history = sort_by by_attempt (select (λ x. x.job == j.id) xs);
  dead_at = now;
  replayed_at = none;
  replayed_by = none;
}

-- A failure that leaves the job to be tried again.
unfoldable pub retried : ℕ → Failure → Job → Db → Db
unfolding add_stat queue_release
retried now f j db = record db {
  executions =
      update_all (open_of_job j.id) (close_with f.outcome now f.error_class f.error_message)
        db.executions;
  leases = delete_lease j.id db.leases;
  stats =
      add_stat
        (record {
          queue = j.queue;
          minute = minute_of now;
          completed = 0;
          failed = 1;
          dead_lettered = 0;
          duration_ms_sum = 0;
        })
        db.stats;
  shards = queue_release j.queue j.shard 1 db.shards;
  events =
      db.events
      ++ event (failure_topic false f.outcome) j.id j.project
          (EventPayload.status_outcome retry_wait f.outcome)
        ∷ [];
}

-- A failure that ends the job, and cancels what depends on it.
unfoldable pub buried : ℕ → Failure → Job → Db → Db
unfolding add_stat queue_release cancel_descendants killed add_dead_letter
buried now f j db =
    let dead = killed j.id db.dependencies db.jobs in
    let executions' =
      update_all (open_of_job j.id) (close_with f.outcome now f.error_class f.error_message)
        db.executions in
    record db {
      jobs = cancel_descendants now j.id db.dependencies db.jobs;
      executions = executions';
      leases = delete_lease j.id db.leases;
      stats =
          add_stat
            (record {
              queue = j.queue;
              minute = minute_of now;
              completed = 0;
              failed = 0;
              dead_lettered = 1;
              duration_ms_sum = 0;
            })
            db.stats;
      dead_letters = add_dead_letter (to_dead_letter now f j executions') db.dead_letters;
      shards = queue_release j.queue j.shard 1 db.shards;
      events =
          db.events
          ++ killed_events dead
          ++ event (failure_topic true f.outcome) j.id j.project
              (EventPayload.status_outcome dead_letter f.outcome)
            ∷ [];
    }

unfoldable pub failure_of :
    (ℕ → ℕ) → ℕ → ℕ → Option ℕ → Failure → Job → Option Policy → Db → Option ℕ × Db
unfolding failable fail_row retried buried
failure_of draw now job fence f j none db = (none, db)
failure_of draw now job fence f j (some rp) db =
    let db1 = record db {
      jobs = modify (failable job fence) (fail_row draw now f.permanent rp) db.jobs;
    } in
    (some j.queue, if exhausted f.permanent rp j then buried now f j db1 else retried now f j db1)

unfoldable pub failure_found :
    (ℕ → ℕ) → ℕ → ℕ → Option ℕ → Failure → Option Job → Db → Option ℕ × Db
unfolding failure_of
failure_found draw now job fence f none db = (none, db)
failure_found draw now job fence f (some j) db =
    failure_of draw now job fence f j (find (λ rp. rp.id == j.policy) db.policies) db

-- fl.report_failure: the queue of the job, or no row.
unfoldable pub report_failure : (ℕ → ℕ) → ℕ → ℕ → Option ℕ → Failure → Db → Option ℕ × Db
unfolding failure_found
report_failure draw now job fence f db =
    failure_found draw now job fence f (find (failable job fence) db.jobs) db

-- Whether a cause wraps ErrPermanent, and its text, is what Fail reads of it.
unfoldable pub failure_for : Bool → String → Failure
failure_for permanent message =
    if permanent
    then record {
      outcome = Outcome.permanent_error;
      error_class = some "permanent_error";
      error_message = some message;
      permanent = true;
    }
    else record {
      outcome = Outcome.retryable_error;
      error_class = some "retryable_error";
      error_message = some message;
      permanent = false;
    }

-- Fail. A transaction that fails has changed nothing.
unfoldable pub fail : Option DbError → (ℕ → ℕ) → ℕ → ℕ → ℕ → Bool → String → Db → Reply ℕ × Db
unfolding report_failure failure_for
fail fault draw now job fence permanent message db = elim fault [
  | some e ↦ (failed e, db)
  | none ↦ reply_of (report_failure draw now job (some fence) (failure_for permanent message) db)
]
