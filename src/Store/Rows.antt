-- ===== src/Store/Rows.antt =====
-- The rows of jobs, job_executions, job_leases, retry_policies, dead_letter_jobs, events and
-- queue_stats_minute, the constraints on a job row (003_constraints.sql, 020_dependencies.sql)
-- and the trigger that guards its updates (jobs_fsm in 016_fsm_inline.sql).
use job_scheduling.Base.{
  ℕ, Bool, true, false, not, ◌&&◌, ◌||◌, Option, none, some, String, List, leb, ◌==◌,
}
use job_scheduling.Store.Enums.{
  Status, Outcome, BackoffKind, is_active, is_running, is_idle, is_terminal, is_scheduled,
  legal_transition, same_status,
}

pub record Job : Type 0 where
  pub id : ℕ
  pub project : ℕ
  pub queue : ℕ
  pub shard : ℕ
  pub schedule : Option ℕ
  pub scheduled_for : Option ℕ
  pub batch : Option ℕ
  pub kind : String  -- the column `type`
  pub payload : String
  pub status : Status
  pub priority : ℕ
  pub run_at : ℕ
  pub fence : ℕ
  pub attempt_count : ℕ
  pub replay_generation : ℕ
  pub snooze_count : ℕ
  pub worker : Option ℕ
  pub deadline_at : Option ℕ
  pub timeout_ms : ℕ
  pub policy : ℕ
  pub pending_deps : ℕ
  pub created_at : ℕ
  pub claimed_at : Option ℕ
  pub started_at : Option ℕ
  pub finished_at : Option ℕ

pub record Policy : Type 0 where
  pub id : ℕ
  pub project : ℕ
  pub name : String
  pub kind : BackoffKind
  pub max_attempts : ℕ
  pub max_lost_attempts : ℕ
  pub base_delay_ms : ℕ
  pub max_delay_ms : ℕ
  pub jitter : Bool

-- job_executions.
pub record Execution : Type 0 where
  pub id : ℕ
  pub job : ℕ
  pub queue : ℕ
  pub attempt : ℕ
  pub replay_generation : ℕ
  pub fence : ℕ
  pub worker : ℕ
  pub outcome : Option Outcome
  pub error_class : Option String
  pub error_message : Option String
  pub started_at : ℕ
  pub finished_at : Option ℕ

-- job_leases.
pub record Lease : Type 0 where
  pub job : ℕ
  pub fence : ℕ
  pub worker : ℕ
  pub expires_at : ℕ
  pub progress : Option String
  pub updated_at : ℕ

-- dead_letter_jobs. The reason is the text that the source computes by a `case`.
pub data Reason : Type 0 where
  attempts_exhausted permanent_error lost_exhausted : Reason

pub record DeadLetter : Type 0 where
  pub job : ℕ
  pub queue : ℕ
  pub project : ℕ
  pub reason : Reason
  pub error_class : Option String
  pub error_message : Option String
  pub execution_history : List Execution
  pub dead_at : ℕ
  pub replayed_at : Option ℕ
  pub replayed_by : Option ℕ

-- The topics that fl.emit is called with.
pub data Topic : Type 0 where
  job_submitted job_queued job_completed job_failed job_lost job_dead_lettered job_snoozed : Topic
  job_cancelled job_retried job_replayed job_scheduled : Topic
  schedule_skipped_overlap schedule_ticks_skipped schedule_error : Topic
  breaker_opened breaker_reopened breaker_closed : Topic
  batch_submitted queue_paused queue_resumed : Topic

-- The json objects that the events carry.
pub data EventPayload : Type 0 where
  empty : EventPayload
  status_outcome : Status → Outcome → EventPayload
  delay_ms : ℕ → EventPayload
  from_status : Status → EventPayload
  from_ancestor : EventPayload
  status_is : Status → EventPayload
  generation : ℕ → EventPayload
  bulk : EventPayload
  skipped : ℕ → EventPayload
  count_is : ℕ → EventPayload
  paused_is : Bool → EventPayload

pub record Event : Type 0 where
  pub topic : Topic
  pub entity : ℕ
  pub project : ℕ
  pub payload : EventPayload

-- queue_stats_minute.
pub record Stat : Type 0 where
  pub queue : ℕ
  pub minute : ℕ
  pub completed : ℕ
  pub failed : ℕ
  pub dead_lettered : ℕ
  pub duration_ms_sum : ℕ

-- job_fence_violations.
pub record Violation : Type 0 where
  pub job : ℕ
  pub worker : ℕ
  pub held_fence : ℕ
  pub actual_fence : Option ℕ
  pub actual_status : Option Status

-- job_dependencies.
pub record Dependency : Type 0 where
  pub parent : ℕ
  pub child : ℕ

abbrev pub is_set {ℓ} : {A : Type ℓ} → Option A → Bool
is_set none = false
is_set (some a) = true

abbrev pub implies : Bool → Bool → Bool
implies true b = b
implies false b = true

abbrev pub iff : Bool → Bool → Bool
iff true b = b
iff false b = not b

-- The check constraints on one job row that any update of it can break. Left out is
-- jobs_scheduled_deps_or_future, which compares run_at with created_at.
unfoldable pub row_check : Job → Bool
row_check j =
    iff (is_terminal j.status) (is_set j.finished_at)
    && implies (is_active j.status) (is_set j.worker && is_set j.claimed_at && is_set j.deadline_at)
    && implies (is_running j.status) (is_set j.started_at)
    && implies (is_idle j.status) (not (is_set j.worker))
    && (j.pending_deps == 0 || is_scheduled j.status)
    && leb j.attempt_count j.fence

-- The trigger jobs_fsm lets this update pass.
unfoldable pub jobs_fsm : Job → Job → Bool
unfolding legal_transition
jobs_fsm old new =
    leb old.fence new.fence
    && (same_status old.status new.status || legal_transition old.status new.status)
