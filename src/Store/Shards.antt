-- ===== src/Store/Shards.antt =====
-- The rows of queues and queue_shards, and the whole database.
use job_scheduling.Base.{ℕ, Bool, ◌&&◌, Option, none, some, List, ◌==◌, find, String}
use job_scheduling.Store.Enums.{BreakerState}
use job_scheduling.Store.Rows.{
  Job, Policy, Execution, Lease, DeadLetter, Event, Stat, Violation, Dependency,
}

-- The numeric rl_limit_per_sec, rl_burst and rl_tokens are counted in millionths of a token.
pub record Queue : Type 0 where
  pub id : ℕ
  pub project : ℕ
  pub name : String
  pub paused : Bool
  pub shards : ℕ
  pub max_concurrency : ℕ
  pub max_depth : Option ℕ
  pub policy : ℕ
  pub default_priority : ℕ
  pub rl_limit_per_sec : ℕ
  pub rl_burst : ℕ
  pub breaker_state : BreakerState
  pub breaker_open_until : Option ℕ
  pub breaker_probe_budget : ℕ

pub record Shard : Type 0 where
  pub queue : ℕ
  pub shard : ℕ
  pub in_flight : ℕ
  pub rl_tokens : ℕ
  pub rl_refilled_at : ℕ

pub data Overlap : Type 0 where
  allow skip : Overlap

pub data Catchup : Type 0 where
  skip fire_once : Catchup

pub record Schedule : Type 0 where
  pub id : ℕ
  pub queue : ℕ
  pub name : String
  pub cron_expr : String
  pub timezone : String
  pub job_type : String
  pub payload : String
  pub enabled : Bool
  pub overlap_policy : Overlap
  pub catchup_policy : Catchup
  pub next_run_at : ℕ
  pub last_fired_for : Option ℕ

-- idempotency_keys.
pub record IdempotencyKey : Type 0 where
  pub queue : ℕ
  pub key : String
  pub job : ℕ
  pub fingerprint : String
  pub expires_at : ℕ

pub record Db : Type 0 where
  pub jobs : List Job
  pub executions : List Execution
  pub leases : List Lease
  pub policies : List Policy
  pub queues : List Queue
  pub shards : List Shard
  pub schedules : List Schedule
  pub dependencies : List Dependency
  pub dead_letters : List DeadLetter
  pub stats : List Stat
  pub events : List Event
  pub violations : List Violation
  pub idempotency_keys : List IdempotencyKey

-- `where queue_id = q and shard = s`.
abbrev pub is_shard : ℕ → ℕ → Shard → Bool
is_shard q s r = r.queue == q && r.shard == s

abbrev pub in_flight_of : Option Shard → ℕ
in_flight_of none = 0
in_flight_of (some r) = r.in_flight

-- The counter of one shard; 0 where it has no row.
abbrev pub in_flight : ℕ → ℕ → List Shard → ℕ
in_flight q s shards = in_flight_of (find (is_shard q s) shards)
