-- ===== src/Api/Queues.antt =====
-- Queues: createQueue, updateQueue, pauseQueue and resumeQueue of internal/api/queues.go, with the
-- checks of the table (migrations/002_core.sql, 027_shards.sql) and the trigger fl.spread, which
-- keeps a counter for each shard (030_shard_resize.sql). Rates and bursts are millionths of a token.
pub mod Removal
pub mod Shaped
pub mod Counters
pub mod Spreading
use job_scheduling.Base.{
  ℕ, zero, suc, ◌/◌, min, Bool, true, false, not, ◌&&◌, ◌||◌, Option, none, some, List, [], ◌∷◌,
  ◌++◌, String, str_eq, ltb, leb, ◌==◌, if◌then◌else◌, find, exists, modify, update_all, select,
  delete_all,
}
use job_scheduling.Store.{
  Job, Queue, Shard, Db, closed, is_active, is_shard, EventPayload, Topic, queue_paused,
  queue_resumed,
}
use job_scheduling.Jobs.Admit.{is_queue}
use job_scheduling.Jobs.Start.{event}
use job_scheduling.Api.Problem.{
  ApiReply, done, refused, bad_request, conflict, no_rows, ◌>>=◌, ◌>>◌, require,
}
use job_scheduling.Api.Submit.{or_else, expect, is_empty, assert_policy_owned}
use job_scheduling.Api.Pages.{ℤ, pos, negsuc}
use job_scheduling.Api.Policies.{number}

-- queueReq, decoded. A priority is shifted by 2^31, as in the rows.
pub record QueueReq : Type 0 where
  pub name : Option String
  pub retry_policy : Option String
  pub max_concurrency : Option ℤ
  pub shards : Option ℤ
  pub max_depth : Option ℤ
  pub default_priority : Option ℕ
  pub rl_limit_per_sec : Option ℤ
  pub rl_burst : Option ℤ

abbrev queue_range : String
queue_range = "queue values out of range"

-- The check constraints of queues that a request can break.
unfoldable pub queue_check : Queue → Bool
queue_check q =
    ltb 0 q.max_concurrency
    && (leb 1 q.shards && leb q.shards 64)
    && elim q.max_depth [ none ↦ true | some n ↦ ltb 0 n ]

abbrev pub same_queue_name : Queue → Queue → Bool
same_queue_name q r = r.project == q.project && str_eq r.name q.name && not (r.id == q.id)

-- A depth of the request, or the one that stands.
unfoldable pub depth_number : Option ℤ → Option ℕ → ApiReply (Option ℕ)
unfolding number
depth_number none d = done d
depth_number (some n) d = number queue_range (some n) 0 >>= λ m. done (some m)

-- The values of the request over a row.
unfoldable pub queue_numbers : QueueReq → Queue → ApiReply Queue
unfolding depth_number
queue_numbers req q = do
  most ← number queue_range req.max_concurrency q.max_concurrency
  shards ← number queue_range req.shards q.shards
  depth ← depth_number req.max_depth q.max_depth
  rate ← number queue_range req.rl_limit_per_sec q.rl_limit_per_sec
  burst ← number queue_range req.rl_burst q.rl_burst
  done (record q {
    max_concurrency = most;
    shards = shards;
    max_depth = depth;
    default_priority = or_else req.default_priority q.default_priority;
    rl_limit_per_sec = rate;
    rl_burst = burst;
  })

unfoldable pub admit_queue_row : Queue → List Queue → ApiReply (Unit {0})
unfolding queue_check
admit_queue_row q queues = do
  require (queue_check q) (bad_request queue_range)
  require (not (exists (same_queue_name q) queues))
      (conflict "queue name already used in this project")

-- A shard's part of the burst.
abbrev pub share : Queue → ℕ
share q = q.rl_burst / q.shards

-- `generate_series(0, shards - 1)`, each inserted unless it is there.
unfoldable pub add_shards : ℕ → Queue → ℕ → List Shard → List Shard
add_shards now q zero rows = rows
add_shards now q (suc n) rows =
    let rest = add_shards now q n rows in
    if exists (is_shard q.id n) rows
    then rest
    else record {
      queue = q.id;
      shard = n;
      in_flight = 0;
      rl_tokens = share q;
      rl_refilled_at = now;
    }
      ∷ rest

abbrev pub cap_tokens : Queue → Shard → Shard
cap_tokens q r = record r { rl_tokens = min r.rl_tokens (share q) }

abbrev pub of_queue_row : ℕ → Shard → Bool
of_queue_row q r = r.queue == q

-- The part of fl.spread that inserts and updates share.
unfoldable pub spread_rows : ℕ → Queue → List Shard → List Shard
unfolding add_shards
spread_rows now q rows =
    update_all (of_queue_row q.id) (cap_tokens q) (add_shards now q q.shards rows)

-- Does the queue still hold work?
unfoldable pub is_busy : ℕ → Db → Bool
is_busy q db =
    exists (λ r. of_queue_row q r && ltb 0 r.in_flight) db.shards
    || exists (λ j. j.queue == q && is_active j.status) db.jobs

-- fl.spread after an update.
unfoldable pub respread : ℕ → Queue → Queue → Db → ApiReply (List Shard)
unfolding spread_rows is_busy
respread now old q db = if q.shards == old.shards then done (spread_rows now q db.shards) else do
  require (not (is_busy q.id db))
      (conflict "shards cannot change while the queue holds running jobs")
  done (spread_rows now q (delete_all (λ r. of_queue_row q.id r && leb q.shards r.shard) db.shards))

abbrev zero_priority : ℕ
zero_priority = 2147483648

abbrev pub standard_queue : ℕ → ℕ → String → ℕ → Queue
standard_queue id project name policy = record {
  id = id;
  project = project;
  name = name;
  paused = false;
  shards = 1;
  max_concurrency = 10;
  max_depth = none;
  policy = policy;
  default_priority = zero_priority;
  rl_limit_per_sec = 0;
  rl_burst = 0;
  breaker_state = closed;
  breaker_open_until = none;
  breaker_probe_budget = 0;
}

-- The libraries' strings.TrimSpace and uuid.Parse.
pub record Texts : Type 0 where
  pub trim : String → String
  pub parse_uuid : String → Option ℕ

-- A policy that the request names, if it does.
unfoldable pub named_policy : Texts → Option String → ℕ → Db → ApiReply (Option ℕ)
unfolding assert_policy_owned
named_policy t none project db = done none
named_policy t (some text) project db = do
  id ← expect (t.parse_uuid text) (bad_request "invalid retry_policy_id")
  assert_policy_owned id project db
  done (some id)

-- createQueue.
unfoldable pub create_queue : Texts → ℕ → ℕ → ℕ → QueueReq → Db → ApiReply (Queue × Db)
unfolding named_policy queue_numbers admit_queue_row spread_rows
create_queue t now fresh project req db = do
  let name = t.trim (or_else req.name "")
  require (not (is_empty name)) (bad_request "name required")
  text ← expect req.retry_policy (bad_request "retry_policy_id required")
  policy ← named_policy t (some text) project db
  q ← queue_numbers req (standard_queue fresh project name (or_else policy 0))
  admit_queue_row q db.queues
  done (q, record db { queues = q ∷ db.queues; shards = spread_rows now q db.shards })

abbrev pub new_row : Queue → Queue → Queue
new_row q old = q

-- updateQueue.
unfoldable pub update_queue : Texts → ℕ → ℕ → ℕ → QueueReq → Db → ApiReply (Queue × Db)
unfolding named_policy queue_numbers admit_queue_row respread
update_queue t now project id req db = do
  policy ← named_policy t req.retry_policy project db
  old ← expect (find (is_queue id) db.queues) no_rows
  q ←
      queue_numbers req
        (record old { name = or_else req.name old.name; policy = or_else policy old.policy })
  admit_queue_row q db.queues
  rows ← respread now old q db
  done (q, record db { queues = modify (is_queue id) (new_row q) db.queues; shards = rows })

abbrev pub pause_topic : Bool → Topic
pause_topic true = queue_paused
pause_topic false = queue_resumed

-- setPaused: pauseQueue and resumeQueue.
unfoldable pub set_paused : ℕ → ℕ → Bool → Db → ApiReply Db
set_paused project id paused db = do
  old ← expect (find (is_queue id) db.queues) no_rows
  done (record db {
    queues = modify (is_queue id) (new_row (record old { paused = paused })) db.queues;
    events =
        db.events ++ event (pause_topic paused) id project (EventPayload.paused_is paused) ∷ [];
  })
