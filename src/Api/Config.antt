-- ===== src/Api/Config.antt =====
-- Policies, queues and schedules under any sequence of the configuration requests of internal/api
-- (policies.go, queues.go, schedules.go): their tables as one state, a request that succeeds as a step.
use job_scheduling.Base.{
  ℕ, ◌≡◌, subst, Bool, false, not, ◌==◌, none, List, find, exists, delete_all,
}
use job_scheduling.Store.{Policy, Queue, Schedule, Shard, Db, is_shard}
use job_scheduling.Jobs.Admit.{is_queue}
use job_scheduling.Api.Problem.{done}
use job_scheduling.Api.Policies.{PolicyReq, create_policy, update_policy, delete_policy}
use job_scheduling.Api.Policies.Checked.{
  ArePolicies, create_policy-ArePolicies, update_policy-ArePolicies, delete_policy-ArePolicies,
}
use job_scheduling.Api.Queues.{QueueReq, Texts, create_queue, update_queue, set_paused}
use job_scheduling.Api.Queues.Shaped.{
  AreQueues, create_queue-AreQueues, update_queue-AreQueues, set_paused-AreQueues,
  delete_queue-AreQueues,
}
use job_scheduling.Api.Queues.Removal.{delete_queue}
use job_scheduling.Api.Schedules.{
  Clockwork, ScheduleReq, create_schedule, update_schedule, delete_schedule, set_enabled,
}
use job_scheduling.Api.Schedules.Listed.{
  AreSchedules, Writes, create_schedule-Writes, update_schedule-Writes,
  delete_schedule-AreSchedules, AreSchedules-select, set_enabled-Writes,
}

-- What the libraries answer: the same for every request.
pub record Answers : Type 0 where
  pub texts : Texts
  pub clockwork : Clockwork

-- A request that changes the configuration. The id of a new queue is one that no row has.
pub data ConfigStep (a : Answers) : Db → Db → Type 0 where
  creates_policy :
      (fresh project : ℕ) (req : PolicyReq) {db : Db} (p : Policy) {db' : Db}
      → create_policy a.texts.trim fresh project req db ≡ done (p, db')
      → ConfigStep a db db'
  updates_policy :
      (id : ℕ) (req : PolicyReq) {db : Db} (p : Policy) {db' : Db}
      → update_policy id req db ≡ done (p, db')
      → ConfigStep a db db'
  deletes_policy : (id : ℕ) {db db' : Db} → delete_policy id db ≡ done db' → ConfigStep a db db'
  creates_queue :
      (now fresh project : ℕ) (req : QueueReq) {db : Db} (q : Queue) {db' : Db}
      → find (is_queue fresh) db.queues ≡ none
      → ((s : ℕ) → exists (is_shard fresh s) db.shards ≡ false)
      → create_queue a.texts now fresh project req db ≡ done (q, db')
      → ConfigStep a db db'
  updates_queue :
      (now project id : ℕ) (req : QueueReq) {db : Db} (q : Queue) {db' : Db}
      → update_queue a.texts now project id req db ≡ done (q, db')
      → ConfigStep a db db'
  pauses_queue :
      (project id : ℕ) (paused : Bool) {db db' : Db}
      → set_paused project id paused db ≡ done db'
      → ConfigStep a db db'
  deletes_queue : (id : ℕ) {db : Db} → ConfigStep a db (delete_queue id db)
  creates_schedule :
      (now fresh queue : ℕ) (req : ScheduleReq) {db : Db} (d : Schedule) {db' : Db}
      → create_schedule a.clockwork now fresh queue req db ≡ done (d, db')
      → ConfigStep a db db'
  updates_schedule :
      (now id : ℕ) (req : ScheduleReq) {db : Db} (d : Schedule) {db' : Db}
      → update_schedule a.clockwork now id req db ≡ done (d, db')
      → ConfigStep a db db'
  deletes_schedule : (id : ℕ) {db : Db} → ConfigStep a db (delete_schedule id db)
  pauses_schedule :
      (id : ℕ) (enabled : Bool) {db db' : Db}
      → set_enabled id enabled db ≡ done db'
      → ConfigStep a db db'

-- Any number of them, the last one last.
pub data Configures (a : Answers) (db : Db) : Db → Type 0 where
  untouched : Configures a db db
  after :
      {between db' : Db} → Configures a db between → ConfigStep a between db' → Configures a db db'

-- The three tables at once.
abbrev pub IsConfig : Answers → Db → Type 0
IsConfig a db =
    ArePolicies db.policies × AreQueues db.queues db.shards × AreSchedules a.clockwork db.schedules

schedules-IsConfig :
    (a : Answers) (db db' : Db) → Writes a.clockwork db db' → IsConfig a db → IsConfig a db'
schedules-IsConfig a db db' (ds, e, kept) (policies, queues, schedules) =
    subst (IsConfig a) e (policies, queues, kept)

policies-IsConfig :
    (a : Answers) (db db' : Db)
    → ((ps : List Policy) × (record db { policies = ps } ≡ db') × ArePolicies ps)
    → IsConfig a db
    → IsConfig a db'
policies-IsConfig a db db' (ps, e, kept) (policies, queues, schedules) =
    subst (IsConfig a) e (kept, queues, schedules)

queues-IsConfig :
    (a : Answers) (db db' : Db)
    → ((qs : List Queue) × (rows : List Shard) × (record db { queues = qs; shards = rows } ≡ db')
        × AreQueues qs rows)
    → IsConfig a db
    → IsConfig a db'
queues-IsConfig a db db' (qs, rows, e, kept) (policies, queues, schedules) =
    subst (IsConfig a) e (policies, kept, schedules)

delete_queue-IsConfig :
    (a : Answers) (id : ℕ) (db : Db) → IsConfig a db → IsConfig a (delete_queue id db)
unfolding delete_queue delete_all
delete_queue-IsConfig a id db (policies, queues, schedules) = (
  policies,
  delete_queue-AreQueues id db queues,
  AreSchedules-select a.clockwork (λ d. not (d.queue == id)) db.schedules schedules,
)

delete_schedule-IsConfig :
    (a : Answers) (id : ℕ) (db : Db) → IsConfig a db → IsConfig a (delete_schedule id db)
unfolding delete_schedule
delete_schedule-IsConfig a id db (policies, queues, schedules) = (
  policies,
  queues,
  unfold delete_schedule in delete_schedule-AreSchedules a.clockwork id db schedules,
)

ConfigStep-IsConfig :
    (a : Answers) (db db' : Db) → ConfigStep a db db' → IsConfig a db → IsConfig a db'
ConfigStep-IsConfig a db db' (creates_policy fresh project req p h) c =
    policies-IsConfig a db db' (create_policy-ArePolicies _ fresh project req db p db' h c.0) c
ConfigStep-IsConfig a db db' (updates_policy id req p h) c =
    policies-IsConfig a db db' (update_policy-ArePolicies id req db p db' h c.0) c
ConfigStep-IsConfig a db db' (deletes_policy id h) c =
    policies-IsConfig a db db' (delete_policy-ArePolicies id db db' h c.0) c
ConfigStep-IsConfig a db db' (creates_queue now fresh project req q unused no_rows h) c =
    queues-IsConfig a db db'
      (create_queue-AreQueues a.texts now fresh project req db q db' h unused no_rows c.1) c
ConfigStep-IsConfig a db db' (updates_queue now project id req q h) c =
    queues-IsConfig a db db' (update_queue-AreQueues a.texts now project id req db q db' h c.1) c
ConfigStep-IsConfig a db db' (pauses_queue project id paused h) c =
    let (qs, e, kept) = set_paused-AreQueues project id paused db db' h c.1 in
    subst (IsConfig a) e (c.0, kept, c.2)
ConfigStep-IsConfig a db db' (deletes_queue id) c = delete_queue-IsConfig a id db c
ConfigStep-IsConfig a db db' (creates_schedule now fresh queue req d h) c =
    schedules-IsConfig a db db'
      (create_schedule-Writes a.clockwork now fresh queue req db d db' h c.2) c
ConfigStep-IsConfig a db db' (updates_schedule now id req d h) c =
    schedules-IsConfig a db db' (update_schedule-Writes a.clockwork now id req db d db' h c.2) c
ConfigStep-IsConfig a db db' (deletes_schedule id) c = delete_schedule-IsConfig a id db c
ConfigStep-IsConfig a db db' (pauses_schedule id enabled h) c =
    schedules-IsConfig a db db' (set_enabled-Writes a.clockwork id enabled db db' h c.2) c

-- From tables that are in order, any sequence of requests that create, update and delete policies,
-- create, update, delete, pause and resume queues, and create, update, delete, pause and resume schedules
-- leaves tables in order, where a new queue's id is one that no queue and no counter has: every
-- policy and every queue passes the checks of its table; no two policies or queues of a project
-- and no two schedules of a queue have one name; each queue that is looked up has a counter for each of
-- its shards and no other, none with more tokens than its share of the burst, however the queue
-- has been resized; and the database knows the timezone of each schedule.
pub Configures-IsConfig :
    (a : Answers) (db db' : Db) → Configures a db db' → IsConfig a db → IsConfig a db'
Configures-IsConfig a db db' untouched c = c
Configures-IsConfig a db db' (after {between} r s) c =
    ConfigStep-IsConfig a between db' s (Configures-IsConfig a db between r c)
