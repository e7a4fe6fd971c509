-- ===== src/Api/Submit.antt =====
-- submitJob of internal/api/jobs.go. What the handler takes from other libraries is a record of
-- functions: strings.TrimSpace, json.Valid, uuid.Parse, and the sha256 of `fingerprint`.
use job_scheduling.Base.{
  ℕ, ◌+◌, Bool, not, ◌&&◌, ◌||◌, Option, none, some, List, [], ◌∷◌, ◌++◌, String, str_eq, ltb, leb,
  ◌==◌, if◌then◌else◌, select, exists, find, count,
}
use job_scheduling.Store.{
  Job, Queue, Db, IdempotencyKey, scheduled, queued, is_queued, check_violation, EventPayload,
  job_submitted,
}
use job_scheduling.Jobs.Admit.{is_queue}
use job_scheduling.Jobs.Claim.{has_id}
use job_scheduling.Jobs.Start.{event}
use job_scheduling.Api.Problem.{
  ApiError, ApiReply, done, refused, bad_request, conflict, too_many, database, conflict_retry,
  no_rows, ◌>>=◌, ◌>>◌, require,
}
use job_scheduling.Api.Links.{parent_ids, pending_parents, link}

-- submitReq, decoded. An absent payload is the empty text.
pub record SubmitReq : Type 0 where
  pub kind : String
  pub payload : String
  pub priority : Option ℕ
  pub run_at : Option ℕ
  pub timeout_ms : Option ℕ
  pub retry_policy : Option String
  pub depends_on : List String

pub record Libraries : Type 0 where
  pub trim : String → String
  pub json_valid : String → Bool
  pub parse_uuid : String → Option ℕ
  pub fingerprint : String → String → ℕ → ℕ → ℕ → Option ℕ → String

-- The request's place: the queue and project of its scope, the Idempotency-Key header, the clock,
-- the id of the new row, and whether another transaction has just inserted the key.
pub record Call : Type 0 where
  pub queue : ℕ
  pub project : ℕ
  pub key : String
  pub now : ℕ
  pub fresh : ℕ
  pub raced : Bool

abbrev pub or_else {ℓ} : {A : Type ℓ} → Option A → A → A
or_else none d = d
or_else (some a) d = a

abbrev pub expect {ℓ} : {A : Type ℓ} → Option A → ApiError → ApiReply A
expect none e = refused e
expect (some a) e = done a

abbrev pub is_empty : String → Bool
is_empty s = str_eq s ""

-- assertPolicyOwned of queues.go.
unfoldable pub assert_policy_owned : ℕ → ℕ → Db → ApiReply (Unit {0})
assert_policy_owned policy project db =
    require (exists (λ p. p.id == policy && p.project == project) db.policies)
      (bad_request "retry_policy_id does not belong to this project")

unfoldable pub choose_policy : Libraries → Option String → Call → Queue → Db → ApiReply ℕ
unfolding assert_policy_owned
choose_policy lib none call qr db = done qr.policy
choose_policy lib (some text) call qr db = do
  policy ← expect (lib.parse_uuid text) (bad_request "invalid retry_policy_id")
  assert_policy_owned policy call.project db
  done policy

-- queuedCountSQL.
abbrev pub depth_of : ℕ → List Job → ℕ
depth_of q = count (λ j. j.queue == q && is_queued j.status)

-- A job for later does not count against the cap. The cap is advisory: two submissions that count
-- at once can both be let in.
unfoldable pub check_depth : Option ℕ → Option ℕ → ℕ → Db → ApiReply (Unit {0})
check_depth none run_at q db = done tt
check_depth (some most) (some t) q db = done tt
check_depth (some most) none q db =
    require (ltb (depth_of q db.jobs) most) (too_many "queue depth cap reached" 1)

-- What a request comes to, before anything is written.
pub record Draft : Type 0 where
  pub kind : String
  pub payload : String
  pub priority : ℕ
  pub timeout_ms : ℕ
  pub policy : ℕ
  pub run_at : Option ℕ

unfoldable pub draft : Libraries → SubmitReq → Call → Db → ApiReply Draft
unfolding choose_policy check_depth
draft lib req call db = do
  let kind = lib.trim req.kind
  require (not (is_empty kind)) (bad_request "type required")
  let payload = if is_empty req.payload then "{}" else req.payload
  require (lib.json_valid payload) (bad_request "payload is not valid json")
  qr ← expect (find (is_queue call.queue) db.queues) no_rows
  policy ← choose_policy lib req.retry_policy call qr db
  check_depth qr.max_depth req.run_at call.queue db
  done (record {
    kind = kind;
    payload = payload;
    priority = or_else req.priority qr.default_priority;
    timeout_ms = or_else req.timeout_ms 300000;
    policy = policy;
    run_at = req.run_at;
  })

abbrev pub is_key : ℕ → String → IdempotencyKey → Bool
is_key q key k = k.queue == q && str_eq k.key key

-- insertJobSQL.
unfoldable pub new_job : Draft → Call → ℕ → Job
new_job d call pending = record {
  id = call.fresh;
  project = call.project;
  queue = call.queue;
  shard = 0;
  schedule = none;
  scheduled_for = none;
  batch = none;
  kind = d.kind;
  payload = d.payload;
  status = if ltb 0 pending || ltb call.now (or_else d.run_at call.now) then scheduled else queued;
  priority = d.priority;
  run_at = or_else d.run_at call.now;
  fence = 0;
  attempt_count = 0;
  replay_generation = 0;
  snooze_count = 0;
  worker = none;
  deadline_at = none;
  timeout_ms = d.timeout_ms;
  policy = d.policy;
  pending_deps = pending;
  created_at = call.now;
  claimed_at = none;
  started_at = none;
  finished_at = none;
}

-- 24 hours, the default of idempotency_keys.expires_at.
abbrev pub key_life : ℕ
key_life = 86400000000

unfoldable pub save_key : Call → String → Db → ApiReply Db
save_key call fp db =
    if is_empty call.key
    then done db
    else if call.raced
    then refused conflict_retry
    else done (record db {
      idempotency_keys =
          record {
            queue = call.queue;
            key = call.key;
            job = call.fresh;
            fingerprint = fp;
            expires_at = call.now + key_life;
          }
          ∷ db.idempotency_keys;
    })

unfoldable pub link_parents : ℕ → List ℕ → Db → ApiReply Db
unfolding link
link_parents child [] db = done db
link_parents child (p ∷ ps) db = link child (p ∷ ps) db

-- The outcome of a submission: a new job, or the one that the key names.
pub data Submitted : Type 0 where
  created : Job → Submitted
  existing : Job → Submitted

-- The part of the handler behind the idempotency check.
unfoldable pub insert_job :
    Libraries → SubmitReq → Call → Draft → String → Db → ApiReply (Submitted × Db)
unfolding new_job save_key link_parents parent_ids pending_parents
insert_job lib req call d fp db = do
  parents ← parent_ids lib.parse_uuid req.depends_on
  let job = new_job d call (pending_parents parents call.project db.jobs)
  require (ltb 0 job.timeout_ms) (database check_violation)
  keyed ← save_key call fp (record db { jobs = job ∷ db.jobs })
  linked ← link_parents job.id parents keyed
  done (
    created job,
    record linked {
      events =
          linked.events
          ++ event job_submitted job.id call.project (EventPayload.status_is job.status) ∷ [];
    },
  )

-- A key that is already there: replayed, refused, or expired and dropped.
unfoldable pub with_key :
    Libraries
    → SubmitReq
    → Call
    → Draft
    → String
    → Option IdempotencyKey
    → Db
    → ApiReply (Submitted × Db)
unfolding insert_job
with_key lib req call d fp none db = insert_job lib req call d fp db
with_key lib req call d fp (some k) db =
    if leb k.expires_at call.now
    then insert_job lib req call d fp (record db {
      idempotency_keys = select (λ x. not (is_key call.queue call.key x)) db.idempotency_keys;
    })
    else do
      require (str_eq k.fingerprint fp) (conflict "idempotency key reused with a different payload")
      job ← expect (find (has_id k.job) db.jobs) no_rows
      done (existing job, db)

unfoldable pub submit_draft : Libraries → SubmitReq → Call → Draft → Db → ApiReply (Submitted × Db)
unfolding with_key
submit_draft lib req call d db =
    let fp = lib.fingerprint d.kind d.payload d.priority d.timeout_ms d.policy d.run_at in
    if is_empty call.key
    then insert_job lib req call d "" db
    else with_key lib req call d fp (find (is_key call.queue call.key) db.idempotency_keys) db

-- submitJob, with the key trimmed. Where it refuses, the transaction is rolled back.
unfoldable pub submit_job : Libraries → SubmitReq → Call → Db → ApiReply (Submitted × Db)
unfolding draft submit_draft
submit_job lib req call db = draft lib req call db >>= λ d. submit_draft lib req call d db
