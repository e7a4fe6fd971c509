-- ===== src/Jobs/Claim.antt =====
-- internal/jobs/claim.go: a claim is three transactions, admission, the taking of jobs, and the
-- return of the slots where the taking failed. A row that another transaction has locked is
-- skipped (`for update skip locked`); which rows those are is an argument.
use job_scheduling.Base.{
  ℕ, ◌+◌, ◌-◌, ◌*◌, Bool, true, not, ◌&&◌, ◌||◌, Option, none, some, List, [], ◌∷◌, ◌++◌, String,
  str_eq, ltb, leb, ◌==◌, if◌then◌else◌, find, modify, select, sort_by, exists, take, length,
}
use job_scheduling.Store.{Job, Lease, Db, claimed, is_queued, DbError, Reply, ok, failed}
use job_scheduling.Jobs.Slots.{queue_release}
use job_scheduling.Jobs.Admit.{queue_admit}

-- jobs.go: what a worker is handed.
pub record Claimed : Type 0 where
  pub id : ℕ
  pub fence : ℕ
  pub kind : String
  pub payload : String
  pub attempt_count : ℕ
  pub deadline_at : Option ℕ

pub record ClaimRequest : Type 0 where
  pub queue : ℕ
  pub worker : ℕ
  pub free_slots : ℕ
  pub lease : ℕ
  pub types : Option (List String)

-- `$5::text[] is null or j.type = any($5)`.
abbrev pub wants_type : Option (List String) → String → Bool
wants_type none t = true
wants_type (some ts) t = exists (str_eq t) ts

-- The rows that `cand` may lock.
unfoldable pub is_candidate : ℕ → (ℕ → Bool) → ClaimRequest → Job → Bool
is_candidate now locked req j =
    j.queue == req.queue
    && is_queued j.status
    && leb j.run_at now
    && wants_type req.types j.kind
    && not (locked j.id)

-- `order by priority desc, run_at asc, id asc`.
unfoldable pub claims_before : Job → Job → Bool
claims_before a b =
    ltb b.priority a.priority
    || (a.priority == b.priority
        && (ltb a.run_at b.run_at || (a.run_at == b.run_at && ltb a.id b.id)))

unfoldable pub candidates : ℕ → (ℕ → Bool) → ClaimRequest → ℕ → List Job → List Job
unfolding is_candidate claims_before
candidates now locked req n jobs =
    take n (sort_by claims_before (select (is_candidate now locked req) jobs))

unfoldable pub claim_row : ℕ → ClaimRequest → ℕ → Job → Job
claim_row now req shard j = record j {
  status = claimed;
  fence = j.fence + 1;
  shard = shard;
  worker = some req.worker;
  claimed_at = some now;
  deadline_at = some (now + j.timeout_ms * 1000);
}

-- `insert … on conflict (job_id) do update`: the progress of an old lease stays.
unfoldable pub upsert_lease : Lease → List Lease → List Lease
upsert_lease l [] = l ∷ []
upsert_lease l (m ∷ ms) =
    if m.job == l.job then record l { progress = m.progress } ∷ ms else m ∷ upsert_lease l ms

abbrev pub lease_row : ℕ → ClaimRequest → Job → Lease
lease_row now req j = record {
  job = j.id;
  fence = j.fence;
  worker = req.worker;
  expires_at = now + req.lease;
  progress = none;
  updated_at = now;
}

abbrev pub handed : Job → Claimed
handed j = record {
  id = j.id;
  fence = j.fence;
  kind = j.kind;
  payload = j.payload;
  attempt_count = j.attempt_count;
  deadline_at = j.deadline_at;
}

abbrev pub has_id : ℕ → Job → Bool
has_id i j = j.id == i

-- `j.id = cand.id`, of a row that is locked and so is still a candidate.
unfoldable pub claimable : ℕ → (ℕ → Bool) → ClaimRequest → ℕ → Job → Bool
unfolding is_candidate
claimable now locked req i j = has_id i j && is_candidate now locked req j

unfoldable pub claim_one :
    ℕ → (ℕ → Bool) → ClaimRequest → ℕ → ℕ → Option Job → Db → List Claimed × Db
unfolding claim_row upsert_lease claimable
claim_one now locked req shard i none db = ([], db)
claim_one now locked req shard i (some j) db =
    let new = claim_row now req shard j in
    (
      handed new ∷ [],
      record db {
        jobs = modify (claimable now locked req i) (claim_row now req shard) db.jobs;
        leases = upsert_lease (lease_row now req new) db.leases;
      },
    )

-- `upd` and `lease`, over the rows of `cand`.
unfoldable pub claim_all : ℕ → (ℕ → Bool) → ClaimRequest → ℕ → List Job → Db → List Claimed × Db
unfolding claim_one
claim_all now locked req shard [] db = ([], db)
claim_all now locked req shard (c ∷ cs) db =
    let (one, db1) =
      claim_one now locked req shard c.id (find (claimable now locked req c.id) db.jobs) db in
    let (rest, db2) = claim_all now locked req shard cs db1 in (one ++ rest, db2)

-- take: jobs for at most `n` reserved slots; those left over are released in the transaction.
unfoldable pub take_jobs : ℕ → (ℕ → Bool) → ClaimRequest → ℕ → ℕ → Db → List Claimed × Db
unfolding candidates claim_all queue_release
take_jobs now locked req shard n db =
    let (out, db') = claim_all now locked req shard (candidates now locked req n db.jobs) db in
    (
      out,
      if ltb (length out) n
          then record db' { shards = queue_release req.queue shard (n - length out) db'.shards }
          else db',
    )

-- What goes wrong outside the database during one claim.
pub record ClaimFaults : Type 0 where
  pub admit_fails : Option DbError
  pub take_fails : Option DbError
  pub give_fails : Option DbError

-- The second transaction, for `n` slots of a shard, and the third where it fails.
unfoldable pub take_granted :
    ℕ
    → (ℕ → Bool)
    → ClaimRequest
    → Option DbError
    → Option DbError
    → ℕ
    → ℕ
    → Db
    → Reply (List Claimed) × Db
unfolding take_jobs queue_release
take_granted now locked req give_fails none n shard db =
    let (out, db') = take_jobs now locked req shard n db in (ok out, db')
take_granted now locked req give_fails (some e) n shard db = (
  failed e,
  elim give_fails [
    | none ↦ record db { shards = queue_release req.queue shard n db.shards }
    | some _ ↦ db
  ],
)

unfoldable pub claim_granted :
    ℕ → (ℕ → Bool) → ClaimRequest → ClaimFaults → ℕ × ℕ × Db → Reply (List Claimed) × Db
unfolding take_granted
claim_granted now locked req faults (n, shard, db) =
    if n == 0
    then (ok [], db)
    else take_granted now locked req faults.give_fails faults.take_fails n shard db

-- Claim. A transaction that fails has changed nothing.
unfoldable pub claim :
    ℕ → ℕ → (ℕ → Bool) → ClaimRequest → ClaimFaults → Db → Reply (List Claimed) × Db
unfolding claim_granted queue_admit
claim now rot locked req faults db = elim faults.admit_fails [
  | some e ↦ (failed e, db)
  | none ↦ claim_granted now locked req faults (queue_admit now rot req.queue req.free_slots db)
]
