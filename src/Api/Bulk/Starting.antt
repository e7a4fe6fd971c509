-- ===== src/Api/Bulk/Starting.antt =====
-- The new rows of a batch, and what getBatch says of them (internal/api/jobs.go, batches.go).
use job_scheduling.Base.{
  ℕ, suc, ◌+◌, ◌≤◌, ◌<◌, ◌≡◌, refl, sym, ◌∙◌, ap, true, false, Option, none, some, List, [], ◌∷◌,
  ◌++◌, arith, ◌==◌, count, length, count-append, count-All, count_none, All, All-map,
}
use job_scheduling.Store.{Job, Db, Status, is_terminal, is_active, row_check}
use job_scheduling.Scheduler.Cron.{same_id}
use job_scheduling.System.Life.{well_formed}
use job_scheduling.Api.Problem.{done}
use job_scheduling.Api.Submit.{SubmitReq, Libraries, Call, Draft, new_job, depth_of}
use job_scheduling.Api.Binds.{done-eq, bind-done, require-done}
use job_scheduling.Api.Bulk.{
  read_item, read_items, check_batch_depth, batch_job, batch_jobs, in_batch, BatchStatus, get_batch,
  batch_view, all_statuses, status_counts, tally,
}
use job_scheduling.Api.Bulk.Counting.{ended_in, tally_lem}

read_item-policy :
    (lib : Libraries) (policy priority : ℕ) (req : SubmitReq) (d : Draft)
    → read_item lib policy priority req ≡ done d
    → d.policy ≡ policy
unfolding read_item
read_item-policy lib policy priority req d h =
    let (u, typed, h1) = bind-done _ _ _ h in
    let (v, valid, h2) = bind-done _ _ _ h1 in sym (ap (λ (x : Draft). x.policy) (done-eq _ d h2))

pub read_items_lem :
    (lib : Libraries) (policy priority : ℕ) (reqs : List SubmitReq) (ds : List Draft)
    → read_items lib policy priority reqs ≡ done ds
    → (length ds ≡ length reqs) × All (λ d. d.policy ≡ policy) ds
unfolding read_items
read_items_lem lib policy priority [] ds h = let e = done-eq [] ds h in rw (← e) (refl, tt)
read_items_lem lib policy priority (req ∷ reqs) ds h =
    let (d, first, h1) = bind-done _ _ _ h in
    let (rest, others, h2) = bind-done _ _ _ h1 in
    let (n, a) = read_items_lem lib policy priority reqs rest others in
    let e = done-eq _ ds h2 in
    rw (← e) (omega (arith, n), (read_item-policy lib policy priority req d first, a))

-- A row of the batch: new, of the call's queue and project, with the queue's policy, waiting.
abbrev pub IsOfBatch : Call → ℕ → ℕ → Job → Type 0
IsOfBatch call batch policy j =
    (j.batch ≡ some batch)
    × (j.queue ≡ call.queue)
    × (j.project ≡ call.project)
    × (j.policy ≡ policy)
    × (j.attempt_count ≡ 0)
    × (j.pending_deps ≡ 0)
    × (is_active j.status ≡ false)
    × (is_terminal j.status ≡ false)
    × (well_formed j ≡ true)

pub batch_jobs_lem :
    (fresh : ℕ → ℕ) (call : Call) (batch policy i : ℕ) (ds : List Draft)
    → All (λ d. d.policy ≡ policy) ds
    → (length (batch_jobs fresh call batch i ds) ≡ length ds)
      × All (IsOfBatch call batch policy) (batch_jobs fresh call batch i ds)
unfolding batch_jobs batch_job new_job well_formed row_check
batch_jobs_lem fresh call batch policy i [] a = (refl, tt)
batch_jobs_lem fresh call batch policy i (d ∷ ds) (p, a) =
    let (n, rest) = batch_jobs_lem fresh call batch policy (suc i) ds a in
    (
      omega (arith, n),
      ((refl, refl, refl, p, refl, refl, ground arith, ground arith, ground arith), rest),
    )

pair-eq : (p : ℕ × ℕ) (a b : ℕ) → p.0 ≡ a → p.1 ≡ b → p ≡ (a, b)
pair-eq p a b h k = ground arith

batch_view_found :
    (counts : List (Status × ℕ)) (total ended : ℕ)
    → 0 < total
    → batch_view counts (total, ended)
      ≡ done (record { total = total; ended = ended; complete = ended == total; counts = counts })
unfolding batch_view
batch_view_found counts total ended h =
    let nonzero : (total == 0) ≡ false = ground arith in rw nonzero refl

-- What getBatch says of a batch with jobs.
get_batch_lem :
    (batch : ℕ) (db : Db) (total ended : ℕ)
    → 0 < total
    → count (in_batch batch) db.jobs ≡ total
    → count (ended_in batch) db.jobs ≡ ended
    → get_batch batch db
      ≡ done (record {
        total = total;
        ended = ended;
        complete = ended == total;
        counts = status_counts batch all_statuses db.jobs;
      })
unfolding get_batch
get_batch_lem batch db total ended p h k =
    let (all, over) = tally_lem batch db.jobs in
    let counts = status_counts batch all_statuses db.jobs in
    ap (batch_view counts) (pair-eq (tally counts) total ended (all ∙ h) (over ∙ k))
    ∙ batch_view_found counts total ended p

pub check_batch_depth-done :
    (n q : ℕ) (db : Db) (u : Unit {0}) (most : ℕ)
    → check_batch_depth (some most) n q db ≡ done u
    → depth_of q db.jobs + n ≤ most
unfolding check_batch_depth
check_batch_depth-done n q db u most h = let ok = require-done _ _ u h in ground arith

ended-le-listed :
    (batch : ℕ) (jobs : List Job) → count (ended_in batch) jobs ≤ count (in_batch batch) jobs
unfolding count
ended-le-listed batch [] = omega arith
ended-le-listed batch (j ∷ jobs) = ground (arith, ended-le-listed batch jobs)

-- What a new batch of `n` jobs answers when it is asked for.
abbrev pub Started : ℕ → ℕ → Db → Type 0
Started batch n db =
    (v : BatchStatus) × (get_batch batch db ≡ done v)
    × (v.total ≡ n)
    × (v.ended ≡ 0)
    × (v.complete ≡ false)

pub new_batch-Started :
    (call : Call) (batch policy : ℕ) (rows : List Job) (db db' : Db)
    → All (IsOfBatch call batch policy) rows
    → 0 < length rows
    → count (in_batch batch) db.jobs ≡ 0
    → db'.jobs ≡ rows ++ db.jobs
    → Started batch (length rows) db'
new_batch-Started call batch policy rows db db' a p none_yet e =
    let listed = count-All (in_batch batch) rows (All-map _ _ (λ j h. named j.batch h.0) rows a) in
    let open_rows =
      count_none (ended_in batch) rows (All-map _ _ (λ (j : Job) h. ground (arith, h.7)) rows a) in
    let fewer = ended-le-listed batch db.jobs in
    let total : count (in_batch batch) db'.jobs ≡ length rows =
      ap (count (in_batch batch)) e
      ∙ count-append (in_batch batch) rows db.jobs
      ∙ omega (arith, listed, none_yet) in
    let ended : count (ended_in batch) db'.jobs ≡ 0 =
      ap (count (ended_in batch)) e
      ∙ count-append (ended_in batch) rows db.jobs
      ∙ omega (arith, open_rows, none_yet, fewer) in
    (_, get_batch_lem batch db' (length rows) 0 p total ended, refl, refl, ground arith)
  where
    named : (o : Option ℕ) → o ≡ some batch → same_id o batch ≡ true
    named none h = ground arith
    named (some b) h = ground arith
