-- ===== src/System/History.antt =====
-- The history of the table of jobs: what any sequence of transactions does to its rows.
use job_scheduling.Base.{
  ℕ, ◌≡◌, Bool, true, Option, none, some, List, [], ◌∷◌, ◌++◌, ◌==◌, find, modify, update_all,
  Bool-cases, Option-cases, inl, inr, if_elim, length, Rowwise, cons, Rowwise-refl, Rowwise-modify,
  Rowwise-update_all, Rowwise-trans, sort_by, ltb,
}
use job_scheduling.Store.{Job, Shard, Db, DbError, Dependency, Policy, Queue}
use job_scheduling.Jobs.Admit.{
  is_queue, grant, grant_first, admit_gated, admit_found, queue_admit, gate, slots_for,
}
use job_scheduling.Jobs.Claim.{
  ClaimRequest, claimable, claim_row, claim_one, claim_all, candidates, take_jobs,
}
use job_scheduling.Jobs.Deps.{
  waits_on, unblock, finish_dependents, is_doomed, cancel_row, cancel_descendants, woken,
}
use job_scheduling.Jobs.Start.{startable, start_row, start_found, start}
use job_scheduling.Jobs.Success.{completable, complete_row, success_found, report_success}
use job_scheduling.Jobs.Failure.{
  Failure, exhausted, failable, fail_row, retried, buried, failure_of, failure_found,
  report_failure,
}
use job_scheduling.Jobs.Snooze.{snoozable, snooze_row, snooze_of, snooze_found, report_snooze}
use job_scheduling.Jobs.Batch.{
  Done, Completed, complete_one, complete_rows, finish_each, batch_effects, after_batch,
  report_success_batch, job_ids,
}
use job_scheduling.System.Life.{
  Accepted, Life, unchanged, updated, Life-trans, Life-well_formed, well_formed, start-Accepted,
  claim-Accepted, complete-Accepted, fail-Accepted, snooze-Accepted, unblock-Accepted,
  cancel_row-Accepted,
}

-- The table grows by well-formed rows, and the rows it had go through accepted updates.
pub data Grown : List Job → List Job → Type 0 where
  rows : {xs ys : List Job} → Rowwise Life xs ys → Grown xs ys
  born : {xs ys : List Job} {j : Job} → well_formed j ≡ true → Grown xs ys → Grown xs (j ∷ ys)

pub Grown-refl : (xs : List Job) → Grown xs xs
Grown-refl xs = rows (Rowwise-refl Life (λ j. unchanged) xs)

-- The rows after accepted updates of rows that are there already.
Grown-Rowwise : {xs ys zs : List Job} → Grown xs ys → Rowwise Life ys zs → Grown xs zs
Grown-Rowwise (rows r) s = rows (Rowwise-trans Life Life-trans r s)
Grown-Rowwise (born w g) (cons h s) = born (Life-well_formed _ _ h w) (Grown-Rowwise g s)

pub Grown-trans : {xs ys zs : List Job} → Grown xs ys → Grown ys zs → Grown xs zs
Grown-trans g (rows s) = Grown-Rowwise g s
Grown-trans g (born w h) = born w (Grown-trans g h)

pub Grown-modify :
    (p : Job → Bool) (f : Job → Job)
    → ((j : Job) → p j ≡ true → Accepted j (f j))
    → (jobs : List Job) → Grown jobs (modify p f jobs)
Grown-modify p f h jobs =
    rows (Rowwise-modify Life p f (λ j. unchanged) (λ j e. updated unchanged (h j e)) jobs)

pub Grown-update_all :
    (p : Job → Bool) (f : Job → Job)
    → ((j : Job) → p j ≡ true → Accepted j (f j))
    → (jobs : List Job) → Grown jobs (update_all p f jobs)
Grown-update_all p f h jobs =
    rows (Rowwise-update_all Life p f (λ j. unchanged) (λ j e. updated unchanged (h j e)) jobs)

Grown-finish_dependents :
    (now i : ℕ) (deps : List Dependency) (jobs : List Job)
    → Grown jobs (finish_dependents now i deps jobs)
unfolding finish_dependents
Grown-finish_dependents now i deps jobs =
    Grown-update_all (waits_on i deps) (unblock now) (unblock-Accepted now i deps) jobs

Grown-cancel_descendants :
    (now i : ℕ) (deps : List Dependency) (jobs : List Job)
    → Grown jobs (cancel_descendants now i deps jobs)
unfolding cancel_descendants
Grown-cancel_descendants now i deps jobs =
    Grown-update_all (is_doomed i deps) (cancel_row now) (cancel_row-Accepted now i deps) jobs

abbrev pub Grows : Db → Db → Type 0
Grows db db' = Grown db.jobs db'.jobs

grant-Grows :
    (now want : ℕ) (qr : Queue) (sh : ℕ) (o : Option Shard) (db : Db)
    → Grows db (grant now want qr sh o db).2
unfolding grant
grant-Grows now want qr sh none db = Grown-refl db.jobs
grant-Grows now want qr sh (some r) db = elim (Bool-cases (slots_for now want qr r == 0)) [
  | inl e ↦ rw e (Grown-refl db.jobs)
  | inr e ↦ rw e (Grown-refl db.jobs)
]

admit_gated-Grows :
    (now rot : ℕ) (o : Option (Queue × ℕ)) (db : Db) → Grows db (admit_gated now rot o db).2
unfolding admit_gated grant_first
admit_gated-Grows now rot none db = Grown-refl db.jobs
admit_gated-Grows now rot (some (qr, w)) db = first _ _
  where
    first : (l : List Shard) (db' : Db) → Grows db' (grant_first l now w qr db').2
    first [] db' = Grown-refl db'.jobs
    first (s ∷ l) db' = grant-Grows now w qr s.shard _ db'

pub queue_admit-Grows : (now rot q want : ℕ) (db : Db) → Grows db (queue_admit now rot q want db).2
unfolding queue_admit admit_found
queue_admit-Grows now rot q want db = elim (Option-cases (find (is_queue q) db.queues)) [
  | inl e ↦ rw (e, admit_found) (Grown-refl db.jobs)
  | inr (qr, e) ↦
      rw (e, admit_found)
        (if_elim (λ r. Grown db.jobs r.2.jobs) qr.paused (0, 0, db)
          (admit_gated now rot (gate now want qr) db) (Grown-refl db.jobs)
          (admit_gated-Grows now rot (gate now want qr) db))
]

claim_one-Grows :
    (now : ℕ) (locked : ℕ → Bool) (req : ClaimRequest) (sh i : ℕ) (o : Option Job) (db : Db)
    → Grows db (claim_one now locked req sh i o db).1
unfolding claim_one
claim_one-Grows now locked req sh i none db = Grown-refl db.jobs
claim_one-Grows now locked req sh i (some j) db =
    Grown-modify (claimable now locked req i) (claim_row now req sh)
      (claim-Accepted now locked req sh i) db.jobs

claim_all-Grows :
    (now : ℕ) (locked : ℕ → Bool) (req : ClaimRequest) (sh : ℕ) (cs : List Job) (db : Db)
    → Grows db (claim_all now locked req sh cs db).1
unfolding claim_all
claim_all-Grows now locked req sh [] db = Grown-refl db.jobs
claim_all-Grows now locked req sh (c ∷ cs) db =
    Grown-trans (claim_one-Grows now locked req sh c.id _ db)
      (claim_all-Grows now locked req sh cs _)

pub take_jobs-Grows :
    (now : ℕ) (locked : ℕ → Bool) (req : ClaimRequest) (sh n : ℕ) (db : Db)
    → Grows db (take_jobs now locked req sh n db).1
unfolding take_jobs
take_jobs-Grows now locked req sh n db =
    let cs = candidates now locked req n db.jobs in
    let (out, db') = claim_all now locked req sh cs db in
    if_elim (λ x. Grown db.jobs x.jobs) (ltb (length out) n) _ db'
      (claim_all-Grows now locked req sh cs db) (claim_all-Grows now locked req sh cs db)

pub start-Grows :
    (fault : Option DbError) (now exec job fence worker : ℕ) (db : Db)
    → Grows db (start fault now exec job fence worker db).1
unfolding start
start-Grows (some e) now exec job fence worker db = Grown-refl db.jobs
start-Grows none now exec job fence worker db = found (find (startable job fence) db.jobs)
  where
    found : (o : Option Job) → Grows db (start_found now exec job fence worker o db).1
    found none = Grown-refl db.jobs
    found (some j) =
        Grown-modify (startable job fence) (start_row now) (start-Accepted now job fence) db.jobs

pub report_success-Grows :
    (now job fence exec : ℕ) (db : Db) → Grows db (report_success now job fence exec db).1
unfolding report_success success_found
report_success-Grows now job fence exec db = found (find (completable job fence) db.jobs)
  where
    found : (o : Option Job) → Grows db (success_found now job fence exec o db).1
    found none = Grown-refl db.jobs
    found (some j) =
        Grown-trans
          (Grown-modify (completable job fence) (complete_row now) (complete-Accepted now job fence)
            db.jobs)
          (Grown-finish_dependents now job db.dependencies _)

failure_of-Grows :
    (draw : ℕ → ℕ) (now job : ℕ) (fence : Option ℕ) (f : Failure) (j : Job) (rp : Option Policy)
    (db : Db)
    → Grows db (failure_of draw now job fence f j rp db).1
unfolding failure_of retried buried
failure_of-Grows draw now job fence f j none db = Grown-refl db.jobs
failure_of-Grows draw now job fence f j (some rp) db =
    let failed =
      Grown-modify (failable job fence) (fail_row draw now f.permanent rp)
        (fail-Accepted draw now job fence f.permanent rp) db.jobs in
    if_elim (λ (x : Db). Grown db.jobs x.jobs) (exhausted f.permanent rp j) _ _
      (Grown-trans failed (Grown-cancel_descendants now j.id db.dependencies _)) failed

pub report_failure-Grows :
    (draw : ℕ → ℕ) (now job : ℕ) (fence : Option ℕ) (f : Failure) (db : Db)
    → Grows db (report_failure draw now job fence f db).1
unfolding report_failure failure_found
report_failure-Grows draw now job fence f db = found (find (failable job fence) db.jobs)
  where
    found : (o : Option Job) → Grows db (failure_found draw now job fence f o db).1
    found none = Grown-refl db.jobs
    found (some j) = failure_of-Grows draw now job fence f j _ db

snooze_of-Grows :
    (now job : ℕ) (fence : Option ℕ) (exec delay : ℕ) (j : Job) (rp : Option Policy) (db : Db)
    → Grows db (snooze_of now job fence exec delay j rp db).1
unfolding snooze_of
snooze_of-Grows now job fence exec delay j none db = Grown-refl db.jobs
snooze_of-Grows now job fence exec delay j (some rp) db =
    if_elim (λ (x : Option ℕ × Db). Grown db.jobs x.1.jobs) (ltb j.snooze_count rp.max_attempts) _
      (none, db)
      (Grown-modify (snoozable job fence) (snooze_row now delay rp)
        (snooze-Accepted now job delay fence rp) db.jobs)
      (Grown-refl db.jobs)

pub report_snooze-Grows :
    (now job : ℕ) (fence : Option ℕ) (exec delay : ℕ) (db : Db)
    → Grows db (report_snooze now job fence exec delay db).1
unfolding report_snooze snooze_found
report_snooze-Grows now job fence exec delay db = found (find (snoozable job fence) db.jobs)
  where
    found : (o : Option Job) → Grows db (snooze_found now job fence exec delay o db).1
    found none = Grown-refl db.jobs
    found (some j) = snooze_of-Grows now job fence exec delay j _ db

finish_each-Grown :
    (now : ℕ) (deps : List Dependency) (is woke : List ℕ) (jobs : List Job)
    → Grown jobs (finish_each now deps is (woke, jobs)).1
unfolding finish_each
finish_each-Grown now deps [] woke jobs = Grown-refl jobs
finish_each-Grown now deps (i ∷ is) woke jobs =
    Grown-trans (Grown-finish_dependents now i deps jobs)
      (finish_each-Grown now deps is (woke ++ woken i deps jobs) _)

complete_one-Grown :
    (now : ℕ) (d : Done) (o : Option Job) (s : List Completed × List Job)
    → Grown s.1 (complete_one now d o s).1
unfolding complete_one
complete_one-Grown now d none (out, jobs) = Grown-refl jobs
complete_one-Grown now d (some j) (out, jobs) =
    Grown-modify (completable d.job d.fence) (complete_row now)
      (complete-Accepted now d.job d.fence) jobs

complete_rows-Grown :
    (now : ℕ) (ds : List Done) (s : List Completed × List Job)
    → Grown s.1 (complete_rows now ds s).1
unfolding complete_rows
complete_rows-Grown now [] s = Grown-refl s.1
complete_rows-Grown now (d ∷ ds) s =
    Grown-trans (complete_one-Grown now d (find (completable d.job d.fence) s.1) s)
      (complete_rows-Grown now ds _)

pub report_success_batch-Grows :
    (now : ℕ) (ds : List Done) (db : Db) → Grows db (report_success_batch now ds db).1
unfolding report_success_batch after_batch batch_effects
report_success_batch-Grows now ds db =
    after (complete_rows now ds ([], db.jobs)) (complete_rows-Grown now ds ([], db.jobs))
  where
    after : (s : List Completed × List Job) → Grown db.jobs s.1 → Grows db (after_batch now s db).1
    after ([], jobs) g = Grown-refl db.jobs
    after (c ∷ cs, jobs) g =
        Grown-trans g
          (finish_each-Grown now db.dependencies (sort_by ltb (job_ids (c ∷ cs))) [] jobs)
