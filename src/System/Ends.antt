-- ===== src/System/Ends.antt =====
-- What holds of the table of jobs after any sequence of transactions.
use job_scheduling.Base.{
  ℕ, ◌≡◌, sym, ap, subst, Bool, true, ◌&&◌, List, [], ◌∷◌, ◌++◌, arith, exists, inl, inr, Rowwise,
  nil, cons, All,
}
use job_scheduling.Store.{Job, Db, completed, same_status}
use job_scheduling.Jobs.Claim.{has_id}
use job_scheduling.Api.Submit.{Submitted}
use job_scheduling.System.Submission.{
  Inserts, Holds, submit_job-Inserts, IsNew, AddsJobs, submit_batch-AddsJobs,
}
use job_scheduling.System.Life.{Life, Life-id, Life-well_formed, Life-completed, well_formed}
use job_scheduling.System.History.{
  Grown, rows, born, Grown-refl, Grown-trans, Grows, queue_admit-Grows, take_jobs-Grows,
  start-Grows, report_success-Grows, report_success_batch-Grows, report_failure-Grows,
  report_snooze-Grows,
}
use job_scheduling.System.Growth.{
  promote-Grows, age-Grows, fire-Grows, cancel_job-Grows, retry_job-Grows, replay_job-Grows,
  replay_dead-Grows,
}
use job_scheduling.System.Steps.{
  World, Step, admits, takes, gives_back, forgets, starts, succeeds, succeeds_batch, fails, snoozes,
  promotes, ages, fires, cancels, retries, replays, replays_bulk, submits, submits_batch, Reach,
  here, next,
}

Grown_at : (w w' : World) (db : Db) → w'.db ≡ db → Grows w.db db → Grows w.db w'.db
Grown_at w w' db e g = subst (Grown w.db.jobs) (sym (ap (λ x. x.jobs) e)) g

Inserts-Grows : (out : Submitted) (db db' : Db) → Inserts db (out, db') → Grows db db'
Inserts-Grows out db db' (inl (jobs, shards)) =
    subst (Grown db.jobs) (sym jobs) (Grown-refl db.jobs)
Inserts-Grows out db db' (inr (j, w, idle, jobs, shards)) =
    subst (Grown db.jobs) (sym jobs) (born w (Grown-refl db.jobs))

Grown-append : (added jobs : List Job) → All IsNew added → Grown jobs (added ++ jobs)
Grown-append [] jobs a = Grown-refl jobs
Grown-append (j ∷ added) jobs (h, a) = born h.0 (Grown-append added jobs a)

AddsJobs-Grows : (db db' : Db) → AddsJobs db db' → Grows db db'
AddsJobs-Grows db db' (added, a, jobs, shards) =
    subst (Grown db.jobs) (sym jobs) (Grown-append added db.jobs a)

module _ (limit : ℕ → ℕ → ℕ) where
  Step-Grows : (w w' : World) → Step limit w w' → Grows w.db w'.db
  Step-Grows w w' (admits now rot q want k e r) =
      Grown_at w w' _ e (queue_admit-Grows now rot q want w.db)
  Step-Grows w w' (takes now locked req sh n r e) =
      Grown_at w w' _ e (take_jobs-Grows now locked req sh n w.db)
  Step-Grows w w' (gives_back q sh n r e) = Grown_at w w' _ e (Grown-refl w.db.jobs)
  Step-Grows w w' (forgets q sh n r e) = Grown_at w w' w.db e (Grown-refl w.db.jobs)
  Step-Grows w w' (starts fault now exec job fence worker r e) =
      Grown_at w w' _ e (start-Grows fault now exec job fence worker w.db)
  Step-Grows w w' (succeeds now job fence exec r e) =
      Grown_at w w' _ e (report_success-Grows now job fence exec w.db)
  Step-Grows w w' (succeeds_batch now ds r e) =
      Grown_at w w' _ e (report_success_batch-Grows now ds w.db)
  Step-Grows w w' (fails draw now job fence f r e) =
      Grown_at w w' _ e (report_failure-Grows draw now job fence f w.db)
  Step-Grows w w' (snoozes now job fence exec delay r e) =
      Grown_at w w' _ e (report_snooze-Grows now job fence exec delay w.db)
  Step-Grows w w' (promotes fault now locked n r e) =
      Grown_at w w' _ e (promote-Grows fault now locked n w.db)
  Step-Grows w w' (ages fault now older_than ceiling n r e) =
      Grown_at w w' _ e (age-Grows fault now older_than ceiling n w.db)
  Step-Grows w w' (fires n now fresh d o r e) = Grown_at w w' _ e (fire-Grows n now fresh d o w.db)
  Step-Grows w w' (cancels now id r e) = Grown_at w w' _ e (cancel_job-Grows now id w.db)
  Step-Grows w w' (retries now id r e) = Grown_at w w' _ e (retry_job-Grows now id w.db)
  Step-Grows w w' (replays now actor id r e) =
      Grown_at w w' _ e (replay_job-Grows now actor id w.db)
  Step-Grows w w' (replays_bulk now actor q most per_sec r e) =
      Grown_at w w' _ e (replay_dead-Grows now actor q most per_sec w.db)
  Step-Grows w w' (submits lib req call out db r got e) = Grown_at w w' db e (
      Inserts-Grows out w.db db
        (subst (Holds (Inserts w.db)) got (submit_job-Inserts lib req call w.db)))
  Step-Grows w w' (submits_batch lib fresh batch reqs call view seen db r got e) =
      Grown_at w w' db e (
        AddsJobs-Grows w.db db
          (submit_batch-AddsJobs lib fresh batch reqs call view seen w.db db got))

  pub Reach-Grows : (w w' : World) → Reach limit w w' → Grows w.db w'.db
  Reach-Grows w w' here = Grown-refl w.db.jobs
  Reach-Grows w w' (next r s) = Grown-trans (Reach-Grows w _ r) (Step-Grows _ w' s)

Rowwise-All :
    {xs ys : List Job}
    → Rowwise Life xs ys
    → All (λ j. well_formed j ≡ true) xs
    → All (λ j. well_formed j ≡ true) ys
Rowwise-All nil a = tt
Rowwise-All (cons h r) (w, a) = (Life-well_formed _ _ h w, Rowwise-All r a)

Grown-All :
    {xs ys : List Job}
    → Grown xs ys
    → All (λ j. well_formed j ≡ true) xs
    → All (λ j. well_formed j ≡ true) ys
Grown-All (rows r) a = Rowwise-All r a
Grown-All (born w g) a = (w, Grown-All g a)

-- Every sequence of transactions keeps every row of jobs within the modelled constraints of the
-- table, and every claimed row with fewer attempts than its fence, if all rows are so before.
pub rows_stay_well_formed :
    (limit : ℕ → ℕ → ℕ) (w w' : World)
    → Reach limit w w'
    → All (λ j. well_formed j ≡ true) w.db.jobs
    → All (λ j. well_formed j ≡ true) w'.db.jobs
rows_stay_well_formed limit w w' r a = Grown-All (Reach-Grows limit w w' r) a

-- Is there a row with this id that is completed?
unfoldable pub is_completed : ℕ → Job → Bool
is_completed id j = has_id id j && same_status j.status completed

Life-is_completed :
    (id : ℕ) (j k : Job) → Life j k → is_completed id j ≡ true → is_completed id k ≡ true
unfolding is_completed
Life-is_completed id j k l h = ground (arith, Life-id j k l, Life-completed j k l (ground arith))

module _ (p : Job → Bool) (keeps : (j k : Job) → Life j k → p j ≡ true → p k ≡ true) where
  exists-Rowwise : {xs ys : List Job} → Rowwise Life xs ys → exists p xs ≡ true → exists p ys ≡ true
  unfolding exists
  exists-Rowwise nil h = h
  exists-Rowwise (cons l r) h = ground (arith, keeps _ _ l, exists-Rowwise r)

  pub exists-Grown : {xs ys : List Job} → Grown xs ys → exists p xs ≡ true → exists p ys ≡ true
  unfolding exists
  exists-Grown (rows r) h = exists-Rowwise r h
  exists-Grown (born w g) h = ground (arith, exists-Grown g h)

-- A job that is completed stays completed, whatever transactions of the workers, the sweeps and the
-- API follow: none revives it, and none fails, cancels or claims it again.
pub completed_is_final :
    (limit : ℕ → ℕ → ℕ) (w w' : World) (id : ℕ)
    → Reach limit w w'
    → exists (is_completed id) w.db.jobs ≡ true
    → exists (is_completed id) w'.db.jobs ≡ true
completed_is_final limit w w' id r h =
    exists-Grown (is_completed id) (Life-is_completed id) (Reach-Grows limit w w' r) h
