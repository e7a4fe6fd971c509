-- ===== src/System/Safety.antt =====
-- In any interleaving of the transactions every shard stays within its cap.
use job_scheduling.Base.{
  List, [], ◌∷◌, ◌++◌, All, ℕ, ◌≤◌, ◌≡◌, refl, ap, subst, arith, count, inl, inr,
}
use job_scheduling.Store.{Job, Db}
use job_scheduling.Jobs.Slots.{active, queue_release, in_flight-release}
use job_scheduling.Jobs.Slots.Reports.{
  CoveredBy, IsCovered, report_success-IsCovered, report_failure-IsCovered, report_snooze-IsCovered,
}
use job_scheduling.Jobs.Slots.Claims.{reserve, queue_admit-IsCovered, take_jobs-IsCovered}
use job_scheduling.Jobs.Admit.{queue_admit}
use job_scheduling.System.Quiet.{
  start-IsCovered, promote-IsCovered, age-IsCovered, cancel_job-IsCovered, retry_job-IsCovered,
  replay_job-IsCovered,
}
use job_scheduling.System.Batches.{
  replay_dead-IsCovered, fire-IsCovered, report_success_batch-IsCovered,
}
use job_scheduling.Api.Submit.{Submitted}
use job_scheduling.System.Submission.{
  Inserts, Holds, submit_job-Inserts, IsNew, AddsJobs, submit_batch-AddsJobs,
}
use job_scheduling.System.Steps.{
  World, Step, admits, takes, gives_back, forgets, starts, succeeds, succeeds_batch, fails, snoozes,
  promotes, ages, fires, cancels, retries, replays, replays_bulk, submits, submits_batch, Reach,
  here, next, IsSafe, HasMore, SameReserved,
}

active-append :
    (q s : ℕ) (rows jobs : List Job) → All IsNew rows → active q s (rows ++ jobs) ≡ active q s jobs
unfolding active count
active-append q s [] jobs a = refl
active-append q s (j ∷ rows) jobs (h, a) = ground (arith, h.1, active-append q s rows jobs a)

module _ (limit : ℕ → ℕ → ℕ) where
  same-IsSafe :
      (w w' : World) (db : Db)
      → SameReserved w w'
      → w'.db ≡ db
      → IsCovered limit w.reserved db
      → IsSafe limit w'
  same-IsSafe w w' db r e c q s =
      let jobs : w'.db.jobs ≡ db.jobs = ap (λ x. x.jobs) e in
      let shards : w'.db.shards ≡ db.shards = ap (λ x. x.shards) e in
      rw (jobs, shards, r q s) (c q s)

  more-IsSafe :
      (w w' : World) (db : Db) (q sh n : ℕ)
      → HasMore w' q sh n w
      → w'.db ≡ db
      → IsCovered limit (reserve q sh n w.reserved) db
      → IsSafe limit w'
  more-IsSafe w w' db q sh n r e c q' s' =
      let jobs : w'.db.jobs ≡ db.jobs = ap (λ x. x.jobs) e in
      let shards : w'.db.shards ≡ db.shards = ap (λ x. x.shards) e in
      rw (jobs, shards, r q' s') (c q' s')

  -- What `w` covers, with the reservations of `w'` and `n` more.
  with_more :
      (w w' : World) (q sh n : ℕ)
      → HasMore w q sh n w'
      → IsSafe limit w
      → IsCovered limit (reserve q sh n w'.reserved) w.db
  with_more w w' q sh n r c q' s' = rw (← r q' s') (c q' s')

  release-IsCovered :
      (q sh n : ℕ) (reserved : ℕ → ℕ → ℕ) (db : Db)
      → IsCovered limit (reserve q sh n reserved) db
      → CoveredBy limit reserved db.jobs (queue_release q sh n db.shards)
  release-IsCovered q sh n reserved db c q' s' =
      ground (arith, c q' s', in_flight-release q sh n q' s' db.shards)

  Inserts-IsCovered :
      (reserved : ℕ → ℕ → ℕ) (out : Submitted) (db db' : Db)
      → Inserts db (out, db')
      → IsCovered limit reserved db
      → IsCovered limit reserved db'
  unfolding active count
  Inserts-IsCovered reserved out db db' (inl (jobs, shards)) c q s = rw (jobs, shards) (c q s)
  Inserts-IsCovered reserved out db db' (inr (j, w, idle, jobs, shards)) c q s =
      rw (jobs, shards) (ground (arith, c q s, idle))

  AddsJobs-IsCovered :
      (reserved : ℕ → ℕ → ℕ) (db db' : Db)
      → AddsJobs db db'
      → IsCovered limit reserved db
      → IsCovered limit reserved db'
  AddsJobs-IsCovered reserved db db' (rows, a, jobs, shards) c q s =
      rw (jobs, shards, active-append q s rows db.jobs a) (c q s)

  -- Every transaction keeps the counters covering the jobs and the reservations.
  pub Step-IsSafe : (w w' : World) → Step limit w w' → IsSafe limit w → IsSafe limit w'
  Step-IsSafe w w' (admits now rot q want k e r) c =
      more-IsSafe w w' _ q (queue_admit now rot q want w.db).1 (queue_admit now rot q want w.db).0 r
        e (queue_admit-IsCovered limit w.reserved now rot q want w.db k c)
  Step-IsSafe w w' (takes now locked req sh n r e) c =
      same-IsSafe w' w' _ (λ q s. refl) e
        (take_jobs-IsCovered now locked req sh n w.db limit w'.reserved
          (with_more w w' req.queue sh n r c)).0
  Step-IsSafe w w' (gives_back q sh n r e) c =
      same-IsSafe w' w' _ (λ q s. refl) e
        (release-IsCovered q sh n w'.reserved w.db (with_more w w' q sh n r c))
  Step-IsSafe w w' (forgets q sh n r e) c =
      let wide = with_more w w' q sh n r c in
      same-IsSafe w' w' w.db (λ q s. refl) e λ q' s'. ground (arith, wide q' s')
  Step-IsSafe w w' (starts fault now exec job fence worker r e) c =
      same-IsSafe w w' _ r e
        (start-IsCovered limit w.reserved fault now exec job fence worker w.db c)
  Step-IsSafe w w' (succeeds now job fence exec r e) c =
      same-IsSafe w w' _ r e (report_success-IsCovered now job fence exec w.db limit w.reserved c)
  Step-IsSafe w w' (succeeds_batch now ds r e) c =
      same-IsSafe w w' _ r e (report_success_batch-IsCovered limit w.reserved now ds w.db c)
  Step-IsSafe w w' (fails draw now job fence f r e) c =
      same-IsSafe w w' _ r e (report_failure-IsCovered draw now job fence f w.db limit w.reserved c)
  Step-IsSafe w w' (snoozes now job fence exec delay r e) c =
      same-IsSafe w w' _ r e
        (report_snooze-IsCovered now job fence exec delay w.db limit w.reserved c)
  Step-IsSafe w w' (promotes fault now locked n r e) c =
      same-IsSafe w w' _ r e (promote-IsCovered limit w.reserved fault now locked n w.db c)
  Step-IsSafe w w' (ages fault now older_than ceiling n r e) c =
      same-IsSafe w w' _ r e (age-IsCovered limit w.reserved fault now older_than ceiling n w.db c)
  Step-IsSafe w w' (fires n now fresh d o r e) c =
      same-IsSafe w w' _ r e (fire-IsCovered limit w.reserved n now fresh d o w.db c)
  Step-IsSafe w w' (cancels now id r e) c =
      same-IsSafe w w' _ r e (cancel_job-IsCovered limit w.reserved now id w.db c)
  Step-IsSafe w w' (retries now id r e) c =
      same-IsSafe w w' _ r e (retry_job-IsCovered limit w.reserved now id w.db c)
  Step-IsSafe w w' (replays now actor id r e) c =
      same-IsSafe w w' _ r e (replay_job-IsCovered limit w.reserved now actor id w.db c)
  Step-IsSafe w w' (replays_bulk now actor q most per_sec r e) c =
      same-IsSafe w w' _ r e
        (replay_dead-IsCovered limit w.reserved now actor q most per_sec w.db c)
  Step-IsSafe w w' (submits lib req call out db r got e) c = same-IsSafe w w' db r e (
      Inserts-IsCovered w.reserved out w.db db
        (subst (Holds (Inserts w.db)) got (submit_job-Inserts lib req call w.db)) c)
  Step-IsSafe w w' (submits_batch lib fresh batch reqs call view seen db r got e) c =
      same-IsSafe w w' db r e (
        AddsJobs-IsCovered w.reserved w.db db
          (submit_batch-AddsJobs lib fresh batch reqs call view seen w.db db got) c)

  pub Reach-IsSafe : (w w' : World) → Reach limit w w' → IsSafe limit w → IsSafe limit w'
  Reach-IsSafe w w' here c = c
  Reach-IsSafe w w' (next r s) c = Step-IsSafe _ w' s (Reach-IsSafe w _ r c)

-- Whatever transactions of the workers, the sweeps and the API follow each other, in whatever
-- order, from a database whose counters cover its jobs and are within the caps: no shard of a
-- queue ever has more claimed and running jobs than its cap. The caps are those that the queues
-- are configured to at every admission.
pub concurrency_within_cap :
    (limit : ℕ → ℕ → ℕ) (w w' : World) (q s : ℕ)
    → Reach limit w w'
    → IsSafe limit w
    → active q s w'.db.jobs ≤ limit q s
concurrency_within_cap limit w w' q s r c = omega (arith, Reach-IsSafe limit w w' r c q s)
