-- ===== src/Jobs/Fencing.antt =====
-- The fence: what internal/jobs does with a report from a worker that does not hold its job any more.
use job_scheduling.Base.{
  ℕ, ◌≡◌, refl, Bool, true, false, ◌&&◌, Option, none, some, List, [], ◌∷◌, String, arith, ◌==◌,
  exists, find,
}
use job_scheduling.Store.{Job, Db, fenced, is_running}
use job_scheduling.Jobs.Start.{startable, start, start_found, owned}
use job_scheduling.Jobs.Success.{completable, complete, report_success, success_found}
use job_scheduling.Jobs.Failure.{failable, fail, report_failure, failure_found}
use job_scheduling.Jobs.Snooze.{snoozable, snooze, report_snooze, snooze_found}
use job_scheduling.Jobs.Lease.{extend_lease, extend_found, value}

-- Is there a row of this job with this fence?
unfoldable pub holds_fence : ℕ → ℕ → Job → Bool
holds_fence job fence j = j.id == job && j.fence == fence

-- A narrower test finds nothing where the wider one finds nothing.
pub find-narrow :
    (p q : Job → Bool)
    → ((j : Job) → q j ≡ true → p j ≡ true)
    → (jobs : List Job) → exists p jobs ≡ false
    → find q jobs ≡ none
unfolding exists find
find-narrow p q h [] e = refl
find-narrow p q h (x ∷ xs) e = ground (arith, h x, find-narrow p q h xs)

module _ (now job fence : ℕ) (db : Db)
    (stale : exists (holds_fence job fence) db.jobs ≡ false) where
  start-fenced : (exec worker : ℕ) → start none now exec job fence worker db ≡ (fenced, db)
  unfolding start start_found
  start-fenced exec worker =
      rw
        (find-narrow (holds_fence job fence) (startable job fence)
          (λ j h. unfold holds_fence startable in ground arith) db.jobs stale)
        refl

  complete-fenced : (exec : ℕ) → complete none now job fence exec db ≡ (fenced, db)
  unfolding complete report_success success_found
  complete-fenced exec =
      rw
        (find-narrow (holds_fence job fence) (completable job fence)
          (λ j h. unfold holds_fence completable in ground arith) db.jobs stale)
        refl

  fail-fenced :
      (draw : ℕ → ℕ) (permanent : Bool) (message : String)
      → fail none draw now job fence permanent message db ≡ (fenced, db)
  unfolding fail report_failure failure_found
  fail-fenced draw permanent message =
      rw
        (find-narrow (holds_fence job fence) (failable job (some fence))
          (λ j h. unfold holds_fence failable in ground arith) db.jobs stale)
        refl

  snooze-fenced : (exec delay : ℕ) → snooze none now job fence exec delay db ≡ (fenced, db)
  unfolding snooze report_snooze snooze_found
  snooze-fenced exec delay =
      rw
        (find-narrow (holds_fence job fence) (snoozable job (some fence))
          (λ j h. unfold holds_fence snoozable in ground arith) db.jobs stale)
        refl

  extend_lease-fenced :
      (lease : ℕ) (progress : Option String)
      → extend_lease none now job fence lease progress db ≡ (value false, db)
  unfolding extend_lease extend_found
  extend_lease-fenced lease progress =
      rw
        (find-narrow (holds_fence job fence) (owned (λ j. is_running j.status) job fence)
          (λ j h. unfold holds_fence in ground arith) db.jobs stale)
        refl

-- A worker whose fence no row of the job has any more is told that it is fenced, and changes
-- nothing, whether it starts the job, completes it, fails it, snoozes it or extends its lease, and
-- whatever execution, cause, delay or progress it names.
pub stale_fence_changes_nothing :
    (now job fence : ℕ) (db : Db)
    → exists (holds_fence job fence) db.jobs ≡ false
    → ((exec worker : ℕ) → start none now exec job fence worker db ≡ (fenced, db))
      × ((exec : ℕ) → complete none now job fence exec db ≡ (fenced, db))
      × ((draw : ℕ → ℕ) (permanent : Bool) (message : String)
          → fail none draw now job fence permanent message db ≡ (fenced, db))
      × ((exec delay : ℕ) → snooze none now job fence exec delay db ≡ (fenced, db))
      × ((lease : ℕ) (progress : Option String)
          → extend_lease none now job fence lease progress db ≡ (value false, db))
stale_fence_changes_nothing now job fence db stale = (
  start-fenced now job fence db stale,
  complete-fenced now job fence db stale,
  fail-fenced now job fence db stale,
  snooze-fenced now job fence db stale,
  extend_lease-fenced now job fence db stale,
)
