-- ===== src/System/Passed.antt =====
-- The fences of internal/jobs over time: a fence that a job has moved past.
use job_scheduling.Base.{
  ℕ, ◌≤◌, ◌≡◌, Bool, true, false, ◌&&◌, Option, none, List, [], ◌∷◌, String, arith, ltb, exists,
  count, Bool-cases, inl, inr,
}
use job_scheduling.Store.{Job, fenced}
use job_scheduling.Jobs.Claim.{has_id}
use job_scheduling.Jobs.Start.{start}
use job_scheduling.Jobs.Success.{complete}
use job_scheduling.Jobs.Failure.{fail}
use job_scheduling.Jobs.Snooze.{snooze}
use job_scheduling.Jobs.Lease.{extend_lease, value}
use job_scheduling.Jobs.Fencing.{holds_fence, stale_fence_changes_nothing}
use job_scheduling.System.Life.{Life, Life-id, Life-fence}
use job_scheduling.System.Steps.{World, Reach}
use job_scheduling.System.Ends.{exists-Grown, Reach-Grows}

-- Is this the job's row, with its fence beyond the given one?
unfoldable pub past_fence : ℕ → ℕ → Job → Bool
past_fence job fence j = has_id job j && ltb fence j.fence

Life-past_fence :
    (job fence : ℕ) (j k : Job)
    → Life j k
    → past_fence job fence j ≡ true
    → past_fence job fence k ≡ true
unfolding past_fence
Life-past_fence job fence j k l h = ground (arith, Life-id j k l, Life-fence j k l)

absent-holds_fence :
    (job fence : ℕ) (jobs : List Job)
    → count (has_id job) jobs ≤ 0
    → exists (holds_fence job fence) jobs ≡ false
unfolding count exists holds_fence
absent-holds_fence job fence [] h = ground arith
absent-holds_fence job fence (j ∷ jobs) h =
    ground (arith, absent-holds_fence job fence jobs (ground arith))

absent-past_fence :
    (job fence : ℕ) (jobs : List Job)
    → count (has_id job) jobs ≤ 0
    → exists (past_fence job fence) jobs ≡ false
unfolding count exists past_fence
absent-past_fence job fence [] h = ground arith
absent-past_fence job fence (j ∷ jobs) h =
    ground (arith, absent-past_fence job fence jobs (ground arith))

-- Where a job has one row, whose fence is beyond the given one, no row holds that one.
passed-holds_fence :
    (job fence : ℕ) (jobs : List Job)
    → count (has_id job) jobs ≤ 1
    → exists (past_fence job fence) jobs ≡ true
    → exists (holds_fence job fence) jobs ≡ false
unfolding count exists holds_fence past_fence
passed-holds_fence job fence [] u h = ground arith
passed-holds_fence job fence (j ∷ jobs) u h = elim (Bool-cases (has_id job j)) [
  | inl e ↦ ground (
    arith,
    absent-holds_fence job fence jobs (ground arith),
    absent-past_fence job fence jobs (ground arith),
  )
  | inr e ↦ ground (arith, passed-holds_fence job fence jobs (ground arith) (ground arith))
]

-- Once the fence of a job's row is beyond the one that a worker holds, it stays so, whatever
-- transactions follow: while the job's id is on one row only, as the table's primary key has it,
-- each later start, completion, failure, snooze and lease extension under the old fence answers that
-- the worker is fenced, and changes nothing.
pub passed_fence_stays_stale :
    (limit : ℕ → ℕ → ℕ) (w w' : World) (now job fence : ℕ)
    → Reach limit w w'
    → exists (past_fence job fence) w.db.jobs ≡ true
    → count (has_id job) w'.db.jobs ≤ 1
    → ((exec worker : ℕ) → start none now exec job fence worker w'.db ≡ (fenced, w'.db))
      × ((exec : ℕ) → complete none now job fence exec w'.db ≡ (fenced, w'.db))
      × ((draw : ℕ → ℕ) (permanent : Bool) (message : String)
          → fail none draw now job fence permanent message w'.db ≡ (fenced, w'.db))
      × ((exec delay : ℕ) → snooze none now job fence exec delay w'.db ≡ (fenced, w'.db))
      × ((lease : ℕ) (progress : Option String)
          → extend_lease none now job fence lease progress w'.db ≡ (value false, w'.db))
passed_fence_stays_stale limit w w' now job fence r h one =
    let later =
      exists-Grown (past_fence job fence) (Life-past_fence job fence) (Reach-Grows limit w w' r)
        h in
    stale_fence_changes_nothing now job fence w'.db
      (passed-holds_fence job fence w'.db.jobs one later)
