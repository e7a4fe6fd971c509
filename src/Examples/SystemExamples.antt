-- ===== src/Examples/SystemExamples.antt =====
-- The theorems on sequences of transactions, applied.
use job_scheduling.Base.{
  ◌<◌, String, Bool, Option, none, ℕ, ◌≤◌, ◌≡◌, refl, true, false, arith, exists, All,
  if◌then◌else◌, ◌==◌, ◌&&◌, count, find, modify, update_all,
}
use job_scheduling.Store.{Db, row_check, fenced, in_flight}
use job_scheduling.Jobs.Slots.{active, queue_release}
use job_scheduling.Jobs.Success.{report_success, complete, success_found, completable, complete_row}
use job_scheduling.System.Life.{well_formed}
use job_scheduling.System.Steps.{World, succeeds, Reach, here, next, IsSafe}
use job_scheduling.System.Safety.{concurrency_within_cap}
use job_scheduling.System.Ends.{rows_stay_well_formed, completed_is_final, is_completed}
use job_scheduling.System.Total.{of_queue, queue_within_max_concurrency}
use job_scheduling.Jobs.Admit.{shard_cap}
use job_scheduling.System.Passed.{past_fence, passed_fence_stays_stale}
use job_scheduling.Jobs.Claim.{has_id}
use job_scheduling.Jobs.Start.{start}
use job_scheduling.Jobs.Deps.{finish_dependents, woken, waits_on}
use job_scheduling.Jobs.Failure.{fail}
use job_scheduling.Jobs.Snooze.{snooze}
use job_scheduling.Jobs.Lease.{extend_lease, value}
use job_scheduling.Examples.Data.{database, queue}

abbrev limits : ℕ → ℕ → ℕ
limits q s = if q == 1 && s == 0 then 2 else 0

abbrev before : World
before = record { db = database; reserved = λ q s. 0 }

abbrev after : World
after = record { db = (report_success 60 8 4 30 database).1; reserved = λ q s. 0 }

-- A worker completes its job.
one_step : Reach limits before after
one_step = next here (succeeds 60 8 4 30 (λ q s. refl) refl)

before-IsSafe : IsSafe limits before
unfolding active count find
before-IsSafe q s = ground arith

concurrency_within_cap_example : active 1 0 (report_success 60 8 4 30 database).1.jobs ≤ 2
concurrency_within_cap_example =
    concurrency_within_cap limits before after 1 0 one_step before-IsSafe

before-well_formed : All (λ j. well_formed j ≡ true) database.jobs
unfolding well_formed row_check
before-well_formed = (refl, (refl, (refl, tt)))

rows_stay_well_formed_example :
    All (λ j. well_formed j ≡ true) (report_success 60 8 4 30 database).1.jobs
rows_stay_well_formed_example =
    rows_stay_well_formed limits before after one_step before-well_formed

is_completed-before : exists (is_completed 6) database.jobs ≡ true
unfolding exists is_completed
is_completed-before = refl

completed_is_final_example :
    exists (is_completed 6) (report_success 60 8 4 30 database).1.jobs ≡ true
completed_is_final_example = completed_is_final limits before after 6 one_step is_completed-before

abbrev completed_db : Db
completed_db = (report_success 60 8 4 30 database).1

passed-before : exists (past_fence 8 3) database.jobs ≡ true
unfolding exists past_fence
passed-before = refl

rows_of_8 : count (has_id 8) completed_db.jobs ≡ 1
unfolding count report_success success_found completable complete_row finish_dependents woken find
    modify update_all waits_on exists
rows_of_8 = refl

one_row : count (has_id 8) completed_db.jobs ≤ 1
one_row = omega (arith, rows_of_8)

passed_fence_stays_stale_example :
    ((exec worker : ℕ) → start none 70 exec 8 3 worker completed_db ≡ (fenced, completed_db))
    × ((exec : ℕ) → complete none 70 8 3 exec completed_db ≡ (fenced, completed_db))
    × ((draw : ℕ → ℕ) (permanent : Bool) (message : String)
        → fail none draw 70 8 3 permanent message completed_db ≡ (fenced, completed_db))
    × ((exec delay : ℕ) → snooze none 70 8 3 exec delay completed_db ≡ (fenced, completed_db))
    × ((lease : ℕ) (progress : Option String)
        → extend_lease none 70 8 3 lease progress completed_db ≡ (value false, completed_db))
passed_fence_stays_stale_example =
    passed_fence_stays_stale limits before after 70 8 3 one_step passed-before one_row

first_cap : (s : ℕ) → s < 1 → limits 1 s ≡ shard_cap queue s
unfolding shard_cap
first_cap s h = ground arith

no_more_shards : (s : ℕ) → 1 ≤ s → in_flight 1 s completed_db.shards ≡ 0
unfolding find modify report_success success_found queue_release
no_more_shards s h = ground arith

queue_within_max_concurrency_example : count (of_queue 1) completed_db.jobs ≤ 2
queue_within_max_concurrency_example =
    queue_within_max_concurrency limits before after 1 queue one_step before-IsSafe (omega arith)
      first_cap no_more_shards
