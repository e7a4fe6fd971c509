-- ===== src/Examples/JobsExamples.antt =====
-- The theorems on internal/jobs, applied to a small database.
use job_scheduling.Base.{
  ℕ, ◌+◌, ◌*◌, ◌/◌, ◌≤◌, ◌<◌, ◌≡◌, ◌⊎◌, refl, Bool, true, false, Option, none, some, String, arith,
  exists, All, find, length,
}
use job_scheduling.Store.{Queue, fenced, retry_wait, dead_letter}
use job_scheduling.Jobs.Admit.{queue_admit, is_queue, slots_for, take_slots, refilled, shard_cap}
use job_scheduling.Jobs.Claim.{take_jobs}
use job_scheduling.Jobs.Start.{start}
use job_scheduling.Jobs.Success.{complete}
use job_scheduling.Jobs.Failure.{fail, fail_row, backoff, base_delay}
use job_scheduling.Jobs.Snooze.{snooze}
use job_scheduling.Jobs.Lease.{extend_lease, value}
use job_scheduling.Jobs.Fencing.{holds_fence, stale_fence_changes_nothing}
use job_scheduling.Jobs.Retries.{backoff_bounded, failure_decision}
use job_scheduling.Jobs.Admission.{admissible, admission_within_breaker, tokens_within_burst}
use job_scheduling.Jobs.Handout.{is_handed, claims_are_held}
use job_scheduling.Examples.Data.{database, queue, shard, policy, running_job, request}

old_fence : exists (holds_fence 8 3) database.jobs ≡ false
unfolding exists holds_fence
old_fence = refl

stale_fence_changes_nothing_example :
    ((exec worker : ℕ) → start none 60 exec 8 3 worker database ≡ (fenced, database))
    × ((exec : ℕ) → complete none 60 8 3 exec database ≡ (fenced, database))
    × ((draw : ℕ → ℕ) (permanent : Bool) (message : String)
        → fail none draw 60 8 3 permanent message database ≡ (fenced, database))
    × ((exec delay : ℕ) → snooze none 60 8 3 exec delay database ≡ (fenced, database))
    × ((lease : ℕ) (progress : Option String)
        → extend_lease none 60 8 3 lease progress database ≡ (value false, database))
stale_fence_changes_nothing_example = stale_fence_changes_nothing 60 8 3 database old_fence

abbrev half : ℕ → ℕ
half d = d / 2

half-le : (d : ℕ) → half d ≤ d
half-le d = omega arith

backoff_bounded_example :
    (base_delay policy 2 ≤ base_delay policy 5) × (backoff half policy 2 ≤ 1000000)
backoff_bounded_example = backoff_bounded half policy 2 5 half-le (omega arith)

failure_decision_example :
    let j' = fail_row half 60 false policy running_job in
    (((false ≡ true) ⊎ (3 ≤ 1))
      × (j'.status ≡ dead_letter)
      × (j'.finished_at ≡ some 60)
      × (j'.worker ≡ none))
    ⊎ ((false ≡ false)
        × (1 < 3)
        × (j'.status ≡ retry_wait)
        × (j'.worker ≡ none)
        × (60 ≤ j'.run_at)
        × (j'.run_at ≤ 60 + 1000 * 1000))
failure_decision_example = failure_decision half 60 false policy running_job half-le

found_queue : find (is_queue 1) database.queues ≡ some queue
unfolding find
found_queue = refl

admission_within_breaker_example : (queue_admit 60 0 1 4 database).0 ≤ admissible 60 4 queue
admission_within_breaker_example = admission_within_breaker 60 0 1 4 queue database found_queue

abbrev limited : Queue
limited = record queue { rl_limit_per_sec = 2000000; rl_burst = 5000000 }

tokens_within_burst_example :
    let n = slots_for 60 4 limited shard in
    let s' = take_slots 60 limited n shard in
    (n * 1000000 ≤ 5000000 / 1)
    × (s'.rl_tokens + n * 1000000 ≤ 5000000 / 1)
    × (s'.rl_tokens + n * 1000000 ≡ refilled 60 limited shard)
    × (s'.in_flight ≡ 1 + n)
    × ((1 ≤ shard_cap limited 0) → s'.in_flight ≤ shard_cap limited 0)
tokens_within_burst_example = tokens_within_burst 60 4 limited shard (omega arith)

claims_are_held_example :
    let (out, db') = take_jobs 60 (λ i. false) request 0 2 database in
    (length out ≤ 2) × All (λ c. exists (is_handed request c) db'.jobs ≡ true) out
claims_are_held_example = claims_are_held 60 (λ i. false) request 0 2 database
