-- ===== src/Examples/SchedulerExamples.antt =====
-- The theorems on internal/scheduler, applied.
use job_scheduling.Scheduler.Reaper.{is_expired, reap, Turn as ReaperTurn}
use job_scheduling.Scheduler.Settling.{is_held, HasPolicies}
use job_scheduling.Scheduler.Reaping.{reap_lem}
use job_scheduling.Jobs.Claim.{has_id}
use job_scheduling.Base.{
  exists, All, ℕ, ◌+◌, ◌≤◌, ◌≡◌, ◌⊎◌, refl, true, false, Option, none, some, [], ◌∷◌, arith, find,
  count,
}
use job_scheduling.Store.{Catchup, closed}
use job_scheduling.Jobs.Admit.{queue_admit, is_queue}
use job_scheduling.Scheduler.Breaker.{breaker_turn, probe_outcome}
use job_scheduling.Scheduler.Moves.{Turned, trips}
use job_scheduling.Scheduler.Tripping.{breaker_transitions, tripped_breaker_blocks}
use job_scheduling.Scheduler.Cron.{plan, Plan, is_tick, fire_each}
use job_scheduling.Scheduler.Cron.CatchUp.{Failed, Settled, catch_up_lem}
use job_scheduling.Scheduler.Cron.Once.{one_job_per_tick}
use job_scheduling.Examples.Data.{database, queue, schedule}

found_row : find (is_queue 1) database.queues ≡ some queue
unfolding find
found_row = refl

breaker_transitions_example :
    Turned 3 5 90
      (probe_outcome 1 none database.executions)
      closed
      queue
      database
      (breaker_turn 60 3 30 queue 5 database)
breaker_transitions_example = breaker_transitions 60 3 30 5 queue database found_row

tripped_breaker_blocks_example :
    (queue_admit 70 0 1 4 (breaker_turn 60 3 30 queue 5 database).1).0 ≡ 0
tripped_breaker_blocks_example =
    tripped_breaker_blocks 60 3 30 5 70 0 4 queue database found_row (trips (omega arith))
      (omega arith)

-- A tick every ten.
abbrev every_ten : ℕ → Option ℕ
every_ten t = some (t + 10)

catch_up_lem_example :
    ((plan 5 75 every_ten Catchup.skip 50 ≡ none) × Failed 75 every_ten 50)
    ⊎ ((p : Plan) × (count : ℕ) × (plan 5 75 every_ten Catchup.skip 50 ≡ some p)
        × Settled 5 75 every_ten Catchup.skip 50 p count)
catch_up_lem_example = catch_up_lem 5 75 every_ten Catchup.skip 50 (omega arith) (omega arith)

no_ticks : (s t : ℕ) → count (is_tick s t) database.jobs ≤ 1
unfolding count
no_ticks s t = omega arith

one_job_per_tick_example :
    count
      (is_tick 40 50)
      (fire_each (λ d. every_ten) 55 100 (schedule ∷ schedule ∷ []) (0, database)).1.jobs
    ≤ 1
one_job_per_tick_example =
    one_job_per_tick (λ d. every_ten) 55 100 0 (schedule ∷ schedule ∷ []) database no_ticks 40 50

abbrev reaper_turn : ℕ → ReaperTurn
reaper_turn job = record { now = 200; fault = none }

ids_once : (job : ℕ) → count (has_id job) database.jobs ≤ 1
unfolding count
ids_once job = ground arith

database-HasPolicies : HasPolicies database.policies database.jobs
unfolding exists
database-HasPolicies = (refl, (refl, (refl, tt)))

reap_lem_example :
    All
      (λ l.
        is_expired 200 database.jobs l ≡ true
        → exists (is_held l.job) (reap none (λ d. d) reaper_turn 200 5 database).2.jobs ≡ false)
      database.leases
reap_lem_example =
    reap_lem (λ d. d) reaper_turn 200 5 database (λ job. refl) (omega arith) ids_once
      database-HasPolicies
