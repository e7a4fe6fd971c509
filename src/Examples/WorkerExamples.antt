-- ===== src/Examples/WorkerExamples.antt =====
-- The theorems on internal/worker, applied.
use job_scheduling.Base.{
  inl, ℕ, zero, suc, ◌≤◌, ◌≡◌, true, false, none, some, List, [], ◌∷◌, ◌++◌, arith, refl, map,
  length, All,
}
use job_scheduling.Store.{deadlock_detected, fenced}
use job_scheduling.Jobs.Start.{start}
use job_scheduling.Jobs.Failure.{fail}
use job_scheduling.Jobs.Snooze.{snooze}
use job_scheduling.Worker.Retry.{Attempt, met, reply_settled, start_job, report_job, snooze_job}
use job_scheduling.Worker.Retrying.{IsHonest, Came, retries_act_once}
use job_scheduling.Worker.Run.{Finished, Ending, err, end_job}
use job_scheduling.Worker.Stopping.{Unmoved, Logged, fenced_worker_is_silent}
use job_scheduling.Worker.Logs.{
  Use, logs, writes, run_uses, logged, is_calm, line_of, logs_in_order,
}
use job_scheduling.Worker.Complete.{Signal, got, tick, complete_loop}
use job_scheduling.Worker.Batching.{concat, received, batches_are_complete}
use job_scheduling.Worker.Poll.{Config, Poll, polls, ends, run_worker}
use job_scheduling.Worker.Capacity.{worker_within_capacity}
use job_scheduling.Examples.Data.{database, handed_job}

-- The first attempt meets a deadlock, the others nothing.
abbrev meets : ℕ → Attempt
meets zero = record {
  meddles = λ d. record d { violations = [] };
  now = 60;
  fault = some deadlock_detected;
  took = false;
  waits = true;
}
meets (suc n) = record {
  meddles = λ d. record d { events = [] };
  now = 61;
  fault = none;
  took = false;
  waits = true;
}

meets-IsHonest : IsHonest meets
meets-IsHonest zero e h k = refl
meets-IsHonest (suc n) e h k = refl

retries_act_once_example :
    Came reply_settled meets
      (λ a. met a.fault a.took λ f. start f a.now 31 8 4 9)
      database
      3
      (start_job meets 31 9 handed_job fenced database)
    × Came reply_settled meets
        (λ a. met a.fault a.took λ f. fail f (λ d. d) a.now 8 4 false "no")
        database
        3
        (report_job meets (λ d. d) handed_job false "no" fenced database)
    × Came reply_settled meets
        (λ a. met a.fault a.took λ f. snooze f a.now 8 4 31 5)
        database
        3
        (snooze_job meets 31 handed_job 5 fenced database)
retries_act_once_example =
    retries_act_once meets (λ d. d) 31 9 5 false "no" handed_job fenced fenced database
      meets-IsHonest

abbrev lost : Ending
lost = record {
  was_fenced = true;
  aborted = false;
  lines = record { level = "info"; message = "last" } ∷ [];
  log_now = 59;
  log_fault = none;
  now = 60;
  probe_fault = none;
  close_fault = none;
}

fenced_worker_is_silent_example :
    let (out, job_logs, db') =
      end_job meets (λ d. d) lost 9 handed_job 30 (err true "no") [] database in
    (out ≡ none)
    × Logged lost [] job_logs
    × Unmoved 60 9 handed_job 30 database db'
    × (true ≡ false → db' ≡ database)
fenced_worker_is_silent_example =
    fenced_worker_is_silent meets (λ d. d) lost 9 handed_job 30 (err true "no") [] database
      (inl refl)

abbrev uses : List Use
uses = logs "info" "one" ∷ writes 70 none ∷ logs "info" "two" ∷ []

logs_in_order_example :
    let (left, rows) = run_uses 30 uses [] [] in map line_of rows ++ left ≡ logged uses
unfolding is_calm
logs_in_order_example = logs_in_order 30 uses [] [] refl (omega arith)

abbrev finished : Finished
finished = record { claimed = handed_job; exec = 30 }

abbrev signals : List Signal
signals = got finished ∷ tick ∷ got finished ∷ got finished ∷ []

batches_are_complete_example :
    (concat (complete_loop 2 [] signals) ≡ received signals)
    × All (λ b. length b ≤ 2) (complete_loop 2 [] signals)
batches_are_complete_example = batches_are_complete 2 [] signals (omega arith)

abbrev config : Config
config = record { queue = 1; worker = 9; concurrency = 3; lease = 30000000; types = "mail" ∷ [] }

abbrev round : Poll
round = record {
  now = 60;
  rot = 0;
  locked = λ i. false;
  faults = record { admit_fails = none; take_fails = none; give_fails = none };
}

worker_within_capacity_example :
    (run_worker config (polls round ∷ ends ∷ polls round ∷ []) (1, database)).0 ≤ 3
worker_within_capacity_example =
    worker_within_capacity config (polls round ∷ ends ∷ polls round ∷ []) 1 database (omega arith)
