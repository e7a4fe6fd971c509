-- ===== src/Scheduler/Cron/Ticks.antt =====
-- The loop of Materialize over the ticks that have passed, and what it decides about them.
use job_scheduling.Base.{
  ℕ, zero, suc, ◌+◌, ◌-◌, Bool, true, false, Option, none, some, ltb, if◌then◌else◌,
}
use job_scheduling.Store.{Catchup, fire_once}

-- The last tick that has passed and how many there were, or a failure of the cron library. The
-- loop gives up behind `rounds` ticks.
unfoldable pub ticks : ℕ → ℕ → (ℕ → Option ℕ) → ℕ → ℕ → ℕ → Option (ℕ × ℕ)
ticks zero now next t last count = some (last, count)
ticks (suc rounds) now next t last count = elim (ltb now t) [
  | true ↦ some (last, count)
  | false ↦ elim (next t) [ none ↦ none | some nt ↦ ticks rounds now next nt t (count + 1) ]
]

-- `if count > 100000 { break }` stands behind the increment.
abbrev pub max_rounds : ℕ
max_rounds = 100001

-- What the passed ticks come to: the tick to fire for, the ticks skipped, and the next run.
pub record Plan : Type 0 where
  pub target : ℕ
  pub fire : Bool
  pub skipped : ℕ
  pub next_run : ℕ

-- `if count > 1`.
unfoldable pub catch_up : Catchup → ℕ → ℕ → ℕ → Plan
catch_up catchup last count next_run =
    if ltb 1 count
    then by_policy catchup
    else record { target = last; fire = true; skipped = 0; next_run = next_run }
  where
    by_policy : Catchup → Plan
    by_policy fire_once = record {
      target = last;
      fire = true;
      skipped = count - 1;
      next_run = next_run;
    }
    by_policy Catchup.skip = record {
      target = last;
      fire = false;
      skipped = count;
      next_run = next_run;
    }

unfoldable pub plan_next : Catchup → ℕ → ℕ → Option ℕ → Option Plan
unfolding catch_up
plan_next catchup last count none = none
plan_next catchup last count (some next_run) = some (catch_up catchup last count next_run)

unfoldable pub plan_ticks : Catchup → (ℕ → Option ℕ) → Option (ℕ × ℕ) → Option Plan
unfolding plan_next
plan_ticks catchup next none = none
plan_ticks catchup next (some (last, count)) = plan_next catchup last count (next last)

-- Nothing where the cron library fails.
unfoldable pub plan : ℕ → ℕ → (ℕ → Option ℕ) → Catchup → ℕ → Option Plan
unfolding ticks plan_ticks
plan rounds now next catchup next_run_at =
    plan_ticks catchup next (ticks rounds now next next_run_at next_run_at 0)
