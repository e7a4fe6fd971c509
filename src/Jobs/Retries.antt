-- ===== src/Jobs/Retries.antt =====
-- When a failed job is tried again: fl.backoff, the decision of fl.report_failure, and the delay
-- of a snooze.
use job_scheduling.Base.{ℕ, ◌+◌, ◌*◌, ◌≤◌, ◌<◌, ◌⊎◌, ◌≡◌, Bool, true, false, none, some, arith}
use native.Mathlib.Nat.{pow-le-pow_right, mul-le-mul_left}
use job_scheduling.Store.{
  Job, Policy, retry_wait, dead_letter, BackoffKind, fixed, linear, exponential,
}
use job_scheduling.Jobs.Failure.{delay_factor, base_delay, backoff, fail_row}
use job_scheduling.Jobs.Snooze.{snooze_row}

delay_factor-grows :
    (kind : BackoffKind) (a b : ℕ) → a ≤ b → delay_factor kind a ≤ delay_factor kind b
unfolding delay_factor
delay_factor-grows fixed a b h = omega arith
delay_factor-grows linear a b h = omega arith
delay_factor-grows exponential a b h = pow-le-pow_right (omega arith) (omega arith)

base_delay-le : (rp : Policy) (a : ℕ) → base_delay rp a ≤ rp.max_delay_ms
unfolding base_delay
base_delay-le rp a = omega arith

backoff-le :
    (draw : ℕ → ℕ) (rp : Policy) (a : ℕ)
    → ((d : ℕ) → draw d ≤ d)
    → backoff draw rp a ≤ rp.max_delay_ms * 1000
unfolding backoff
backoff-le draw rp a small = ground (arith, base_delay-le rp a, small (base_delay rp a * 1000))

-- fl.backoff before jitter grows with the attempt, and neither it nor what is drawn from it is ever
-- more than the policy's maximal delay, if the draw from `d` is at most `d`.
pub backoff_bounded :
    (draw : ℕ → ℕ) (rp : Policy) (a b : ℕ)
    → ((d : ℕ) → draw d ≤ d)
    → a ≤ b
    → (base_delay rp a ≤ base_delay rp b) × (backoff draw rp a ≤ rp.max_delay_ms * 1000)
unfolding base_delay
backoff_bounded draw rp a b small h = (
  let grows = mul-le-mul_left rp.base_delay_ms (delay_factor-grows rp.kind a b h) in
      omega (arith, grows),
  backoff-le draw rp a small,
)

-- A failure sends a job to the dead letters exactly where its cause is permanent or its policy's
-- attempts are used up; otherwise the job waits, holds no worker, and is due again within the
-- maximal delay, if the draw from `d` is at most `d`.
pub failure_decision :
    (draw : ℕ → ℕ) (now : ℕ) (permanent : Bool) (rp : Policy) (j : Job)
    → ((d : ℕ) → draw d ≤ d)
    → let j' = fail_row draw now permanent rp j in
      (((permanent ≡ true) ⊎ (rp.max_attempts ≤ j.attempt_count))
        × (j'.status ≡ dead_letter)
        × (j'.finished_at ≡ some now)
        × (j'.worker ≡ none))
      ⊎ ((permanent ≡ false)
          × (j.attempt_count < rp.max_attempts)
          × (j'.status ≡ retry_wait)
          × (j'.worker ≡ none)
          × (now ≤ j'.run_at)
          × (j'.run_at ≤ now + rp.max_delay_ms * 1000))
unfolding fail_row
failure_decision draw now permanent rp j small =
    ground (arith, backoff-le draw rp j.attempt_count small)

-- A snoozed job is due again after the delay that its worker asked for, but never later than the
-- maximal delay of its policy; it keeps its attempts, and its fence moves on, so that the worker
-- that snoozed it holds it no more.
pub snooze_clamped :
    (now delay : ℕ) (rp : Policy) (j : Job)
    → let j' = snooze_row now delay rp j in
      (j'.run_at ≤ now + delay * 1000)
      × (j'.run_at ≤ now + rp.max_delay_ms * 1000)
      × ((j'.run_at ≡ now + delay * 1000) ⊎ (j'.run_at ≡ now + rp.max_delay_ms * 1000))
      × (j.fence < j'.fence)
      × (j'.attempt_count ≡ j.attempt_count)
      × (j'.worker ≡ none)
unfolding snooze_row
snooze_clamped now delay rp j = ground arith
