-- ===== src/Worker/Retry.antt =====
-- The loops of internal/worker/run.go that try a statement up to three times. What an attempt meets
-- is an argument: what other transactions did before it, the clock, the error it fails with and
-- whether it took effect all the same, and whether the context lives through the pause behind it.
use job_scheduling.Base.{
  ℕ, zero, suc, ◌+◌, Bool, true, false, not, Option, none, some, String, if◌then◌else◌,
}
use job_scheduling.Store.{
  Db, DbError, serialization_failure, deadlock_detected, connection, Reply, ok, fenced, failed,
}
use job_scheduling.Jobs.Start.{Started, start}
use job_scheduling.Jobs.Claim.{Claimed}
use job_scheduling.Jobs.Lease.{Answer, value, error, extend_lease}
use job_scheduling.Jobs.Failure.{fail}
use job_scheduling.Jobs.Snooze.{snooze}

-- transient of run.go; of a broken connection pgconn.SafeToRetry decides.
unfoldable pub transient : DbError → Bool
transient serialization_failure = true
transient deadlock_detected = true
transient (connection safe) = safe
transient _ = false

pub record Attempt : Type 0 where
  pub meddles : Db → Db  -- other transactions, since the attempt before
  pub now : ℕ
  pub fault : Option DbError
  pub took : Bool  -- where it fails: its transaction was committed, and only the answer lost
  pub waits : Bool  -- backoff, which is false when the context ends

-- An attempt at an operation that is told the error to fail with, if there is one, and whether it
-- took effect all the same.
unfoldable pub met {ℓ} :
    {R : Type ℓ} → Option DbError → Bool → (Option DbError → Db → R × Db) → Db → R × Db
met none took op db = op none db
met (some e) took op db = ((op (some e) db).0, if took then (op none db).1 else db)

abbrev pub report_attempts : ℕ
report_attempts = 3

-- `err == nil || errors.Is(err, jobs.ErrFenced) || !transient(err)`.
unfoldable pub reply_settled {ℓ} : {A : Type ℓ} → Reply A → Bool
unfolding transient
reply_settled (ok a) = true
reply_settled fenced = true
reply_settled (failed e) = not (transient e)

-- `err == nil || !transient(err)`.
unfoldable pub answer_settled {ℓ} : {A : Type ℓ} → Answer A → Bool
unfolding transient
answer_settled (value a) = true
answer_settled (error e) = not (transient e)

-- The loop: at most `n` attempts from the i-th on, `last` the result where none is left.
unfoldable pub retry {ℓ} :
    {R : Type ℓ} → (R → Bool) → (ℕ → Attempt) → (Attempt → Db → R × Db) → ℕ → ℕ → R → Db → R × Db
retry settled meets try zero i last db = (last, db)
retry settled meets try (suc n) i last db =
    let (r, db') = try (meets i) ((meets i).meddles db) in
    let again = retry settled meets try n (i + 1) r db' in
    if settled r then (r, db') else if (meets i).waits then again else (r, db')

-- startJob; `exec` is the id of the execution that the attempt would make.
unfoldable pub start_job : (ℕ → Attempt) → ℕ → ℕ → Claimed → Reply Started → Db → Reply Started × Db
unfolding retry met reply_settled start
start_job meets exec worker c =
    retry reply_settled meets (λ a. met a.fault a.took λ f. start f a.now exec c.id c.fence worker)
      report_attempts 0

-- extend.
unfoldable pub extend :
    (ℕ → Attempt) → ℕ → Claimed → Option String → Answer Bool → Db → Answer Bool × Db
unfolding retry met answer_settled extend_lease
extend meets lease c progress =
    retry answer_settled meets
      (λ a. met a.fault a.took λ f. extend_lease f a.now c.id c.fence lease progress)
      report_attempts 0

-- snooze.
unfoldable pub snooze_job : (ℕ → Attempt) → ℕ → Claimed → ℕ → Reply ℕ → Db → Reply ℕ × Db
unfolding retry met reply_settled snooze
snooze_job meets exec c delay =
    retry reply_settled meets (λ a. met a.fault a.took λ f. snooze f a.now c.id c.fence exec delay)
      report_attempts 0

-- report.
unfoldable pub report_job :
    (ℕ → Attempt) → (ℕ → ℕ) → Claimed → Bool → String → Reply ℕ → Db → Reply ℕ × Db
unfolding retry met reply_settled fail
report_job meets draw c permanent message =
    retry reply_settled meets
      (λ a. met a.fault a.took λ f. fail f draw a.now c.id c.fence permanent message)
      report_attempts 0
