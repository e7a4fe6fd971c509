-- ===== src/Api/Problem.antt =====
-- internal/api/problem.go and the error half of respond.go: what a handler can fail with, and the
-- response that it becomes.
use job_scheduling.Base.{ℕ, String, Bool, true, false, Option, none, some}
use job_scheduling.Store.{DbError, serialization_failure, deadlock_detected, query_canceled}

-- The errors that handlers return: an apiError, an error of the database,
-- errConflictRetry, pgx.ErrNoRows passed on, or another.
pub data ApiError : Type 0 where
  bad_request : String → ApiError
  unauthorized : ApiError
  forbidden : ApiError
  not_found : String → ApiError
  conflict : String → ApiError
  too_old : ℕ → ApiError
  too_many : String → ℕ → ApiError
  database : DbError → ApiError
  conflict_retry : ApiError
  no_rows : ApiError
  internal : ApiError  -- any other error

-- A handler's `(result, error)`.
pub data ApiReply {ℓ} (A : Type ℓ) : Type ℓ where
  done : A → ApiReply A
  refused : ApiError → ApiReply A

infixl 5 ◌>>=◌ ◌>>◌
unfoldable pub ◌>>=◌ {ℓ κ} : {A : Type ℓ} {B : Type κ} → ApiReply A → (A → ApiReply B) → ApiReply B
done a >>= f = f a
refused e >>= f = refused e

abbrev pub ◌>>◌ {ℓ} : {B : Type ℓ} → ApiReply (Unit {0}) → ApiReply B → ApiReply B
m >> k = m >>= λ _. k

-- `if !ok { return err }`.
abbrev pub require : Bool → ApiError → ApiReply (Unit {0})
require true e = done tt
require false e = refused e

-- The status, title and Retry-After header of writeError.
pub record Problem : Type 0 where
  pub status : ℕ
  pub title : String
  pub retry_after : Option ℕ

abbrev pub plain : ℕ → String → Problem
plain status title = record { status = status; title = title; retry_after = none }

unfoldable pub database_problem : DbError → Problem
database_problem query_canceled = record {
  status = 503;
  title = "unavailable";
  retry_after = some 1;
}
database_problem _ = plain 500 "internal error"

-- writeError.
unfoldable pub problem_of : ApiError → Problem
unfolding database_problem
problem_of (bad_request detail) = plain 400 "bad request"
problem_of unauthorized = plain 401 "unauthorized"
problem_of forbidden = plain 403 "forbidden"
problem_of (not_found what) = plain 404 "not found"
problem_of (conflict detail) = plain 409 "conflict"
problem_of (too_old low) = plain 410 "cursor too old"
problem_of (too_many detail after) = record {
  status = 429;
  title = "queue full";
  retry_after = some after;
}
problem_of (database e) = database_problem e
problem_of conflict_retry = plain 500 "internal error"
problem_of no_rows = plain 500 "internal error"
problem_of internal = plain 500 "internal error"

-- retryable of respond.go: the errors for which a transaction is run again.
unfoldable pub is_retryable : ApiError → Bool
is_retryable conflict_retry = true
is_retryable (database serialization_failure) = true
is_retryable (database deadlock_detected) = true
is_retryable _ = false
