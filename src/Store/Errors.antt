-- ===== src/Store/Errors.antt =====
-- What a statement sent to Postgres can fail with: the error codes that the Go code tells apart,
-- any other code, and a broken connection, of which pgx says whether a retry is safe.
use job_scheduling.Base.{Bool, true}

pub data DbError : Type 0 where
  serialization_failure : DbError  -- 40001
  deadlock_detected : DbError  -- 40P01
  query_canceled : DbError  -- 57014
  unique_violation : DbError  -- 23505
  check_violation : DbError  -- 23514
  foreign_key_violation : DbError  -- 23503
  object_in_use : DbError  -- 55006
  other_code : DbError
  connection : Bool → DbError

-- What Postgres and pgx document of an error: a statement or a commit that fails with a code is
-- rolled back, and so is one that was never sent; of any other broken connection nobody knows.
unfoldable pub rolls_back : DbError → Bool
rolls_back (connection safe) = safe
rolls_back _ = true

-- A Go function's `(value, error)`: `fenced` is ErrFenced of internal/jobs/report.go.
pub data Reply {ℓ} (A : Type ℓ) : Type ℓ where
  ok : A → Reply A
  fenced : Reply A
  failed : DbError → Reply A
