-- ===== src/Api/Transaction.antt =====
-- tx of internal/api/respond.go: the transaction that every handler runs in, tried again where the
-- database or a lost race for an idempotency key asks for it.
use job_scheduling.Base.{ℕ, zero, suc, ◌+◌, Bool, Option, none, some, if◌then◌else◌}
use job_scheduling.Store.{Db, DbError}
use job_scheduling.Api.Problem.{
  ApiError, ApiReply, done, refused, conflict_retry, database, is_retryable,
}

-- What one turn of the loop meets outside the handler.
pub record Turn : Type 0 where
  pub meddles : Db → Db  -- other transactions, since the turn before
  pub begin_fails : Option DbError
  pub commit_fails : Option DbError
  pub commit_took : Bool  -- where the commit fails: it was done, and only the answer lost

abbrev pub max_tx_retries : ℕ
max_tx_retries = 5

module _ {ℓ} {A : Type ℓ} (meets : ℕ → Turn) (handler : ℕ → Db → ApiReply (A × Db)) where
  -- Go on after an error, or stop with it.
  unfoldable pub give_up : ApiError → (ApiError → Db → ApiReply A × Db) → Db → ApiReply A × Db
  unfolding is_retryable
  give_up e again db = if is_retryable e then again e db else (refused e, db)

  -- The commit: where it fails, the database is the handler's if it was done all the same.
  unfoldable pub commit :
      Option DbError → Bool → A → Db → (ApiError → Db → ApiReply A × Db) → Db → ApiReply A × Db
  unfolding give_up
  commit none took a db' again db = (done a, db')
  commit (some e) took a db' again db = give_up (database e) again (if took then db' else db)

  -- The handler's turn: what it did is rolled back unless it is committed.
  unfoldable pub handle :
      Option DbError
      → Bool
      → ApiReply (A × Db)
      → (ApiError → Db → ApiReply A × Db)
      → Db
      → ApiReply A × Db
  unfolding commit give_up
  handle fault took (refused e) again db = give_up e again db
  handle fault took (done (a, db')) again db = commit fault took a db' again db

  unfoldable pub begin :
      Turn → ApiReply (A × Db) → (ApiError → Db → ApiReply A × Db) → Db → ApiReply A × Db
  unfolding handle
  begin t r again db = elim t.begin_fails [
    | some e ↦ (refused (database e), db)
    | none ↦ handle t.commit_fails t.commit_took r again db
  ]

  -- The loop, with the error to end in where no turn is left.
  unfoldable pub tx_loop : ℕ → ℕ → ApiError → Db → ApiReply A × Db
  unfolding begin
  tx_loop zero i last db = (refused last, db)
  tx_loop (suc n) i last db =
      let here = (meets i).meddles db in
      begin (meets i) (handler i here) (λ e. tx_loop n (i + 1) e) here

  unfoldable pub tx : Db → ApiReply A × Db
  unfolding tx_loop
  tx = tx_loop max_tx_retries 0 conflict_retry
