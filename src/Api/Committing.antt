-- ===== src/Api/Committing.antt =====
-- What the transaction loop of internal/api/respond.go comes to.
use job_scheduling.Base.{
  ℕ, zero, suc, ◌+◌, ◌<◌, ◌≡◌, ◌⊎◌, inl, inr, refl, subst, ap, Bool, true, false, Option, none,
  some, arith, if◌then◌else◌, Bool-cases, Option-cases,
}
use job_scheduling.Store.{Db, DbError, rolls_back, serialization_failure, deadlock_detected}
use job_scheduling.Api.Problem.{
  ApiError, ApiReply, done, refused, conflict_retry, database, is_retryable,
}
use job_scheduling.Api.Transaction.{Turn, give_up, commit, handle, begin, tx_loop, tx}

-- A commit that failed with an error that rolls back was not done.
abbrev pub AreHonest : (ℕ → Turn) → Type 0
AreHonest meets =
    (i : ℕ) (e : DbError)
    → (meets i).commit_fails ≡ some e
    → rolls_back e ≡ true
    → (meets i).commit_took ≡ false

-- The database that the other transactions have made of it before the i-th turn, where the turns
-- before that left nothing of their own; those before the i-th turn itself are not among them.
unfoldable pub left : (ℕ → Turn) → Db → ℕ → Db
left meets db zero = db
left meets db (suc i) = (meets i).meddles (left meets db i)

-- What is tried again has been rolled back.
retryable-rolls_back : (e : DbError) → is_retryable (database e) ≡ true → rolls_back e ≡ true
unfolding is_retryable rolls_back
retryable-rolls_back serialization_failure h = refl
retryable-rolls_back deadlock_detected h = refl
retryable-rolls_back e h = ground arith

module _ {A : Type 0} (meets : ℕ → Turn) (handler : ℕ → Db → ApiReply (A × Db)) (db : Db) where
  -- Why the m-th turn was the last one.
  pub data EndsAt (m : ℕ) (e : ApiError) : Type 0 where
    not_begun : (why : DbError) → (meets m).begin_fails ≡ some why → EndsAt m e
    not_retryable : is_retryable e ≡ false → EndsAt m e
    used_up : m ≡ 4 → EndsAt m e

  -- The handler's run at the m-th turn, on the database that this turn finds.
  abbrev pub RanAt : ℕ → A → Db → Type 0
  RanAt m a after = handler m (left meets db (suc m)) ≡ done (a, after)

  -- One turn of the handler was committed; or a turn was refused and nothing happened, for a reason
  -- to stop; or it is not known of the commit of the last turn whether it was done, and it was.
  abbrev pub OnceOrNever : ApiReply A × Db → Type 0
  OnceOrNever (done a, after) =
      (m : ℕ) × (m < 5) × RanAt m a after × ((meets m).commit_fails ≡ none)
  OnceOrNever (refused e, after) =
      (m : ℕ) × (m < 5)
      × (((after ≡ left meets db (suc m)) × EndsAt m e)
          ⊎ ((a : A) × (why : DbError) × RanAt m a after
              × ((meets m).commit_fails ≡ some why)
              × (rolls_back why ≡ false)
              × (e ≡ database why)))

  -- The loop goes on as it should, on what the other transactions made of the database.
  abbrev GoesOn : ℕ → (ApiError → Db → ApiReply A × Db) → Type 0
  GoesOn m again = (e : ApiError) → OnceOrNever (again e (left meets db (suc m)))

  give_up-Once :
      (m : ℕ) (e : ApiError) (again : ApiError → Db → ApiReply A × Db)
      → m < 5
      → GoesOn m again
      → OnceOrNever (give_up meets handler e again (left meets db (suc m)))
  unfolding give_up
  give_up-Once m e again l h = elim (Bool-cases (is_retryable e)) [
    | inl more ↦ rw more (h e)
    | inr over ↦ rw over (m, l, inl (refl, not_retryable over))
  ]

  commit-Once :
      (m : ℕ) (why : DbError) (took : Bool) (a : A) (db' : Db)
      (again : ApiError → Db → ApiReply A × Db)
      → m < 5
      → (meets m).commit_fails ≡ some why
      → (rolls_back why ≡ true → took ≡ false)
      → RanAt m a db'
      → GoesOn m again
      → OnceOrNever
          (give_up meets handler (database why) again (if took then db' else left meets db (suc m)))
  commit-Once m why false a db' again l f honest r h = give_up-Once m (database why) again l h
  commit-Once m why true a db' again l f honest r h =
      elim (Bool-cases (is_retryable (database why))) [
        | inl more ↦ let off = honest (retryable-rolls_back why more) in ground arith
        | inr over ↦ elim (Bool-cases (rolls_back why)) [
          | inl back ↦ let off = honest back in ground arith
          | inr lost ↦ unfold give_up in rw over (m, l, inr (a, why, r, f, lost, refl))
        ]
      ]

  handle-Once :
      (m : ℕ) (fault : Option DbError) (r : ApiReply (A × Db))
      (again : ApiError → Db → ApiReply A × Db)
      → m < 5
      → AreHonest meets
      → (meets m).commit_fails ≡ fault
      → handler m (left meets db (suc m)) ≡ r
      → GoesOn m again
      → OnceOrNever
          (handle meets handler fault (meets m).commit_took r again (left meets db (suc m)))
  unfolding handle commit
  handle-Once m fault (refused e) again l honest f s h = give_up-Once m e again l h
  handle-Once m none (done (a, db')) again l honest f s h = (m, l, s, f)
  handle-Once m (some e) (done (a, db')) again l honest f s h =
      commit-Once m e _ a db' again l f (honest m e f) s h

  begin-Once :
      (m : ℕ) (again : ApiError → Db → ApiReply A × Db)
      → m < 5
      → AreHonest meets
      → GoesOn m again
      → let here = left meets db (suc m) in
        OnceOrNever (begin meets handler (meets m) (handler m here) again here)
  unfolding begin
  begin-Once m again l honest h = elim (Option-cases (meets m).begin_fails) [
    | inl begun ↦ rw begun (handle-Once m _ _ again l honest refl refl h)
    | inr (why, fails) ↦ rw fails (m, l, inl (refl, not_begun why fails))
  ]

  tx_loop-Once :
      (n i : ℕ) (last : ApiError)
      → n + i ≡ 5
      → AreHonest meets
      → OnceOrNever (tx_loop meets handler n i last (left meets db i))
  unfolding tx_loop left
  tx_loop-Once zero i last l honest =
      let fifth : i ≡ 5 = omega (arith, l) in
      (4, omega arith, inl (ap (left meets db) fifth, used_up refl))
  tx_loop-Once (suc n) i last l honest = begin-Once i _ (omega (arith, l)) honest λ e.
      let one : i + 1 ≡ suc i = omega arith in
      subst (λ k. OnceOrNever (tx_loop meets handler n (i + 1) e (left meets db k))) one
        (tx_loop-Once n (i + 1) e (omega (arith, l)) honest)

-- What a request comes to, whatever other transactions do between the turns of its loop, where no
-- commit took effect whose error Postgres or pgx document as rolled back, or never sent. It
-- is done where one of at most five turns was committed, and then what it changed is one run of its
-- handler, on the database that this turn found. Or it is refused and has changed nothing: the
-- transaction was not begun, or the error is not one to try again for, or the fifth turn failed.
-- Or it is refused and one run of its handler took effect: the last turn's connection broke in the
-- commit. So errors and lost races leave no trace, and no handler takes effect twice.
pub tx_lem :
    {A : Type 0} (meets : ℕ → Turn) (handler : ℕ → Db → ApiReply (A × Db)) (db : Db)
    → AreHonest meets
    → OnceOrNever meets handler db (tx meets handler db)
unfolding tx left
tx_lem meets handler db honest = tx_loop-Once meets handler db 5 0 conflict_retry refl honest
