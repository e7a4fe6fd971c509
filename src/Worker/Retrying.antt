-- ===== src/Worker/Retrying.antt =====
-- What trying again amounts to: one attempt, on the database as it was.
use job_scheduling.Base.{
  ℕ, zero, suc, ◌+◌, ◌<◌, ◌≡◌, refl, sym, subst, Option-cases, Bool, true, false, not, Option, none,
  some, String, if◌then◌else◌, arith, inl, inr, ◌⊎◌, ap, ◌∙◌, find,
}
use job_scheduling.Store.{
  Db, DbError, serialization_failure, deadlock_detected, connection, Reply, failed, rolls_back,
}
use job_scheduling.Jobs.Start.{Started, start, start_found, startable}
use job_scheduling.Jobs.Success.{reply_of}
use job_scheduling.Jobs.Claim.{Claimed}
use job_scheduling.Jobs.Failure.{fail}
use job_scheduling.Jobs.Snooze.{snooze}
use job_scheduling.Worker.Retry.{
  Attempt, reply_settled, retry, met, transient, start_job, snooze_job, report_job,
}

-- An attempt that failed with an error that rolls back has not taken effect.
abbrev pub IsHonest : (ℕ → Attempt) → Type 0
IsHonest meets =
    (i : ℕ) (e : DbError) → (meets i).fault ≡ some e → rolls_back e ≡ true → (meets i).took ≡ false

-- The database that the i-th attempt finds, where those before it left none of their own.
unfoldable pub before : (ℕ → Attempt) → Db → ℕ → Db
before meets db zero = (meets 0).meddles db
before meets db (suc i) = (meets (suc i)).meddles (before meets db i)

before_next :
    (meets : ℕ → Attempt) (db : Db) (i : ℕ)
    → before meets db (i + 1) ≡ (meets (i + 1)).meddles (before meets db i)
unfolding before
before_next meets db i =
    let one : suc i ≡ i + 1 = omega arith in
    subst (λ k. before meets db k ≡ (meets k).meddles (before meets db i)) one refl

module _ {ℓ} {R : Type ℓ} (settled : R → Bool) (meets : ℕ → Attempt) (try : Attempt → Db → R × Db)
    (db : Db) where
  -- A result is that of one of the attempts before the n-th, on what it finds where those before it
  -- took no effect; and it is settled, or the context ended behind it, or it was the last attempt.
  abbrev pub Came : ℕ → R × Db → Type ℓ
  Came n r =
      (m : ℕ) × (m < n)
      × (r ≡ try (meets m) (before meets db m))
      × ((settled r.0 ≡ true) ⊎ ((meets m).waits ≡ false) ⊎ (m + 1 ≡ n))

  abbrev UnsettledKeeps : Type 0
  UnsettledKeeps = (i : ℕ) (d : Db) → settled (try (meets i) d).0 ≡ false → (try (meets i) d).1 ≡ d

  Came-if :
      (n i : ℕ) (here : Db) (again : R × Db) (b w : Bool)
      → i < n
      → before meets db i ≡ here
      → settled (try (meets i) here).0 ≡ b
      → (meets i).waits ≡ w
      → (b ≡ false → w ≡ true → Came n again)
      → Came n (if b then try (meets i) here else if w then again else try (meets i) here)
  Came-if n i here again true w l at s e h = (i, l, ap (try (meets i)) (sym at), inl s)
  Came-if n i here again false true l at s e h = h refl refl
  Came-if n i here again false false l at s e h = (i, l, ap (try (meets i)) (sym at), inr (inl e))

  retry_from :
      (n i : ℕ) (last : R) (d : Db)
      → UnsettledKeeps
      → before meets db i ≡ (meets i).meddles d
      → Came (suc n + i) (retry settled meets try (suc n) i last d)
  unfolding retry
  retry_from zero i last d keeps at =
      Came-if (1 + i) i ((meets i).meddles d) (try (meets i) ((meets i).meddles d)) _ _
        (omega arith) at refl refl
        λ s w. (i, omega arith, ap (try (meets i)) (sym at), inr (inr (omega arith)))
  retry_from (suc n) i last d keeps at =
      let here = (meets i).meddles d in
      Came-if (suc (suc n) + i) i here _ _ _ (omega arith) at refl refl λ s w.
        let kept = keeps i here s in
        let next : before meets db (i + 1) ≡ (meets (i + 1)).meddles (try (meets i) here).1 =
          before_next meets db i ∙ ap (meets (i + 1)).meddles (at ∙ sym kept) in
        let (m, most, is, end) =
          retry_from n (i + 1) (try (meets i) here).0 (try (meets i) here).1 keeps next in
        (
          m,
          omega (arith, most),
          is,
          elim end [
            | inl e ↦ inl e
            | inr (inl e) ↦ inr (inl e)
            | inr (inr e) ↦ inr (inr (omega (arith, e)))
          ],
        )

  pub retry_lem :
      (n : ℕ) (last : R) → UnsettledKeeps → Came (suc n) (retry settled meets try (suc n) 0 last db)
  unfolding before
  retry_lem n last keeps =
      subst (λ k. Came k (retry settled meets try (suc n) 0 last db)) (omega arith)
        (retry_from n 0 last db keeps refl)

-- What is tried again has been rolled back.
transient-rolls_back : (e : DbError) → transient e ≡ true → rolls_back e ≡ true
unfolding transient rolls_back
transient-rolls_back serialization_failure h = refl
transient-rolls_back deadlock_detected h = refl
transient-rolls_back (connection safe) h = h
transient-rolls_back e h = ground arith

-- An attempt that is not settled has left the database alone, where the operation is settled if it
-- meets no error, and fails with the error that it meets.
met-keeps :
    {A : Type 0} (fault : Option DbError) (took : Bool) (op : Option DbError → Db → Reply A × Db)
    (db : Db)
    → ((e : DbError) → fault ≡ some e → rolls_back e ≡ true → took ≡ false)
    → reply_settled (op none db).0 ≡ true
    → ((e : DbError) → (op (some e) db).0 ≡ failed e)
    → reply_settled (met fault took op db).0 ≡ false
    → (met fault took op db).1 ≡ db
unfolding met reply_settled
met-keeps none took op db honest calm fails h = ground arith
met-keeps (some e) took op db honest calm fails h =
    let s : not (transient e) ≡ false = subst (λ r. reply_settled r ≡ false) (fails e) h in
    let off = honest e refl (transient-rolls_back e (ground arith)) in rw off refl

-- An operation that meets no error is settled: it is done, or fenced.
start_job-calm :
    (now exec job fence worker : ℕ) (db : Db)
    → reply_settled (start none now exec job fence worker db).0 ≡ true
unfolding start start_found reply_settled
start_job-calm now exec job fence worker db =
    elim (Option-cases (find (startable job fence) db.jobs)) [
      | inl missing ↦ rw missing refl
      | inr (j, found) ↦ rw found refl
    ]

reply_of-calm : (r : Option ℕ × Db) → reply_settled (reply_of r).0 ≡ true
unfolding reply_settled
reply_of-calm (none, db') = refl
reply_of-calm (some q, db') = refl

-- The loops of startJob, report and snooze each come to one of their three attempts, made on the database that this attempt finds
-- where those before it took no effect at all, and whatever other transactions did in between: a
-- job is started, reported or snoozed at most once, and the reply and the database are those of
-- that attempt. It was not the last one only where its reply needs no other, or the context ended.
-- The condition is that no attempt whose error Postgres or pgx document as rolled back, or never
-- sent, took effect; any other broken connection may hide that it did.
pub retries_act_once :
    (meets : ℕ → Attempt) (draw : ℕ → ℕ) (exec worker delay : ℕ) (permanent : Bool)
    (message : String) (c : Claimed) (started : Reply Started) (reply : Reply ℕ) (db : Db)
    → IsHonest meets
    → Came reply_settled meets
        (λ a. met a.fault a.took λ f. start f a.now exec c.id c.fence worker)
        db
        3
        (start_job meets exec worker c started db)
      × Came reply_settled meets
          (λ a. met a.fault a.took λ f. fail f draw a.now c.id c.fence permanent message)
          db
          3
          (report_job meets draw c permanent message reply db)
      × Came reply_settled meets
          (λ a. met a.fault a.took λ f. snooze f a.now c.id c.fence exec delay)
          db
          3
          (snooze_job meets exec c delay reply db)
unfolding start_job report_job snooze_job
retries_act_once meets draw exec worker delay permanent message c started reply db honest = (
  retry_lem reply_settled meets
      (λ a. met a.fault a.took λ f. start f a.now exec c.id c.fence worker) db 2 started
      (λ i d.
        met-keeps (meets i).fault (meets i).took
          (λ f. start f (meets i).now exec c.id c.fence worker) d (honest i)
          (start_job-calm (meets i).now exec c.id c.fence worker d) (λ e. unfold start in refl)),
  retry_lem reply_settled meets
      (λ a. met a.fault a.took λ f. fail f draw a.now c.id c.fence permanent message) db 2 reply
      (λ i d.
        met-keeps (meets i).fault (meets i).took
          (λ f. fail f draw (meets i).now c.id c.fence permanent message) d (honest i)
          (unfold fail in reply_of-calm _) (λ e. unfold fail in refl)),
  retry_lem reply_settled meets
      (λ a. met a.fault a.took λ f. snooze f a.now c.id c.fence exec delay) db 2 reply
      (λ i d.
        met-keeps (meets i).fault (meets i).took
          (λ f. snooze f (meets i).now c.id c.fence exec delay) d (honest i)
          (unfold snooze in reply_of-calm _) (λ e. unfold snooze in refl)),
)
