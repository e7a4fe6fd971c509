-- ===== src/Archiver.antt =====
-- internal/archiver/archiver.go: what has ended long ago moves to the archive tables. The logs of
-- jobs and the partitions of the archive tables are left out. A row that another transaction has
-- locked is skipped.
pub mod Moved
use job_scheduling.Base.{
  ℕ, zero, suc, ◌+◌, Bool, true, false, not, ◌&&◌, ◌||◌, Option, none, some, List, [], ◌∷◌, ◌++◌,
  ltb, ◌==◌, if◌then◌else◌, select, exists, sort_by, take, length, elem, map,
}
use job_scheduling.Store.{
  Job, Execution, DeadLetter, Dependency, Lease, IdempotencyKey, Db, DbError, is_terminal, is_dead,
  is_set,
}
use job_scheduling.Jobs.Lease.{Answer, value, error}

-- The archive tables.
pub record Archive : Type 0 where
  pub jobs : List Job
  pub executions : List Execution
  pub dead_letters : List DeadLetter

abbrev ended_before : ℕ → ℕ → Option ℕ → Bool
ended_before now age none = false
ended_before now age (some t) = ltb (t + age) now

-- pickSQL's `where`.
unfoldable pub is_old : ℕ → ℕ → ℕ → (ℕ → Bool) → List Execution → Job → Bool
is_old now after dead_letter locked xs j =
    is_terminal j.status
    && ended_before now after j.finished_at
    && (not (is_dead j.status) || ended_before now dead_letter j.finished_at)
    && not (exists (λ x. x.job == j.id && not (is_set x.finished_at)) xs)
    && not (locked j.id)

abbrev finished_time : Job → ℕ
finished_time j = elim j.finished_at [ none ↦ 0 | some t ↦ t ]

abbrev pub by_finish : Job → Job → Bool
by_finish a b = ltb (finished_time a) (finished_time b)

unfoldable pub pick : ℕ → ℕ → ℕ → (ℕ → Bool) → ℕ → Db → List ℕ
unfolding is_old
pick now after dead_letter locked limit db =
    map (λ j. j.id)
      (take limit
        (sort_by by_finish (select (is_old now after dead_letter locked db.executions) db.jobs)))

-- `where id = any($1)`, of rows that are locked and so still old.
unfoldable pub movable : ℕ → ℕ → ℕ → (ℕ → Bool) → List Execution → List ℕ → Job → Bool
unfolding is_old
movable now after dead_letter locked xs ids j =
    elem j.id ids && is_old now after dead_letter locked xs j

-- The four moves, with the leases and dependencies that go with the jobs (`on delete cascade`).
unfoldable pub move : (Job → Bool) → List ℕ → Db → Archive → Db × Archive
move old ids db ar = (
  record db {
    jobs = select (λ j. not (old j)) db.jobs;
    executions = select (λ x. not (elem x.job ids)) db.executions;
    dead_letters = select (λ d. not (elem d.job ids)) db.dead_letters;
    leases = select (λ l. not (elem l.job ids)) db.leases;
    dependencies = select (λ d. not (elem d.parent ids || elem d.child ids)) db.dependencies;
  },
  record {
    jobs = select old db.jobs ++ ar.jobs;
    executions = select (λ x. elem x.job ids) db.executions ++ ar.executions;
    dead_letters = select (λ d. elem d.job ids) db.dead_letters ++ ar.dead_letters;
  },
)

unfoldable pub move_picked :
    ℕ → ℕ → ℕ → (ℕ → Bool) → List ℕ → Db → Archive → Answer ℕ × Db × Archive
unfolding move movable
move_picked now after dead_letter locked [] db ar = (value 0, db, ar)
move_picked now after dead_letter locked (i ∷ is) db ar =
    let (db', ar') =
      move (movable now after dead_letter locked db.executions (i ∷ is)) (i ∷ is) db ar in
    (value (length (i ∷ is)), db', ar')

-- Archive, with the number of jobs picked. A transaction that fails has changed nothing.
unfoldable pub archive :
    Option DbError → ℕ → ℕ → ℕ → (ℕ → Bool) → ℕ → Db → Archive → Answer ℕ × Db × Archive
unfolding pick move_picked
archive fault now after dead_letter locked limit db ar = elim fault [
  | some e ↦ (error e, db, ar)
  | none ↦
      move_picked now after dead_letter locked (pick now after dead_letter locked limit db) db ar
]

-- Prune, with the number of keys deleted.
unfoldable pub prune : Option DbError → ℕ → Db → Answer ℕ × Db
prune fault now db = elim fault [
  | some e ↦ (error e, db)
  | none ↦ (
    value (length (select (λ k. ltb k.expires_at now) db.idempotency_keys)),
    record db { idempotency_keys = select (λ k. not (ltb k.expires_at now)) db.idempotency_keys },
  )
]

-- What one round of the loop in Run meets.
pub record Round : Type 0 where
  pub now : ℕ
  pub fault : Option DbError

-- The inner loop of Run: rounds until one fails or picks fewer jobs than a batch. Nothing where the
-- fuel does not do.
module _ (after dead_letter batch : ℕ) (meets : ℕ → Round) where
  unfoldable pub drain : ℕ → ℕ → Db → Archive → Option (Db × Archive)
  unfolding archive
  drain zero i db ar = none
  drain (suc fuel) i db ar =
      let (answer, db', ar') =
        archive (meets i).fault (meets i).now after dead_letter (λ _. false) batch db ar in
      let again = drain fuel (i + 1) db' ar' in
      elim answer [
        | error e ↦ some (db', ar')
        | value n ↦ if ltb n batch then some (db', ar') else again
      ]
