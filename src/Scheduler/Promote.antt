-- ===== src/Scheduler/Promote.antt =====
-- internal/scheduler/promote.go: due jobs are queued, and old ones gain priority. The rows that
-- another transaction holds are skipped.
use job_scheduling.Base.{
  ℕ, ◌+◌, Bool, not, ◌&&◌, Option, none, some, List, ◌++◌, ltb, leb, ◌==◌, select, sort_by, take,
  length, update_all, elem, map,
}
use job_scheduling.Store.{Job, Db, DbError, queued, is_waiting, is_queued, EventPayload, job_queued}
use job_scheduling.Jobs.Start.{event}
use job_scheduling.Jobs.Lease.{Answer, value, error}

unfoldable pub is_due : ℕ → (ℕ → Bool) → Job → Bool
is_due now locked j =
    is_waiting j.status && leb j.run_at now && j.pending_deps == 0 && not (locked j.id)

abbrev pub by_run_at : Job → Job → Bool
by_run_at a b = ltb a.run_at b.run_at

unfoldable pub due_ids : ℕ → (ℕ → Bool) → ℕ → List Job → List ℕ
unfolding is_due
due_ids now locked limit jobs =
    map (λ j. j.id) (take limit (sort_by by_run_at (select (is_due now locked) jobs)))

-- `where id = any($1)`, of rows that are locked and so still due.
unfoldable pub promotable : ℕ → (ℕ → Bool) → List ℕ → Job → Bool
unfolding is_due
promotable now locked ids j = elem j.id ids && is_due now locked j

abbrev pub promote_row : Job → Job
promote_row j = record j { status = queued }

unfoldable pub promote_ids : ℕ → (ℕ → Bool) → List ℕ → Db → ℕ × Db
unfolding promotable
promote_ids now locked ids db =
    let promoted = select (promotable now locked ids) db.jobs in
    (
      length promoted,
      record db {
        jobs = update_all (promotable now locked ids) promote_row db.jobs;
        events =
            db.events ++ map (λ j. event job_queued j.id j.project EventPayload.empty) promoted;
      },
    )

-- Promote, with the number of jobs that it queued.
unfoldable pub promote : Option DbError → ℕ → (ℕ → Bool) → ℕ → Db → Answer ℕ × Db
unfolding due_ids promote_ids
promote fault now locked limit db = elim fault [
  | some e ↦ (error e, db)
  | none ↦
      let (n, db') = promote_ids now locked (due_ids now locked limit db.jobs) db in (value n, db')
]

-- `limit $3` stands without an order; the model takes the rows in the order of the table.
unfoldable pub is_aged : ℕ → ℕ → ℕ → Job → Bool
is_aged now older_than ceiling j =
    is_queued j.status && ltb (j.created_at + older_than) now && ltb j.priority ceiling

abbrev pub age_row : Job → Job
age_row j = record j { priority = j.priority + 1 }

-- Age, with the number of jobs that it moved up.
unfoldable pub age : Option DbError → ℕ → ℕ → ℕ → ℕ → Db → Answer ℕ × Db
unfolding is_aged
age fault now older_than ceiling limit db = elim fault [
  | some e ↦ (error e, db)
  | none ↦
      let ids = map (λ j. j.id) (take limit (select (is_aged now older_than ceiling) db.jobs)) in
      let aged = λ (j : Job). elem j.id ids && is_aged now older_than ceiling j in
      (value (length (select aged db.jobs)), record db { jobs = update_all aged age_row db.jobs })
]
