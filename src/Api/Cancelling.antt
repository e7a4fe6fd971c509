-- ===== src/Api/Cancelling.antt =====
-- What cancelJob answers, and what it leaves (internal/api/jobs.go).
use job_scheduling.Base.{
  ℕ, ◌<◌, ◌≡◌, refl, true, false, none, some, arith, ◌==◌, if◌then◌else◌, find, modify, Bool-cases,
  inl, inr, find_passes, find-modify, if_elim, ap, ◌∙◌,
}
use job_scheduling.Store.{Job, Db, is_terminal, is_active, row_check, check_violation}
use job_scheduling.Jobs.Slots.{queue_release}
use job_scheduling.Jobs.Claim.{has_id}
use job_scheduling.Api.Problem.{done, refused, not_found, conflict, database}
use job_scheduling.Api.Cancel.{
  ended_detail, cancelled_row, cancel_held, cancel_live, cancel_found, cancel_job,
}
use job_scheduling.System.Life.{well_formed}

-- A well-formed job can be cancelled by the API unless it still waits for parents.
cancelled_row-fits :
    (now : ℕ) (j : Job)
    → well_formed j ≡ true
    → row_check (cancelled_row now j) ≡ (j.pending_deps == 0)
unfolding well_formed row_check cancelled_row
cancelled_row-fits now j w = ground arith

cancel_held-jobs : (now : ℕ) (j : Job) (db : Db) → (cancel_held now j db).jobs ≡ db.jobs
unfolding cancel_held
cancel_held-jobs now j db =
    if_elim (λ (x : Db). x.jobs ≡ db.jobs) (is_active j.status) _ db refl refl

cancel_held-shards :
    (now : ℕ) (j : Job) (db : Db)
    → (cancel_held now j db).shards
      ≡ (if is_active j.status then queue_release j.queue j.shard 1 db.shards else db.shards)
unfolding cancel_held
cancel_held-shards now j db = elim (Bool-cases (is_active j.status)) [
  | inl held ↦ rw held refl
  | inr idle ↦ rw idle refl
]

-- The answer of cancelJob on a table whose row of the job is well formed. A job that is not there is
-- not found; one that has ended is a conflict whose detail
-- names its status; one that waits for parents is an error of the
-- database, since the row would keep its count of parents; each of these changes nothing. Any other
-- job is cancelled, with the status that it had in the answer, and gives its slot back exactly if it
-- was claimed or running.
pub cancel_job_lem :
    (now id : ℕ) (db : Db)
    → (find (has_id id) db.jobs ≡ none → cancel_job now id db ≡ (refused (not_found "job"), db))
      × ((j : Job)
          → find (has_id id) db.jobs ≡ some j
          → is_terminal j.status ≡ true
          → cancel_job now id db ≡ (refused (conflict (ended_detail j.status)), db))
      × ((j : Job)
          → find (has_id id) db.jobs ≡ some j
          → is_terminal j.status ≡ false
          → well_formed j ≡ true
          → 0 < j.pending_deps
          → cancel_job now id db ≡ (refused (database check_violation), db))
      × ((j : Job)
          → find (has_id id) db.jobs ≡ some j
          → is_terminal j.status ≡ false
          → well_formed j ≡ true
          → j.pending_deps ≡ 0
          → let (answer, db') = cancel_job now id db in
            (answer ≡ done j.status)
            × (find (has_id id) db'.jobs ≡ some (cancelled_row now j))
            × (db'.shards ≡ (
                if is_active j.status
                then queue_release j.queue j.shard 1 db.shards
                else db.shards)))
unfolding cancel_job cancel_found cancel_live
cancel_job_lem now id db = (
  λ e. rw e refl,
  λ j e t. rw (e, t) refl,
  λ j e t w p.
      let off : row_check (cancelled_row now j) ≡ false =
        ground (arith, cancelled_row-fits now j w) in
      rw (e, t, off) refl,
  λ j e t w p.
      let on : row_check (cancelled_row now j) ≡ true =
        ground (arith, cancelled_row-fits now j w) in
      let found =
        find-modify (has_id id) (has_id id) (cancelled_row now) j (λ x h. h)
          (find_passes (has_id id) db.jobs j e)
          (unfold cancelled_row in find_passes (has_id id) db.jobs j e) db.jobs e in
      let db1 = record db { jobs = modify (has_id id) (cancelled_row now) db.jobs } in
      rw (e, t, on)
        (
          refl,
          ap (find (has_id id)) (cancel_held-jobs now j db1) ∙ found.1,
          cancel_held-shards now j db1,
        ),
)
