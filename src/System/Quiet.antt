-- ===== src/System/Quiet.antt =====
-- The transactions that neither take nor free a slot leave every shard covered as it was.
use job_scheduling.Base.{
  ℕ, ◌≡◌, refl, Bool, true, Option, none, some, List, arith, find, modify, update_all, Bool-cases,
  inl, inr, count-modify_same, count-update_all, Option-cases, count-modify,
}
use job_scheduling.Store.{Job, Shard, Db, DbError, is_active, is_terminal, row_check}
use job_scheduling.Jobs.Slots.{holds, active}
use job_scheduling.Jobs.Slots.Reports.{CoveredBy, IsCovered, active-modify-release}
use job_scheduling.Jobs.Claim.{has_id}
use job_scheduling.Jobs.Start.{startable, start_row, start_found, start}
use job_scheduling.Scheduler.Promote.{
  promotable, promote_row, promote_ids, promote, due_ids, age, age_row,
}
use job_scheduling.Api.Cancel.{
  cancelled_row, cancel_held, cancel_live, cancel_found, cancel_job, retriable, retry_row,
  retry_found, retry_job,
}
use job_scheduling.Api.Replay.{has_cancelled_kin, replayable, replay_row, replay_found, replay_job}

abbrev pub SameActive : List Job → List Job → Type 0
SameActive jobs jobs' = (q s : ℕ) → active q s jobs' ≡ active q s jobs

pub SameActive-modify :
    (p : Job → Bool) (f : Job → Job)
    → ((q s : ℕ) (j : Job) → p j ≡ true → holds q s (f j) ≡ holds q s j)
    → (jobs : List Job) → SameActive jobs (modify p f jobs)
unfolding active
SameActive-modify p f same jobs q s = count-modify_same (holds q s) p f (same q s) jobs

SameActive-update_all :
    (p : Job → Bool) (f : Job → Job)
    → ((q s : ℕ) (j : Job) → p j ≡ true → holds q s (f j) ≡ holds q s j)
    → (jobs : List Job) → SameActive jobs (update_all p f jobs)
unfolding active
SameActive-update_all p f same jobs q s = count-update_all (holds q s) p f (same q s) jobs

module _ (limit reserved : ℕ → ℕ → ℕ) where
  -- Where the counters and the running jobs stay the same, so does their cover.
  pub IsCovered_same :
      (jobs jobs' : List Job) (shards : List Shard)
      → SameActive jobs jobs'
      → CoveredBy limit reserved jobs shards
      → CoveredBy limit reserved jobs' shards
  IsCovered_same jobs jobs' shards same c q s = omega (arith, c q s, same q s)

  pub start-IsCovered :
      (fault : Option DbError) (now exec job fence worker : ℕ) (db : Db)
      → IsCovered limit reserved db
      → IsCovered limit reserved (start fault now exec job fence worker db).1
  unfolding start
  start-IsCovered (some e) now exec job fence worker db c = c
  start-IsCovered none now exec job fence worker db c =
      elim (Option-cases (find (startable job fence) db.jobs)) [
        | inl e ↦ rw (e, start_found) c
        | inr (j, e) ↦
            rw (e, start_found)
              (IsCovered_same db.jobs _ db.shards
                (SameActive-modify (startable job fence) (start_row now)
                  (λ q s a h. unfold startable start_row in ground arith) db.jobs)
                c)
      ]

  pub promote-IsCovered :
      (fault : Option DbError) (now : ℕ) (locked : ℕ → Bool) (n : ℕ) (db : Db)
      → IsCovered limit reserved db
      → IsCovered limit reserved (promote fault now locked n db).1
  unfolding promote promote_ids
  promote-IsCovered (some e) now locked n db c = c
  promote-IsCovered none now locked n db c =
      let ids = due_ids now locked n db.jobs in
      IsCovered_same db.jobs _ db.shards
        (SameActive-update_all (promotable now locked ids) promote_row
          (λ q s a h. unfold promotable in ground arith) db.jobs)
        c

  pub age-IsCovered :
      (fault : Option DbError) (now older_than ceiling n : ℕ) (db : Db)
      → IsCovered limit reserved db
      → IsCovered limit reserved (age fault now older_than ceiling n db).1
  unfolding age
  age-IsCovered (some e) now older_than ceiling n db c = c
  age-IsCovered none now older_than ceiling n db c =
      IsCovered_same db.jobs _ db.shards (SameActive-update_all _ age_row (λ q s a h. refl) db.jobs)
        c

  cancel_held-IsCovered :
      (now id : ℕ) (j : Job) (db : Db)
      → find (has_id id) db.jobs ≡ some j
      → IsCovered limit reserved db
      → IsCovered limit reserved
          (cancel_held now j (record db { jobs = modify (has_id id) (cancelled_row now) db.jobs }))
  unfolding cancel_held
  cancel_held-IsCovered now id j db e c = elim (Bool-cases (is_active j.status)) [
    | inl held ↦ rw held λ q s.
        active-modify-release (has_id id) (cancelled_row now) j db.jobs e held
          (unfold cancelled_row in refl) q s (limit q s) (reserved q s) db.shards (c q s)
    | inr idle ↦ rw idle λ q s.
        unfold active cancelled_row in
        ground (arith, count-modify (holds q s) (has_id id) (cancelled_row now) db.jobs j e, c q s)
  ]

  cancel_live-IsCovered :
      (now id : ℕ) (j : Job) (db : Db)
      → find (has_id id) db.jobs ≡ some j
      → IsCovered limit reserved db
      → IsCovered limit reserved (cancel_live now id j db).1
  unfolding cancel_live
  cancel_live-IsCovered now id j db e c = elim (Bool-cases (is_terminal j.status)) [
    | inl over ↦ rw over c
    | inr live ↦ rw live (elim (Bool-cases (row_check (cancelled_row now j))) [
      | inl fits ↦ rw fits (cancel_held-IsCovered now id j db e c)
      | inr broken ↦ rw broken c
    ])
  ]

  -- Cancelling frees the slot of a job that held one.
  pub cancel_job-IsCovered :
      (now id : ℕ) (db : Db)
      → IsCovered limit reserved db
      → IsCovered limit reserved (cancel_job now id db).1
  unfolding cancel_job
  cancel_job-IsCovered now id db c = elim (Option-cases (find (has_id id) db.jobs)) [
    | inl e ↦ rw (e, cancel_found) c
    | inr (j, e) ↦ rw (e, cancel_found) (cancel_live-IsCovered now id j db e c)
  ]

  pub retry_job-IsCovered :
      (now id : ℕ) (db : Db)
      → IsCovered limit reserved db
      → IsCovered limit reserved (retry_job now id db).1
  unfolding retry_job
  retry_job-IsCovered now id db c = elim (Option-cases (find (retriable id) db.jobs)) [
    | inl e ↦ rw (e, retry_found) c
    | inr (j, e) ↦
        rw (e, retry_found)
          (IsCovered_same db.jobs _ db.shards
            (SameActive-modify (retriable id) (retry_row now)
              (λ q s a h. unfold retriable retry_row in ground arith) db.jobs)
            c)
  ]

  pub replay_job-IsCovered :
      (now actor id : ℕ) (db : Db)
      → IsCovered limit reserved db
      → IsCovered limit reserved (replay_job now actor id db).1
  unfolding replay_job
  replay_job-IsCovered now actor id db c = elim (Bool-cases (has_cancelled_kin id db)) [
    | inl kin ↦ rw kin c
    | inr none_cancelled ↦ rw none_cancelled (elim (Option-cases (find (replayable id) db.jobs)) [
      | inl e ↦ rw (e, replay_found) c
      | inr (j, e) ↦
          rw (e, replay_found)
            (IsCovered_same db.jobs _ db.shards
              (SameActive-modify (replayable id) (replay_row now)
                (λ q s a h. unfold replayable replay_row in ground arith) db.jobs)
              c)
    ])
  ]
