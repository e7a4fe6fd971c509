-- ===== src/System/Growth.antt =====
-- The rest of the transactions, and every sequence of them, on the table of jobs.
use job_scheduling.Base.{
  ℕ, ◌+◌, ◌≡◌, Bool, true, false, not, ◌&&◌, Option, none, some, List, [], ◌∷◌, arith, exists, find,
  modify, Bool-cases, Option-cases, inl, inr, Rowwise-modify_found, sort_by, ltb, if_elim,
}
use job_scheduling.Store.{Job, Db, DbError, Schedule, Queue, is_terminal, is_active, row_check}
use job_scheduling.Jobs.Admit.{is_queue}
use job_scheduling.Jobs.Claim.{has_id}
use job_scheduling.Scheduler.Promote.{
  promotable, promote_row, promote_ids, promote, due_ids, age, age_row,
}
use job_scheduling.Scheduler.Cron.{
  fire, fire_found, fire_plan, insert_tick, tick_job, is_tick, Plan, plan, max_rounds, disable,
  overlaps, is_skip,
}
use job_scheduling.Api.Problem.{ApiReply}
use job_scheduling.Api.Cancel.{
  cancelled_row, cancel_held, cancel_live, cancel_found, cancel_job, retriable, retry_row,
  retry_found, retry_job,
}
use job_scheduling.Api.Replay.{
  has_cancelled_kin, replayable, replay_row, replay_found, replay_job, replay_each, replay_dead,
  spread_at, bulk_found, bulk_of, replay_ids, replay_room,
}
use job_scheduling.System.Life.{
  Life, unchanged, updated, well_formed, promote-Accepted, age-Accepted, cancelled-Accepted,
  retry-Accepted, replay-Accepted, Accepted,
}
use job_scheduling.System.History.{
  Grown, rows, born, Grown-refl, Grown-trans, Grown-modify, Grown-update_all, Grows,
}

pub promote-Grows :
    (fault : Option DbError) (now : ℕ) (locked : ℕ → Bool) (n : ℕ) (db : Db)
    → Grows db (promote fault now locked n db).1
unfolding promote promote_ids
promote-Grows (some e) now locked n db = Grown-refl db.jobs
promote-Grows none now locked n db =
    let ids = due_ids now locked n db.jobs in
    Grown-update_all (promotable now locked ids) promote_row (promote-Accepted now locked ids)
      db.jobs

pub age-Grows :
    (fault : Option DbError) (now older_than ceiling n : ℕ) (db : Db)
    → Grows db (age fault now older_than ceiling n db).1
unfolding age
age-Grows (some e) now older_than ceiling n db = Grown-refl db.jobs
age-Grows none now older_than ceiling n db =
    Grown-update_all _ age_row (λ j h. age-Accepted j) db.jobs

tick_job-well_formed :
    (now fresh : ℕ) (qr : Queue) (d : Schedule) (target : ℕ)
    → well_formed (tick_job now fresh qr d target) ≡ true
unfolding well_formed row_check
tick_job-well_formed now fresh qr d target = ground arith

insert_tick-Grown :
    (new : Job) (schedule target : ℕ) (jobs : List Job)
    → well_formed new ≡ true
    → Grown jobs (insert_tick new schedule target jobs).1
unfolding insert_tick
insert_tick-Grown new schedule target jobs w =
    if_elim (λ (r : Bool × List Job). Grown jobs r.1) (exists (is_tick schedule target) jobs)
      (false, jobs) (true, new ∷ jobs) (Grown-refl jobs) (born w (Grown-refl jobs))

fire_plan-Grows :
    (now fresh : ℕ) (qr : Queue) (d : Schedule) (p : Plan) (db : Db)
    → Grows db (fire_plan now fresh qr d p db).1
unfolding fire_plan
fire_plan-Grows now fresh qr d p db =
    if_elim (λ (r : Bool × List Job). Grown db.jobs r.1)
      (p.fire && not (p.fire && is_skip d.overlap_policy && overlaps d.id db.jobs)) _
      (false, db.jobs)
      (insert_tick-Grown _ d.id p.target db.jobs (tick_job-well_formed now fresh qr d p.target))
      (Grown-refl db.jobs)

pub fire-Grows :
    (next : Schedule → ℕ → Option ℕ) (now fresh : ℕ) (d : Schedule) (o : Option Queue) (db : Db)
    → Grows db (fire next now fresh d o db).1
unfolding fire fire_found disable
fire-Grows next now fresh d none db = Grown-refl db.jobs
fire-Grows next now fresh d (some qr) db =
    found (plan max_rounds now (next d) d.catchup_policy d.next_run_at)
  where
    found : (o : Option Plan) → Grows db (fire_found now fresh qr d o db).1
    found none = Grown-refl db.jobs
    found (some p) = fire_plan-Grows now fresh qr d p db

modify_found :
    (p : Job → Bool) (f : Job → Job) (j : Job) (jobs : List Job)
    → find p jobs ≡ some j
    → Accepted j (f j)
    → Grown jobs (modify p f jobs)
modify_found p f j jobs e a =
    rows (Rowwise-modify_found Life p f j (λ x. unchanged) (updated unchanged a) jobs e)

cancel_live-Grows :
    (now id : ℕ) (j : Job) (db : Db)
    → find (has_id id) db.jobs ≡ some j
    → Grows db (cancel_live now id j db).1
unfolding cancel_live cancel_held
cancel_live-Grows now id j db e = elim (Bool-cases (is_terminal j.status)) [
  | inl over ↦ rw over (Grown-refl db.jobs)
  | inr live ↦ rw live (elim (Bool-cases (row_check (cancelled_row now j))) [
    | inl fits ↦ rw fits (
        if_elim (λ (x : Db). Grown db.jobs x.jobs) (is_active j.status) _ _
          (modify_found (has_id id) (cancelled_row now) j db.jobs e
            (cancelled-Accepted now j live fits))
          (modify_found (has_id id) (cancelled_row now) j db.jobs e
            (cancelled-Accepted now j live fits)))
    | inr broken ↦ rw broken (Grown-refl db.jobs)
  ])
]

pub cancel_job-Grows : (now id : ℕ) (db : Db) → Grows db (cancel_job now id db).1
unfolding cancel_job
cancel_job-Grows now id db = elim (Option-cases (find (has_id id) db.jobs)) [
  | inl e ↦ rw (e, cancel_found) (Grown-refl db.jobs)
  | inr (j, e) ↦ rw (e, cancel_found) (cancel_live-Grows now id j db e)
]

pub retry_job-Grows : (now id : ℕ) (db : Db) → Grows db (retry_job now id db).1
unfolding retry_job retry_found
retry_job-Grows now id db = found (find (retriable id) db.jobs)
  where
    found : (o : Option Job) → Grows db (retry_found now id o db).1
    found none = Grown-refl db.jobs
    found (some j) = Grown-modify (retriable id) (retry_row now) (retry-Accepted now id) db.jobs

pub replay_job-Grows : (now actor id : ℕ) (db : Db) → Grows db (replay_job now actor id db).1
unfolding replay_job replay_found
replay_job-Grows now actor id db =
    if_elim (λ (r : ApiReply ℕ × Db). Grown db.jobs r.1.jobs) (has_cancelled_kin id db) _ _
      (Grown-refl db.jobs) (found (find (replayable id) db.jobs))
  where
    found : (o : Option Job) → Grows db (replay_found now actor id o db).1
    found none = Grown-refl db.jobs
    found (some j) = Grown-modify (replayable id) (replay_row now) (replay-Accepted now id) db.jobs

replay_each-Grown :
    (now per_sec k : ℕ) (is : List ℕ) (jobs : List Job)
    → Grown jobs (replay_each now per_sec k is jobs)
unfolding replay_each
replay_each-Grown now per_sec k [] jobs = Grown-refl jobs
replay_each-Grown now per_sec k (i ∷ is) jobs =
    Grown-trans
      (Grown-modify (replayable i) (replay_row (spread_at now per_sec k))
        (replay-Accepted (spread_at now per_sec k) i) jobs)
      (replay_each-Grown now per_sec (k + 1) is _)

pub replay_dead-Grows :
    (now actor q most per_sec : ℕ) (db : Db) → Grows db (replay_dead now actor q most per_sec db).1
unfolding replay_dead bulk_found bulk_of
replay_dead-Grows now actor q most per_sec db = found (find (is_queue q) db.queues)
  where
    found : (o : Option Queue) → Grows db (bulk_found now actor most per_sec o db).1
    found none = Grown-refl db.jobs
    found (some qr) =
        replay_each-Grown now per_sec 0
          (sort_by ltb (replay_ids qr.id (replay_room most qr db.jobs) db)) db.jobs
