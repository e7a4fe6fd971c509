-- ===== src/Scheduler/Cron/Once.antt =====
-- A schedule makes one job for a tick, however often it is swept.
use job_scheduling.Base.{
  ℕ, ◌+◌, ◌≤◌, ◌≡◌, refl, Bool, false, not, ◌&&◌, Option, none, some, List, [], ◌∷◌, arith, count,
  exists, find, if_elim,
}
use job_scheduling.Store.{Job, Db, Schedule, Queue}
use job_scheduling.Jobs.Admit.{is_queue}
use job_scheduling.Scheduler.Cron.Ticks.{Plan, plan, max_rounds}
use job_scheduling.Scheduler.Cron.Fire.{
  is_tick, tick_job, insert_tick, fire_plan, fire_found, fire, fire_each, disable, overlaps,
  is_skip,
}

-- No tick of a schedule has more than one job: the unique index of jobs on (schedule_id,
-- scheduled_for).
abbrev pub OncePerTick : List Job → Type 0
OncePerTick jobs = (schedule tick : ℕ) → count (is_tick schedule tick) jobs ≤ 1

exists-count : (p : Job → Bool) (xs : List Job) → exists p xs ≡ false → count p xs ≡ 0
unfolding exists count
exists-count p [] h = refl
exists-count p (x ∷ xs) h = ground (arith, exists-count p xs)

insert_tick-Once :
    (now fresh : ℕ) (qr : Queue) (d : Schedule) (target : ℕ) (jobs : List Job)
    → OncePerTick jobs
    → OncePerTick (insert_tick (tick_job now fresh qr d target) d.id target jobs).1
unfolding insert_tick count
insert_tick-Once now fresh qr d target jobs o s t =
    ground (arith, o s t, exists-count (is_tick d.id target) jobs)

fire_plan-Once :
    (now fresh : ℕ) (qr : Queue) (d : Schedule) (p : Plan) (db : Db)
    → OncePerTick db.jobs
    → OncePerTick (fire_plan now fresh qr d p db).1.jobs
unfolding fire_plan
fire_plan-Once now fresh qr d p db o =
    if_elim (λ (r : Bool × List Job). OncePerTick r.1)
      (p.fire && not (p.fire && is_skip d.overlap_policy && overlaps d.id db.jobs)) _
      (false, db.jobs) (insert_tick-Once now fresh qr d p.target db.jobs o) o

fire-Once :
    (next : Schedule → ℕ → Option ℕ) (now fresh : ℕ) (d : Schedule) (o : Option Queue) (db : Db)
    → OncePerTick db.jobs
    → OncePerTick (fire next now fresh d o db).1.jobs
unfolding fire fire_found disable
fire-Once next now fresh d none db h = h
fire-Once next now fresh d (some qr) db h =
    found (plan max_rounds now (next d) d.catchup_policy d.next_run_at)
  where
    found : (o : Option Plan) → OncePerTick (fire_found now fresh qr d o db).1.jobs
    found none = h
    found (some p) = fire_plan-Once now fresh qr d p db h

-- A sweep over any schedules, in any order and with repetitions, leaves no tick of a schedule with
-- more than one job, if none had more before: two sweeps of one tick make one job.
pub one_job_per_tick :
    (next : Schedule → ℕ → Option ℕ) (now fresh made : ℕ) (ds : List Schedule) (db : Db)
    → ((schedule tick : ℕ) → count (is_tick schedule tick) db.jobs ≤ 1)
    → (schedule tick : ℕ)
    → count (is_tick schedule tick) (fire_each next now fresh ds (made, db)).1.jobs ≤ 1
unfolding fire_each
one_job_per_tick next now fresh made [] db h = h
one_job_per_tick next now fresh made (d ∷ ds) db h =
    one_job_per_tick next now (fresh + 1) _ ds _
      (fire-Once next now fresh d (find (is_queue d.queue) db.queues) db h)
