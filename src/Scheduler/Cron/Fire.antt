-- ===== src/Scheduler/Cron/Fire.antt =====
-- What Materialize writes for one schedule, and its loop over those that are due.
use job_scheduling.Base.{
  ℕ, ◌+◌, Bool, true, false, not, ◌&&◌, ◌||◌, Option, none, some, List, [], ◌∷◌, ◌++◌, ltb, leb,
  ◌==◌, if◌then◌else◌, exists, find, modify, select, sort_by, take,
}
use job_scheduling.Store.{
  Job, Db, DbError, Schedule, Overlap, allow, Status, queued, is_active, is_idle, EventPayload,
  Event, job_scheduled, schedule_skipped_overlap, schedule_ticks_skipped, schedule_error, Queue,
}
use job_scheduling.Jobs.Start.{event}
use job_scheduling.Jobs.Admit.{is_queue}
use job_scheduling.Jobs.Lease.{Answer, value, error}
use job_scheduling.Scheduler.Cron.Ticks.{Plan, plan, max_rounds}

abbrev pub same_id : Option ℕ → ℕ → Bool
same_id none b = false
same_id (some a) b = a == b

-- `status in ('scheduled', 'queued', 'claimed', 'running', 'retry_wait')`.
abbrev pub is_unfinished : Status → Bool
is_unfinished st = is_active st || is_idle st

-- overlapSQL answers the negation.
unfoldable pub overlaps : ℕ → List Job → Bool
overlaps schedule jobs = exists (λ j. same_id j.schedule schedule && is_unfinished j.status) jobs

-- A job of this schedule for this tick: the unique index behind `on conflict … do nothing`.
abbrev pub is_tick : ℕ → ℕ → Job → Bool
is_tick schedule tick j = same_id j.schedule schedule && same_id j.scheduled_for tick

abbrev pub default_priority : ℕ
default_priority = 2147483648

abbrev pub tick_job : ℕ → ℕ → Queue → Schedule → ℕ → Job
tick_job now fresh qr d target = record {
  id = fresh;
  project = qr.project;
  queue = d.queue;
  shard = 0;
  schedule = some d.id;
  scheduled_for = some target;
  batch = none;
  kind = d.job_type;
  payload = d.payload;
  status = queued;
  priority = default_priority;
  run_at = target;
  fence = 0;
  attempt_count = 0;
  replay_generation = 0;
  snooze_count = 0;
  worker = none;
  deadline_at = none;
  timeout_ms = 300000;
  policy = qr.policy;
  pending_deps = 0;
  created_at = now;
  claimed_at = none;
  started_at = none;
  finished_at = none;
}

-- insertScheduledJobSQL: the jobs after it, with whether it inserted one.
unfoldable pub insert_tick : Job → ℕ → ℕ → List Job → Bool × List Job
insert_tick new schedule target jobs =
    if exists (is_tick schedule target) jobs then (false, jobs) else (true, new ∷ jobs)

abbrev pub coalesce_tick : Bool → ℕ → Option ℕ → Option ℕ
coalesce_tick true target old = some target
coalesce_tick false target old = old

unfoldable pub advance : ℕ → Bool → ℕ → Schedule → Schedule
advance next_run fired target d = record d {
  next_run_at = next_run;
  last_fired_for = coalesce_tick fired target d.last_fired_for;
}

abbrev pub has_schedule : ℕ → Schedule → Bool
has_schedule i d = d.id == i

-- disableSchedule.
unfoldable pub disable : Schedule → ℕ → Db → Db
disable d project db = record db {
  schedules = modify (has_schedule d.id) (λ x. record x { enabled = false }) db.schedules;
  events = db.events ++ event schedule_error d.id project EventPayload.empty ∷ [];
}

abbrev pub event_if : Bool → Event → List Event
event_if true e = e ∷ []
event_if false e = []

abbrev pub is_skip : Overlap → Bool
is_skip allow = false
is_skip Overlap.skip = true

-- The rest of the loop's body, once the ticks are planned.
unfoldable pub fire_plan : ℕ → ℕ → Queue → Schedule → Plan → Db → Bool × Db
unfolding overlaps insert_tick advance
fire_plan now fresh qr d p db =
    let overlap = p.fire && is_skip d.overlap_policy && overlaps d.id db.jobs in
    let (inserted, jobs') =
      if p.fire && not overlap
      then insert_tick (tick_job now fresh qr d p.target) d.id p.target db.jobs
      else (false, db.jobs) in
    (
      inserted,
      record db {
        jobs = jobs';
        schedules = modify (has_schedule d.id) (advance p.next_run inserted p.target) db.schedules;
        events =
            db.events
            ++ event_if inserted (event job_scheduled fresh qr.project EventPayload.empty)
            ++ event_if overlap (event schedule_skipped_overlap d.id qr.project EventPayload.empty)
            ++ event_if (ltb 0 p.skipped)
                (event schedule_ticks_skipped d.id qr.project (EventPayload.skipped p.skipped));
      },
    )

-- One schedule of the loop: whether a job was made.
unfoldable pub fire_found : ℕ → ℕ → Queue → Schedule → Option Plan → Db → Bool × Db
unfolding fire_plan disable
fire_found now fresh qr d none db = (false, disable d qr.project db)
fire_found now fresh qr d (some p) db = fire_plan now fresh qr d p db

-- The rows of dueSchedulesSQL.
unfoldable pub is_due_schedule : ℕ → (ℕ → Bool) → Schedule → Bool
is_due_schedule now locked d = d.enabled && leb d.next_run_at now && not (locked d.id)

abbrev pub by_next_run : Schedule → Schedule → Bool
by_next_run a b = ltb a.next_run_at b.next_run_at

module _ (next : Schedule → ℕ → Option ℕ) (now : ℕ) where
  unfoldable pub fire : ℕ → Schedule → Option Queue → Db → Bool × Db
  unfolding plan fire_found
  fire fresh d none db = (false, db)
  fire fresh d (some qr) db =
      fire_found now fresh qr d (plan max_rounds now (next d) d.catchup_policy d.next_run_at) db

  -- The loop over the due schedules: the number of jobs made. New ids count up from `fresh`.
  unfoldable pub fire_each : ℕ → List Schedule → ℕ × Db → ℕ × Db
  unfolding fire
  fire_each fresh [] s = s
  fire_each fresh (d ∷ ds) (made, db) =
      let (one, db') = fire fresh d (find (is_queue d.queue) db.queues) db in
      fire_each (fresh + 1) ds (if one then made + 1 else made, db')

  -- Materialize; `query_now` is the clock when the due schedules are read.
  unfoldable pub materialize : Option DbError → ℕ → (ℕ → Bool) → ℕ → ℕ → Db → Answer ℕ × Db
  unfolding is_due_schedule fire_each
  materialize fault query_now locked limit fresh db = elim fault [
    | some e ↦ (error e, db)
    | none ↦
        let dues =
          take limit
            (sort_by by_next_run (select (is_due_schedule query_now locked) db.schedules)) in
        let (made, db') = fire_each fresh dues (0, db) in (value made, db')
  ]
