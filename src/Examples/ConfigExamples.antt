-- ===== src/Examples/ConfigExamples.antt =====
-- The theorems on policies, queues and schedules of internal/api, applied.
use job_scheduling.Base.{
  ◌+◌, ◌≡◌, refl, subst, true, none, some, [], ◌∷◌, arith, find, modify, exists, ◌==◌, Bool-cases,
  inl, inr, update_all, delete_all, select,
}
use job_scheduling.Store.{Queue, Schedule, Shard, Db, Overlap, EventPayload, queue_paused}
use job_scheduling.Jobs.Start.{event}
use job_scheduling.Scheduler.Cron.{has_schedule}
use job_scheduling.Api.Problem.{done, ◌>>=◌}
use job_scheduling.Api.Pages.{ℤ}
use job_scheduling.Api.Policies.{policy_check}
use job_scheduling.Api.Queues.{QueueReq, queue_check, update_queue, set_paused}
use job_scheduling.Api.Queues.Counters.{Spread}
use job_scheduling.Api.Schedules.{Clockwork, ScheduleReq, update_schedule, new_schedule}
use job_scheduling.Api.Schedules.Due.{IsRescheduled, updated_schedule_is_due}
use job_scheduling.Api.Config.{
  Answers, updates_queue, pauses_queue, untouched, after, IsConfig, Configures-IsConfig,
}
use job_scheduling.Examples.Data.{database, queue, shard, schedule}

abbrev clockwork : Clockwork
clockwork = record {
  trim = λ s. s;
  json_valid = λ s. true;
  zone_known = λ s. true;
  zone_listed = λ s. true;
  next_tick = λ expr tz now. some (now + 60);
}

abbrev hourly : ScheduleReq
hourly = record {
  name = none;
  cron_expr = some "0 * * * *";
  timezone = none;
  job_type = none;
  payload = "";
  overlap = some "skip";
  catchup = none;
  enabled = none;
}

abbrev hourly_schedule : Schedule
hourly_schedule = record schedule {
  cron_expr = "0 * * * *";
  overlap_policy = Overlap.skip;
  next_run_at = 110;
}

made_hourly :
    update_schedule clockwork 50 40 hourly database
    ≡ done (hourly_schedule, record database { schedules = hourly_schedule ∷ [] })
unfolding update_schedule job_scheduling.Api.Schedules.store_schedule
    job_scheduling.Api.Schedules.rescheduled ◌>>=◌ find exists modify
made_hourly = refl

updated_schedule_is_due_example :
    (cur : Schedule) × (find (has_schedule 40) database.schedules ≡ some cur)
    × IsRescheduled clockwork 50 hourly cur hourly_schedule
    × (clockwork.zone_listed hourly_schedule.timezone ≡ true)
    × (record database { schedules = hourly_schedule ∷ [] } ≡ record database {
      schedules = modify (has_schedule 40) (new_schedule hourly_schedule) database.schedules;
    })
updated_schedule_is_due_example =
    updated_schedule_is_due clockwork 50 40 hourly database hourly_schedule
      (record database { schedules = hourly_schedule ∷ [] }) made_hourly

abbrev answers : Answers
answers = record { texts = record { trim = λ s. s; parse_uuid = λ s. none }; clockwork = clockwork }

abbrev idle_shard : Shard
idle_shard = record shard { in_flight = 0 }

abbrev idle_database : Db
idle_database = record database { jobs = []; shards = idle_shard ∷ [] }

abbrev wider : QueueReq
wider = record {
  name = none;
  retry_policy = none;
  max_concurrency = none;
  shards = some (ℤ.pos 2);
  max_depth = none;
  default_priority = none;
  rl_limit_per_sec = none;
  rl_burst = some (ℤ.pos 9);
}

abbrev wide_queue : Queue
wide_queue = record queue { shards = 2; rl_burst = 9 }

abbrev new_shard : Shard
new_shard = record { queue = 1; shard = 1; in_flight = 0; rl_tokens = 4; rl_refilled_at = 50 }

abbrev wide_database : Db
wide_database = record idle_database {
  queues = wide_queue ∷ [];
  shards = new_shard ∷ idle_shard ∷ [];
}

abbrev paused_database : Db
paused_database = record wide_database {
  queues = record wide_queue { paused = true } ∷ [];
  events = event queue_paused 1 1 (EventPayload.paused_is true) ∷ [];
}

widened : update_queue answers.texts 50 1 1 wider idle_database ≡ done (wide_queue, wide_database)
unfolding update_queue ◌>>=◌ find exists modify update_all delete_all select
widened = refl

paused : set_paused 1 1 true wide_database ≡ done paused_database
unfolding set_paused ◌>>=◌ find modify
paused = refl

idle_shard-Spread : Spread queue (idle_shard ∷ [])
unfolding exists
idle_shard-Spread = (λ s. ground arith, (λ h. omega arith, tt))

idle_database-IsConfig : IsConfig answers idle_database
unfolding policy_check queue_check exists find
idle_database-IsConfig = (
  ((refl, tt), (refl, tt)),
  (
    (refl, tt),
    (refl, tt),
    λ id q h. elim (Bool-cases (1 == id)) [
      | inl e ↦
          let same : queue ≡ q = ground arith in
          subst (λ x. Spread x (idle_shard ∷ [])) same idle_shard-Spread
      | inr e ↦ ground arith
    ],
  ),
  ((refl, tt), (refl, tt)),
)

Configures-IsConfig_example : IsConfig answers paused_database
Configures-IsConfig_example =
    Configures-IsConfig answers idle_database paused_database
      (after (after untouched (updates_queue 50 1 1 wider wide_queue widened))
        (pauses_queue 1 1 true paused))
      idle_database-IsConfig
