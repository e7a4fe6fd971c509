-- ===== src/Api/Schedules.antt =====
-- Schedules: createSchedule, updateSchedule, deleteSchedule, pauseSchedule and resumeSchedule of
-- internal/api/schedules.go, with the keys of the table (migrations/002_core.sql, 003_constraints.sql).
pub mod Due
pub mod Listed
use job_scheduling.Base.{
  ℕ, Bool, true, not, ◌&&◌, ◌||◌, Option, none, some, List, [], ◌∷◌, String, str_eq, ◌==◌,
  if◌then◌else◌, find, exists, modify, update_all, delete_all,
}
use job_scheduling.Store.{Job, Schedule, Db, Overlap, allow, Catchup, fire_once, is_set}
use job_scheduling.Scheduler.Cron.{has_schedule, same_id}
use job_scheduling.Api.Problem.{
  ApiReply, done, refused, bad_request, conflict, not_found, ◌>>=◌, ◌>>◌, require,
}
use job_scheduling.Api.Submit.{or_else, expect, is_empty}

-- What the handlers take from other libraries: strings.TrimSpace, json.Valid, time.LoadLocation,
-- NextTick of the scheduler over the cron library, and the names in the table tz_names.
pub record Clockwork : Type 0 where
  pub trim : String → String
  pub json_valid : String → Bool
  pub zone_known : String → Bool
  pub zone_listed : String → Bool
  pub next_tick : String → String → ℕ → Option ℕ

-- scheduleReq, decoded. An absent payload is the empty text.
pub record ScheduleReq : Type 0 where
  pub name : Option String
  pub cron_expr : Option String
  pub timezone : Option String
  pub job_type : Option String
  pub payload : String
  pub overlap : Option String
  pub catchup : Option String
  pub enabled : Option Bool

-- overlapPolicies and catchupPolicies, with what the names stand for.
unfoldable pub overlap_named : String → Option Overlap
overlap_named s =
    if str_eq s "allow" then some allow else if str_eq s "skip" then some Overlap.skip else none

unfoldable pub catchup_named : String → Option Catchup
catchup_named s =
    if str_eq s "skip"
    then some Catchup.skip
    else if str_eq s "fire_once"
    then some fire_once
    else none

unfoldable pub read_overlap : String → ApiReply Overlap
unfolding overlap_named
read_overlap s = expect (overlap_named s) (bad_request "overlap_policy must be allow or skip")

unfoldable pub read_catchup : String → ApiReply Catchup
unfolding catchup_named
read_catchup s = expect (catchup_named s) (bad_request "catchup_policy must be skip or fire_once")

-- A value of the request that is checked if it is there.
abbrev pub if_given : {A : Type 0} → (String → ApiReply A) → Option String → A → ApiReply A
if_given read none d = done d
if_given read (some s) d = read s

unfoldable pub read_payload : Clockwork → String → String → ApiReply String
read_payload c payload d =
    if is_empty payload
    then done d
    else require (c.json_valid payload) (bad_request "payload is not valid json") >> done payload

-- checkCron.
unfoldable pub check_cron : Clockwork → ℕ → String → String → ApiReply ℕ
check_cron c now expr tz = do
  require (c.zone_known tz) (bad_request "unknown timezone")
  expect (c.next_tick expr tz now) (bad_request "cron_expr is not a valid five field expression")

abbrev pub same_schedule_name : Schedule → Schedule → Bool
same_schedule_name d r = r.queue == d.queue && str_eq r.name d.name && not (r.id == d.id)

-- The key (queue_id, name), and the foreign key to tz_names.
unfoldable pub admit_schedule : Clockwork → Schedule → List Schedule → ApiReply (Unit {0})
admit_schedule c d schedules = do
  require (not (exists (same_schedule_name d) schedules))
      (conflict "schedule name already used in this queue")
  require (c.zone_listed d.timezone) (bad_request "unknown timezone")

-- The insert or update of a row, which `put` makes in the table.
unfoldable pub store_schedule :
    Clockwork → (List Schedule → List Schedule) → Schedule → Db → ApiReply (Schedule × Db)
unfolding admit_schedule
store_schedule c put d db = do
  admit_schedule c d db.schedules
  done (d, record db { schedules = put db.schedules })

-- createSchedule; `fresh` is the id that the table gives.
unfoldable pub create_schedule : Clockwork → ℕ → ℕ → ℕ → ScheduleReq → Db → ApiReply (Schedule × Db)
unfolding read_overlap read_catchup read_payload check_cron
create_schedule c now fresh queue req db = do
  let name = c.trim (or_else req.name "")
  let expr = c.trim (or_else req.cron_expr "")
  let kind = c.trim (or_else req.job_type "")
  require (not (is_empty name || is_empty expr || is_empty kind))
      (bad_request "name, cron_expr and job_type required")
  let tz = if is_set req.timezone then c.trim (or_else req.timezone "") else "UTC"
  overlap ← read_overlap (or_else req.overlap "skip")
  catchup ← read_catchup (or_else req.catchup "skip")
  payload ← read_payload c req.payload "{}"
  next ← check_cron c now expr tz
  let d : Schedule = record {
    id = fresh;
    queue = queue;
    name = name;
    cron_expr = expr;
    timezone = tz;
    job_type = kind;
    payload = payload;
    enabled = true;
    overlap_policy = overlap;
    catchup_policy = catchup;
    next_run_at = next;
    last_fired_for = none;
  }
  store_schedule c (◌∷◌ d) d db

-- The next run of a schedule that is updated: computed again if its expression or timezone is given.
unfoldable pub next_run : Clockwork → ℕ → ScheduleReq → Schedule → ApiReply ℕ
unfolding check_cron
next_run c now req cur =
    if is_set req.cron_expr || is_set req.timezone
    then check_cron c now (c.trim (or_else req.cron_expr cur.cron_expr))
        (c.trim (or_else req.timezone cur.timezone))
    else done cur.next_run_at

abbrev pub new_schedule : Schedule → Schedule → Schedule
new_schedule d old = d

-- updateScheduleSQL. What is written of the texts is what was sent, untrimmed.
unfoldable pub rescheduled : ScheduleReq → Schedule → Overlap → Catchup → String → ℕ → Schedule
rescheduled req cur overlap catchup payload next = record cur {
  name = or_else req.name cur.name;
  cron_expr = or_else req.cron_expr cur.cron_expr;
  timezone = or_else req.timezone cur.timezone;
  job_type = or_else req.job_type cur.job_type;
  payload = payload;
  overlap_policy = overlap;
  catchup_policy = catchup;
  enabled = or_else req.enabled cur.enabled;
  next_run_at = next;
}

-- updateSchedule.
unfoldable pub update_schedule : Clockwork → ℕ → ℕ → ScheduleReq → Db → ApiReply (Schedule × Db)
unfolding read_overlap read_catchup read_payload next_run
update_schedule c now id req db = do
  cur ← expect (find (has_schedule id) db.schedules) (not_found "schedule")
  overlap ← if_given read_overlap req.overlap cur.overlap_policy
  catchup ← if_given read_catchup req.catchup cur.catchup_policy
  payload ← read_payload c req.payload cur.payload
  next ← next_run c now req cur
  let d = rescheduled req cur overlap catchup payload next
  store_schedule c (modify (has_schedule id) (new_schedule d)) d db

-- `on delete set null` of jobs.schedule_id.
abbrev pub without_schedule : Job → Job
without_schedule j = record j { schedule = none }

-- deleteSchedule.
unfoldable pub delete_schedule : ℕ → Db → Db
delete_schedule id db = record db {
  schedules = delete_all (has_schedule id) db.schedules;
  jobs = update_all (λ j. same_id j.schedule id) without_schedule db.jobs;
}

-- setScheduleEnabled: pauseSchedule and resumeSchedule.
unfoldable pub set_enabled : ℕ → Bool → Db → ApiReply Db
set_enabled id enabled db = do
  d ← expect (find (has_schedule id) db.schedules) (not_found "schedule")
  done (record db {
    schedules =
        modify (has_schedule id) (new_schedule (record d { enabled = enabled })) db.schedules;
  })
