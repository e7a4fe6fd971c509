-- ===== src/Api/Schedules/Due.antt =====
-- When a schedule that a request writes is due (internal/api/schedules.go).
use job_scheduling.Base.{
  ℕ, ◌≡◌, refl, sym, ◌∙◌, ap, subst, Bool, true, false, ◌||◌, some, List, String, find, modify,
  Bool-cases, inl, inr,
}
use job_scheduling.Store.{Schedule, Db, Overlap, Catchup, is_set}
use job_scheduling.Scheduler.Cron.{has_schedule}
use job_scheduling.Api.Problem.{done}
use job_scheduling.Api.Submit.{or_else}
use job_scheduling.Api.Binds.{done-eq, bind-done, expect-done, require-done}
use job_scheduling.Api.Schedules.{
  Clockwork, ScheduleReq, check_cron, next_run, store_schedule, rescheduled, new_schedule,
  update_schedule,
}

-- The next run is the cron library's tick after now, of a timezone that it knows.
abbrev pub IsNext : Clockwork → ℕ → String → String → ℕ → Type 0
IsNext c now expr tz at = (c.zone_known tz ≡ true) × (c.next_tick expr tz now ≡ some at)

check_cron-IsNext :
    (c : Clockwork) (now at : ℕ) (expr tz : String)
    → check_cron c now expr tz ≡ done at
    → IsNext c now expr tz at
unfolding check_cron
check_cron-IsNext c now at expr tz h =
    let (u, known, h1) = bind-done _ _ at h in (require-done _ _ u known, expect-done _ _ at h1)

store_schedule_lem :
    (c : Clockwork) (put : List Schedule → List Schedule) (d d' : Schedule) (db db' : Db)
    → store_schedule c put d db ≡ done (d', db')
    → (d ≡ d')
      × (c.zone_listed d.timezone ≡ true)
      × (db' ≡ record db { schedules = put db.schedules })
unfolding store_schedule
store_schedule_lem c put d d' db db' h =
    let (u, admitted, h1) = bind-done _ _ _ h in
    let (v, unclashed, h2) = bind-done _ _ u admitted in
    let e = done-eq _ (d', db') h1 in
    (
      ap (λ (r : Schedule × Db). r.0) e,
      require-done _ _ u h2,
      sym (ap (λ (r : Schedule × Db). r.1) e),
    )

-- A schedule that an update leaves is due at a tick of its texts, trimmed, where the request has one of
-- them, and when it was before where it has neither.
abbrev pub IsDue : Clockwork → ℕ → Schedule → Schedule → Bool → Type 0
IsDue c now cur d true = IsNext c now (c.trim d.cron_expr) (c.trim d.timezone) d.next_run_at
IsDue c now cur d false = d.next_run_at ≡ cur.next_run_at

-- What an update comes to.
abbrev pub IsRescheduled : Clockwork → ℕ → ScheduleReq → Schedule → Schedule → Type 0
IsRescheduled c now req cur d =
    (d.id ≡ cur.id)
    × (d.cron_expr ≡ or_else req.cron_expr cur.cron_expr)
    × (d.timezone ≡ or_else req.timezone cur.timezone)
    × IsDue c now cur d (is_set req.cron_expr || is_set req.timezone)

rescheduled_lem :
    (c : Clockwork) (now at : ℕ) (req : ScheduleReq) (cur : Schedule) (overlap : Overlap)
    (catchup : Catchup) (payload : String)
    → next_run c now req cur ≡ done at
    → IsRescheduled c now req cur (rescheduled req cur overlap catchup payload at)
unfolding rescheduled next_run
rescheduled_lem c now at req cur overlap catchup payload due = (
  refl,
  refl,
  refl,
  elim (Bool-cases (is_set req.cron_expr || is_set req.timezone)) [
    | inl given ↦ rw given (check_cron-IsNext c now at _ _ (rw given at due))
    | inr kept ↦ rw kept (sym (done-eq _ at (rw kept at due)))
  ],
)

-- A schedule that updateSchedule writes is one of the table, with the expression and the timezone
-- of the request where it has them, under the same id. Where the request has one of them it is due
-- at the cron library's tick after now for the two that are stored, trimmed, which the library
-- reads and whose timezone it knows; where it has neither it is due when it was. The database
-- knows the timezone that is stored, the row replaces the old one, and nothing else changes.
pub updated_schedule_is_due :
    (c : Clockwork) (now id : ℕ) (req : ScheduleReq) (db : Db) (d : Schedule) (db' : Db)
    → update_schedule c now id req db ≡ done (d, db')
    → (cur : Schedule) × (find (has_schedule id) db.schedules ≡ some cur)
      × IsRescheduled c now req cur d
      × (c.zone_listed d.timezone ≡ true)
      × (db' ≡ record db { schedules = modify (has_schedule id) (new_schedule d) db.schedules })
unfolding update_schedule
updated_schedule_is_due c now id req db d db' h =
    let (cur, found, h1) = bind-done _ _ _ h in
    let (overlap, o, h2) = bind-done _ _ _ h1 in
    let (catchup, k, h3) = bind-done _ _ _ h2 in
    let (payload, p, h4) = bind-done _ _ _ h3 in
    let (at, due, h5) = bind-done _ _ _ h4 in
    let (same, listed, stored) = store_schedule_lem c _ _ d db db' h5 in
    (
      cur,
      expect-done _ _ cur found,
      subst (IsRescheduled c now req cur) same
          (rescheduled_lem c now at req cur overlap catchup payload due),
      subst (λ (x : Schedule). c.zone_listed x.timezone ≡ true) same listed,
      stored
          ∙ ap
              (λ x. record db {
                schedules = modify (has_schedule id) (new_schedule x) db.schedules;
              })
              same,
    )
