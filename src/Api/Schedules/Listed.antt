-- ===== src/Api/Schedules/Listed.antt =====
-- What the requests of internal/api/schedules.go keep of the table.
use text.Mathlib.TextEquality.{eq_iff}
use job_scheduling.Base.{
  ℕ, ◌≡◌, ap, Bool, true, false, not, List, ◌∷◌, arith, find-All, exists, modify, All, All-select,
  select, delete_all,
}
use job_scheduling.Store.{Schedule, Db}
use job_scheduling.Scheduler.Cron.{has_schedule}
use job_scheduling.Api.Problem.{done}
use job_scheduling.Api.Binds.{done-eq, bind-done, expect-done, require-done}
use job_scheduling.Api.Keys.{Keyed, Keyed-cons, Keyed-modify, Keyed-select, All-modify}
use job_scheduling.Api.Policies.Checked.{not-true}
use job_scheduling.Api.Schedules.{
  Clockwork, ScheduleReq, same_schedule_name, admit_schedule, store_schedule, create_schedule,
  new_schedule, update_schedule, delete_schedule, set_enabled,
}

-- The database knows each timezone, and no two schedules of a queue have one name.
abbrev pub AreSchedules : Clockwork → List Schedule → Type 0
AreSchedules c ds = All (λ d. c.zone_listed d.timezone ≡ true) ds × Keyed same_schedule_name ds

-- A write of the table that keeps that, and changes nothing else.
abbrev pub Writes : Clockwork → Db → Db → Type 0
Writes c db db' = (ds : List Schedule) × (record db { schedules = ds } ≡ db') × AreSchedules c ds

same_schedule_name_comm : (d e : Schedule) → same_schedule_name d e ≡ same_schedule_name e d
same_schedule_name_comm d e = ground (arith, eq_iff d.name e.name, eq_iff e.name d.name)

same_schedule_name_self : (d : Schedule) → same_schedule_name d d ≡ false
same_schedule_name_self d = ground arith

admit_schedule_lem :
    (c : Clockwork) (d : Schedule) (ds : List Schedule) (u : Unit {0})
    → admit_schedule c d ds ≡ done u
    → (c.zone_listed d.timezone ≡ true) × (exists (same_schedule_name d) ds ≡ false)
unfolding admit_schedule
admit_schedule_lem c d ds u h =
    let (v, first, rest) = bind-done _ _ u h in
    (require-done _ _ u rest, not-true _ (require-done _ _ v first))

added :
    (c : Clockwork) (d : Schedule) (ds : List Schedule)
    → c.zone_listed d.timezone ≡ true
    → exists (same_schedule_name d) ds ≡ false
    → AreSchedules c ds
    → AreSchedules c (d ∷ ds)
added c d ds listed apart (zones, keyed) = (
  (listed, zones),
  Keyed-cons same_schedule_name same_schedule_name_comm same_schedule_name_self d ds apart keyed,
)

replaced :
    (c : Clockwork) (id : ℕ) (d : Schedule) (ds : List Schedule)
    → c.zone_listed d.timezone ≡ true
    → exists (same_schedule_name d) ds ≡ false
    → AreSchedules c ds
    → AreSchedules c (modify (has_schedule id) (new_schedule d) ds)
replaced c id d ds listed apart (zones, keyed) = (
  All-modify (λ x. c.zone_listed x.timezone ≡ true) (has_schedule id) d ds listed zones,
  Keyed-modify same_schedule_name same_schedule_name_comm same_schedule_name_self (has_schedule id)
      d ds apart keyed,
)

store_schedule-Writes :
    (c : Clockwork) (put : List Schedule → List Schedule) (d d' : Schedule) (db db' : Db)
    → store_schedule c put d db ≡ done (d', db')
    → (c.zone_listed d.timezone ≡ true
        → exists (same_schedule_name d) db.schedules ≡ false
        → AreSchedules c (put db.schedules))
    → Writes c db db'
unfolding store_schedule
store_schedule-Writes c put d d' db db' h put_lem =
    let (u, admitted, h1) = bind-done _ _ _ h in
    let (listed, apart) = admit_schedule_lem c d db.schedules u admitted in
    (
      put db.schedules,
      ap (λ (r : Schedule × Db). r.1) (done-eq _ (d', db') h1),
      put_lem listed apart,
    )

pub create_schedule-Writes :
    (c : Clockwork) (now fresh queue : ℕ) (req : ScheduleReq) (db : Db) (d : Schedule) (db' : Db)
    → create_schedule c now fresh queue req db ≡ done (d, db')
    → AreSchedules c db.schedules
    → Writes c db db'
unfolding create_schedule
create_schedule-Writes c now fresh queue req db d db' h a =
    let (u, named, h1) = bind-done _ _ _ h in
    let (overlap, o, h2) = bind-done _ _ _ h1 in
    let (catchup, k, h3) = bind-done _ _ _ h2 in
    let (payload, p, h4) = bind-done _ _ _ h3 in
    let (at, due, h5) = bind-done _ _ _ h4 in
    store_schedule-Writes c _ _ d db db' h5 (λ listed apart. added c _ db.schedules listed apart a)

pub update_schedule-Writes :
    (c : Clockwork) (now id : ℕ) (req : ScheduleReq) (db : Db) (d : Schedule) (db' : Db)
    → update_schedule c now id req db ≡ done (d, db')
    → AreSchedules c db.schedules
    → Writes c db db'
unfolding update_schedule
update_schedule-Writes c now id req db d db' h a =
    let (cur, found, h1) = bind-done _ _ _ h in
    let (overlap, o, h2) = bind-done _ _ _ h1 in
    let (catchup, k, h3) = bind-done _ _ _ h2 in
    let (payload, p, h4) = bind-done _ _ _ h3 in
    let (at, due, h5) = bind-done _ _ _ h4 in
    store_schedule-Writes c _ _ d db db' h5
      (λ listed apart. replaced c id _ db.schedules listed apart a)

pub AreSchedules-select :
    (c : Clockwork) (stays : Schedule → Bool) (ds : List Schedule)
    → AreSchedules c ds
    → AreSchedules c (select stays ds)
AreSchedules-select c stays ds (zones, keyed) = (
  All-select _ stays ds zones,
  Keyed-select same_schedule_name same_schedule_name_comm same_schedule_name_self stays ds keyed,
)

pub delete_schedule-AreSchedules :
    (c : Clockwork) (id : ℕ) (db : Db)
    → AreSchedules c db.schedules
    → AreSchedules c (delete_schedule id db).schedules
unfolding delete_schedule delete_all
delete_schedule-AreSchedules c id db a =
    AreSchedules-select c (λ d. not (has_schedule id d)) db.schedules a

pub set_enabled-Writes :
    (c : Clockwork) (id : ℕ) (enabled : Bool) (db db' : Db)
    → set_enabled id enabled db ≡ done db'
    → AreSchedules c db.schedules
    → Writes c db db'
unfolding set_enabled
set_enabled-Writes c id enabled db db' h a =
    let (d, found, h1) = bind-done _ _ _ h in
    let at = expect-done _ _ d found in
    (
      modify (has_schedule id) (new_schedule (record d { enabled = enabled })) db.schedules,
      done-eq _ db' h1,
      replaced c id (record d { enabled = enabled }) db.schedules
          (find-All (λ x. c.zone_listed x.timezone ≡ true) (has_schedule id) db.schedules d at a.0)
          (find-All (λ x. exists (same_schedule_name x) db.schedules ≡ false) (has_schedule id)
            db.schedules d at a.1)
          a,
    )
