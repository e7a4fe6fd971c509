-- ===== src/Scheduler/Breaker.antt =====
-- internal/scheduler/breaker.go: a queue's breaker opens on too many failures in its last
-- executions, and the outcome of the probe that it lets through decides when it closes. Each
-- update names the state that it expects, since other transactions run in between.
use job_scheduling.Base.{
  ℕ, ◌+◌, Bool, true, false, ◌&&◌, Option, none, some, List, [], ◌∷◌, ◌++◌, ltb, leb, ◌==◌,
  if◌then◌else◌, find, modify, select, sort_by, take, count, map,
}
use job_scheduling.Store.{
  Execution, Outcome, Queue, Db, BreakerState, closed, opened, half_open, Topic, EventPayload,
  breaker_opened, breaker_reopened, breaker_closed, is_set,
}
use job_scheduling.Jobs.Start.{event}

-- isFailure.
unfoldable pub is_failure : Outcome → Bool
is_failure Outcome.retryable_error = true
is_failure Outcome.permanent_error = true
is_failure Outcome.timeout = true
is_failure Outcome.lost = true
is_failure _ = false

abbrev pub finished_time : Execution → ℕ
finished_time x = elim x.finished_at [ none ↦ 0 | some t ↦ t ]

-- `order by finished_at desc`.
abbrev pub latest_first : Execution → Execution → Bool
latest_first a b = ltb (finished_time b) (finished_time a)

abbrev pub outcome_is_failure : Execution → Bool
outcome_is_failure x = elim x.outcome [ none ↦ false | some o ↦ is_failure o ]

-- failureCounts at one queue: the failures among its last `window` outcomes.
unfoldable pub failure_count : ℕ → ℕ → List Execution → ℕ
unfolding is_failure
failure_count window q xs =
    count outcome_is_failure
      (take window (sort_by latest_first (select (λ x. x.queue == q && is_set x.outcome) xs)))

abbrev pub since : Option ℕ → Execution → Bool
since none x = false
since (some t) x = leb t (finished_time x)

-- breakerProbeSQL: the last outcome since the breaker was to reopen.
unfoldable pub probe_outcome : ℕ → Option ℕ → List Execution → Option Outcome
probe_outcome q open_until xs =
    latest (
      sort_by latest_first
        (select (λ x. x.queue == q && is_set x.outcome && since open_until x) xs))
  where
    latest : List Execution → Option Outcome
    latest [] = none
    latest (x ∷ _) = x.outcome

abbrev pub same_state : BreakerState → BreakerState → Bool
same_state closed closed = true
same_state opened opened = true
same_state half_open half_open = true
same_state _ _ = false

-- `where id = $1 and breaker_state = …`.
unfoldable pub in_state : ℕ → BreakerState → Queue → Bool
in_state q state r = r.id == q && same_state r.breaker_state state

unfoldable pub open_row : ℕ → Queue → Queue
open_row until r = record r {
  breaker_state = opened;
  breaker_open_until = some until;
  breaker_probe_budget = 0;
}

unfoldable pub close_row : Queue → Queue
close_row r = record r {
  breaker_state = closed;
  breaker_open_until = none;
  breaker_probe_budget = 0;
}

-- One of breakerOpenSQL, breakerReopenSQL and breakerCloseSQL: the number of rows switched.
unfoldable pub switch_found :
    ℕ → BreakerState → (Queue → Queue) → Topic → Option Queue → Db → ℕ × Db
unfolding in_state
switch_found q state f topic none db = (0, db)
switch_found q state f topic (some r) db = (
  1,
  record db {
    queues = modify (in_state q state) f db.queues;
    events = db.events ++ event topic q r.project EventPayload.empty ∷ [];
  },
)

unfoldable pub switch_breaker : ℕ → BreakerState → (Queue → Queue) → Topic → Db → ℕ × Db
unfolding switch_found
switch_breaker q state f topic db =
    switch_found q state f topic (find (in_state q state) db.queues) db

-- What the probe of a half-open breaker showed.
unfoldable pub judge_probe : ℕ → ℕ → Option Outcome → Db → ℕ × Db
unfolding switch_breaker open_row close_row is_failure
judge_probe q until none db = (0, db)
judge_probe q until (some Outcome.success) db =
    switch_breaker q half_open close_row breaker_closed db
judge_probe q until (some o) db =
    if is_failure o
    then switch_breaker q half_open (open_row until) breaker_reopened db
    else (0, db)

-- The `switch` on the state that the sweep read.
unfoldable pub judge : BreakerState → ℕ → ℕ → ℕ → ℕ → Option Outcome → Db → ℕ × Db
unfolding switch_breaker judge_probe open_row
judge closed q trip failures until probe db =
    if leb trip failures
    then switch_breaker q closed (open_row until) breaker_opened db
    else (0, db)
judge opened q trip failures until probe db = (0, db)
judge half_open q trip failures until probe db = judge_probe q until probe db

-- One queue's turn in the loop of Breaker; `seen` is the row as the sweep read it, with the failures
-- counted then, and the database is that of the turn.
unfoldable pub breaker_turn : ℕ → ℕ → ℕ → Queue → ℕ → Db → ℕ × Db
unfolding judge probe_outcome
breaker_turn now trip cooldown seen failures db =
    judge seen.breaker_state seen.id trip failures (now + cooldown)
      (probe_outcome seen.id seen.breaker_open_until db.executions) db

unfoldable pub breaker_each : ℕ → ℕ → ℕ → List (Queue × ℕ) → ℕ × Db → ℕ × Db
unfolding breaker_turn
breaker_each now trip cooldown [] s = s
breaker_each now trip cooldown ((seen, failures) ∷ rest) (changed, db) =
    let (n, db') = breaker_turn now trip cooldown seen failures db in
    breaker_each now trip cooldown rest (changed + n, db')

-- Breaker, undisturbed: the number of breakers that it switched.
unfoldable pub breaker : ℕ → ℕ → ℕ → ℕ → Db → ℕ × Db
unfolding failure_count breaker_each
breaker now window trip cooldown db =
    breaker_each now trip cooldown
      (map (λ q. (q, failure_count window q.id db.executions)) db.queues) (0, db)
