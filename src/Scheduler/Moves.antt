-- ===== src/Scheduler/Moves.antt =====
-- The moves of a breaker, and the updates of internal/scheduler/breaker.go that make them.
use job_scheduling.Base.{
  ℕ, ◌≤◌, ◌≡◌, ◌≢◌, ◌⊎◌, inl, inr, refl, subst, true, Option, none, some, if◌then◌else◌, List, [],
  ◌∷◌, ◌++◌, find, modify, arith, find_passes, find-modify,
}
use job_scheduling.Store.{
  Outcome, Queue, Db, BreakerState, closed, opened, half_open, Topic, EventPayload, breaker_opened,
  breaker_reopened, breaker_closed,
}
use job_scheduling.Jobs.Start.{event}
use job_scheduling.Jobs.Admit.{is_queue}
use job_scheduling.Scheduler.Breaker.{
  is_failure, in_state, same_state, switch_found, switch_breaker,
}

same_state_refl : (s : BreakerState) → same_state s s ≡ true
same_state_refl closed = refl
same_state_refl opened = refl
same_state_refl half_open = refl

-- The moves of a breaker: it trips on failures enough, opens again on a probe that failed, and
-- closes on one that succeeded.
pub data Move (trip failures : ℕ) (probe : Option Outcome)
    : BreakerState → BreakerState → Type 0 where
  trips : trip ≤ failures → Move trip failures probe closed opened
  reopens :
      (o : Outcome)
      → probe ≡ some o
      → is_failure o ≡ true
      → Move trip failures probe half_open opened
  closes : probe ≡ some Outcome.success → Move trip failures probe half_open closed

-- The row of a breaker that has moved: one that opened stays so until a time, and one that closed
-- has none; neither has probes to give.
abbrev pub moved : BreakerState → ℕ → Queue → Queue
moved t until r = record r {
  breaker_state = t;
  breaker_open_until = if same_state t opened then some until else none;
  breaker_probe_budget = 0;
}

-- What is told of a move.
abbrev pub announced : BreakerState → BreakerState → Topic
announced closed t = breaker_opened
announced s opened = breaker_reopened
announced s t = breaker_closed

-- The one row is switched to what `f` makes of it, no other queue's row is touched, and of the rest
-- only the events grow, by one on the topic.
abbrev pub Switched : (Queue → Queue) → Topic → Queue → Db → ℕ × Db → Type 0
Switched f topic qr db (n, db') =
    (n ≡ 1)
    × (find (is_queue qr.id) db'.queues ≡ some (f qr))
    × ((p : ℕ) → p ≢ qr.id → find (is_queue p) db'.queues ≡ find (is_queue p) db.queues)
    × (record db' { queues = db.queues }
        ≡ record db { events = db.events ++ event topic qr.id qr.project EventPayload.empty ∷ [] })

abbrev pub Still : Db → ℕ × Db → Type 0
Still db (n, db') = (n ≡ 0) × (db' ≡ db)

find-modify_other :
    (q p : ℕ) (state : BreakerState) (f : Queue → Queue)
    → ((r : Queue) → (f r).id ≡ r.id)
    → p ≢ q
    → (rs : List Queue) → find (is_queue p) (modify (in_state q state) f rs) ≡ find (is_queue p) rs
unfolding find modify in_state
find-modify_other q p state f keeps ne [] = refl
find-modify_other q p state f keeps ne (r ∷ rs) =
    ground (arith, find-modify_other q p state f keeps ne rs, keeps r, ne)

-- A switch changes the queue's row, if that is in the state that it expects.
pub switch_lem :
    (qr : Queue) (state : BreakerState) (f : Queue → Queue) (topic : Topic) (db : Db)
    → ((r : Queue) → (f r).id ≡ r.id)
    → same_state qr.breaker_state state ≡ true
    → find (is_queue qr.id) db.queues ≡ some qr
    → Switched f topic qr db (switch_breaker qr.id state f topic db)
unfolding switch_breaker switch_found
switch_lem qr state f topic db keeps s e =
    let q = qr.id in
    let found = find_passes (is_queue q) db.queues qr e in
    let (one, two) =
      find-modify (is_queue q) (in_state q state) f qr (λ r h. unfold in_state in ground arith)
        (unfold in_state in ground (arith, found)) (ground (arith, found, keeps qr)) db.queues e in
    rw one (refl, two, (λ p ne. find-modify_other q p state f keeps ne db.queues), refl)

pub same_state-eq : (s t : BreakerState) → s ≡ t → same_state s t ≡ true
same_state-eq s t e = subst (λ x. same_state s x ≡ true) e (same_state_refl s)

-- What a turn comes to, from the state and the probe that it read.
abbrev pub Turned : ℕ → ℕ → ℕ → Option Outcome → BreakerState → Queue → Db → ℕ × Db → Type 0
Turned trip failures until probe s qr db turn =
    ((t : BreakerState) × Move trip failures probe s t
      × Switched (moved t until) (announced s t) qr db turn)
    ⊎ (((t : BreakerState) → ¬ Move trip failures probe s t) × Still db turn)

pub opened-stays :
    (trip failures : ℕ) (probe : Option Outcome) (t : BreakerState)
    → ¬ Move trip failures probe opened t
opened-stays trip failures probe t m = elim m [ ]

pub shut-moves :
    (trip failures : ℕ) (probe : Option Outcome) (t : BreakerState)
    → Move trip failures probe closed t
    → trip ≤ failures
shut-moves trip failures probe t (trips h) = h

-- What a half-open breaker moves on.
pub probed-moves :
    (trip failures : ℕ) (probe : Option Outcome) (t : BreakerState)
    → Move trip failures probe half_open t
    → (o : Outcome) × (probe ≡ some o) × ((o ≡ Outcome.success) ⊎ (is_failure o ≡ true))
probed-moves trip failures probe t (reopens o e f) = (o, e, inr f)
probed-moves trip failures probe t (closes e) = (Outcome.success, e, inl refl)

-- Where a breaker has a move to open, there is no other.
pub opens-only :
    (trip failures : ℕ) (probe : Option Outcome) (s t : BreakerState)
    → Move trip failures probe s opened
    → Move trip failures probe s t
    → t ≡ opened
unfolding is_failure
opens-only trip failures probe s t (trips h) (trips k) = refl
opens-only trip failures probe s t (reopens o e f) (reopens o' e' f') = refl
opens-only trip failures probe s t (reopens o e f) (closes e') =
    let same : o ≡ Outcome.success = ground arith in
    let f' : is_failure Outcome.success ≡ true = subst (λ x. is_failure x ≡ true) same f in
    ground arith
