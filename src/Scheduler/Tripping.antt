-- ===== src/Scheduler/Tripping.antt =====
-- The breaker's turns (internal/scheduler/breaker.go) with the admissions that they stop
-- (internal/jobs/claim.go).
use job_scheduling.Base.{
  ℕ, ◌+◌, ◌<◌, ◌≡◌, inl, inr, refl, sym, subst, true, Option, none, some, leb, ◌∙◌, if◌then◌else◌,
  find, arith, Bool-cases,
}
use job_scheduling.Store.{
  Outcome, Queue, Db, BreakerState, closed, opened, half_open, breaker_opened, breaker_reopened,
  breaker_closed,
}
use job_scheduling.Jobs.Admit.{is_queue, queue_admit}
use job_scheduling.Jobs.Admission.{admissible, admission_within_breaker}
use job_scheduling.Scheduler.Breaker.{
  is_failure, probe_outcome, open_row, close_row, switch_breaker, judge, judge_probe, breaker_turn,
}
use job_scheduling.Scheduler.Moves.{
  Move, trips, reopens, closes, moved, switch_lem, same_state-eq, Turned, opened-stays, shut-moves,
  probed-moves, opens-only,
}

tripping-Turned :
    (trip failures until : ℕ) (probe : Option Outcome) (qr : Queue) (db : Db)
    → find (is_queue qr.id) db.queues ≡ some qr
    → qr.breaker_state ≡ closed
    → Turned trip failures until probe closed qr db
        (judge closed qr.id trip failures until probe db)
unfolding judge open_row
tripping-Turned trip failures until probe qr db e s = elim (Bool-cases (leb trip failures)) [
  | inl enough ↦ rw enough (
      inl (
        opened,
        trips (ground arith),
        switch_lem qr closed (moved opened until) breaker_opened db (λ r. refl)
            (same_state-eq _ _ s) e,
      ))
  | inr few ↦
      rw few
        (inr ((λ t m. let h = shut-moves trip failures probe t m in ground arith), (refl, refl)))
]

failed-Turned :
    (trip failures until : ℕ) (o : Outcome) (qr : Queue) (db : Db)
    → find (is_queue qr.id) db.queues ≡ some qr
    → qr.breaker_state ≡ half_open
    → (o ≡ Outcome.success → ⊥)
    → Turned trip failures until (some o) half_open qr db (
        if is_failure o
        then switch_breaker qr.id half_open (open_row until) breaker_reopened db
        else (0, db))
unfolding open_row
failed-Turned trip failures until o qr db e s other = elim (Bool-cases (is_failure o)) [
  | inl failed ↦ rw failed (
      inl (
        opened,
        reopens o refl failed,
        switch_lem qr half_open (moved opened until) breaker_reopened db (λ r. refl)
            (same_state-eq _ _ s) e,
      ))
  | inr fine ↦ rw fine (
      inr (
        (λ t m.
            let (o', same, which) = probed-moves trip failures (some o) t m in
            let at : o ≡ o' = ground arith in
            elim which [
              | inl won ↦ other (at ∙ won)
              | inr failed ↦
                  let f = subst (λ x. is_failure x ≡ true) (sym at) failed in ground arith
            ]),
        (refl, refl),
      ))
]

probe-Turned :
    (trip failures until : ℕ) (probe : Option Outcome) (qr : Queue) (db : Db)
    → find (is_queue qr.id) db.queues ≡ some qr
    → qr.breaker_state ≡ half_open
    → Turned trip failures until probe half_open qr db (judge_probe qr.id until probe db)
unfolding judge_probe close_row
probe-Turned trip failures until none qr db e s = inr (
  (λ t m. let (o, same, which) = probed-moves trip failures none t m in ground arith),
  (refl, refl),
)
probe-Turned trip failures until (some Outcome.success) qr db e s = inl (
  closed,
  closes refl,
  switch_lem qr half_open (moved closed until) breaker_closed db (λ r. refl) (same_state-eq _ _ s)
      e,
)
probe-Turned trip failures until (some o) qr db e s =
    failed-Turned trip failures until o qr db e s (λ h. ground arith)

judge-Turned :
    (trip failures until : ℕ) (probe : Option Outcome) (s : BreakerState) (qr : Queue) (db : Db)
    → find (is_queue qr.id) db.queues ≡ some qr
    → qr.breaker_state ≡ s
    → Turned trip failures until probe s qr db (judge s qr.id trip failures until probe db)
judge-Turned trip failures until probe closed qr db e h =
    tripping-Turned trip failures until probe qr db e h
judge-Turned trip failures until probe opened qr db e h =
    inr (opened-stays trip failures probe, unfold judge in (refl, refl))
judge-Turned trip failures until probe half_open qr db e h =
    unfold judge in probe-Turned trip failures until probe qr db e h

-- A turn of the sweep on a queue's row as it stands follows the machine of `Move`: where the breaker
-- has a move, that is one the turn makes, in the one row, to the cooldown's end where it opens, with
-- one event that tells of it, and nothing else changes; where it has none, be it open, closed with
-- too few failures, or half open with no outcome yet or one that is neither a success nor a failure,
-- nothing changes at all.
pub breaker_transitions :
    (now trip cooldown failures : ℕ) (qr : Queue) (db : Db)
    → find (is_queue qr.id) db.queues ≡ some qr
    → let probe = probe_outcome qr.id qr.breaker_open_until db.executions in
      Turned trip failures
        (now + cooldown)
        probe
        qr.breaker_state
        qr
        db
        (breaker_turn now trip cooldown qr failures db)
unfolding breaker_turn
breaker_transitions now trip cooldown failures qr db e =
    judge-Turned trip failures (now + cooldown)
      (probe_outcome qr.id qr.breaker_open_until db.executions) qr.breaker_state qr db e refl

-- An open row admits nothing before its deadline.
moved-shut :
    (later want until : ℕ) (qr : Queue)
    → later < until
    → admissible later want (moved opened until qr) ≡ 0
unfolding admissible
moved-shut later want until qr h = ground arith

-- A queue whose breaker a sweep has just tripped, or opened again after its probe failed, grants
-- nothing to any worker until the cooldown is over, whatever else is wanted of it meanwhile.
pub tripped_breaker_blocks :
    (now trip cooldown failures later rot want : ℕ) (qr : Queue) (db : Db)
    → find (is_queue qr.id) db.queues ≡ some qr
    → Move trip failures
        (probe_outcome qr.id qr.breaker_open_until db.executions)
        qr.breaker_state
        opened
    → later < now + cooldown
    → let (n, db') = breaker_turn now trip cooldown qr failures db in
      (queue_admit later rot qr.id want db').0 ≡ 0
tripped_breaker_blocks now trip cooldown failures later rot want qr db e m soon =
    let (n, db') = breaker_turn now trip cooldown qr failures db in
    let until = now + cooldown in
    elim (breaker_transitions now trip cooldown failures qr db e) [
      | inl (t, m', (one, row, others, rest)) ↦
          let to = opens-only trip failures _ qr.breaker_state t m m' in
          let found =
            subst (λ x. find (is_queue qr.id) db'.queues ≡ some (moved x until qr)) to row in
          let most =
            admission_within_breaker later rot qr.id want (moved opened until qr) db' found in
          omega (arith, most, moved-shut later want until qr soon)
      | inr (stays, still) ↦ absurd (stays opened m)
    ]
