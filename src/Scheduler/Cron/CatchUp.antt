-- ===== src/Scheduler/Cron/CatchUp.antt =====
-- The loop of Materialize over the ticks that have passed: it ends, and what it comes to.
use job_scheduling.Base.{
  ℕ, zero, suc, ◌+◌, ◌≤◌, ◌<◌, ltb, ◌≡◌, refl, sym, subst, ap, ◌∙◌, ◌↔◌, to_ℕ, false, Option, none,
  some, arith, ◌⊎◌, inl, inr, Bool-cases, Option-cases,
}
use job_scheduling.Store.{Catchup, fire_once}
use job_scheduling.Scheduler.Cron.Ticks.{ticks, Plan, catch_up, plan_next, plan_ticks, plan}

-- The `count`-th tick from one that was due on, each the cron library's next after the one before.
pub data IsTick (next : ℕ → Option ℕ) (due : ℕ) : ℕ → ℕ → Type 0 where
  first : IsTick next due due 1
  follows :
      {t nt count : ℕ} → IsTick next due t count → next t ≡ some nt → IsTick next due nt (count + 1)

-- What the loop has come to at a tick: the last tick that has passed, and how many there were.
abbrev Reached : ℕ → ℕ → (ℕ → Option ℕ) → ℕ → ℕ → ℕ → ℕ → Type 0
Reached rounds now next due count last count' =
    IsTick next due last count'
    × (last ≤ now)
    × (count' ≤ count + rounds)
    × ((nt : ℕ) → next last ≡ some nt → (now < nt) ⊎ (count' ≡ count + rounds))

-- `last` is a tick that has passed, and `t` the one behind it.
ticks-Reached :
    (rounds now : ℕ) (next : ℕ → Option ℕ) (due t last count l c : ℕ)
    → IsTick next due last count
    → (last ≤ now) × (next last ≡ some t)
    → ticks rounds now next t last count ≡ some (l, c)
    → Reached rounds now next due count l c
unfolding ticks
ticks-Reached zero now next due t last count l c k (h, n) e =
    let same : last ≡ l = ground arith in
    let total : count ≡ c = ground arith in
    (
      subst (λ x. IsTick next due x c) same (subst (IsTick next due last) total k),
      ground arith,
      ground arith,
      λ nt m. inr (ground arith),
    )
ticks-Reached (suc rounds) now next due t last count l c k (h, n) e =
    elim (Bool-cases (ltb now t)) [
      | inl over ↦
          let same : last ≡ l = ground arith in
          let total : count ≡ c = ground arith in
          (
            subst (λ x. IsTick next due x c) same (subst (IsTick next due last) total k),
            ground arith,
            ground arith,
            λ nt m. inl (
                let at : next last ≡ some nt = subst (λ x. next x ≡ some nt) (sym same) m in
                ground arith),
          )
      | inr before ↦ elim (Option-cases (next t)) [
        | inl fails ↦ ground arith
        | inr (nt, found) ↦
            let (tick, past, most, end) =
              ticks-Reached rounds now next due nt t (count + 1) l c (follows k n)
                (ground arith, found) (ground arith) in
            (tick, past, omega (arith, most), λ m h'. ground (arith, end m h'))
      ]
    ]

-- The whole loop, at a tick that has passed.
ticks-due :
    (rounds now : ℕ) (next : ℕ → Option ℕ) (due l c : ℕ)
    → 0 < rounds
    → due ≤ now
    → ticks rounds now next due due 0 ≡ some (l, c)
    → Reached rounds now next due 0 l c
unfolding ticks
ticks-due zero now next due l c pos h e = ground arith
ticks-due (suc rounds) now next due l c pos h e = elim (Option-cases (next due)) [
  | inl fails ↦ ground arith
  | inr (nt, found) ↦
      let (tick, past, most, end) =
        ticks-Reached rounds now next due nt due 1 l c first (h, found) (ground arith) in
      (tick, past, omega (arith, most), λ m h'. ground (arith, end m h'))
]

IsTick-pos : {next : ℕ → Option ℕ} {due t count : ℕ} → IsTick next due t count → 0 < count
IsTick-pos first = omega arith
IsTick-pos (follows k e) = omega arith

-- What a plan makes of `count` ticks.
abbrev pub Settled : ℕ → ℕ → (ℕ → Option ℕ) → Catchup → ℕ → Plan → ℕ → Type 0
Settled rounds now next catchup due p count =
    IsTick next due p.target count
    × (p.target ≤ now)
    × (next p.target ≡ some p.next_run)
    × (p.skipped + to_ℕ p.fire ≡ count)
    × ((p.fire ≡ false) ↔ ((catchup ≡ Catchup.skip) × (1 < count)))
    × (count ≤ rounds)
    × ((now < p.next_run) ⊎ (count ≡ rounds))

catch_up-facts :
    (catchup : Catchup) (last count nt : ℕ)
    → 0 < count
    → let p = catch_up catchup last count nt in
      (p.target ≡ last)
      × (p.next_run ≡ nt)
      × (p.skipped + to_ℕ p.fire ≡ count)
      × ((p.fire ≡ false) ↔ ((catchup ≡ Catchup.skip) × (1 < count)))
unfolding catch_up
catch_up-facts fire_once last count nt pos =
    (ground arith, ground arith, ground arith, (ground arith, ground arith))
catch_up-facts Catchup.skip last count nt pos =
    (ground arith, ground arith, ground arith, (ground arith, ground arith))

plan_next-Settled :
    (rounds now : ℕ) (next : ℕ → Option ℕ) (catchup : Catchup) (due last count : ℕ) (o : Option ℕ)
    (p : Plan)
    → Reached rounds now next due 0 last count
    → next last ≡ o
    → plan_next catchup last count o ≡ some p
    → Settled rounds now next catchup due p count
unfolding plan_next
plan_next-Settled rounds now next catchup due last count none p r at e = ground arith
plan_next-Settled rounds now next catchup due last count (some nt) p (tick, past, most, end) at e =
    let same : catch_up catchup last count nt ≡ p = some-inj e in
    let (target, run, total, policy) = catch_up-facts catchup last count nt (IsTick-pos tick) in
    subst (λ x. Settled rounds now next catchup due x count) same
      (
        subst (λ x. IsTick next due x count) (sym target) tick,
        subst (λ x. x ≤ now) (sym target) past,
        ap next target ∙ at ∙ ap some (sym run),
        total,
        policy,
        omega (arith, most),
        subst (λ x. (now < x) ⊎ (count ≡ rounds)) (sym run)
            (elim (end nt at) [ inl h ↦ inl h | inr h ↦ inr (omega (arith, h)) ]),
      )
  where
    some-inj : {A : Type 0} {a b : A} → some a ≡ some b → a ≡ b
    some-inj h = cc

-- The cron library fails at a tick that has passed.
abbrev pub Failed : ℕ → (ℕ → Option ℕ) → ℕ → Type 0
Failed now next due = (t : ℕ) × (count : ℕ) × IsTick next due t count × (t ≤ now) × (next t ≡ none)

ticks-Failed :
    (rounds now : ℕ) (next : ℕ → Option ℕ) (due t last count : ℕ)
    → IsTick next due last count
    → next last ≡ some t
    → ticks rounds now next t last count ≡ none
    → Failed now next due
unfolding ticks
ticks-Failed zero now next due t last count k n e = ground arith
ticks-Failed (suc rounds) now next due t last count k n e = elim (Bool-cases (ltb now t)) [
  | inl over ↦ ground arith
  | inr before ↦ elim (Option-cases (next t)) [
    | inl fails ↦ (t, count + 1, follows k n, ground arith, fails)
    | inr (nt, found) ↦
        ticks-Failed rounds now next due nt t (count + 1) (follows k n) found (ground arith)
  ]
]

due-Failed :
    (rounds now : ℕ) (next : ℕ → Option ℕ) (due : ℕ)
    → due ≤ now
    → ticks rounds now next due due 0 ≡ none
    → Failed now next due
unfolding ticks
due-Failed zero now next due h e = ground arith
due-Failed (suc rounds) now next due h e = elim (Option-cases (next due)) [
  | inl fails ↦ (due, 1, first, h, fails)
  | inr (nt, found) ↦ ticks-Failed rounds now next due nt due 1 first found (ground arith)
]

-- The catch-up of a schedule that is due, for a number of rounds of at least one. There is no plan
-- only where the cron library fails at one of the ticks that have passed. Otherwise the tick that
-- it settles on is the last of them, counted from the due one on, each the library's next after the
-- one before, and has passed; its next run is the tick behind that one. The ticks skipped, and the
-- one fired for if there is one, are all of them; it fires except where its policy is to skip and
-- more than one tick has passed. There are no more ticks than rounds of the loop, and unless the
-- loop gave up after all of its rounds, the next run is later than now.
pub catch_up_lem :
    (rounds now : ℕ) (next : ℕ → Option ℕ) (catchup : Catchup) (due : ℕ)
    → 0 < rounds
    → due ≤ now
    → ((plan rounds now next catchup due ≡ none) × Failed now next due)
      ⊎ ((p : Plan) × (count : ℕ) × (plan rounds now next catchup due ≡ some p)
          × Settled rounds now next catchup due p count)
unfolding plan plan_ticks
catch_up_lem rounds now next catchup due pos h =
    elim (Option-cases (ticks rounds now next due due 0)) [
      | inl fails ↦ rw fails (inl (refl, due-Failed rounds now next due h fails))
      | inr ((l, c), found) ↦
          let reached = ticks-due rounds now next due l c pos h found in
          elim (Option-cases (next l)) [
            | inl fails ↦
                rw (found, fails)
                  (inl (unfold plan_next in refl, (l, c, reached.0, reached.1, fails)))
            | inr (nt, at) ↦
                let p = catch_up catchup l c nt in
                rw (found, at)
                  (inr (
                    p,
                    c,
                    unfold plan_next in refl,
                    plan_next-Settled rounds now next catchup due l c (some nt) p reached at
                        (unfold plan_next in refl),
                  ))
          ]
    ]
