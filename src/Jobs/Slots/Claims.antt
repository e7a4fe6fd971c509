-- ===== src/Jobs/Slots/Claims.antt =====
-- Admission reserves slots in a counter, and taking jobs turns them into claims.
use job_scheduling.Base.{
  ℕ, ltb, ◌+◌, ◌-◌, ◌≤◌, ◌≡◌, refl, Bool, true, false, ◌&&◌, Option, none, some, List, [], ◌∷◌,
  arith, ◌==◌, if◌then◌else◌, find, modify, Bool-cases, inl, inr, find_passes, count-modify,
  Option-cases, ==_iff, length, ◌∙◌, ap, sym, subst, length-take-le, length-append,
}
use job_scheduling.Store.{Job, Shard, Queue, Db, is_shard, in_flight, in_flight_of}
use job_scheduling.Jobs.Slots.{holds, active, in_flight-release}
use job_scheduling.Jobs.Slots.Reports.{IsCovered}
use job_scheduling.Jobs.Admit.{
  is_queue, gate, slots_for, take_slots, grant, grant_first, admit_gated, admit_found, queue_admit,
  shard_cap,
}
use job_scheduling.Jobs.Claim.{
  ClaimRequest, claim_row, claim_one, claim_all, candidates, take_jobs, claimable,
}

-- `n` more slots of one shard are spoken for.
abbrev pub reserve : ℕ → ℕ → ℕ → (ℕ → ℕ → ℕ) → ℕ → ℕ → ℕ
reserve q s n reserved q' s' = reserved q' s' + (if q == q' && s == s' then n else 0)

-- `limit` is what the queues of the table are configured to.
abbrev pub IsConfigured : (ℕ → ℕ → ℕ) → Db → Type 0
IsConfigured limit db =
    (q : ℕ) (qr : Queue)
    → find (is_queue q) db.queues ≡ some qr
    → (s : ℕ) → shard_cap qr s ≡ limit q s

-- The counters after an admission cover its grant too.
abbrev pub Granted : (ℕ → ℕ → ℕ) → ℕ → (ℕ → ℕ → ℕ) → ℕ × ℕ × Db → Type 0
Granted limit q reserved r = IsCovered limit (reserve q r.1 r.0 reserved) r.2

Granted-if :
    (limit : ℕ → ℕ → ℕ) (q : ℕ) (reserved : ℕ → ℕ → ℕ) (b : Bool) (x y : ℕ × ℕ × Db)
    → Granted limit q reserved x
    → Granted limit q reserved y
    → Granted limit q reserved (if b then x else y)
Granted-if limit q reserved true x y hx hy = hx
Granted-if limit q reserved false x y hx hy = hy

pub in_flight-take_slots :
    (now : ℕ) (qr : Queue) (n q s q' s' : ℕ) (shards : List Shard) (r : Shard)
    → find (is_shard q s) shards ≡ some r
    → in_flight q' s' (modify (is_shard q s) (take_slots now qr n) shards)
      ≡ in_flight q' s' shards + (if q == q' && s == s' then n else 0)
unfolding find modify take_slots
in_flight-take_slots now qr n q s q' s' [] r e = ground arith
in_flight-take_slots now qr n q s q' s' (x ∷ xs) r e = elim (Bool-cases (is_shard q s x)) [
  | inl hit ↦ ground arith
  | inr miss ↦ ground (arith, in_flight-take_slots now qr n q s q' s' xs r)
]

slots_for-le :
    (now want : ℕ) (qr : Queue) (r : Shard)
    → slots_for now want qr r ≤ shard_cap qr r.shard - r.in_flight
unfolding slots_for
slots_for-le now want qr r = omega arith

-- A grant leaves the counter of its shard within the cap.
grant_within :
    (now want : ℕ) (qr : Queue) (q sh s : ℕ) (shards : List Shard) (r : Shard)
    → find (is_shard qr.id sh) shards ≡ some r
    → (in_flight q s shards
        ≤ (if qr.id == q && sh == s then shard_cap qr s else in_flight q s shards))
    → in_flight q s
        (modify (is_shard qr.id sh) (take_slots now qr (slots_for now want qr r)) shards)
      ≤ (if qr.id == q && sh == s then shard_cap qr s else in_flight q s shards)
grant_within now want qr q sh s shards r e h = elim (Bool-cases (qr.id == q && sh == s)) [
  | inl hit ↦
      let same_q : qr.id ≡ q = ground arith in
      let same_s : sh ≡ s = ground arith in
      let mine : in_flight q s shards ≡ r.in_flight = rw (← same_q, ← same_s) (ap in_flight_of e) in
      let key : r.shard ≡ s = ground (arith, find_passes (is_shard qr.id sh) shards r e) in
      let most : slots_for now want qr r ≤ shard_cap qr s - r.in_flight =
        subst (λ x. slots_for now want qr r ≤ shard_cap qr x - r.in_flight) key
          (slots_for-le now want qr r) in
      ground (arith, in_flight-take_slots now qr (slots_for now want qr r) qr.id sh q s shards r e)
  | inr miss ↦
      ground (arith, in_flight-take_slots now qr (slots_for now want qr r) qr.id sh q s shards r e)
]

-- The breaker's part changes neither the id nor the shards of a queue.
gate_keeps :
    (now want : ℕ) (qr : Queue) {qr' : Queue} {w : ℕ}
    → gate now want qr ≡ some (qr', w)
    → (qr'.id ≡ qr.id) × ((s : ℕ) → shard_cap qr' s ≡ shard_cap qr s)
unfolding gate shard_cap
gate_keeps now want qr e = (ground arith, λ s. ground arith)

module _ (limit reserved : ℕ → ℕ → ℕ) where
  grant-IsCovered :
      (now want : ℕ) (qr : Queue) (sh : ℕ) (o : Option Shard) (db : Db)
      → ((s : ℕ) → shard_cap qr s ≡ limit qr.id s)
      → find (is_shard qr.id sh) db.shards ≡ o
      → IsCovered limit reserved db
      → Granted limit qr.id reserved (grant now want qr sh o db)
  unfolding grant
  grant-IsCovered now want qr sh none db k e c = λ q s. ground (arith, c q s)
  grant-IsCovered now want qr sh (some r) db k e c =
      elim (Bool-cases (slots_for now want qr r == 0)) [
        | inl no_slots ↦ rw no_slots λ q s. ground (arith, c q s)
        | inr slots ↦ rw slots λ q s.
            let n = slots_for now want qr r in
            let mine : qr.id ≡ q → shard_cap qr s ≡ limit q s =
              λ same. k s ∙ ap (λ x. limit x s) same in
            ground (
              arith,
              c q s,
              mine,
              in_flight-take_slots now qr n qr.id sh q s db.shards r e,
              grant_within now want qr q sh s db.shards r e,
            )
      ]

  grant_first-IsCovered :
      (l : List Shard) (now want : ℕ) (qr : Queue) (db : Db)
      → ((s : ℕ) → shard_cap qr s ≡ limit qr.id s)
      → IsCovered limit reserved db
      → Granted limit qr.id reserved (grant_first l now want qr db)
  unfolding grant_first
  grant_first-IsCovered [] now want qr db k c = λ q s. ground (arith, c q s)
  grant_first-IsCovered (s ∷ l) now want qr db k c =
      grant-IsCovered now want qr s.shard _ db k refl c

  admit_gated-IsCovered :
      (now rot : ℕ) (o : Option (Queue × ℕ)) (q : ℕ) (db : Db)
      → ((qr : Queue) (w : ℕ)
          → o ≡ some (qr, w)
          → (qr.id ≡ q) × ((s : ℕ) → shard_cap qr s ≡ limit q s))
      → IsCovered limit reserved db
      → Granted limit q reserved (admit_gated now rot o db)
  unfolding admit_gated
  admit_gated-IsCovered now rot none q db same c = λ q' s'. ground (arith, c q' s')
  admit_gated-IsCovered now rot (some (qr, w)) q db same c =
      subst (λ x. Granted limit x reserved (admit_gated now rot (some (qr, w)) db))
        (same qr w refl).0
        (grant_first-IsCovered _ now w qr _
          (λ s. (same qr w refl).1 s ∙ ap (λ x. limit x s) (sym (same qr w refl).0)) c)

  -- What queue_admit grants it adds to the counter of the shard it names, within the cap.
  pub queue_admit-IsCovered :
      (now rot q want : ℕ) (db : Db)
      → IsConfigured limit db
      → IsCovered limit reserved db
      → Granted limit q reserved (queue_admit now rot q want db)
  unfolding queue_admit admit_found
  queue_admit-IsCovered now rot q want db k c = elim (Option-cases (find (is_queue q) db.queues)) [
    | inl e ↦ rw (e, admit_found) λ q' s'. ground (arith, c q' s')
    | inr (qr, e) ↦
        rw (e, admit_found)
          (Granted-if limit q reserved qr.paused (0, 0, db)
            (admit_gated now rot (gate now want qr) db) (λ q' s'. ground (arith, c q' s'))
            (admit_gated-IsCovered now rot (gate now want qr) q db
              (λ qr' w h. (
                (gate_keeps now want qr h).0
                    ∙ (==_iff qr.id q).0 (find_passes (is_queue q) db.queues qr e),
                λ s. (gate_keeps now want qr h).1 s ∙ k q qr e s,
              ))
              c))
  ]

claim_one_lem :
    (now : ℕ) (locked : ℕ → Bool) (req : ClaimRequest) (sh i : ℕ) (o : Option Job) (db : Db)
    → find (claimable now locked req i) db.jobs ≡ o
    → let (out, db') = claim_one now locked req sh i o db in
      (db'.shards ≡ db.shards)
      × (length out ≤ 1)
      × ((q s : ℕ)
          → active q s db'.jobs
            ≡ active q s db.jobs + (if req.queue == q && sh == s then length out else 0))
unfolding claim_one claimable active claim_row
claim_one_lem now locked req sh i none db e = (refl, omega arith, λ q s. ground arith)
claim_one_lem now locked req sh i (some j) db e = (
  refl,
  omega arith,
  λ q s. ground (
    arith,
    find_passes (claimable now locked req i) db.jobs j e,
    count-modify (holds q s) (claimable now locked req i) (claim_row now req sh) db.jobs j e,
  ),
)

claim_all_lem :
    (now : ℕ) (locked : ℕ → Bool) (req : ClaimRequest) (sh : ℕ) (cs : List Job) (db : Db)
    → let (out, db') = claim_all now locked req sh cs db in
      (db'.shards ≡ db.shards)
      × (length out ≤ length cs)
      × ((q s : ℕ)
          → active q s db'.jobs
            ≡ active q s db.jobs + (if req.queue == q && sh == s then length out else 0))
unfolding claim_all
claim_all_lem now locked req sh [] db = (refl, omega arith, λ q s. ground arith)
claim_all_lem now locked req sh (c ∷ cs) db =
    let (one, db1) =
      claim_one now locked req sh c.id (find (claimable now locked req c.id) db.jobs) db in
    let head = claim_one_lem now locked req sh c.id _ db refl in
    let (rest, db2) = claim_all now locked req sh cs db1 in
    let tail = claim_all_lem now locked req sh cs db1 in
    (
      tail.0 ∙ head.0,
      omega (arith, length-append one rest),
      λ q s. ground (arith, length-append one rest, head.2 q s, tail.2 q s),
    )

length-candidates :
    (now : ℕ) (locked : ℕ → Bool) (req : ClaimRequest) (n : ℕ) (jobs : List Job)
    → length (candidates now locked req n jobs) ≤ n
unfolding candidates
length-candidates now locked req n jobs = length-take-le n _

-- A claim hands out no more jobs than it has slots for.
pub claim-le :
    (now : ℕ) (locked : ℕ → Bool) (req : ClaimRequest) (sh n : ℕ) (db : Db)
    → length (take_jobs now locked req sh n db).0 ≤ n
unfolding take_jobs
claim-le now locked req sh n db =
    let cs = candidates now locked req n db.jobs in
    omega
      (arith, (claim_all_lem now locked req sh cs db).1, length-candidates now locked req n db.jobs)

-- Taking jobs uses up a reservation: each claimed job holds one of its slots, and those left over
-- are given back.
pub take_jobs-IsCovered :
    (now : ℕ) (locked : ℕ → Bool) (req : ClaimRequest) (sh n : ℕ) (db : Db)
    (limit reserved : ℕ → ℕ → ℕ)
    → IsCovered limit (reserve req.queue sh n reserved) db
    → let (out, db') = take_jobs now locked req sh n db in
      IsCovered limit reserved db' × (length out ≤ n)
unfolding take_jobs
take_jobs-IsCovered now locked req sh n db limit reserved c =
    let cs = candidates now locked req n db.jobs in
    let got = claim_all_lem now locked req sh cs db in
    let (out, db') = claim_all now locked req sh cs db in
    let few : length out ≤ n = omega (arith, got.1, length-candidates now locked req n db.jobs) in
    elim (Bool-cases (ltb (length out) n)) [
      | inl less ↦ rw less (
        (λ q s. ground (
          arith,
          c q s,
          got.2 q s,
          ap (in_flight q s) got.0,
          in_flight-release req.queue sh (n - length out) q s db'.shards,
        )),
        few,
      )
      | inr all ↦ rw all ((λ q s. ground (arith, c q s, got.2 q s, ap (in_flight q s) got.0)), few)
    ]
