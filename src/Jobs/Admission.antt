-- ===== src/Jobs/Admission.antt =====
-- What fl.queue_admit grants: the pause, the breaker, the cap and the tokens of a queue each bound it.
use job_scheduling.Base.{
  ℕ, ◌+◌, ◌*◌, ◌/◌, ◌≤◌, ◌<◌, ltb, ◌≡◌, refl, Bool, true, false, Option, none, some, List, [], ◌∷◌,
  arith, ◌==◌, if◌then◌else◌, find, Bool-cases, inl, inr, select, sort_by,
}
use job_scheduling.Store.{Queue, Shard, Db, BreakerState, closed, opened, half_open}
use job_scheduling.Jobs.Admit.{
  is_queue, gate, gate_on, admit_half_open, slots_for, grant, grant_first, admit_gated, admit_found,
  queue_admit, open_until, shard_cap, refilled, take_slots, has_room, rotated, put_queue,
}

grant-le :
    (now want : ℕ) (qr : Queue) (sh : ℕ) (o : Option Shard) (db : Db)
    → (grant now want qr sh o db).0 ≤ want
unfolding grant slots_for
grant-le now want qr sh none db = omega arith
grant-le now want qr sh (some s) db = elim (Bool-cases (slots_for now want qr s == 0)) [
  | inl e ↦ rw e (omega arith)
  | inr e ↦ rw e (omega arith)
]

grant_first-le :
    (l : List Shard) (now want : ℕ) (qr : Queue) (db : Db) → (grant_first l now want qr db).0 ≤ want
unfolding grant_first
grant_first-le [] now want qr db = omega arith
grant_first-le (s ∷ l) now want qr db = grant-le now want qr s.shard _ db

admit_gated-le :
    (now rot most : ℕ) (o : Option (Queue × ℕ)) (db : Db)
    → ((qr : Queue) (n : ℕ) → o ≡ some (qr, n) → n ≤ most)
    → (admit_gated now rot o db).0 ≤ most
unfolding admit_gated
admit_gated-le now rot most none db h = omega arith
admit_gated-le now rot most (some (qr, n)) db h = omega (
  arith,
  h qr n refl,
  grant_first-le (sort_by (rotated rot qr) (select (has_room qr) db.shards)) now n qr
      (record db { queues = put_queue qr db.queues }),
)

-- What the state of a queue lets through at most: nothing while it is paused or its breaker is open,
-- one probe while the breaker is half open or due to be, and else what is wanted.
unfoldable pub admissible : ℕ → ℕ → Queue → ℕ
admissible now want qr = if qr.paused then 0 else by_breaker qr.breaker_state
  where
    by_breaker : BreakerState → ℕ
    by_breaker closed = want
    by_breaker opened = if ltb now (open_until now qr.breaker_open_until) then 0 else 1
    by_breaker half_open = if qr.breaker_probe_budget == 0 then 0 else 1

gate-admissible :
    (now want : ℕ) (qr qr' : Queue) (n : ℕ)
    → qr.paused ≡ false
    → gate now want qr ≡ some (qr', n)
    → n ≤ admissible now want qr
unfolding gate gate_on admit_half_open admissible
gate-admissible now want qr qr' n p e = ground arith

-- An admission to a queue grants no more than the pause and the breaker of the queue let through:
-- nothing while it is paused, nothing before an open breaker's deadline, one probe from then on and
-- while the breaker is half open with a probe left, and never more than the wanted slots otherwise.
pub admission_within_breaker :
    (now rot q want : ℕ) (qr : Queue) (db : Db)
    → find (is_queue q) db.queues ≡ some qr
    → (queue_admit now rot q want db).0 ≤ admissible now want qr
unfolding queue_admit admit_found
admission_within_breaker now rot q want qr db e = rw (e, admit_found) (go qr.paused refl)
  where
    go :
        (b : Bool)
        → qr.paused ≡ b
        → (if b then (0, 0, db) else admit_gated now rot (gate now want qr) db).0
          ≤ admissible now want qr
    go true p = omega arith
    go false p =
        admit_gated-le now rot (admissible now want qr) (gate now want qr) db
          (λ qr' n h. gate-admissible now want qr qr' n p h)

-- Tokens: a grant takes no more than the shard's bucket holds, and the bucket holds no more than
-- its share of the burst, before and after.
pub tokens_within_burst :
    (now want : ℕ) (qr : Queue) (s : Shard)
    → 0 < qr.rl_limit_per_sec
    → let n = slots_for now want qr s in
      let s' = take_slots now qr n s in
      (n * 1000000 ≤ qr.rl_burst / qr.shards)
      × (s'.rl_tokens + n * 1000000 ≤ qr.rl_burst / qr.shards)
      × (s'.rl_tokens + n * 1000000 ≡ refilled now qr s)
      × (s'.in_flight ≡ s.in_flight + n)
      × ((s.in_flight ≤ shard_cap qr s.shard) → s'.in_flight ≤ shard_cap qr s.shard)
unfolding slots_for take_slots
tokens_within_burst now want qr s h =
    let full : refilled now qr s ≤ qr.rl_burst / qr.shards = unfold refilled in omega arith in
    ground arith
