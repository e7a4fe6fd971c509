-- ===== src/System/Total.antt =====
-- The jobs of a whole queue: what the caps of its shards come to (fl.shard_slots of
-- migrations/027_shards.sql).
use native.Mathlib.Nat.{div-add-mod, mod-lt}
use job_scheduling.Base.{
  ℕ, zero, suc, ◌+◌, ◌*◌, ◌/◌, ◌%◌, ◌≤◌, ◌<◌, ◌≡◌, min, Bool, ◌&&◌, List, [], ◌∷◌, arith, ltb, ◌==◌,
  if◌then◌else◌, to_ℕ, count, Bool-cases, inl, inr,
}
use job_scheduling.Store.{Job, Queue, is_active, in_flight}
use job_scheduling.Jobs.Admit.{shard_cap}
use job_scheduling.Jobs.Slots.{active, holds}
use job_scheduling.System.Steps.{World, Reach, IsSafe}
use job_scheduling.System.Safety.{Reach-IsSafe}

unfoldable pub sum_below : ℕ → (ℕ → ℕ) → ℕ
sum_below zero f = 0
sum_below (suc n) f = f n + sum_below n f

sum_below-le : (n : ℕ) (f g : ℕ → ℕ) → ((s : ℕ) → s < n → f s ≤ g s) → sum_below n f ≤ sum_below n g
unfolding sum_below
sum_below-le zero f g h = omega arith
sum_below-le (suc n) f g h =
    omega (arith, h n (omega arith), sum_below-le n f g (λ s k. h s (omega arith)))

sum_below-add : (n : ℕ) (f g : ℕ → ℕ) → sum_below n (λ s. f s + g s) ≡ sum_below n f + sum_below n g
unfolding sum_below
sum_below-add zero f g = omega arith
sum_below-add (suc n) f g = omega (arith, sum_below-add n f g)

-- One summand is at most the sum.
le-sum_below : (n s : ℕ) (f : ℕ → ℕ) → s < n → f s ≤ sum_below n f
unfolding sum_below
le-sum_below zero s f h = absurd (omega arith)
le-sum_below (suc n) s f h = elim (Bool-cases (s == n)) [
  | inl e ↦ ground arith
  | inr e ↦ ground (arith, le-sum_below n s f (ground arith))
]

sum_below-shares : (n c r : ℕ) → sum_below n (λ s. c + (if ltb s r then 1 else 0)) ≡ n * c + min n r
unfolding sum_below
sum_below-shares zero c r = omega arith
sum_below-shares (suc n) c r = grind (arith, sum_below-shares n c r)

-- The caps of a queue's shards come to its max_concurrency.
sum_below-shard_cap :
    (qr : Queue) → 0 < qr.shards → sum_below qr.shards (shard_cap qr) ≡ qr.max_concurrency
unfolding shard_cap
sum_below-shard_cap qr h = omega (
  arith,
  sum_below-shares qr.shards (qr.max_concurrency / qr.shards) (qr.max_concurrency % qr.shards),
  div-add-mod qr.max_concurrency qr.shards,
  mod-lt qr.max_concurrency h,
)

abbrev pub of_queue : ℕ → Job → Bool
of_queue q j = j.queue == q && is_active j.status

-- Where the jobs that run are on the first shards, those count them all.
count-le-sum_below :
    (q n : ℕ) (jobs : List Job)
    → ((s : ℕ) → n ≤ s → active q s jobs ≡ 0)
    → count (of_queue q) jobs ≤ sum_below n (λ s. active q s jobs)
unfolding count active
count-le-sum_below q n [] h = omega arith
count-le-sum_below q n (j ∷ jobs) h =
    let rest = count-le-sum_below q n jobs (λ s k. omega (arith, h s k)) in
    let here : ℕ → ℕ = λ s. to_ℕ (holds q s j) in
    let split = sum_below-add n here (λ s. active q s jobs) in
    elim (Bool-cases (of_queue q j)) [
      | inr e ↦ rw (e, split) (omega (arith, rest))
      | inl e ↦ elim (Bool-cases (ltb j.shard n)) [
        | inr k ↦ absurd (ground (arith, h j.shard))
        | inl k ↦
            let one : here j.shard ≡ 1 = ground arith in
            let within = le-sum_below n j.shard here (ground arith) in
            rw (e, split) (omega (arith, rest, one, within))
      ]
    ]

-- Whatever transactions follow each other, in whatever order, from a database whose counters cover
-- its jobs and are within the caps: a queue never has more claimed and running jobs, over all of
-- its shards, than its max_concurrency. The queue's number of shards is positive, no counter beyond
-- it is in use, and the caps are those that the queue is configured to.
pub queue_within_max_concurrency :
    (limit : ℕ → ℕ → ℕ) (w w' : World) (q : ℕ) (qr : Queue)
    → Reach limit w w'
    → IsSafe limit w
    → 0 < qr.shards
    → ((s : ℕ) → s < qr.shards → limit q s ≡ shard_cap qr s)
    → ((s : ℕ) → qr.shards ≤ s → in_flight q s w'.db.shards ≡ 0)
    → count (of_queue q) w'.db.jobs ≤ qr.max_concurrency
queue_within_max_concurrency limit w w' q qr r c h caps idle =
    let safe = Reach-IsSafe limit w w' r c in
    omega (
      arith,
      count-le-sum_below q qr.shards w'.db.jobs (λ s k. omega (arith, safe q s, idle s k)),
      sum_below-le qr.shards (λ s. active q s w'.db.jobs) (shard_cap qr)
          (λ s k. omega (arith, safe q s, caps s k)),
      sum_below-shard_cap qr h,
    )
