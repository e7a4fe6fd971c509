-- ===== src/Jobs/Slots/Reconciled.antt =====
-- What ReconcileInFlight leaves (internal/jobs/release.go, fl.reconcile_in_flight).
use job_scheduling.Base.{
  ℕ, ◌+◌, ◌≡◌, refl, ap, Bool, true, false, not, map, List, [], ◌∷◌, arith, ◌==◌, count, to_ℕ, All,
  Bool-cases, inl, inr,
}
use job_scheduling.Store.{Job, Shard, Db}
use job_scheduling.Jobs.Slots.{holds, active, recount, reconcile_in_flight}

-- The counter is the number of jobs that it stands for.
abbrev pub IsExact : List Job → Shard → Type 0
IsExact jobs r = r.in_flight ≡ active r.queue r.shard jobs

recount-IsExact : (jobs : List Job) (rs : List Shard) → All (IsExact jobs) (recount jobs rs).0
unfolding recount active
recount-IsExact jobs [] = tt
recount-IsExact jobs (r ∷ rs) =
    elim (Bool-cases (r.in_flight == count (holds r.queue r.shard) jobs)) [
      | inl same ↦ rw same (ground arith, recount-IsExact jobs rs)
      | inr off ↦ rw off (refl, recount-IsExact jobs rs)
    ]

recount-exact :
    (jobs : List Job) (rs : List Shard) → All (IsExact jobs) rs → recount jobs rs ≡ (rs, 0)
unfolding recount active
recount-exact jobs [] a = refl
recount-exact jobs (r ∷ rs) (e, a) =
    let same : (r.in_flight == count (holds r.queue r.shard) jobs) ≡ true = ground arith in
    rw (same, recount-exact jobs rs a) refl

-- The row with the right number, and whether it had another.
abbrev pub exact_row : List Job → Shard → Shard
exact_row jobs r = record r { in_flight = active r.queue r.shard jobs }

abbrev pub is_off : List Job → Shard → Bool
is_off jobs r = not (r.in_flight == active r.queue r.shard jobs)

recount_lem :
    (jobs : List Job) (rs : List Shard)
    → recount jobs rs ≡ (map (exact_row jobs) rs, count (is_off jobs) rs)
unfolding recount active count
recount_lem jobs [] = refl
recount_lem jobs (r ∷ rs) =
    let n = count (is_off jobs) rs in
    let row : r.in_flight ≡ count (holds r.queue r.shard) jobs → r ≡ exact_row jobs r =
      λ e. ap (λ x. record r { in_flight = x }) e in
    elim (Bool-cases (r.in_flight == count (holds r.queue r.shard) jobs)) [
      | inl same ↦
          let kept = row (ground arith) in
          let none_more : n ≡ to_ℕ false + n = omega arith in
          rw (same, recount_lem jobs rs) (λ i. (kept i ∷ map (exact_row jobs) rs, none_more i))
      | inr off ↦
          let one_more : n + 1 ≡ to_ℕ true + n = omega arith in
          rw (off, recount_lem jobs rs)
            (λ i. (exact_row jobs r ∷ map (exact_row jobs) rs, one_more i))
    ]

-- Reconciliation sets every counter to the number of claimed and running jobs of its shard, and
-- changes nothing else: each row of a shard stays in its place with all its other columns, and every other
-- table is as it was. Its answer is the number of counters that were off, and done again it finds
-- nothing to repair.
pub reconcile_in_flight_lem :
    (db : Db)
    → let (db', fixed) = reconcile_in_flight db in
      (db' ≡ record db { shards = map (exact_row db.jobs) db.shards })
      × All (λ r. r.in_flight ≡ active r.queue r.shard db.jobs) db'.shards
      × (fixed ≡ count (is_off db.jobs) db.shards)
      × (reconcile_in_flight db' ≡ (db', 0))
unfolding reconcile_in_flight
reconcile_in_flight_lem db =
    let exact = recount-IsExact db.jobs db.shards in
    let both = recount_lem db.jobs db.shards in
    (
      ap (λ (x : List Shard × ℕ). record db { shards = x.0 }) both,
      exact,
      ap (λ (x : List Shard × ℕ). x.1) both,
      rw (recount-exact db.jobs (recount db.jobs db.shards).0 exact) refl,
    )
