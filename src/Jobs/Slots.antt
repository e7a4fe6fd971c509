-- ===== src/Jobs/Slots.antt =====
-- internal/jobs/release.go and fl.queue_release, fl.reconcile_in_flight of
-- migrations/027_shards.sql: the counter of a shard's running jobs, and the jobs it stands for.
pub mod Reports
pub mod Claims
pub mod Reconciled
use job_scheduling.Base.{
  ℕ, ◌+◌, ◌-◌, ◌≡◌, Bool, ◌&&◌, List, [], ◌∷◌, arith, ◌==◌, if◌then◌else◌, count, find, modify,
}
use job_scheduling.Store.{Job, Shard, Db, is_active, is_shard, in_flight}

-- A job of this shard that is claimed or running.
abbrev pub holds : ℕ → ℕ → Job → Bool
holds q s j = j.queue == q && j.shard == s && is_active j.status

unfoldable pub active : ℕ → ℕ → List Job → ℕ
active q s jobs = count (holds q s) jobs

-- Release: `in_flight = greatest(in_flight - n, 0)`.
unfoldable pub queue_release : ℕ → ℕ → ℕ → List Shard → List Shard
queue_release q s n shards =
    modify (is_shard q s) (λ r. record r { in_flight = r.in_flight - n }) shards

-- Reconcile: every counter is set to the number of jobs that it stands for.
unfoldable pub recount : List Job → List Shard → List Shard × ℕ
recount jobs [] = ([], 0)
recount jobs (r ∷ rs) =
    let real = count (holds r.queue r.shard) jobs in
    let rest = recount jobs rs in
    if r.in_flight == real
    then (r ∷ rest.0, rest.1)
    else (record r { in_flight = real } ∷ rest.0, rest.1 + 1)

-- ReconcileInFlight, with the number of counters that it repaired.
unfoldable pub reconcile_in_flight : Db → Db × ℕ
unfolding recount
reconcile_in_flight db =
    let (shards', fixed) = recount db.jobs db.shards in (record db { shards = shards' }, fixed)

pub in_flight-release :
    (q s n q' s' : ℕ) (shards : List Shard)
    → in_flight q' s' (queue_release q s n shards)
      ≡ (if q == q' && s == s' then in_flight q' s' shards - n else in_flight q' s' shards)
unfolding queue_release find modify
in_flight-release q s n q' s' [] = ground arith
in_flight-release q s n q' s' (r ∷ rs) = ground (arith, in_flight-release q s n q' s' rs)
