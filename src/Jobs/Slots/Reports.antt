-- ===== src/Jobs/Slots/Reports.antt =====
-- Every end of an attempt gives back the slot that its job held.
use job_scheduling.Base.{
  ℕ, ltb, ◌+◌, ◌≤◌, ◌≡◌, refl, Bool, true, false, Option, none, some, List, arith, find, modify,
  Bool-cases, inl, inr, find_passes, count-modify, count-update_all, Option-cases,
}
use job_scheduling.Store.{Job, Shard, Db, Policy, Dependency, is_active, in_flight}
use job_scheduling.Jobs.Slots.{holds, active, queue_release, in_flight-release}
use job_scheduling.Jobs.Deps.{
  waits_on, unblock, finish_dependents, is_doomed, cancel_row, cancel_descendants,
}
use job_scheduling.Jobs.Success.{completable, complete_row, success_found, report_success}
use job_scheduling.Jobs.Failure.{
  Failure, exhausted, failable, fail_row, retried, buried, failure_of, failure_found,
  report_failure,
}
use job_scheduling.Jobs.Snooze.{snoozable, snooze_row, snooze_of, snooze_found, report_snooze}

-- In every shard the counter covers the jobs that are claimed or running there, and `reserved`
-- more; and it is within its cap.
abbrev pub CoveredBy : (ℕ → ℕ → ℕ) → (ℕ → ℕ → ℕ) → List Job → List Shard → Type 0
CoveredBy limit reserved jobs shards =
    (q s : ℕ)
    → (active q s jobs + reserved q s ≤ in_flight q s shards) × (in_flight q s shards ≤ limit q s)

abbrev pub IsCovered : (ℕ → ℕ → ℕ) → (ℕ → ℕ → ℕ) → Db → Type 0
IsCovered limit reserved db = CoveredBy limit reserved db.jobs db.shards

pub active-finish_dependents :
    (now job q s : ℕ) (deps : List Dependency) (jobs : List Job)
    → active q s (finish_dependents now job deps jobs) ≡ active q s jobs
unfolding active finish_dependents
active-finish_dependents now job q s deps jobs =
    count-update_all (holds q s) (waits_on job deps) (unblock now)
      (λ a h. unfold waits_on unblock in ground arith) jobs

pub active-cancel_descendants :
    (now job q s : ℕ) (deps : List Dependency) (jobs : List Job)
    → active q s (cancel_descendants now job deps jobs) ≡ active q s jobs
unfolding active cancel_descendants
active-cancel_descendants now job q s deps jobs =
    count-update_all (holds q s) (is_doomed job deps) (cancel_row now)
      (λ a h. unfold is_doomed cancel_row in ground arith) jobs

-- A change that ends the hold of one job, with the release of its slot.
module _ (p : Job → Bool) (f : Job → Job) (j : Job) (jobs : List Job) (found : find p jobs ≡ some j)
    (held : is_active j.status ≡ true) (freed : is_active (f j).status ≡ false) where
  pub active-modify-release :
      (q s c r : ℕ) (shards : List Shard)
      → (active q s jobs + r ≤ in_flight q s shards) × (in_flight q s shards ≤ c)
      → let shards' = queue_release j.queue j.shard 1 shards in
        (active q s (modify p f jobs) + r ≤ in_flight q s shards') × (in_flight q s shards' ≤ c)
  unfolding active
  active-modify-release q s c r shards h = ground (
    arith,
    count-modify (holds q s) p f jobs j found,
    in_flight-release j.queue j.shard 1 q s shards,
  )

-- report_success keeps the counters covering, whichever job, fence and execution it is called with.
pub report_success-IsCovered :
    (now job fence exec : ℕ) (db : Db) (limit reserved : ℕ → ℕ → ℕ)
    → IsCovered limit reserved db
    → IsCovered limit reserved (report_success now job fence exec db).1
unfolding report_success
report_success-IsCovered now job fence exec db limit reserved c =
    elim (Option-cases (find (completable job fence) db.jobs)) [
      | inl e ↦ rw (e, success_found) c
      | inr (j, e) ↦
          rw (e, success_found)
            λ q s. rw active-finish_dependents (
              active-modify-release (completable job fence) (complete_row now) j db.jobs e
                (unfold completable in
                  ground (arith, find_passes (completable job fence) db.jobs j e))
                (unfold complete_row in refl) q s (limit q s) (reserved q s) db.shards (c q s))
    ]

-- The row that a failure or a snooze names is claimed or running, and is so no longer.
failable-is_active :
    (job : ℕ) (fence : Option ℕ) (jobs : List Job) (j : Job)
    → find (failable job fence) jobs ≡ some j
    → is_active j.status ≡ true
unfolding failable
failable-is_active job fence jobs j e = ground (arith, find_passes (failable job fence) jobs j e)

snoozable-is_active :
    (job : ℕ) (fence : Option ℕ) (jobs : List Job) (j : Job)
    → find (snoozable job fence) jobs ≡ some j
    → is_active j.status ≡ true
unfolding snoozable
snoozable-is_active job fence jobs j e = ground (arith, find_passes (snoozable job fence) jobs j e)

fail_row-is_active :
    (draw : ℕ → ℕ) (now : ℕ) (permanent : Bool) (rp : Policy) (j : Job)
    → is_active (fail_row draw now permanent rp j).status ≡ false
unfolding fail_row
fail_row-is_active draw now permanent rp j = ground arith

failure_of-IsCovered :
    (draw : ℕ → ℕ) (now job : ℕ) (fence : Option ℕ) (f : Failure) (j : Job) (rp : Option Policy)
    (db : Db) (limit reserved : ℕ → ℕ → ℕ)
    → find (failable job fence) db.jobs ≡ some j
    → IsCovered limit reserved db
    → IsCovered limit reserved (failure_of draw now job fence f j rp db).1
unfolding failure_of retried buried
failure_of-IsCovered draw now job fence f j none db limit reserved e c = c
failure_of-IsCovered draw now job fence f j (some rp) db limit reserved e c = λ q s.
    let freed =
      active-modify-release (failable job fence) (fail_row draw now f.permanent rp) j db.jobs e
        (failable-is_active job fence db.jobs j e) (fail_row-is_active draw now f.permanent rp j) q
        s (limit q s) (reserved q s) db.shards (c q s) in
    elim (Bool-cases (exhausted f.permanent rp j)) [
      | inl over ↦ rw over (rw active-cancel_descendants freed)
      | inr left ↦ rw left freed
    ]

-- report_failure keeps the counters covering, whether it retries the job or buries it.
pub report_failure-IsCovered :
    (draw : ℕ → ℕ) (now job : ℕ) (fence : Option ℕ) (f : Failure) (db : Db)
    (limit reserved : ℕ → ℕ → ℕ)
    → IsCovered limit reserved db
    → IsCovered limit reserved (report_failure draw now job fence f db).1
unfolding report_failure
report_failure-IsCovered draw now job fence f db limit reserved c =
    elim (Option-cases (find (failable job fence) db.jobs)) [
      | inl e ↦ rw (e, failure_found) c
      | inr (j, e) ↦
          rw (e, failure_found)
            (failure_of-IsCovered draw now job fence f j _ db limit reserved e c)
    ]

snooze_of-IsCovered :
    (now job : ℕ) (fence : Option ℕ) (exec delay : ℕ) (j : Job) (rp : Option Policy) (db : Db)
    (limit reserved : ℕ → ℕ → ℕ)
    → find (snoozable job fence) db.jobs ≡ some j
    → IsCovered limit reserved db
    → IsCovered limit reserved (snooze_of now job fence exec delay j rp db).1
unfolding snooze_of
snooze_of-IsCovered now job fence exec delay j none db limit reserved e c = c
snooze_of-IsCovered now job fence exec delay j (some rp) db limit reserved e c =
    elim (Bool-cases (ltb j.snooze_count rp.max_attempts)) [
      | inl few ↦ rw few λ q s.
          active-modify-release (snoozable job fence) (snooze_row now delay rp) j db.jobs e
            (snoozable-is_active job fence db.jobs j e) (unfold snooze_row in refl) q s (limit q s)
            (reserved q s) db.shards (c q s)
      | inr many ↦ rw many c
    ]

-- report_snooze keeps the counters covering.
pub report_snooze-IsCovered :
    (now job : ℕ) (fence : Option ℕ) (exec delay : ℕ) (db : Db) (limit reserved : ℕ → ℕ → ℕ)
    → IsCovered limit reserved db
    → IsCovered limit reserved (report_snooze now job fence exec delay db).1
unfolding report_snooze
report_snooze-IsCovered now job fence exec delay db limit reserved c =
    elim (Option-cases (find (snoozable job fence) db.jobs)) [
      | inl e ↦ rw (e, snooze_found) c
      | inr (j, e) ↦
          rw (e, snooze_found)
            (snooze_of-IsCovered now job fence exec delay j _ db limit reserved e c)
    ]
