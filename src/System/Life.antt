-- ===== src/System/Life.antt =====
-- The life of one row of jobs: each change that a statement makes passes the trigger jobs_fsm, and
-- keeps the row's constraints.
use job_scheduling.Base.{ℕ, ltb, ◌≤◌, ◌≡◌, refl, Bool, true, false, ◌&&◌, Option, List, arith}
use job_scheduling.Store.{
  Job, Policy, is_claimed, is_terminal, implies, legal_transition, same_status, row_check, jobs_fsm,
  completed, Dependency,
}
use job_scheduling.Jobs.Start.{startable, start_row}
use job_scheduling.Jobs.Claim.{ClaimRequest, claimable, claim_row, is_candidate}
use job_scheduling.Jobs.Success.{completable, complete_row}
use job_scheduling.Jobs.Failure.{failable, fail_row}
use job_scheduling.Jobs.Snooze.{snoozable, snooze_row}
use job_scheduling.Jobs.Deps.{waits_on, unblock, is_doomed, cancel_row}
use job_scheduling.Scheduler.Promote.{promotable, promote_row, is_due, age_row}
use job_scheduling.Api.Cancel.{cancelled_row, retriable, retry_row}
use job_scheduling.Api.Replay.{replayable, replay_row}

-- The constraints on a row, and that a claimed job has an attempt left under its fence.
unfoldable pub well_formed : Job → Bool
unfolding row_check
well_formed j = row_check j && implies (is_claimed j.status) (ltb j.attempt_count j.fence)

-- The database lets this update of a row pass.
abbrev pub Accepted : Job → Job → Type 0
Accepted old new =
    (new.id ≡ old.id)
    × (jobs_fsm old new ≡ true)
    × (well_formed old ≡ true → well_formed new ≡ true)

pub Accepted-refl : (j : Job) → Accepted j j
unfolding jobs_fsm
Accepted-refl j = (refl, ground arith, λ h. h)

pub start-Accepted :
    (now job fence : ℕ) (j : Job) → startable job fence j ≡ true → Accepted j (start_row now j)
unfolding startable start_row jobs_fsm legal_transition well_formed row_check
start-Accepted now job fence j h = (refl, ground arith, λ w. ground arith)

pub claim-Accepted :
    (now : ℕ) (locked : ℕ → Bool) (req : ClaimRequest) (sh i : ℕ) (j : Job)
    → claimable now locked req i j ≡ true
    → Accepted j (claim_row now req sh j)
unfolding claimable is_candidate claim_row jobs_fsm legal_transition well_formed row_check
claim-Accepted now locked req sh i j h = (refl, ground arith, λ w. ground arith)

pub complete-Accepted :
    (now job fence : ℕ) (j : Job) → completable job fence j ≡ true → Accepted j (complete_row now j)
unfolding completable complete_row jobs_fsm legal_transition well_formed row_check
complete-Accepted now job fence j h = (refl, ground arith, λ w. ground arith)

pub fail-Accepted :
    (draw : ℕ → ℕ) (now job : ℕ) (fence : Option ℕ) (permanent : Bool) (rp : Policy) (j : Job)
    → failable job fence j ≡ true
    → Accepted j (fail_row draw now permanent rp j)
unfolding failable fail_row jobs_fsm legal_transition well_formed row_check
fail-Accepted draw now job fence permanent rp j h = (ground arith, ground arith, λ w. ground arith)

pub snooze-Accepted :
    (now job delay : ℕ) (fence : Option ℕ) (rp : Policy) (j : Job)
    → snoozable job fence j ≡ true
    → Accepted j (snooze_row now delay rp j)
unfolding snoozable snooze_row jobs_fsm legal_transition well_formed row_check
snooze-Accepted now job delay fence rp j h = (refl, ground arith, λ w. ground arith)

pub unblock-Accepted :
    (now parent : ℕ) (deps : List Dependency) (j : Job)
    → waits_on parent deps j ≡ true
    → Accepted j (unblock now j)
unfolding waits_on unblock jobs_fsm legal_transition well_formed row_check
unblock-Accepted now parent deps j h = (refl, ground arith, λ w. ground arith)

pub cancel_row-Accepted :
    (now root : ℕ) (deps : List Dependency) (j : Job)
    → is_doomed root deps j ≡ true
    → Accepted j (cancel_row now j)
unfolding is_doomed cancel_row jobs_fsm legal_transition well_formed row_check
cancel_row-Accepted now root deps j h = (refl, ground arith, λ w. ground arith)

pub promote-Accepted :
    (now : ℕ) (locked : ℕ → Bool) (ids : List ℕ) (j : Job)
    → promotable now locked ids j ≡ true
    → Accepted j (promote_row j)
unfolding promotable is_due jobs_fsm legal_transition well_formed row_check
promote-Accepted now locked ids j h = (refl, ground arith, λ w. ground arith)

pub age-Accepted : (j : Job) → Accepted j (age_row j)
unfolding jobs_fsm well_formed row_check
age-Accepted j = (refl, ground arith, λ w. w)

pub cancelled-Accepted :
    (now : ℕ) (j : Job)
    → is_terminal j.status ≡ false
    → row_check (cancelled_row now j) ≡ true
    → Accepted j (cancelled_row now j)
unfolding cancelled_row jobs_fsm legal_transition well_formed
cancelled-Accepted now j h c = (refl, ground arith, λ w. ground arith)

pub retry-Accepted : (now id : ℕ) (j : Job) → retriable id j ≡ true → Accepted j (retry_row now j)
unfolding retriable retry_row jobs_fsm legal_transition well_formed row_check
retry-Accepted now id j h = (refl, ground arith, λ w. ground arith)

pub replay-Accepted : (at id : ℕ) (j : Job) → replayable id j ≡ true → Accepted j (replay_row at j)
unfolding replayable replay_row jobs_fsm legal_transition well_formed row_check
replay-Accepted at id j h = (refl, ground arith, λ w. ground arith)

-- What becomes of a row by accepted updates.
pub data Life : Job → Job → Type 0 where
  unchanged : {j : Job} → Life j j
  updated : {j k l : Job} → Life j k → Accepted k l → Life j l

pub Life-trans : (j k l : Job) → Life j k → Life k l → Life j l
Life-trans j k l a unchanged = a
Life-trans j k l a (updated b h) = updated (Life-trans j _ _ a b) h

-- A completed row never leaves that state, and no fence goes back.
pub Life-fence : (j k : Job) → Life j k → j.fence ≤ k.fence
unfolding jobs_fsm
Life-fence j k unchanged = omega arith
Life-fence j k (updated b h) = ground (arith, Life-fence j _ b, h.1)

pub Life-id : (j k : Job) → Life j k → k.id ≡ j.id
Life-id j k unchanged = refl
Life-id j k (updated b h) = omega (arith, h.0, Life-id j _ b)

pub Life-well_formed : (j k : Job) → Life j k → well_formed j ≡ true → well_formed k ≡ true
Life-well_formed j k unchanged w = w
Life-well_formed j k (updated b h) w = h.2 (Life-well_formed j _ b w)

pub Life-completed :
    (j k : Job)
    → Life j k
    → same_status j.status completed ≡ true
    → same_status k.status completed ≡ true
unfolding jobs_fsm legal_transition
Life-completed j k unchanged w = w
Life-completed j k (updated b h) w =
    let before = Life-completed j _ b w in ground (arith, h.1, before)
