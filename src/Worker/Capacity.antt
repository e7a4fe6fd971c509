-- ===== src/Worker/Capacity.antt =====
-- A worker takes on no more than it can run (internal/worker/worker.go).
use job_scheduling.Base.{
  ℕ, ◌+◌, ◌-◌, ◌≤◌, ◌<◌, Bool, Option, none, some, List, [], ◌∷◌, length, ltb, ◌==◌, arith, find,
  Bool-cases, Option-cases, inl, inr, if_elim,
}
use job_scheduling.Store.{Db, DbError, Queue, Reply, ok}
use job_scheduling.Jobs.Admit.{queue_admit, is_queue, admit_found}
use job_scheduling.Jobs.Admission.{admissible, admission_within_breaker}
use job_scheduling.Jobs.Claim.{
  Claimed, ClaimRequest, ClaimFaults, claim, claim_granted, take_granted,
}
use job_scheduling.Jobs.Slots.Claims.{claim-le}
use job_scheduling.Worker.Poll.{
  Config, Poll, request_of, started, poll_round, Moment, polls, ends, others, run_worker,
}

-- The breaker's probe is the only slot that is granted unasked for.
admissible-le : (now want : ℕ) (qr : Queue) → 0 < want → admissible now want qr ≤ want
unfolding admissible
admissible-le now want qr pos = ground arith

queue_admit-le :
    (now rot q want : ℕ) (db : Db) → 0 < want → (queue_admit now rot q want db).0 ≤ want
queue_admit-le now rot q want db pos = elim (Option-cases (find (is_queue q) db.queues)) [
  | inl e ↦ unfold queue_admit admit_found in rw (e, admit_found) (omega arith)
  | inr (qr, e) ↦
      omega (arith, admission_within_breaker now rot q want qr db e, admissible-le now want qr pos)
]

take_granted-le :
    (now : ℕ) (locked : ℕ → Bool) (req : ClaimRequest) (give take : Option DbError) (n sh : ℕ)
    (db : Db)
    → length (started (take_granted now locked req give take n sh db)).0 ≤ n
unfolding take_granted
take_granted-le now locked req give none n sh db = claim-le now locked req sh n db
take_granted-le now locked req give (some e) n sh db = omega arith

claim_granted-le :
    (now : ℕ) (locked : ℕ → Bool) (req : ClaimRequest) (faults : ClaimFaults) (r : ℕ × ℕ × Db)
    → length (started (claim_granted now locked req faults r)).0 ≤ r.0
unfolding claim_granted
claim_granted-le now locked req faults (n, sh, db) =
    if_elim (λ (x : Reply (List Claimed) × Db). length (started x).0 ≤ n) (n == 0) (ok [], db) _
      (omega arith) (take_granted-le now locked req faults.give_fails faults.take_fails n sh db)

claim-few :
    (now rot : ℕ) (locked : ℕ → Bool) (req : ClaimRequest) (faults : ClaimFaults) (db : Db)
    → 0 < req.free_slots
    → length (started (claim now rot locked req faults db)).0 ≤ req.free_slots
unfolding claim
claim-few now rot locked req faults db pos = elim (Option-cases faults.admit_fails) [
  | inr (e, h) ↦ rw h (omega arith)
  | inl h ↦ rw h (
      omega (
        arith,
        claim_granted-le now locked req faults (queue_admit now rot req.queue req.free_slots db),
        queue_admit-le now rot req.queue req.free_slots db pos,
      ))
]

poll_round-le :
    (cfg : Config) (p : Poll) (active : ℕ) (db : Db)
    → active ≤ cfg.concurrency
    → active + length (poll_round cfg p active db).0 ≤ cfg.concurrency
unfolding poll_round
poll_round-le cfg p active db h = elim (Bool-cases (ltb 0 (cfg.concurrency - active))) [
  | inr full ↦ rw full (omega arith)
  | inl free ↦ rw free (
      omega (
        arith,
        claim-few p.now p.rot p.locked (request_of cfg (cfg.concurrency - active)) p.faults db
            (ground arith),
      ))
]

-- A worker never runs more jobs at a time than its concurrency, however its rounds, the ends of its
-- jobs, the failures of its claims and the other processes follow each other.
pub worker_within_capacity :
    (cfg : Config) (ms : List Moment) (active : ℕ) (db : Db)
    → active ≤ cfg.concurrency
    → (run_worker cfg ms (active, db)).0 ≤ cfg.concurrency
unfolding run_worker
worker_within_capacity cfg [] active db h = h
worker_within_capacity cfg (polls p ∷ ms) active db h =
    worker_within_capacity cfg ms _ _ (poll_round-le cfg p active db h)
worker_within_capacity cfg (ends ∷ ms) active db h = worker_within_capacity cfg ms _ _ (omega arith)
worker_within_capacity cfg (others db' ∷ ms) active db h =
    worker_within_capacity cfg ms active db' h
