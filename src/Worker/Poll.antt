-- ===== src/Worker/Poll.antt =====
-- The main loop of Run in internal/worker/worker.go: it claims for the slots it has free, and starts
-- each claimed job at once, in a goroutine that frees its slot when it is over.
use job_scheduling.Base.{ℕ, ◌+◌, ◌-◌, Bool, some, List, [], ◌∷◌, String, length, ltb, if◌then◌else◌}
use job_scheduling.Store.{Db, Reply, ok, fenced, failed}
use job_scheduling.Jobs.Claim.{Claimed, ClaimRequest, ClaimFaults, claim}

-- The part of Config that the loop reads.
pub record Config : Type 0 where
  pub queue : ℕ
  pub worker : ℕ
  pub concurrency : ℕ
  pub lease : ℕ
  pub types : List String

-- How one round of the loop meets the world.
pub record Poll : Type 0 where
  pub now : ℕ
  pub rot : ℕ
  pub locked : ℕ → Bool
  pub faults : ClaimFaults

abbrev pub request_of : Config → ℕ → ClaimRequest
request_of cfg free = record {
  queue = cfg.queue;
  worker = cfg.worker;
  free_slots = free;
  lease = cfg.lease;
  types = some cfg.types;
}

-- The jobs that a round starts, with the database after; a failed claim starts none.
abbrev pub started : Reply (List Claimed) × Db → List Claimed × Db
started (ok cs, db) = (cs, db)
started (fenced, db) = ([], db)
started (failed e, db) = ([], db)

unfoldable pub poll_round : Config → Poll → ℕ → Db → List Claimed × Db
unfolding claim
poll_round cfg p active db =
    let free = cfg.concurrency - active in
    if ltb 0 free
    then started (claim p.now p.rot p.locked (request_of cfg free) p.faults db)
    else ([], db)

-- What happens to a worker: a round of its loop, the end of one of its jobs, or a change that other
-- processes make to the database.
pub data Moment : Type 0 where
  polls : Poll → Moment
  ends : Moment
  others : Db → Moment

-- The number of jobs that run, with the database.
unfoldable pub run_worker : Config → List Moment → ℕ × Db → ℕ × Db
unfolding poll_round
run_worker cfg [] s = s
run_worker cfg (polls p ∷ ms) (active, db) =
    let (cs, db') = poll_round cfg p active db in run_worker cfg ms (active + length cs, db')
run_worker cfg (ends ∷ ms) (active, db) = run_worker cfg ms (active - 1, db)
run_worker cfg (others db' ∷ ms) (active, db) = run_worker cfg ms (active, db')
