-- ===== src/System/Steps.antt =====
-- Any interleaving of the processes' transactions keeps every shard within its cap. A claim's
-- reservation, between its two transactions, is part of the state.
use job_scheduling.Base.{ℕ, ◌≡◌, Bool, Option, List}
use job_scheduling.Store.{Queue, Schedule, Db, DbError}
use job_scheduling.Jobs.Slots.{queue_release}
use job_scheduling.Jobs.Slots.Reports.{IsCovered}
use job_scheduling.Jobs.Slots.Claims.{reserve, IsConfigured}
use job_scheduling.Jobs.Admit.{queue_admit}
use job_scheduling.Jobs.Claim.{ClaimRequest, take_jobs}
use job_scheduling.Jobs.Start.{start}
use job_scheduling.Jobs.Success.{report_success}
use job_scheduling.Jobs.Batch.{Done, report_success_batch}
use job_scheduling.Jobs.Failure.{Failure, report_failure}
use job_scheduling.Jobs.Snooze.{report_snooze}
use job_scheduling.Scheduler.Promote.{promote, age}
use job_scheduling.Scheduler.Cron.{fire}
use job_scheduling.Api.Cancel.{cancel_job, retry_job}
use job_scheduling.Api.Replay.{replay_job, replay_dead}
use job_scheduling.Api.Problem.{done}
use job_scheduling.Api.Submit.{Libraries, SubmitReq, Call, Submitted, submit_job}
use job_scheduling.Api.Bulk.{BatchView, submit_batch}

-- The database with the slots that admitted claims have yet to use, for each queue and shard.
pub record World : Type 0 where
  pub db : Db
  pub reserved : ℕ → ℕ → ℕ

-- The same reservations in `w` as in `w'`, and `n` more of one shard.
abbrev pub HasMore : World → ℕ → ℕ → ℕ → World → Type 0
HasMore w q sh n w' = (q' s' : ℕ) → w.reserved q' s' ≡ reserve q sh n w'.reserved q' s'

abbrev pub SameReserved : World → World → Type 0
SameReserved w w' = (q s : ℕ) → w'.reserved q s ≡ w.reserved q s

-- One transaction. The configuration of the queues is that of `limit` throughout.
pub data Step (limit : ℕ → ℕ → ℕ) (w w' : World) : Type 0 where
  admits :
      (now rot q want : ℕ)
      → IsConfigured limit w.db
      → w'.db ≡ (queue_admit now rot q want w.db).2
      → HasMore w' q (queue_admit now rot q want w.db).1 (queue_admit now rot q want w.db).0 w
      → Step limit w w'
  takes :
      (now : ℕ) (locked : ℕ → Bool) (req : ClaimRequest) (sh n : ℕ)
      → HasMore w req.queue sh n w'
      → w'.db ≡ (take_jobs now locked req sh n w.db).1
      → Step limit w w'
  gives_back :
      (q sh n : ℕ)
      → HasMore w q sh n w'
      → w'.db ≡ record w.db { shards = queue_release q sh n w.db.shards }
      → Step limit w w'
  forgets : (q sh n : ℕ) → HasMore w q sh n w' → w'.db ≡ w.db → Step limit w w'
  starts :
      (fault : Option DbError) (now exec job fence worker : ℕ)
      → SameReserved w w'
      → w'.db ≡ (start fault now exec job fence worker w.db).1
      → Step limit w w'
  succeeds :
      (now job fence exec : ℕ)
      → SameReserved w w'
      → w'.db ≡ (report_success now job fence exec w.db).1
      → Step limit w w'
  succeeds_batch :
      (now : ℕ) (ds : List Done)
      → SameReserved w w'
      → w'.db ≡ (report_success_batch now ds w.db).1
      → Step limit w w'
  fails :
      (draw : ℕ → ℕ) (now job : ℕ) (fence : Option ℕ) (f : Failure)
      → SameReserved w w'
      → w'.db ≡ (report_failure draw now job fence f w.db).1
      → Step limit w w'
  snoozes :
      (now job : ℕ) (fence : Option ℕ) (exec delay : ℕ)
      → SameReserved w w'
      → w'.db ≡ (report_snooze now job fence exec delay w.db).1
      → Step limit w w'
  promotes :
      (fault : Option DbError) (now : ℕ) (locked : ℕ → Bool) (n : ℕ)
      → SameReserved w w'
      → w'.db ≡ (promote fault now locked n w.db).1
      → Step limit w w'
  ages :
      (fault : Option DbError) (now older_than ceiling n : ℕ)
      → SameReserved w w'
      → w'.db ≡ (age fault now older_than ceiling n w.db).1
      → Step limit w w'
  fires :
      (next : Schedule → ℕ → Option ℕ) (now fresh : ℕ) (d : Schedule) (o : Option Queue)
      → SameReserved w w'
      → w'.db ≡ (fire next now fresh d o w.db).1
      → Step limit w w'
  cancels : (now id : ℕ) → SameReserved w w' → w'.db ≡ (cancel_job now id w.db).1 → Step limit w w'
  retries : (now id : ℕ) → SameReserved w w' → w'.db ≡ (retry_job now id w.db).1 → Step limit w w'
  replays :
      (now actor id : ℕ)
      → SameReserved w w'
      → w'.db ≡ (replay_job now actor id w.db).1
      → Step limit w w'
  replays_bulk :
      (now actor q most per_sec : ℕ)
      → SameReserved w w'
      → w'.db ≡ (replay_dead now actor q most per_sec w.db).1
      → Step limit w w'
  submits :
      (lib : Libraries) (req : SubmitReq) (call : Call) (out : Submitted) (db : Db)
      → SameReserved w w'
      → submit_job lib req call w.db ≡ done (out, db)
      → w'.db ≡ db
      → Step limit w w'
  submits_batch :
      (lib : Libraries) (fresh : ℕ → ℕ) (batch : ℕ) (reqs : List SubmitReq) (call : Call)
      (view : BatchView) (seen db : Db)
      → SameReserved w w'
      → submit_batch lib fresh batch reqs call seen w.db ≡ done (view, db)
      → w'.db ≡ db
      → Step limit w w'

pub data Reach (limit : ℕ → ℕ → ℕ) (w : World) : World → Type 0 where
  here : Reach limit w w
  next : {u v : World} → Reach limit w u → Step limit u v → Reach limit w v

abbrev pub IsSafe : (ℕ → ℕ → ℕ) → World → Type 0
IsSafe limit w = IsCovered limit w.reserved w.db
