-- ===== src/Api/Bulk.antt =====
-- Batches: submitBatch of internal/api/jobs.go, and getBatch of batches.go.
pub mod Counting
pub mod Starting
pub mod Submitting
use job_scheduling.Base.{
  ℕ, suc, ◌+◌, Bool, true, false, not, ◌&&◌, ◌||◌, Option, none, some, List, [], ◌∷◌, ◌++◌, String,
  ltb, leb, ◌==◌, if◌then◌else◌, find, count, length, map, exists,
}
use job_scheduling.Store.{
  Job, Queue, Db, Status, scheduled, queued, claimed, running, completed, retry_wait, dead_letter,
  cancelled, is_terminal, is_queued, same_status, check_violation, EventPayload, batch_submitted,
}
use job_scheduling.Jobs.Admit.{is_queue}
use job_scheduling.Jobs.Start.{event}
use job_scheduling.Scheduler.Cron.{same_id}
use job_scheduling.Api.Problem.{
  ApiReply, done, refused, bad_request, too_many, not_found, database, no_rows, ◌>>=◌, ◌>>◌,
  require,
}
use job_scheduling.Api.Submit.{
  SubmitReq, Libraries, Call, Draft, new_job, or_else, expect, is_empty, depth_of,
}

-- A job of the batch as the loop reads it.
unfoldable pub read_item : Libraries → ℕ → ℕ → SubmitReq → ApiReply Draft
read_item lib policy priority req = do
  let kind = lib.trim req.kind
  require (not (is_empty kind)) (bad_request "each job requires a type")
  let payload = if is_empty req.payload then "{}" else req.payload
  require (lib.json_valid payload) (bad_request "a job payload is not valid json")
  done (record {
    kind = kind;
    payload = payload;
    priority = or_else req.priority priority;
    timeout_ms = or_else req.timeout_ms 300000;
    policy = policy;
    run_at = req.run_at;
  })

-- The loop of submitBatch.
unfoldable pub read_items : Libraries → ℕ → ℕ → List SubmitReq → ApiReply (List Draft)
unfolding read_item
read_items lib policy priority [] = done []
read_items lib policy priority (req ∷ reqs) = read_item lib policy priority req >>= λ d.
    read_items lib policy priority reqs >>= λ ds. done (d ∷ ds)

-- Every job of a batch counts against the cap, also one for later.
unfoldable pub check_batch_depth : Option ℕ → ℕ → ℕ → Db → ApiReply (Unit {0})
check_batch_depth none n q db = done tt
check_batch_depth (some most) n q db =
    require (leb (depth_of q db.jobs + n) most) (too_many "queue depth cap reached" 1)

-- insertBatchSQL: a row, under the `i`-th id that Postgres makes.
unfoldable pub batch_job : (ℕ → ℕ) → Call → ℕ → ℕ → Draft → Job
unfolding new_job
batch_job fresh call batch i d = record (new_job d call 0) { id = fresh i; batch = some batch }

unfoldable pub batch_jobs : (ℕ → ℕ) → Call → ℕ → ℕ → List Draft → List Job
unfolding batch_job
batch_jobs fresh call batch i [] = []
batch_jobs fresh call batch i (d ∷ ds) =
    batch_job fresh call batch i d ∷ batch_jobs fresh call batch (suc i) ds

-- What the response says.
pub record BatchView : Type 0 where
  pub batch : ℕ
  pub count : ℕ
  pub jobs : List ℕ

-- submitBatch; `batch` is uuid.New(). The transaction is read committed and takes no lock on the
-- queue: `seen` is the database as the statement that counts the waiting jobs saw it, `db` the one
-- that the jobs are inserted into. Where it refuses, the transaction is rolled back.
unfoldable pub submit_batch :
    Libraries → (ℕ → ℕ) → ℕ → List SubmitReq → Call → Db → Db → ApiReply (BatchView × Db)
unfolding read_items check_batch_depth batch_jobs
submit_batch lib fresh batch reqs call seen db = do
  require (ltb 0 (length reqs)) (bad_request "jobs required")
  require (leb (length reqs) 1000) (bad_request "batch limited to 1000 jobs")
  qr ← expect (find (is_queue call.queue) db.queues) no_rows
  check_batch_depth qr.max_depth (length reqs) call.queue seen
  drafts ← read_items lib qr.policy qr.default_priority reqs
  let rows = batch_jobs fresh call batch 0 drafts
  require (not (exists (λ j. j.timeout_ms == 0) rows)) (database check_violation)
  done (
    record { batch = batch; count = length rows; jobs = map (λ j. j.id) rows },
    record db {
      jobs = rows ++ db.jobs;
      events =
          db.events
          ++ event batch_submitted batch call.project (EventPayload.count_is (length rows)) ∷ [];
    },
  )

abbrev pub in_batch : ℕ → Job → Bool
in_batch batch j = same_id j.batch batch

abbrev pub with_status : ℕ → Status → Job → Bool
with_status batch s j = in_batch batch j && same_status j.status s

abbrev pub all_statuses : List Status
all_statuses =
    scheduled ∷ queued ∷ claimed ∷ running ∷ completed ∷ retry_wait ∷ dead_letter ∷ cancelled ∷ []

-- batchCountsSQL: a row for each status that a job of the batch has.
unfoldable pub status_counts : ℕ → List Status → List Job → List (Status × ℕ)
status_counts batch [] jobs = []
status_counts batch (s ∷ ss) jobs =
    let n = count (with_status batch s) jobs in
    let rest = status_counts batch ss jobs in if n == 0 then rest else (s, n) ∷ rest

-- The loop of getBatch: `total` and `done`.
unfoldable pub tally : List (Status × ℕ) → ℕ × ℕ
tally [] = (0, 0)
tally ((s, n) ∷ rows) =
    let (total, ended) = tally rows in (total + n, if is_terminal s then ended + n else ended)

pub record BatchStatus : Type 0 where
  pub total : ℕ
  pub ended : ℕ  -- "done"
  pub complete : Bool
  pub counts : List (Status × ℕ)

unfoldable pub batch_view : List (Status × ℕ) → ℕ × ℕ → ApiReply BatchStatus
batch_view counts (total, ended) =
    if total == 0
    then refused (not_found "batch")
    else done (record { total = total; ended = ended; complete = ended == total; counts = counts })

-- getBatch.
unfoldable pub get_batch : ℕ → Db → ApiReply BatchStatus
unfolding status_counts tally batch_view
get_batch batch db =
    let counts = status_counts batch all_statuses db.jobs in batch_view counts (tally counts)
