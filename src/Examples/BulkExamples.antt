-- ===== src/Examples/BulkExamples.antt =====
-- The theorem on batches of internal/api, applied.
use job_scheduling.Base.{
  ℕ, ◌+◌, ◌≤◌, ◌≡◌, refl, true, false, none, some, List, [], ◌∷◌, ◌++◌, find, count, exists,
}
use job_scheduling.Store.{Job, Queue, Db, EventPayload, batch_submitted}
use job_scheduling.Jobs.Admit.{is_queue}
use job_scheduling.Jobs.Start.{event}
use job_scheduling.Api.Problem.{done, ◌>>=◌}
use job_scheduling.Api.Submit.{SubmitReq, Libraries, Call, Draft, depth_of}
use job_scheduling.Api.Bulk.{submit_batch, BatchView, batch_jobs}
use job_scheduling.Api.Bulk.Starting.{Started}
use job_scheduling.Api.Bulk.Submitting.{IsSubmitted, WithinCap, submit_batch_lem}
use job_scheduling.Examples.Data.{database}

abbrev libraries : Libraries
libraries = record {
  trim = λ s. s;
  json_valid = λ s. true;
  parse_uuid = λ s. none;
  fingerprint = λ k p a b c d. k;
}

abbrev mail : SubmitReq
mail = record {
  kind = "mail";
  payload = "";
  priority = none;
  run_at = none;
  timeout_ms = none;
  retry_policy = none;
  depends_on = [];
}

abbrev mail_later : SubmitReq
mail_later = record mail { run_at = some 90; priority = some 7 }

abbrev call : Call
call = record { queue = 1; project = 1; key = ""; now = 50; fresh = 0; raced = false }

abbrev requests : List SubmitReq
requests = mail ∷ mail_later ∷ []

abbrev drafted : SubmitReq → ℕ → Draft
drafted r priority = record {
  kind = "mail";
  payload = "{}";
  priority = priority;
  timeout_ms = 300000;
  policy = 3;
  run_at = r.run_at;
}

abbrev rows : List Job
rows = batch_jobs (λ i. i + 20) call 5 0 (drafted mail 5 ∷ drafted mail_later 7 ∷ [])

abbrev submitted_db : Db
submitted_db = record database {
  jobs = rows ++ database.jobs;
  events = database.events ++ event batch_submitted 5 1 (EventPayload.count_is 2) ∷ [];
}

abbrev view : BatchView
view = record { batch = 5; count = 2; jobs = 20 ∷ 21 ∷ [] }

submitted :
    submit_batch libraries (λ i. i + 20) 5 requests call database database
    ≡ done (view, submitted_db)
unfolding submit_batch ◌>>=◌ find exists
submitted = refl

submit_batch_lem_example :
    (qr : Queue) × (rows : List Job) × (find (is_queue 1) database.queues ≡ some qr)
    × (1 ≤ 2)
    × (2 ≤ 1000)
    × IsSubmitted 5 call qr 2 rows view database submitted_db
    × WithinCap qr.max_depth
        (depth_of 1 database.jobs)
        (depth_of 1 database.jobs)
        (depth_of 1 submitted_db.jobs)
    × Started 5 2 submitted_db
unfolding count
submit_batch_lem_example =
    submit_batch_lem libraries (λ i. i + 20) 5 requests call database database view submitted_db
      refl submitted
