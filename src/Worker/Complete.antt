-- ===== src/Worker/Complete.antt =====
-- internal/worker/complete.go: finished jobs are completed in batches.
use job_scheduling.Base.{ℕ, Option, List, [], ◌∷◌, ◌++◌, if◌then◌else◌, length, leb, ltb, map, elem}
use job_scheduling.Store.{Db, DbError}
use job_scheduling.Jobs.Batch.{Done, complete_batch}
use job_scheduling.Jobs.Lease.{Answer, value, error}
use job_scheduling.Worker.Retry.{Attempt, answer_settled, met, retry, report_attempts}
use job_scheduling.Worker.Run.{Finished, probe_job}

abbrev pub done_of : Finished → Done
done_of f = record { job = f.claimed.id; fence = f.claimed.fence; exec = f.exec }

-- How a flush meets the world: its attempts, and its probes.
pub record Flush : Type 0 where
  pub meets : ℕ → Attempt
  pub now : ℕ
  pub probe_fault : ℕ → Option DbError
  pub close_fault : ℕ → Option DbError
  pub worker : ℕ

-- The probes of the jobs that were not completed.
unfoldable pub probe_rest : Flush → List ℕ → List Finished → Db → Db
unfolding probe_job
probe_rest w done [] db = db
probe_rest w done (f ∷ fs) db =
    let i = f.claimed.id in
    let db' =
      if elem i done
      then db
      else probe_job w.now (w.probe_fault i) (w.close_fault i) w.worker f.claimed f.exec db in
    probe_rest w done fs db'

unfoldable pub after_complete : Flush → List Finished → Answer (List ℕ) × Db → Db
unfolding probe_rest
after_complete w buf (error e, db) = db
after_complete w buf (value done, db) =
    if ltb (length done) (length buf) then probe_rest w done buf db else db

-- flush: the buffer is empty afterwards.
unfoldable pub flush : Flush → List Finished → Db → Db
unfolding after_complete retry met answer_settled complete_batch
flush w [] db = db
flush w (f ∷ fs) db =
    let batch = map done_of (f ∷ fs) in
    after_complete w (f ∷ fs) (
      retry answer_settled w.meets (λ a. met a.fault a.took λ f. complete_batch f a.now batch)
        report_attempts 0 (value []) db)

-- What the loop's select takes up: a finished job, or the ticker. The channel's end is the end of
-- the list.
pub data Signal : Type 0 where
  got : Finished → Signal
  tick : Signal

-- completeLoop: the batches that it flushes, in order; `most` is cfg.CompleteBatch.
unfoldable pub complete_loop : ℕ → List Finished → List Signal → List (List Finished)
complete_loop most buf [] = buf ∷ []
complete_loop most buf (tick ∷ ss) = buf ∷ complete_loop most [] ss
complete_loop most buf (got f ∷ ss) =
    let buf' = buf ++ f ∷ [] in
    let kept = complete_loop most buf' ss in
    let sent = complete_loop most [] ss in if leb most (length buf') then buf' ∷ sent else kept
