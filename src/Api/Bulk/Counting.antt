-- ===== src/Api/Bulk/Counting.antt =====
-- The progress of a batch (getBatch of internal/api/batches.go).
use job_scheduling.Base.{
  ℕ, ◌+◌, ◌≡◌, ◌∙◌, refl, Bool, true, false, ◌&&◌, List, [], ◌∷◌, arith, if◌then◌else◌, count, to_ℕ,
}
use job_scheduling.Store.{
  Job, Status, scheduled, queued, claimed, running, completed, retry_wait, dead_letter, cancelled,
  is_terminal, same_status,
}
use job_scheduling.Api.Bulk.{in_batch, with_status, all_statuses, status_counts, tally}

abbrev pub ended_in : ℕ → Job → Bool
ended_in batch j = in_batch batch j && is_terminal j.status

abbrev sum_of : ℕ → List Status → List Job → ℕ
sum_of batch [] jobs = 0
sum_of batch (s ∷ ss) jobs = count (with_status batch s) jobs + sum_of batch ss jobs

abbrev ended_sum_of : ℕ → List Status → List Job → ℕ
ended_sum_of batch [] jobs = 0
ended_sum_of batch (s ∷ ss) jobs =
    (if is_terminal s then count (with_status batch s) jobs else 0) + ended_sum_of batch ss jobs

tally-status_counts :
    (batch : ℕ) (ss : List Status) (jobs : List Job)
    → ((tally (status_counts batch ss jobs)).0 ≡ sum_of batch ss jobs)
      × ((tally (status_counts batch ss jobs)).1 ≡ ended_sum_of batch ss jobs)
unfolding tally status_counts
tally-status_counts batch [] jobs = (refl, refl)
tally-status_counts batch (s ∷ ss) jobs =
    let (total, ended) = tally-status_counts batch ss jobs in (ground arith, ground arith)

abbrev hits : Bool → Status → Status → ℕ
hits b s t = to_ℕ (b && same_status s t)

-- A job has one of the statuses.
one_hit :
    (b : Bool) (s : Status)
    → hits b s scheduled
        + hits b s queued
        + hits b s claimed
        + hits b s running
        + hits b s completed
        + hits b s retry_wait
        + hits b s dead_letter
        + hits b s cancelled
      ≡ to_ℕ b
one_hit true scheduled = refl
one_hit true queued = refl
one_hit true claimed = refl
one_hit true running = refl
one_hit true completed = refl
one_hit true retry_wait = refl
one_hit true dead_letter = refl
one_hit true cancelled = refl
one_hit false s = refl

ended_hit :
    (b : Bool) (s : Status)
    → hits b s completed + hits b s dead_letter + hits b s cancelled ≡ to_ℕ (b && is_terminal s)
ended_hit true scheduled = refl
ended_hit true queued = refl
ended_hit true claimed = refl
ended_hit true running = refl
ended_hit true completed = refl
ended_hit true retry_wait = refl
ended_hit true dead_letter = refl
ended_hit true cancelled = refl
ended_hit false s = refl

one_status :
    (batch : ℕ) (jobs : List Job)
    → (sum_of batch all_statuses jobs ≡ count (in_batch batch) jobs)
      × (ended_sum_of batch all_statuses jobs ≡ count (ended_in batch) jobs)
unfolding count
one_status batch [] = (refl, refl)
one_status batch (j ∷ jobs) =
    let (total, ended) = one_status batch jobs in
    (
      omega (arith, total, one_hit (in_batch batch j) j.status),
      omega (arith, ended, ended_hit (in_batch batch j) j.status),
    )

-- The loop over the rows of the query counts the jobs of the batch, and those of them that ended.
pub tally_lem :
    (batch : ℕ) (jobs : List Job)
    → ((tally (status_counts batch all_statuses jobs)).0 ≡ count (in_batch batch) jobs)
      × ((tally (status_counts batch all_statuses jobs)).1 ≡ count (ended_in batch) jobs)
tally_lem batch jobs =
    let (total, ended) = tally-status_counts batch all_statuses jobs in
    let (total', ended') = one_status batch jobs in (total ∙ total', ended ∙ ended')
