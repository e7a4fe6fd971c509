-- ===== src/Examples/ArchiverExamples.antt =====
-- The theorems on the archiver and the counters, applied.
use job_scheduling.Base.{
  ℕ, ◌+◌, ◌≡◌, ◌≢◌, ◌↔◌, refl, true, false, none, some, [], arith, count, map, ◌∷◌, All, find,
}
use job_scheduling.Jobs.Slots.{active, reconcile_in_flight}
use job_scheduling.Jobs.Slots.Reconciled.{exact_row, is_off, reconcile_in_flight_lem}
use job_scheduling.Jobs.Claim.{has_id}
use job_scheduling.Jobs.Lease.{
  value, is_fenced, is_live, is_cancelled, is_timeout, past_deadline, probe,
}
use job_scheduling.Jobs.Verdicts.{IsOver, held_under, probe_lem}
use job_scheduling.Archiver.{Archive, Round, archive, drain}
use job_scheduling.Archiver.Moved.{Conserved, archive_lem, drain_ends}
use job_scheduling.Examples.Data.{database, running_job}

abbrev empty_archive : Archive
empty_archive = record { jobs = []; executions = []; dead_letters = [] }

archive_lem_example :
    Conserved database empty_archive
      (archive none 100 10 1000 (λ i. false) 5 database empty_archive)
archive_lem_example = archive_lem none 100 10 1000 (λ i. false) 5 database empty_archive

abbrev rounds : ℕ → Round
rounds i = record { now = 100 + i; fault = none }

drain_ends_example : drain 10 1000 1 rounds 4 0 database empty_archive ≢ none
drain_ends_example =
    drain_ends 10 1000 1 rounds 4 0 database empty_archive (omega arith) (omega arith)

reconcile_in_flight_lem_example :
    let (db', fixed) = reconcile_in_flight database in
    (db' ≡ record database { shards = map (exact_row database.jobs) database.shards })
    × All (λ r. r.in_flight ≡ active r.queue r.shard database.jobs) db'.shards
    × (fixed ≡ count (is_off database.jobs) database.shards)
    × (reconcile_in_flight db' ≡ (db', 0))
reconcile_in_flight_lem_example = reconcile_in_flight_lem database

found_job : find (has_id 8) database.jobs ≡ some running_job
unfolding find
found_job = refl

probe_lem_example :
    let (answer, db') = probe none 60 8 3 9 database in
    ((answer ≡ value is_live) ↔ ((running_job.fence ≡ 3) × (true ≡ true)))
    × ((answer ≡ value is_cancelled) ↔ (IsOver 3 running_job × (false ≡ true)))
    × ((answer ≡ value is_timeout) ↔ (
        IsOver 3 running_job × (false ≡ false) × (past_deadline 60 running_job.deadline_at ≡ true)))
    × ((answer ≡ value is_fenced) ↔ (
        (running_job.fence ≡ 3)
        → (true ≡ false) × (false ≡ false) × (past_deadline 60 running_job.deadline_at ≡ false)))
    × (answer ≡ value is_fenced
        → db' ≡ record database { violations = held_under 8 3 9 running_job ∷ database.violations })
    × (answer ≢ value is_fenced → db' ≡ database)
probe_lem_example = probe_lem 60 8 3 9 running_job database found_job
