-- ===== src/Jobs.antt =====
-- The transactions of internal/jobs: admission, claiming, leases and reports.
pub mod Slots
pub mod Admit
pub mod Claim
pub mod Deps
pub mod Start
pub mod Success
pub mod Failure
pub mod Snooze
pub mod Lease
pub mod Batch
pub mod Fencing
pub mod Retries
pub mod Admission
pub mod Handout
pub mod Verdicts
