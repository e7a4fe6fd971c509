-- ===== src/Worker.antt =====
-- The worker's side: internal/worker.
pub mod Retry
pub mod Retrying
pub mod Run
pub mod Stopping
pub mod Logs
pub mod Complete
pub mod Batching
pub mod Poll
pub mod Capacity
