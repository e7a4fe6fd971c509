-- ===== src/Scheduler.antt =====
-- The sweeps of internal/scheduler, each a transaction of its own.
pub mod Promote
pub mod Reaper
pub mod Breaker
pub mod Moves
pub mod Tripping
pub mod Cron
pub mod Notify
pub mod Settling
pub mod Reaping
