-- ===== src/Scheduler/Cron.antt =====
-- internal/scheduler/cron.go: due schedules become jobs. The cron library is a parameter: `next`
-- is NextTick, which fails on an expression or a timezone that it cannot read.
mod Ticks
mod Fire
pub mod CatchUp
pub mod Once
unfoldable pub use Ticks.*
unfoldable pub use Fire.*
