-- ===== src/Api.antt =====
-- The HTTP API of internal/api.
pub mod Problem
pub mod Cancel
pub mod Replay
pub mod Links
pub mod Submit
pub mod Cycles
pub mod Cancelling
pub mod Resubmission
pub mod Transaction
pub mod Stream
pub mod Binds
pub mod Access
pub mod Guarded
pub mod Committing
pub mod Pages
pub mod Events
pub mod Bulk
pub mod Keys
pub mod Policies
pub mod Queues
pub mod Schedules
pub mod Config
pub mod Account
