-- ===== src/System.antt =====
-- The processes together: each of their transactions is a step on the shared database, in any
-- order.
pub mod Quiet
pub mod Batches
pub mod Steps
pub mod Life
pub mod Submission
pub mod History
pub mod Growth
pub mod Safety
pub mod Ends
pub mod Passed
pub mod Total
