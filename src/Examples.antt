-- ===== src/Examples.antt =====
-- The theorems at concrete inputs, and the data for them.
pub mod Data
pub mod JobsExamples
pub mod SchedulerExamples
pub mod WorkerExamples
pub mod ApiExamples
pub mod ArchiverExamples
pub mod MigrationsExamples
pub mod SystemExamples
mod PagesExamples
mod BulkExamples
mod ConfigExamples
mod AccountExamples
