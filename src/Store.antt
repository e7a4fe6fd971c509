-- ===== src/Store.antt =====
-- The database: the rows of the tables that the Go code and its SQL functions read and write
-- (migrations/001_types.sql, 002_core.sql, 005_side_tables.sql, 020_dependencies.sql,
-- 027_shards.sql). Ids are numbers, times and durations are microseconds, and a json document is
-- the text of it. An int4 priority is shifted by 2^31, which keeps its order.
mod Enums
mod Rows
mod Shards
mod Errors
unfoldable pub use Enums.*
unfoldable pub use Rows.*
unfoldable pub use Shards.*
unfoldable pub use Errors.*
