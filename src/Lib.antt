-- ===== src/Lib.antt =====
-- fenceline: a job scheduler on Postgres. Producers submit jobs to a queue through an HTTP API;
-- workers claim them, run a handler, and report; a scheduler sweeps the tables; an archiver moves
-- what has ended away. All state is in the database, and the processes meet only there: each of
-- their operations is one transaction, or a few.
--
-- The model. A table is a list of rows, and the database (Db) a record of its tables. A transaction
-- is a function from Db to an answer and the Db after; one that fails returns the Db it was given.
-- The clock, the ids that are made, the rows that other transactions have locked, and the errors of
-- the database are arguments. A loop that tries again runs each attempt on what other transactions
-- have made of the database meanwhile, and an attempt or a commit that fails may have taken effect all
-- the same where its connection broke: the theorems on such loops ask only that nothing did of which
-- Postgres or pgx document that it was rolled back, or never sent (rolls_back of Store/Errors). The count
-- of waiting jobs that submitBatch compares with a depth cap is taken on a database of its own, since
-- nothing locks the queue until the jobs are inserted. job_logs is no table of Db; end_job and the log
-- buffer have it beside Db. Ids are numbers, times and durations microseconds, tokens of a rate
-- limit millionths. The random part of a backoff is a function `draw`; the cron library is `next`;
-- strings.TrimSpace, json.Valid, uuid.Parse and the fingerprint's hash are the record Libraries; Codec,
-- Clockwork, Texts and Secrets hold the other libraries' functions, argon2 and base64 among them.
--
-- Where the code is:
--   Base            shared names, Boolean tests, lists on native numbers, tables and their updates
--   Store           the rows, enums, constraints and the trigger jobs_fsm (migrations/001_types.sql,
--                   002_core.sql, 003_constraints.sql, 016_fsm_inline.sql, 020_dependencies.sql)
--   Jobs/Slots      the counters: Release, ReconcileInFlight (internal/jobs/release.go); below it
--                   what covers them and what reconciliation leaves
--   Jobs/Admit      fl.queue_admit (migrations/027_shards.sql); Jobs/Admission bounds it
--   Jobs/Claim      Claim and take (internal/jobs/claim.go); Jobs/Handout what they hand out
--   Jobs/Start, Success, Failure, Snooze, Batch
--                   Start, Complete, Fail, Snooze, CompleteBatch (internal/jobs/report.go) and the
--                   functions of migrations/028_shard_release.sql; Jobs/Fencing, Jobs/Retries
--   Jobs/Lease      ExtendLease, Probe, CloseExecution (internal/jobs/lease.go); Jobs/Verdicts
--   Jobs/Deps       fl.finish_dependents, fl.cancel_descendants (migrations/021_dependency_flow.sql)
--   Scheduler       Promote, Age, Reap, SweepOrphanExecutions, Breaker, Materialize, Notify
--                   (internal/scheduler); Settling, Reaping, Moves, Tripping, Cron/CatchUp and Cron/Once on
--                   them
--   Worker          the retry loops, runOne, completeLoop, the log buffer with AppendLogs, and the
--                   main loop of Run (internal/worker, internal/jobs/lease.go); Retrying, Stopping, Batching and Capacity on them
--   Migrations      Load and Migrate (internal/db/migrate.go); Rerun on them
--   Archiver        Archive, Prune and the loop of Run (internal/archiver/archiver.go)
--   Api             submitJob, cancelJob, retryJob, replayJob, replayQueue, link, the errors, the
--                   transaction loop, the streams, guard (internal/api); Cancelling, Cycles,
--                   Resubmission, Committing and Guarded on them; Binds and Keys for chains of
--                   steps that may refuse and for unique keys
--   Api/Account     register, login, logout (internal/api/auth.go) and the password hashes
--                   (internal/api/password.go); Account/Hashes and Account/Sessions on them
--   Api/Bulk        submitBatch (internal/api/jobs.go) and getBatch (internal/api/batches.go)
--   Api/Pages       pageLimit, the cursors, query, and listJobs (internal/api/pagination.go, query.go,
--                   jobs.go); Pages/Cursors and Pages/Walk on them
--   Api/Events      listEvents and the pump of a stream (internal/api/events.go, stream.go);
--                   Events/Delivery and Events/Catchup on it
--   Api/Policies, Queues, Schedules
--                   the handlers that write the configuration (internal/api/policies.go, queues.go,
--                   schedules.go), the checks and keys of its tables (migrations/002_core.sql), and the
--                   trigger fl.spread (migrations/030_shard_resize.sql); Api/Config has them as
--                   the steps of one relation
--   System          the transactions as steps on one database, in any order: Steps has the relation,
--                   Safety, Total, Ends and Passed what every sequence of steps keeps
--   Examples        the theorems at concrete inputs
--
-- How it fits together. A worker's claim reserves slots on a shard (queue_admit), turns them into
-- claimed jobs (take_jobs), and gives the rest back; each end of an attempt gives one slot back. The
-- fence of a job moves on with each claim and each snooze, and a report names the fence it holds.
-- System/Steps keeps the slots that claims have reserved and not used beside the database, so that
-- the counters can be compared with the jobs that run at any moment between two transactions. The
-- steps are those that write jobs or counters, except the archiver's, reconciliation, and changes of
-- the configuration, which Api/Config has.
--
-- Bounds and fuel. descendants and has_cycle follow walks that visit no job twice, and take the
-- number of dependencies as fuel. The tick loop of Materialize stops by itself after 100001 ticks,
-- which is its fuel. The retry loops have their own counts. The archiver's inner loop takes fuel,
-- and one more round than there are jobs is enough.
-- A walk over the pages of a listing takes one more round than there are rows in it. A stream's
-- pump runs over the list of the rounds that its connection lives for.
--
-- Not modelled: the constraint that compares a scheduled job's run_at with its created_at; the
-- columns that only the views read; the order in which locks are taken; goroutines, tickers and
-- channels, of which only the sequences of operations that they lead to are kept; how
-- organisations and projects come to be; the handlers that only read, except listJobs,
-- listEvents and getBatch; the decoding of requests; the width of the columns int and smallint;
-- partitions, roll-ups and summaries; the commands.
pub mod Base
pub mod Store
pub mod Jobs
pub mod Scheduler
pub mod Worker
pub mod Archiver
pub mod Migrations
pub mod Api
pub mod System
pub mod Examples
