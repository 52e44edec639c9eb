-- ===== src/Lib.antt =====
-- Verification of apalis, a library for background jobs.
--
-- A storage keeps jobs; a worker polls it by a heartbeat and a stream, runs the task for each job
-- inside layers, and acknowledges the response to the storage, which marks the job as done, dead
-- or to be tried again. The files follow the program's parts:
--
--   Prelude: tests, lists, signed integers, results and stateful steps that may fail.
--   Core: packages/apalis-core/src/{error,request,response}.rs and task/attempt.rs. `Error`,
--     `State`, `Request` and `Response` are the types of that name; extensions of a request are
--     left out.
--   Redis: packages/apalis-redis. `Commands` is the interface of the server: each command with
--     its documented law; `Reference` is a server in memory that meets it. `Database` is the
--     state under the keys of a queue, `Scripts` the Lua scripts, one function each, `Storage`
--     the methods of `RedisStorage`, `Heartbeat` the loop of `poll`, a turn at a time, `Expose`
--     the dashboard. `Queue` is the relation of all calls, in any order and from any worker.
--   Sql: packages/apalis-sql. `Context` is context.rs and lib.rs, `Table` the schema of
--     migrations/sqlite with its statements as functions on lists of rows, `Selection` and
--     `Invariant` what the three storages share of it, `Dashboard` what their dashboards do,
--     `Engine` what is relied on of the database and the codec, `Rows` the rows that the
--     statements look for and write. `Sqlite`, `Mysql` and `Postgres` are the methods and the
--     loops of `SqliteStorage`, `MysqlStorage` and `PostgresStorage` in sqlite.rs, mysql.rs,
--     postgres.rs and from_row.rs; for PostgreSQL also the function `get_jobs` and the trigger of
--     migrations/postgres, `PgListen`, and the way of an acknowledgement from `ack` to the loop
--     (`Acks`, `Chunk`). `Sqlite.Life`, `Mysql.Life` and `Postgres.Life` are the relations of the
--     writes, `Reference` is an engine that meets `Engine`.
--   Layers: src/layers/retry/mod.rs, and the services of packages/apalis-core/src/layers.rs
--     and worker/mod.rs that count and acknowledge. tower's retry loop is the interface
--     `RetryService`.
--   Worker: packages/apalis-core/src/worker. `Context` and the services that write to it;
--     `Calls` is `CallAllUnordered` of call_all.rs, `Jobs` what `poll_jobs` does with items and
--     answers, `Runnable` the poll of a worker.
--   Backend: packages/apalis-core/src/{memory,notify}.rs, mq/mod.rs and poller. `Channel` is the
--     interface of a bounded channel and `Queue` a channel that meets it; `Controller` and
--     `Poller` are the gate of a stream, `Receiver` the shared receiver, `Memory` the storage.
--   Monitor: packages/apalis-core/src/monitor. The shutdown token, and the futures of `run` and
--     `run_with_signal`, polled with what the workers and the signal have come to.
--   Cron: packages/apalis-cron/src. The schedule is an interface; the clock and the sleep are
--     arguments of a poll. `Pipe` is the loop that pushes the ticks to a storage.
--   Step: packages/apalis-core/src/step/mod.rs. The storage of the steps is an interface;
--     `Delayed` fills it with the SQLite storage.
--
-- Ids of tasks and workers are numbers. The clock is an argument. A job's bytes, its codec and all
-- third-party services are parameters; the modules named Examples instantiate them and the
-- theorems. A server or database always answers: lost connections are not modelled. What a
-- database leaves open is an argument too: which rows a locking SELECT skips, and which of several
-- matching rows an UPDATE ... FROM uses. Retries are below 2 ^ 64 - 1, so that the counter does
-- not wrap around, and indices of steps below 2 ^ 64.
-- Fuel bounds three loops: the run of a workflow, where as many calls as there are steps are shown
-- to be enough; the poll of the running calls, where two turns more than the stream has requests
-- ready are; and the loop of the cron pipe, which the source leaves without an end, where the fuel
-- is the number of items that a poll looks at.
--
-- Not modelled: extensions and data of a request; the registration of workers with the monitor, its
-- events and its timeout; the builders; the layers that only call libraries (tracing, prometheus,
-- sentry, panics); the examples and benchmarks.
pub mod Prelude
pub mod Core
pub mod Redis
pub mod Sql
pub mod Layers
pub mod Step
pub mod Worker
pub mod Backend
pub mod Monitor
pub mod Cron
