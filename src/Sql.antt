-- ===== src/Sql.antt =====
-- packages/apalis-sql: the storage on SQLite.
pub mod Context
pub mod Table
pub mod Engine
pub mod Rows
pub mod Selection
pub mod Invariant
pub mod Sqlite
pub mod Mysql
pub mod Postgres
pub mod Reference
pub mod Samples
pub mod Dashboard
