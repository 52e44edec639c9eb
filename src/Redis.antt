-- ===== src/Redis.antt =====
-- packages/apalis-redis: the job queue kept in a Redis database.
pub mod Commands
pub mod Ranges
pub mod Database
pub mod Scripts
pub mod Config
pub mod Value
pub mod Queue
pub mod Storage
pub mod Heartbeat
pub mod Expose
pub mod Reference
pub mod Examples
