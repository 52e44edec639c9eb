-- ===== src/Redis/Config.antt =====
-- packages/apalis-redis/src/storage.rs: the configuration of the storage and a job's context.
-- Durations are in milliseconds.
use apalis_cron_jobs.Prelude.{ℕ, String, Option, none}
use apalis_cron_jobs.Prelude.Int.{ℤ}

pub record Config : Type 0 where
  pub poll_interval : ℕ
  pub buffer_size : ℕ
  pub keep_alive : ℕ
  pub enqueue_scheduled : ℕ
  pub reenqueue_orphaned_after : ℕ
  pub namespace : String

unfoldable pub default_config : Config
default_config = record {
  poll_interval = 100;
  buffer_size = 10;
  keep_alive = 30000;
  enqueue_scheduled = 30000;
  reenqueue_orphaned_after = 300000;
  namespace = "apalis_redis";
}

pub record RedisContext : Type 0 where
  pub max_attempts : ℕ
  pub lock_by : Option ℕ
  pub run_at : Option ℤ

unfoldable pub default_context : RedisContext
default_context = record { max_attempts = 5; lock_by = none; run_at = none }
