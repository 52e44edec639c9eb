-- ===== src/Sql/Context.antt =====
-- packages/apalis-sql/src/lib.rs and context.rs: the configuration, a job's context and the state
-- that a response leads to. Durations are in milliseconds, times in seconds.
use apalis_cron_jobs.Prelude.{ℕ, String, Option, none, leb, if◌then◌else◌}
use apalis_cron_jobs.Prelude.Int.{ℤ, pos, as_usize}
use apalis_cron_jobs.Prelude.Outcome.{ok, err}
use apalis_cron_jobs.Core.Error.{abort, failed}
use apalis_cron_jobs.Core.State.{State}
use apalis_cron_jobs.Core.Response.{Response}

pub record Config : Type 0 where
  pub keep_alive : ℕ
  pub buffer_size : ℕ
  pub poll_interval : ℕ
  pub reenqueue_orphaned_after : ℕ
  pub namespace : String

unfoldable pub default_config : Config
default_config = record {
  keep_alive = 30000;
  buffer_size = 10;
  poll_interval = 100;
  reenqueue_orphaned_after = 300000;
  namespace = "apalis::sql";
}

pub record SqlContext : Type 0 where
  pub status : State
  pub run_at : ℤ
  pub max_attempts : ℤ
  pub last_error : Option String
  pub lock_at : Option ℤ
  pub lock_by : Option ℕ
  pub done_at : Option ℤ
  pub priority : ℤ

unfoldable pub new_context : ℤ → SqlContext
new_context now = record {
  status = State.pending;
  run_at = now;
  max_attempts = pos 5;
  last_error = none;
  lock_at = none;
  lock_by = none;
  done_at = none;
  priority = pos 0;
}

-- Only an `Error::Failed` is weighed against the maximum, which is an i32 cast to usize.
unfoldable pub calculate_status : {Res : Type 0} → SqlContext → Response Res → State
calculate_status ctx res = elim res.inner [
  | ok r ↦ State.done
  | err (abort e) ↦ State.killed
  | err (failed e) ↦
      if leb (as_usize ctx.max_attempts) res.attempt then State.killed else State.failed
  | err e ↦ State.failed
]
