-- ===== src/Sql/Samples.antt =====
-- A small job table with two workers, for the theorems on the SQL storages.
use apalis_cron_jobs.Prelude.{ℕ, none, some, [], ◌∷◌, arith}
use apalis_cron_jobs.Prelude.Int.{pos}
use apalis_cron_jobs.Prelude.Outcome.{err}
use apalis_cron_jobs.Core.Error.{DynError, failed}
use apalis_cron_jobs.Core.State.{State}
use apalis_cron_jobs.Core.Request.{Request}
use apalis_cron_jobs.Core.Response.{Response}
use apalis_cron_jobs.Sql.Context.{Config, SqlContext}
use apalis_cron_jobs.Sql.Table.{Row, Tables, Unique}

abbrev pub config : Config
config = record {
  keep_alive = 30000;
  buffer_size = 5;
  poll_interval = 100;
  reenqueue_orphaned_after = 300000;
  namespace = "mail";
}

abbrev pub waiting_row : Row ℕ
waiting_row = record {
  job = 70;
  id = 7;
  job_type = "mail";
  status = State.pending;
  attempts = 0;
  max_attempts = pos 5;
  run_at = pos 100;
  last_error = none;
  lock_at = none;
  lock_by = none;
  done_at = none;
  priority = pos 0;
}

abbrev pub running_row : Row ℕ
running_row = record waiting_row {
  job = 80;
  id = 8;
  status = State.running;
  lock_at = some (pos 110);
  lock_by = some 1;
}

abbrev pub failed_row : Row ℕ
failed_row = record waiting_row {
  job = 90;
  id = 9;
  status = State.failed;
  attempts = 1;
  lock_at = some (pos 110);
  lock_by = some 1;
  priority = pos 3;
}

abbrev pub done_row : Row ℕ
done_row = record waiting_row {
  job = 60;
  id = 6;
  status = State.done;
  lock_by = some 1;
  done_at = some (pos 120);
}

abbrev pub tables : Tables ℕ
tables = record {
  jobs = waiting_row ∷ running_row ∷ failed_row ∷ done_row ∷ [];
  workers =
      record { id = 1; worker_type = "mail"; layers = ""; last_seen = pos 50 }
      ∷ record { id = 2; worker_type = "mail"; layers = ""; last_seen = pos 200 }
      ∷ [];
}

pub tables-Unique : Unique tables.jobs
tables-Unique i = ground arith

abbrev pub context : SqlContext
context = record {
  status = State.running;
  run_at = pos 100;
  max_attempts = pos 5;
  last_error = none;
  lock_at = some (pos 110);
  lock_by = some 1;
  done_at = none;
  priority = pos 0;
}

abbrev pub request : ℕ → Request ℕ SqlContext
request id = record {
  args = 40;
  parts = record { task_id = id; attempt = 0; context = context; namespace = none };
}

abbrev pub failure : Response ℕ
failure = record { inner = err (failed (DynError.other "no route")); task_id = 8; attempt = 2 }
