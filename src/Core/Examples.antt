-- ===== src/Core/Examples.antt =====
-- The theorems on states and errors at one of each.
use apalis_cron_jobs.Prelude.{ℕ}
use apalis_cron_jobs.Prelude.Outcome.{Result, err}
use apalis_cron_jobs.Core.Error.{Error, abort, other}

abbrev outcome : Result Error ℕ
outcome = err (abort (other "no route"))
