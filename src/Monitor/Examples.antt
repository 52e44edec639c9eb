-- ===== src/Monitor/Examples.antt =====
-- The theorems on the monitor at a run of two workers.
use apalis_cron_jobs.Prelude.{◌≡◌, ◌||◌, true, false, [], ◌∷◌}
use apalis_cron_jobs.Monitor.{Progress, all_over, fresh, poll_run}
use apalis_cron_jobs.Monitor.Ends.{polled, ever, workers_over, monitor_ends}

abbrev early : Progress
early = record { workers = true ∷ false ∷ []; signal = false; terminator = false }

abbrev late : Progress
late = record { workers = true ∷ true ∷ []; signal = false; terminator = false }

monitor_ends_example :
    (poll_run late (polled poll_run (early ∷ []) fresh)).0
    ≡ (ever workers_over (early ∷ []) || all_over late.workers)
monitor_ends_example = (monitor_ends (early ∷ []) late).0
