-- ===== src/Worker/Examples.antt =====
-- The theorem on a worker that winds down, at one with a live task.
use apalis_cron_jobs.Prelude.{◌≡◌, refl, true, false, some, arith}
use apalis_cron_jobs.Worker.{Context, new, start, start_task, stop, poll, wake}
use apalis_cron_jobs.Worker.Shutdown.{
  starts, tracks, polls, stops, Reach, fresh, next as later, end_tasks, shutdown_drains,
}

-- Started, with a task, polled, and then told to stop.
abbrev stopping : Context
stopping = stop (poll (start_task (start (new (some false))))).1

stopping-Reach : Reach (some false) (stopping, 1)
stopping-Reach =
    later
      (later
        (later (later fresh (starts (new (some false)) 0))
          (tracks (start (new (some false))) 0 (omega arith)))
        (polls (start_task (start (new (some false)))) 1))
      (stops (poll (start_task (start (new (some false))))).1 1)

shutdown_drains_example : (poll (end_tasks 1 stopping)).0 ≡ true
unfolding stop poll start_task start new wake
shutdown_drains_example = (shutdown_drains (some false) stopping 1 stopping-Reach refl).1
