-- ===== src/Worker.antt =====
-- packages/apalis-core/src/worker/mod.rs: the context that a worker shares with its tasks, and the
-- services that write to it. The atomic counters and flags are fields of one state; each access is a
-- step of its own.
pub mod Examples
pub mod Shutdown
pub mod Calls
pub mod Jobs
pub mod Runnable
use apalis_cron_jobs.Prelude.{
  ℕ, ◌+◌, ◌-◌, ◌%◌, ◌^◌, Bool, true, false, not, ◌&&◌, ◌||◌, Option, none, some, ◌==◌, ltb,
  if◌then◌else◌,
}

-- `shutdown` is what the monitor's token says, if there is one; `waker` whether the waker of the last
-- poll is stored; `woken` whether it has been called since.
pub record Context : Type 0 where
  pub task_count : ℕ
  pub running : Bool
  pub is_ready_flag : Bool
  pub shutdown : Option Bool
  pub waker : Bool
  pub woken : Bool

unfoldable pub new : Option Bool → Context
new shutdown = record {
  task_count = 0;
  running = false;
  is_ready_flag = false;
  shutdown = shutdown;
  waker = false;
  woken = false;
}

-- `Worker::start`, less its event.
unfoldable pub start : Context → Context
start ctx = record ctx { running = true; is_ready_flag = true }

unfoldable pub wake : Context → Context
wake ctx = record ctx { woken = ctx.woken || ctx.waker }

unfoldable pub stop : Context → Context
unfolding wake
stop ctx = wake (record ctx { running = false })

-- `fetch_add` and `fetch_sub` wrap around.
unfoldable pub start_task : Context → Context
start_task ctx = record ctx { task_count = (ctx.task_count + 1) % 2 ^ 64 }

unfoldable pub end_task : Context → Context
unfolding wake
end_task ctx =
    let ended = record ctx { task_count = (ctx.task_count + 2 ^ 64 - 1) % 2 ^ 64 } in
    if ctx.task_count == 1 then wake ended else ended

unfoldable pub has_pending_tasks : Context → Bool
has_pending_tasks ctx = ltb 0 ctx.task_count

unfoldable pub is_shutting_down : Context → Bool
is_shutting_down ctx = elim ctx.shutdown [
  | none ↦ not ctx.running
  | some called ↦ not ctx.running || called
]

unfoldable pub is_ready : Context → Bool
unfolding is_shutting_down
is_ready ctx = ctx.is_ready_flag && not (is_shutting_down ctx)

-- `ReadinessService::poll_ready`, by whether the inner service is ready.
unfoldable pub poll_ready : Bool → Context → Context
poll_ready ready ctx = record ctx { is_ready_flag = ready }

-- `Future for Context`: ready, or the waker is stored.
unfoldable pub poll : Context → Bool × Context
unfolding is_shutting_down
poll ctx =
    if is_shutting_down ctx && ctx.task_count == 0
    then (true, ctx)
    else (false, record ctx { waker = true; woken = false })
