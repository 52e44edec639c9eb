-- ===== src/Monitor.antt =====
-- packages/apalis-core/src/monitor/mod.rs: the future of a monitor, a poll at a time, over what has
-- happened to its workers, its signal and its terminator by then.
pub mod Shutdown
pub mod Ends
pub mod Examples
use apalis_cron_jobs.Prelude.{Bool, true, false, ◌&&◌, ◌||◌, not, List, [], ◌∷◌, if◌then◌else◌}

-- By the time of a poll: whether each worker has ended, whether the signal has come, and whether the
-- terminator, a time after it, is over.
pub record Progress : Type 0 where
  pub workers : List Bool
  pub signal : Bool
  pub terminator : Bool

abbrev pub all_over : List Bool → Bool
all_over [] = true
all_over (w ∷ ws) = w && all_over ws

-- The monitor's token, and which branches are over: the workers' join, the token's own future, and
-- the signal's.
pub record Run : Type 0 where
  pub token : Bool
  pub joined : Bool
  pub seen : Bool
  pub signalled : Bool

pub fresh : Run
fresh = record { token = false; joined = false; seen = false; signalled = false }

-- `join_all(futures).map(|_| shutdown.start_shutdown())`.
pub poll_workers : Progress → Run → Run
poll_workers p run =
    if run.joined
    then run
    else if all_over p.workers
    then record run { joined = true; token = true }
    else run

-- `run`: the workers' branch and the token's.
pub poll_run : Progress → Run → Bool × Run
unfolding poll_workers
poll_run p run =
    let run' = poll_workers p run in
    let seen = run'.seen || run'.token in (run'.joined && seen, record run' { seen = seen })

-- `shutdown_after(signal)`.
pub poll_signal : Progress → Run → Run
poll_signal p run =
    if run.signalled
    then run
    else if p.signal
    then record run { signalled = true; token = true }
    else run

-- `run_with_signal` without a terminator: the signal's branch and `run`.
pub poll_with_signal : Progress → Run → Bool × Run
unfolding poll_signal poll_run
poll_with_signal p run =
    let run' = poll_signal p run in let ran = poll_run p run' in (run'.signalled && ran.0, ran.1)

-- With one: the workers, or the signal and then the terminator.
pub poll_with_terminator : Progress → Run → Bool × Run
unfolding poll_workers poll_signal
poll_with_terminator p run =
    let run' = poll_workers p run in
    if run'.joined
    then (true, run')
    else let run'' = poll_signal p run' in (run''.signalled && p.terminator, run'')
