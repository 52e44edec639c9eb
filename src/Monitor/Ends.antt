-- ===== src/Monitor/Ends.antt =====
-- When the future of a monitor ends.
use apalis_cron_jobs.Prelude.{◌≡◌, Bool, true, false, ◌&&◌, ◌||◌, List, [], ◌∷◌, arith}
use apalis_cron_jobs.Monitor.{
  Progress, Run, all_over, fresh, poll_workers, poll_run, poll_signal, poll_with_signal,
  poll_with_terminator,
}

-- The polls before the last one, none of which ended the future.
pub polled : (Progress → Run → Bool × Run) → List Progress → Run → Run
polled poll [] run = run
polled poll (p ∷ ps) run = polled poll ps (poll p run).1

-- Whether something has happened by one of some polls.
pub ever : (Progress → Bool) → List Progress → Bool
ever q [] = false
ever q (p ∷ ps) = q p || ever q ps

abbrev pub workers_over : Progress → Bool
workers_over p = all_over p.workers

abbrev pub signal_came : Progress → Bool
signal_came p = p.signal

-- The join of the workers is over once they all are, and then the token is called.
Sound : Run → Type 0
Sound run = run.joined ≡ true → run.token ≡ true

module _ (p : Progress) (run : Run) where
  poll_run-state :
      Sound run
      → let (ended, run') = poll_run p run in
        (Sound run')
        × (run'.joined ≡ (run.joined || all_over p.workers))
        × (run'.signalled ≡ run.signalled)
        × (ended ≡ run'.joined)
  unfolding Sound poll_run poll_workers
  poll_run-state h = ground arith

  poll_with_signal-state :
      Sound run
      → let (ended, run') = poll_with_signal p run in
        (Sound run')
        × (run'.joined ≡ (run.joined || all_over p.workers))
        × (run'.signalled ≡ (run.signalled || p.signal))
        × (ended ≡ (run'.signalled && run'.joined))
  unfolding Sound poll_with_signal poll_signal poll_run poll_workers
  poll_with_signal-state h = ground arith

  poll_with_terminator-state :
      let (ended, run') = poll_with_terminator p run in
      (run'.joined ≡ (run.joined || all_over p.workers))
      × (run'.joined ≡ false → run'.signalled ≡ (run.signalled || p.signal))
      × (ended ≡ (run'.joined || (run'.signalled && p.terminator)))
  unfolding poll_with_terminator poll_signal poll_workers
  poll_with_terminator-state = ground arith

run_polled :
    (ps : List Progress) (run : Run)
    → Sound run
    → let run' = polled poll_run ps run in
      (Sound run') × (run'.joined ≡ (run.joined || ever workers_over ps))
unfolding polled ever
run_polled [] run h = (h, ground arith)
run_polled (p ∷ ps) run h =
    let (sound, joins, _, _) = poll_run-state p run h in
    ground (arith, run_polled ps (poll_run p run).1 sound)

signal_polled :
    (ps : List Progress) (run : Run)
    → Sound run
    → let run' = polled poll_with_signal ps run in
      (Sound run')
      × (run'.joined ≡ (run.joined || ever workers_over ps))
      × (run'.signalled ≡ (run.signalled || ever signal_came ps))
unfolding polled ever
signal_polled [] run h = (h, ground arith, ground arith)
signal_polled (p ∷ ps) run h =
    let (sound, joins, signals, _) = poll_with_signal-state p run h in
    ground (arith, signal_polled ps (poll_with_signal p run).1 sound)

terminator_polled :
    (ps : List Progress) (run : Run)
    → let run' = polled poll_with_terminator ps run in
      (run'.joined ≡ (run.joined || ever workers_over ps))
      × (run'.joined ≡ false → run'.signalled ≡ (run.signalled || ever signal_came ps))
unfolding polled ever
terminator_polled [] run = (ground arith, λ h. ground arith)
terminator_polled (p ∷ ps) run =
    ground
      (arith, poll_with_terminator-state p run, terminator_polled ps (poll_with_terminator p run).1)

-- After any polls, the future of `run` ends exactly at a poll by which all workers have been seen to
-- have ended at once. That of `run_with_signal` ends, without a terminator, exactly when that is so
-- and the signal has come too; with one, exactly when all workers have ended, or the signal has come
-- and the terminator is over.
pub monitor_ends :
    (ps : List Progress) (p : Progress)
    → let workers = ever workers_over ps || all_over p.workers in
      let signal = ever signal_came ps || p.signal in
      ((poll_run p (polled poll_run ps fresh)).0 ≡ workers)
      × ((poll_with_signal p (polled poll_with_signal ps fresh)).0 ≡ (signal && workers))
      × ((poll_with_terminator p (polled poll_with_terminator ps fresh)).0
          ≡ (workers || (signal && p.terminator)))
unfolding fresh Sound
monitor_ends ps p =
    let (sound, joined) = run_polled ps fresh (λ h. cc) in
    let (sound', joined', signalled) = signal_polled ps fresh (λ h. cc) in
    let (joined'', signalled'') = terminator_polled ps fresh in
    (
      ground (arith, poll_run-state p (polled poll_run ps fresh) sound),
      ground (arith, poll_with_signal-state p (polled poll_with_signal ps fresh) sound'),
      ground (arith, poll_with_terminator-state p (polled poll_with_terminator ps fresh)),
    )
