-- ===== src/Worker/Runnable.antt =====
-- packages/apalis-core/src/worker/mod.rs: the future of a worker, a poll at a time. The poller's stream
-- and the heartbeat are steps on the worker's context with states of their own.
use apalis_cron_jobs.Prelude.{
  ◌≡◌, refl, ◌∙◌, Bool, true, false, ◌&&◌, List, [], ◌∷◌, ◌++◌, if◌then◌else◌, arith,
}
use apalis_cron_jobs.Worker.{Context, start, poll}
use apalis_cron_jobs.Worker.Jobs.{Event, started, stopped, exited}

-- `poll_jobs` polls the stream until it waits or has ended; what it does to the context is part of
-- the step.
module _ {P H : Type 0} (drain : P → Context → Bool × P × Context × List Event)
    (beat : H → Context → Bool × H × Context × List Event) where
  pub record Runnable : Type 0 where
    pub poller : P
    pub heartbeat : H
    pub worker : Context
    pub running : Bool
    pub emitted : List Event

  -- `Worker::start`, at the first poll only.
  pub ensure_running : Runnable → Runnable
  unfolding start
  ensure_running this = if this.running then this else record this {
    worker = start this.worker;
    running = true;
    emitted = this.emitted ++ started ∷ [];
  }

  -- Both halves of the join are polled, the poller first.
  pub poll_both : Runnable → Bool × Runnable
  poll_both this =
      let (over, poller, ctx, events) = drain this.poller this.worker in
      let (beaten, heartbeat, ctx', events') = beat this.heartbeat ctx in
      (
        over && beaten,
        record this {
          poller = poller;
          heartbeat = heartbeat;
          worker = ctx';
          emitted = this.emitted ++ (events ++ events');
        },
      )

  -- The select: the worker's context is asked where the join still waits.
  pub select_context : Bool × Runnable → Bool × Runnable
  unfolding poll
  select_context joined =
      let this = joined.1 in
      if joined.0
      then (true, record this { emitted = this.emitted ++ exited ∷ [] })
      else let asked = poll this.worker in
        let this' = record this { worker = asked.1 } in
        if asked.0
        then (true, record this' { emitted = this.emitted ++ stopped ∷ exited ∷ [] })
        else (false, this')

  pub poll_runnable : Runnable → Bool × Runnable
  unfolding ensure_running poll_both select_context
  poll_runnable this = select_context (poll_both (ensure_running this))

  running-select : (joined : Bool × Runnable) → (select_context joined).1.running ≡ joined.1.running
  unfolding select_context
  running-select joined = ground arith

  running-ensure : (this : Runnable) → (ensure_running this).running ≡ true
  unfolding ensure_running
  running-ensure this = ground arith

  ensure_started : (this : Runnable) → this.running ≡ true → ensure_running this ≡ this
  unfolding ensure_running
  ensure_started this on = rw (on, ensure_running) refl

  -- A worker is started by its first poll, and by no other.
  pub starts_once :
      (this : Runnable)
      → this.running ≡ false
      → (ensure_running (poll_runnable this).1 ≡ (poll_runnable this).1)
        × ((ensure_running this).emitted ≡ this.emitted ++ started ∷ [])
        × ((ensure_running this).worker.running ≡ true)
  unfolding poll_runnable ensure_running poll_both start
  starts_once this fresh = (
    ensure_started (poll_runnable this).1
        (running-select (poll_both (ensure_running this)) ∙ running-ensure this),
    ground arith,
    ground arith,
  )
