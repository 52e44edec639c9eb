-- ===== src/Cron/Pipe.antt =====
-- packages/apalis-cron/src/lib.rs and pipe.rs: the pipe of a schedule into a storage or a queue. What
-- `push` or `enqueue` does is a step on a state of its own, which answers at once.
use apalis_cron_jobs.Prelude.{ℕ, zero, suc, ◌≡◌, refl, ap, ◌∙◌, Bool, true, false, none, some}
use apalis_cron_jobs.Prelude.Int.{ℤ}
use apalis_cron_jobs.Prelude.Outcome.{Result, ok, err}
use apalis_cron_jobs.Backend.Channel.{Poll, ready, pending}
use apalis_cron_jobs.Cron.{Schedule, CronStream, Item, poll_next}

module _ (sched : Schedule) {Req : Type 0} (default : Req) where
  -- The closure of `pipe_to_storage` and `pipe_to_mq`: only a request is pushed, by its arguments.
  pub pipe_item :
      {Db E : Type 0}
      → (Req → Db → Result E (Unit {0}) × Db)
      → Item sched default
      → Db
      → Result E (Unit {0}) × Db
  pipe_item push (ok (some req)) db = push req.args db
  pipe_item push (ok none) db = (ok tt, db)
  pipe_item push (err e) db = (ok tt, db)

  idle :
      (fresh : ℕ) (now : ℤ) (fired : Bool) (this : CronStream sched default)
      → this.asleep ≡ none
      → (sched.next this.schedule).0 ≡ none
      → let (answer, this') = poll_next sched default fresh now fired this in
        (answer ≡ ready (ok none))
        × (this'.asleep ≡ none)
        × (this'.schedule ≡ (sched.next this.schedule).1)
  unfolding poll_next
  idle fresh now fired this awake over = rw (awake, over, poll_next) (refl, awake, refl)

  module _ (fresh : ℕ → ℕ) (now : ℤ) (fired : ℕ → Bool) where
    -- A poll of the loop of `CronPipe`, for so many items at most: whether it gave control back, as
    -- it does where the stream waits. The answers of the pushes are dropped.
    pub pipe_heartbeat :
        {Db E : Type 0}
        → (Req → Db → Result E (Unit {0}) × Db)
        → ℕ
        → CronStream sched default
        → Db
        → Bool × CronStream sched default × Db
    unfolding pipe_item
    pipe_heartbeat push zero this db = (false, this, db)
    pipe_heartbeat push (suc fuel) this db =
        let polled = poll_next sched default (fresh fuel) now (fired fuel) this in
        elim polled.0 [
          | pending ↦ (true, polled.1, db)
          | ready item ↦ pipe_heartbeat push fuel polled.1 (pipe_item push item db).1
        ]

    -- Nothing shows whether the pushes fail: whatever two storages do, and whatever they hold, the
    -- loop takes the same course over the same ticks.
    pub pushes_fail_silently :
        {Db Db' E E' : Type 0} (push : Req → Db → Result E (Unit {0}) × Db)
        (push' : Req → Db' → Result E' (Unit {0}) × Db') (fuel : ℕ)
        (this : CronStream sched default) (db : Db) (db' : Db')
        → ((pipe_heartbeat push fuel this db).0 ≡ (pipe_heartbeat push' fuel this db').0)
          × ((pipe_heartbeat push fuel this db).1 ≡ (pipe_heartbeat push' fuel this db').1)
    unfolding pipe_heartbeat
    pushes_fail_silently push push' zero this db db' = (refl, refl)
    pushes_fail_silently {Db = Db} {Db' = Db'} push push' (suc fuel) this db db' =
        go (poll_next sched default (fresh fuel) now (fired fuel) this).0 refl (λ d d'.
          pushes_fail_silently push push' fuel
            (poll_next sched default (fresh fuel) now (fired fuel) this).1 d d')
      where
        polled : CronStream sched default
        polled = (poll_next sched default (fresh fuel) now (fired fuel) this).1

        go :
            (answer : Poll (Item sched default))
            → (poll_next sched default (fresh fuel) now (fired fuel) this).0 ≡ answer
            → ((d : Db) (d' : Db')
                → ((pipe_heartbeat push fuel polled d).0 ≡ (pipe_heartbeat push' fuel polled d').0)
                  × ((pipe_heartbeat push fuel polled d).1
                      ≡ (pipe_heartbeat push' fuel polled d').1))
            → ((pipe_heartbeat push (suc fuel) this db).0
                ≡ (pipe_heartbeat push' (suc fuel) this db').0)
              × ((pipe_heartbeat push (suc fuel) this db).1
                  ≡ (pipe_heartbeat push' (suc fuel) this db').1)
        go pending e ih = rw (e, pipe_heartbeat) (refl, refl)
        go (ready item) e ih =
            rw (e, pipe_heartbeat) (ih (pipe_item push item db).1 (pipe_item push' item db').1)

    -- Once a schedule has no more ticks, a poll of the loop never gives control back, however many
    -- items it is given to look at, and does nothing: where the schedule stays without ticks, and
    -- no sleep is under way.
    pub exhausted_schedule_spins :
        {Db E : Type 0} (push : Req → Db → Result E (Unit {0}) × Db)
        → ((s : sched.State) → (sched.next s).0 ≡ none → (sched.next (sched.next s).1).0 ≡ none)
        → (fuel : ℕ) (this : CronStream sched default) (db : Db) → this.asleep ≡ none
        → (sched.next this.schedule).0 ≡ none
        → ((pipe_heartbeat push fuel this db).0 ≡ false)
          × ((pipe_heartbeat push fuel this db).2 ≡ db)
    unfolding pipe_heartbeat
    exhausted_schedule_spins push stays zero this db awake over = (refl, refl)
    exhausted_schedule_spins push stays (suc fuel) this db awake over =
        let this' = (poll_next sched default (fresh fuel) now (fired fuel) this).1 in
        let (answer, awake', schedule') = idle (fresh fuel) now (fired fuel) this awake over in
        rw (answer, pipe_heartbeat)
          (exhausted_schedule_spins push stays fuel this' db awake'
            (ap (λ s. (sched.next s).0) schedule' ∙ stays this.schedule over))
