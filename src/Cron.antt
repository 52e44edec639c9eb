-- ===== src/Cron.antt =====
-- packages/apalis-cron/src/lib.rs and pipe.rs: the stream of a schedule, a poll at a time, and its pipe
-- into a storage or a queue. The iterator over a schedule's ticks is an interface. The clock is an
-- argument; a timer does not fire before its time, and whether it has fired after it is another.
pub mod Ticks
pub mod Pipe
pub mod Examples
use apalis_cron_jobs.Prelude.{
  ℕ, zero, suc, ◌≡◌, String, Bool, true, false, ◌&&◌, Option, none, some, List, [], ◌∷◌, ◌++◌,
  if◌then◌else◌,
}
use apalis_cron_jobs.Prelude.Int.{ℤ, ltb_ℤ, leb_ℤ}
use apalis_cron_jobs.Prelude.Outcome.{Result, ok, err}
use apalis_cron_jobs.Core.Request.{Request, new_with_ctx}
use apalis_cron_jobs.Backend.Channel.{Poll, ready, pending}

-- `Schedule::upcoming_owned`, and the text of a schedule with a time.
pub record Schedule : Type 1 where
  pub State : Type 0
  pub next : State → Option ℤ × State
  pub display : ℤ → String

pub record CronContext : Type 0 where
  pub timestamp : ℤ

pub data CronStreamError : Type 0 where
  out_of_range_error : (tick : ℤ) → CronStreamError

-- What became of a tick.
pub data Fate : Type 0 where
  delivered missed : Fate

module _ (sched : Schedule) {Req : Type 0} (default : Req) where
  open sched use {State, next, display}

  -- The stream, asleep until a tick or not; with the ticks that the schedule has given, and those
  -- that are settled, with when.
  pub record CronStream : Type 0 where
    pub schedule : State
    pub asleep : Option ℤ
    pub given : List ℤ
    pub settled : List (ℤ × Fate × ℤ)

  abbrev pub Item : Type 0
  Item = Result CronStreamError (Option (Request Req CronContext))

  -- The request of a tick, under a fresh id.
  pub request : ℕ → ℤ → Request Req CronContext
  unfolding new_with_ctx
  request fresh timestamp =
      let req = new_with_ctx fresh default (record { timestamp = timestamp }) in
      record req { parts = record (req.parts) { namespace = some (display timestamp) } }

  -- The sleep until a tick.
  pub poll_sleep : ℕ → ℤ → Bool → ℤ → CronStream → Poll Item × CronStream
  unfolding request
  poll_sleep fresh now fired tick this =
      if leb_ℤ tick now && fired
      then (
        ready (ok (some (request fresh now))),
        record this { asleep = none; settled = this.settled ++ (tick, delivered, now) ∷ [] },
      )
      else (pending, record this { asleep = some tick })

  -- A poll of the stream that `build_stream` makes; it never ends.
  pub poll_next : ℕ → ℤ → Bool → CronStream → Poll Item × CronStream
  unfolding poll_sleep
  poll_next fresh now fired this = elim this.asleep [
    | some tick ↦ poll_sleep fresh now fired tick this
    | none ↦
        let upcoming = next this.schedule in
        elim upcoming.0 [
          | none ↦ (ready (ok none), record this { schedule = upcoming.1 })
          | some tick ↦
              let this' = record this { schedule = upcoming.1; given = this.given ++ tick ∷ [] } in
              if ltb_ℤ tick now
              then (
                ready (err (out_of_range_error tick)),
                record this' { settled = this.settled ++ (tick, missed, now) ∷ [] },
              )
              else poll_sleep fresh now fired tick this'
        ]
  ]

  pub into_stream : State → CronStream
  into_stream schedule = record { schedule = schedule; asleep = none; given = []; settled = [] }

  as_item : Poll Item × CronStream → Poll (Option Item) × CronStream
  as_item (ready item, this) = (ready (some item), this)
  as_item (pending, this) = (pending, this)

  -- The loop of `into_stream_worker` ends where the worker is shutting down at the beginning of a
  -- turn; a sleep is not cut short by it.
  pub poll_worker :
      (is_shutting_down : Bool) → ℕ → ℤ → Bool → CronStream → Poll (Option Item) × CronStream
  unfolding poll_next as_item
  poll_worker is_shutting_down fresh now fired this =
      let answer = as_item (poll_next fresh now fired this) in
      elim this.asleep [
        | some tick ↦ answer
        | none ↦ if is_shutting_down then (ready none, this) else answer
      ]
