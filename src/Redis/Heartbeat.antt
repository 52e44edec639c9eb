-- ===== src/Redis/Heartbeat.antt =====
-- packages/apalis-redis/src/storage.rs: the heartbeat that `poll` gives the worker, one turn of its
-- loop at a time. A turn answers one of the timers or an acknowledgement; the jobs that it fetches go
-- to the worker's stream, its errors to the worker's event handler. `buffer_size * 10` fits an i32.
pub mod Turns
use apalis_cron_jobs.Prelude.{
  ℕ, ◌*◌, ◌≡◌, refl, ◌⊎◌, inl, inr, Bool, true, false, Option, none, some, List, [], ◌∷◌, ◌++◌,
  if◌then◌else◌, arith, map, ap, sym, subst, Bool-cases,
}
use apalis_cron_jobs.Prelude.Int.{ℤ}
use apalis_cron_jobs.Prelude.Outcome.{Result, ok, err, Result-cases}
use apalis_cron_jobs.Core.Request.{Request}
use apalis_cron_jobs.Core.Response.{Response}
use apalis_cron_jobs.Redis.Commands.{Commands}
use apalis_cron_jobs.Redis.Ranges.{NonNegative}
use apalis_cron_jobs.Redis.Database.{Db}
use apalis_cron_jobs.Redis.Config.{Config, RedisContext}
use apalis_cron_jobs.Redis.Value.{RedisError, Codec}
use apalis_cron_jobs.Redis.Queue.{Reach, next, Step, registers, enqueues, recovers, fetches}
use apalis_cron_jobs.Redis.Scripts.{get_jobs}
use apalis_cron_jobs.Redis.Storage.{
  keep_alive, enqueue_scheduled, fetch_next, ack, reenqueue_orphaned,
}

pub data RedisPollError : Type 0 where
  keep_alive_error enqueue_scheduled_error poll_next_error ack_error reenqueue_orphaned_error :
      RedisError → RedisPollError
  enqueue_error : ℕ → RedisPollError

-- What wakes a turn, with the time that its calls read: `is_ready` is the worker's, and `dead_since`
-- is that time less `reenqueue_orphaned_after`.
pub data Wake (Bytes : Type 0) : Type 0 where
  keep_alive_tick : ℤ → Wake Bytes
  enqueue_scheduled_tick : ℤ → Wake Bytes
  poll_next_tick : Bool → ℤ → Wake Bytes
  id_to_ack : Option (RedisContext × Response Bytes) → ℤ → Wake Bytes
  reenqueue_orphaned_tick : ℤ → Wake Bytes

module _ {Args Bytes : Type 0} (C : Commands Bytes) (K : Codec Args Bytes) (config : Config)
    (worker_id : ℕ) where
  open C use {entries}

  pub record Beat : Type 0 where
    pub db : Db C
    pub sent : List (Request Args RedisContext)
    pub emitted : List RedisPollError

  -- The database after a call, and its error if it failed.
  note : {A : Type 0} → (RedisError → RedisPollError) → Result RedisError A × Db C → Beat → Beat
  note kind (ok a, db') beat = record beat { db = db' }
  note kind (err e, db') beat = record beat { db = db'; emitted = beat.emitted ++ kind e ∷ [] }

  -- The stream is open, and each fetched job is sent to it in turn.
  received : Result RedisError (List (Request Args RedisContext)) × Db C → Beat → Beat
  received (ok jobs, db') beat = record beat { db = db'; sent = beat.sent ++ jobs }
  received (err e, db') beat = record beat {
    db = db';
    emitted = beat.emitted ++ poll_next_error e ∷ [];
  }

  pub turn : Wake Bytes → Beat → Beat
  unfolding note received
  turn (keep_alive_tick now) beat =
      note keep_alive_error (keep_alive C K config worker_id now beat.db) beat
  turn (enqueue_scheduled_tick now) beat =
      note enqueue_scheduled_error (enqueue_scheduled C K config config.buffer_size now beat.db)
        beat
  turn (poll_next_tick true now) beat = received (fetch_next C K config worker_id now beat.db) beat
  turn (poll_next_tick false now) beat = beat
  turn (id_to_ack (some (ctx, res)) now) beat =
      note ack_error (ack C K config ctx res now beat.db) beat
  turn (id_to_ack none now) beat = beat
  turn (reenqueue_orphaned_tick dead_since) beat =
      note reenqueue_orphaned_error
        (reenqueue_orphaned C K config (config.buffer_size * 10) dead_since beat.db) beat

  -- Before the loop: recovery as of now, and the first sign of life.
  pub start_up : ℤ → Beat → Beat
  unfolding note
  start_up now beat =
      let recovered =
        note reenqueue_orphaned_error
          (reenqueue_orphaned C K config (config.buffer_size * 10) now beat.db) beat in
      note keep_alive_error (keep_alive C K config worker_id now recovered.db) recovered
