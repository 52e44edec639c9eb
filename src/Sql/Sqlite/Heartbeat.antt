-- ===== src/Sql/Sqlite/Heartbeat.antt =====
-- packages/apalis-sql/src/sqlite.rs: the two loops of `poll`, a turn at a time, and what they emit.
use apalis_cron_jobs.Prelude.{
  ℕ, ◌-◌, ◌*◌, ◌%◌, ◌^◌, refl, String, List, [], ◌∷◌, ◌++◌, ltb, if◌then◌else◌,
}
use apalis_cron_jobs.Prelude.Int.{ℤ, pos, negsuc}
use apalis_cron_jobs.Prelude.Outcome.{Result, ok, err}
use apalis_cron_jobs.Sql.Context.{Config}
use apalis_cron_jobs.Sql.Engine.{SqlError, Engine}
use apalis_cron_jobs.Sql.Table.{Tables}
use apalis_cron_jobs.Sql.Sqlite.{keep_alive_at, reenqueue_orphaned}
use apalis_cron_jobs.Sql.Sqlite.Life.{Reach, beats, recovers, next}

pub data SqlitePollError : Type 0 where
  keep_alive_error reenqueue_orphaned_error : SqlError → SqlitePollError

-- `as i32`.
as_i32 : ℕ → ℤ
as_i32 n = if ltb (n % 2 ^ 32) (2 ^ 31) then pos (n % 2 ^ 32) else negsuc (2 ^ 32 - 1 - n % 2 ^ 32)

module _ {Args Raw : Type 0} (E : Engine Args Raw) (config : Config) (worker_id : ℕ)
    (service : String) where
  pub record Beat : Type 0 where
    pub db : Tables Raw
    pub emitted : List SqlitePollError

  note : (SqlError → SqlitePollError) → Result SqlError (Unit {0}) × Tables Raw → Beat → Beat
  note kind (ok a, db') beat = record beat { db = db' }
  note kind (err e, db') beat = record { db = db'; emitted = beat.emitted ++ kind e ∷ [] }

  -- Before the first loop: recovery as of now.
  pub start_up : ℤ → Beat → Beat
  unfolding note as_i32
  start_up now beat =
      note reenqueue_orphaned_error
        (reenqueue_orphaned E config (as_i32 (config.buffer_size * 10)) now beat.db) beat

  -- A turn of the first loop.
  pub heartbeat : ℤ → Beat → Beat
  unfolding note
  heartbeat now beat =
      note keep_alive_error (keep_alive_at E config worker_id service now beat.db) beat

  -- A turn of the second loop, where the size of the buffer is an i32; else the loop panics at its
  -- first turn.
  pub reenqueue_beat : ℤ → Beat → Beat
  unfolding note
  reenqueue_beat dead_since beat =
      note reenqueue_orphaned_error
        (reenqueue_orphaned E config (pos config.buffer_size) dead_since beat.db) beat

  -- Each turn keeps the tables among those that the storage's writes can reach.
  pub beat-Reach :
      (time : ℤ) (beat : Beat)
      → Reach E config beat.db
      → Reach E config (start_up time beat).db
        × Reach E config (heartbeat time beat).db
        × Reach E config (reenqueue_beat time beat).db
  unfolding start_up heartbeat reenqueue_beat note keep_alive_at reenqueue_orphaned
  beat-Reach time beat r = (
    next r (recovers (as_i32 (config.buffer_size * 10)) time refl),
    beats r (keep_alive_at E config worker_id service time beat.db).1.workers,
    next r (recovers (pos config.buffer_size) time refl),
  )
