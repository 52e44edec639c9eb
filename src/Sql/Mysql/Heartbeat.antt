-- ===== src/Sql/Mysql/Heartbeat.antt =====
-- packages/apalis-sql/src/mysql.rs: the three loops of `poll`, a turn at a time, what they emit, and
-- what becomes of a worker that keeps beating.
use apalis_cron_jobs.Prelude.{
  ℕ, ◌*◌, ◌≡◌, refl, ◌≤◌, String, Bool, true, Option, none, some, List, [], ◌∷◌, ◌++◌, length,
  if◌then◌else◌, arith,
}
use apalis_cron_jobs.Prelude.Int.{ℤ}
use apalis_cron_jobs.Prelude.Outcome.{Result, ok, err}
use apalis_cron_jobs.Core.Response.{Response}
use apalis_cron_jobs.Sql.Context.{Config, SqlContext}
use apalis_cron_jobs.Sql.Engine.{
  SqlError, invalid_data, unique_violation, foreign_key_violation, data_too_long, out_of_range,
  panic, Engine,
}
use apalis_cron_jobs.Sql.Rows.{earlier, orphan_row}
use apalis_cron_jobs.Sql.Selection.{row-update-pick}
use apalis_cron_jobs.Sql.Table.{Row, Tables, known, row, Unique}
use apalis_cron_jobs.Sql.Mysql.{keep_alive_at, reenqueue_orphaned, abandoned, ack_job}

pub data MysqlPollError : Type 0 where
  ack_error keep_alive_error reenqueue_orphaned_error : SqlError → MysqlPollError
  codec_error : String → MysqlPollError

-- What is emitted of an acknowledgement that fails.
ack_failure : SqlError → Option MysqlPollError
ack_failure panic = none
ack_failure (invalid_data e) = some (codec_error e)
ack_failure unique_violation = some (ack_error unique_violation)
ack_failure foreign_key_violation = some (ack_error foreign_key_violation)
ack_failure data_too_long = some (ack_error data_too_long)
ack_failure out_of_range = some (ack_error out_of_range)

module _ {Args Raw : Type 0} (E : Engine Args Raw) (config : Config) where
  pub record Beat : Type 0 where
    pub db : Tables Raw
    pub emitted : List MysqlPollError

  note : {A : Type 0} → (SqlError → MysqlPollError) → Result SqlError A × Tables Raw → Beat → Beat
  note kind (ok a, db') beat = record beat { db = db' }
  note kind (err e, db') beat = record { db = db'; emitted = beat.emitted ++ kind e ∷ [] }

  -- Recovery as of now, before the first loop. `as i32` of the limit is not negative.
  pub start_up : ℤ → Beat → Beat
  unfolding note
  start_up now beat =
      note reenqueue_orphaned_error
        (reenqueue_orphaned E config (config.buffer_size * 10) now beat.db) beat

  pub heartbeat : ℕ → String → ℤ → Beat → Beat
  unfolding note
  heartbeat w service now beat =
      note keep_alive_error (keep_alive_at E config w service now beat.db) beat

  -- The size of the buffer is an i32; else the loop panics at its first turn.
  pub reenqueue_beat : ℤ → Beat → Beat
  unfolding note
  reenqueue_beat dead_since beat =
      note reenqueue_orphaned_error
        (reenqueue_orphaned E config config.buffer_size dead_since beat.db) beat

  module _ {Res : Type 0} (too_long : String → Bool) where
    -- A context without a worker ends the loop; other errors are emitted.
    pub ack_heartbeat :
        List (SqlContext × Response Res × Result String String) → ℤ → Beat → Result (Unit {0}) Beat
    unfolding ack_failure
    ack_heartbeat [] now beat = ok beat
    ack_heartbeat ((ctx, res, result) ∷ ids) now beat =
        let settled = ack_job E config too_long ctx res result now beat.db in
        elim settled.0 [
          | ok _ ↦ ack_heartbeat ids now (record beat { db = settled.1 })
          | err e ↦ elim (ack_failure e) [
            | none ↦ err tt
            | some kind ↦
                ack_heartbeat ids now
                  (record { db = settled.1; emitted = beat.emitted ++ kind ∷ [] })
          ]
        ]

  -- A job is taken by recovery if and only if it is abandoned, where ids are unique and the limit
  -- is no less than the number of jobs.
  pub reenqueue_orphaned-row :
      (count id : ℕ) (dead_since : ℤ) (db : Tables Raw) {r : Row Raw}
      → Unique db.jobs
      → length db.jobs ≤ count
      → row id db.jobs ≡ some r
      → row id (reenqueue_orphaned E config count dead_since db).1.jobs
        ≡ some (if abandoned E config dead_since db.workers r then orphan_row E config r else r)
  unfolding reenqueue_orphaned
  reenqueue_orphaned-row count id dead_since db {r} u roomy there =
      row-update-pick E count (λ r s. earlier r.lock_at s.lock_at)
        (abandoned E config dead_since db.workers) (orphan_row E config) (λ s. refl) id db.jobs u
        roomy there

  -- Beats of a worker, at some times, the first one first.
  pub beat_all : ℕ → String → List ℤ → Beat → Beat
  unfolding heartbeat
  beat_all w service [] beat = beat
  beat_all w service (now ∷ times) beat = beat_all w service times (heartbeat w service now beat)

  -- The beats of a worker that is registered change nothing, whenever they come.
  beats_are_idle :
      (w : ℕ) (service : String) (times : List ℤ) (beat : Beat)
      → known w beat.db.workers ≡ true
      → beat_all w service times beat ≡ beat
  unfolding beat_all heartbeat note keep_alive_at
  beats_are_idle w service [] beat k = refl
  beats_are_idle w service (now ∷ times) beat k =
      ground (arith, λ (h : known w beat.db.workers ≡ true). beats_are_idle w service times beat h)

  -- A job that runs under a registered worker is taken from it, as of the time when the worker was
  -- first seen, however often and lately the worker has beaten: where ids are unique and the limit
  -- is no less than the number of jobs, recovery makes the job pending and free, if the deadline is
  -- past the `last_seen` of the worker's row and the job has attempts left. No error is emitted.
  pub living_worker_loses_job :
      (w id count : ℕ) (service : String) (times : List ℤ) (dead_since : ℤ) (beat : Beat)
      {r : Row Raw}
      → Unique beat.db.jobs
      → length beat.db.jobs ≤ count
      → known w beat.db.workers ≡ true
      → row id beat.db.jobs ≡ some r
      → r.lock_by ≡ some w
      → abandoned E config dead_since beat.db.workers r ≡ true
      → let after = beat_all w service times beat in
        (row id (reenqueue_orphaned E config count dead_since after.db).1.jobs
          ≡ some (orphan_row E config r))
        × (after.emitted ≡ beat.emitted)
  living_worker_loses_job w id count service times dead_since beat {r} u roomy k there held lost =
      rw (beats_are_idle w service times beat k)
        (ground (arith, reenqueue_orphaned-row count id dead_since beat.db u roomy there), refl)
