-- ===== src/Sql/Postgres/Heartbeat.antt =====
-- packages/apalis-sql/src/postgres.rs: the branches of the loop of `poll`, a turn at a time, and a job
-- whose workers die of it.
use apalis_cron_jobs.Prelude.{
  ℕ, zero, suc, ◌*◌, ◌≡◌, refl, ◌≤◌, String, Bool, true, false, Option, none, some, List, [], ◌∷◌,
  ◌++◌, length, if◌then◌else◌, arith,
}
use apalis_cron_jobs.Prelude.Int.{ℤ}
use apalis_cron_jobs.Prelude.Outcome.{Result, ok, err}
use apalis_cron_jobs.Core.Request.{Request}
use apalis_cron_jobs.Sql.Context.{Config, SqlContext}
use apalis_cron_jobs.Sql.Engine.{
  SqlError, invalid_data, unique_violation, foreign_key_violation, data_too_long, out_of_range,
  panic, Engine,
}
use apalis_cron_jobs.Sql.Rows.{lock_row, orphaned_by}
use apalis_cron_jobs.Sql.Selection.{
  id_in, pick, row-update-pick, length-update_where, update_where-Unique,
}
use apalis_cron_jobs.Sql.Table.{Row, Tables, known, row, Unique}
use apalis_cron_jobs.Sql.Postgres.{
  listed, keep_alive_at, get_jobs, fetch_next, due_before, reenqueue_orphaned, abandon, abandoned,
  nulls_last,
}
use apalis_cron_jobs.Sql.Postgres.Chunk.{AckRow, ack_chunk}
use apalis_cron_jobs.Sql.Postgres.Locks.{locked, get_jobs-locked, locked-row, locked-Unique}

pub data PgPollError : Type 0 where
  ack_error fetch_next_error pg_notification_error keep_alive_error reenqueue_orphaned_error :
      SqlError → PgPollError
  codec_error : String → PgPollError

is_panic : SqlError → Bool
is_panic panic = true
is_panic (invalid_data e) = false
is_panic unique_violation = false
is_panic foreign_key_violation = false
is_panic data_too_long = false
is_panic out_of_range = false

module _ {Args Raw : Type 0} (E : Engine Args Raw) (config : Config) where
  -- The tables, the requests that were sent to the stream and the errors that were emitted. The
  -- stream's receiver is open and takes what is sent.
  pub record Beat : Type 0 where
    pub db : Tables Raw
    pub sent : List (Request Args SqlContext)
    pub emitted : List PgPollError

  -- What one turn of the loop is about: a tick of a timer, or a chunk of acknowledgements with
  -- the server's choice among them and whether the codec encoded them.
  pub data Turn : Type 0 where
    keep_alive : ℤ → Turn
    acks : (which : ℕ → ℕ) → ℤ → List AckRow → Option String → Turn
    poll_next : (is_ready : Bool) → ℤ → (ℕ → Bool) → Turn
    pg_notification : ℤ → (ℕ → Bool) → Turn
    reenqueue : (dead_since : ℤ) → Turn

  module _ (worker_id : ℕ) (service : String) where
    note : (SqlError → PgPollError) → Result SqlError (Unit {0}) × Tables Raw → Beat → Beat
    note kind (ok tt, db') beat = record beat { db = db' }
    note kind (err e, db') beat = record beat { db = db'; emitted = beat.emitted ++ kind e ∷ [] }

    -- `fetch_next_batch`: what is fetched is sent; a panic ends the loop.
    pub fetch_next_batch : (SqlError → PgPollError) → ℤ → (ℕ → Bool) → Beat → Result (Unit {0}) Beat
    unfolding is_panic
    fetch_next_batch kind now skipped beat =
        let fetched = fetch_next E config worker_id now skipped beat.db in
        elim fetched.0 [
          | ok reqs ↦ ok (record beat { db = fetched.1; sent = beat.sent ++ reqs })
          | err e ↦
              if is_panic e
              then err tt
              else ok (record beat { db = fetched.1; emitted = beat.emitted ++ kind e ∷ [] })
        ]

    -- `as i32` of the limits is not negative.
    pub turn : Turn → Beat → Result (Unit {0}) Beat
    unfolding note fetch_next_batch
    turn (keep_alive now) beat =
        ok (note keep_alive_error (keep_alive_at E config worker_id service now beat.db) beat)
    turn (acks which now rows none) beat =
        ok (note ack_error (ack_chunk E config which worker_id now rows beat.db) beat)
    turn (acks which now rows (some e)) beat =
        ok (record beat { emitted = beat.emitted ++ codec_error e ∷ [] })
    turn (poll_next is_ready now skipped) beat =
        if is_ready then fetch_next_batch fetch_next_error now skipped beat else ok beat
    turn (pg_notification now skipped) beat =
        fetch_next_batch pg_notification_error now skipped beat
    turn (reenqueue dead_since) beat = ok (
        note reenqueue_orphaned_error
          (reenqueue_orphaned E config (config.buffer_size * 10) dead_since beat.db) beat)

    -- Before the loop: recovery as of now, and a first beat.
    pub start_up : ℤ → ℤ → Beat → Beat
    unfolding note
    start_up now later beat =
        let recovered =
          note reenqueue_orphaned_error
            (reenqueue_orphaned E config (config.buffer_size * 10) now beat.db) beat in
        note keep_alive_error (keep_alive_at E config worker_id service later recovered.db)
          recovered

  -- A worker takes what is due and dies of it, and its jobs are recovered; so many times.
  pub crashes : ℕ → ℕ → ℤ → ℤ → ℕ → Tables Raw → Tables Raw
  crashes zero w now dead_since count db = db
  crashes (suc n) w now dead_since count db =
      crashes n w now dead_since count
        (reenqueue_orphaned E config count dead_since (get_jobs E config w now (λ i. false) db).1).1

  record DueAgain (w id a : ℕ) (now dead_since : ℤ) (count : ℕ) (db : Tables Raw) : Type 0 where
    unique : Unique db.jobs
    registered : known w db.workers ≡ true
    dead : orphaned_by E config dead_since (some w) db.workers ≡ true
    roomy : length db.jobs ≤ config.buffer_size
    limit : length db.jobs ≤ count
    job : Row Raw
    there : row id db.jobs ≡ some job
    due : due_before E config now job ≡ true
    same : job.attempts ≡ a

  crash-DueAgain :
      (w id a : ℕ) (now dead_since : ℤ) (count : ℕ) (db : Tables Raw)
      → DueAgain w id a now dead_since count db
      → DueAgain w id a now dead_since count
          (reenqueue_orphaned E config count dead_since
            (get_jobs E config w now (λ i. false) db).1).1
  unfolding reenqueue_orphaned
  crash-DueAgain w id a now dead_since count db d =
      let db1 = locked E config w now (λ i. false) db in
      let size =
        length-update_where (id_in (listed E config now (λ i. false) db.jobs))
          (lock_row E config w now) db.jobs in
      let there1 : row id db1.jobs ≡ some (lock_row E config w now d.job) =
        ground
          (arith, d.due, locked-row E config w id now (λ i. false) db d.unique d.roomy d.there) in
      let u1 = locked-Unique E config w now (λ i. false) db d.unique in
      let q = abandoned E config dead_since db.workers in
      let before = λ (r s : Row Raw). nulls_last E config r.lock_at s.lock_at in
      let size2 =
        length-update_where (id_in (pick E count before q db1.jobs)) (abandon E config) db1.jobs in
      rw (get_jobs-locked E config w now (λ i. false) db d.registered) (record {
        unique = update_where-Unique _ (abandon E config) (λ s. refl) db1.jobs u1;
        registered = d.registered;
        dead = d.dead;
        roomy = omega (arith, size, size2, d.roomy);
        limit = omega (arith, size, size2, d.limit);
        job = abandon E config (lock_row E config w now d.job);
        there = ground (
          arith,
          d.dead,
          row-update-pick E count before q (abandon E config) (λ s. refl) id db1.jobs u1
              (omega (arith, size, d.limit)) there1,
        );
        due = ground (arith, d.due);
        same = d.same;
      })

  -- A job whose workers die of it each time is due again after every recovery, as often as that
  -- happens, and its attempts are never counted: where ids are unique, the worker is registered in
  -- the namespace and last seen before the deadline, and both the buffer and the limit of the
  -- recovery are no less than the number of jobs.
  pub crashes_are_not_counted :
      (n w id : ℕ) (now dead_since : ℤ) (count : ℕ) (db : Tables Raw) {r : Row Raw}
      → Unique db.jobs
      → known w db.workers ≡ true
      → orphaned_by E config dead_since (some w) db.workers ≡ true
      → length db.jobs ≤ config.buffer_size
      → length db.jobs ≤ count
      → row id db.jobs ≡ some r
      → due_before E config now r ≡ true
      → (s : Row Raw) × (row id (crashes n w now dead_since count db).jobs ≡ some s)
        × (due_before E config now s ≡ true)
        × (s.attempts ≡ r.attempts)
  unfolding crashes
  crashes_are_not_counted n w id now dead_since count db {r} u k dead roomy limit there due =
      let d = after n db (record {
        unique = u;
        registered = k;
        dead = dead;
        roomy = roomy;
        limit = limit;
        job = r;
        there = there;
        due = due;
        same = refl;
      }) in
      (d.job, d.there, d.due, d.same)
    where
      after :
          (n : ℕ) (db : Tables Raw)
          → DueAgain w id r.attempts now dead_since count db
          → DueAgain w id r.attempts now dead_since count (crashes n w now dead_since count db)
      after zero db d = d
      after (suc n) db d = after n _ (crash-DueAgain w id r.attempts now dead_since count db d)
