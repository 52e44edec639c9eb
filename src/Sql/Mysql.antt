-- ===== src/Sql/Mysql.antt =====
-- packages/apalis-sql/src/mysql.rs: the storage's methods as steps on the tables. The clock is an
-- argument; a statement either fails by a constraint of the schema or is carried out.
pub mod Locks
pub mod Heartbeat
pub mod Life
pub mod Expose
pub mod Stream
pub mod Examples
use apalis_cron_jobs.Prelude.{
  ℕ, ◌+◌, ◌^◌, String, Bool, true, false, not, ◌&&◌, ◌||◌, Option, none, some, List, [], ◌∷◌, ◌++◌,
  tally, select, ltb, leb, ◌==◌, if◌then◌else◌,
}
use apalis_cron_jobs.Prelude.Int.{ℤ, pos, ◌+ℤ◌, ltb_ℤ, leb_ℤ}
use apalis_cron_jobs.Prelude.Outcome.{
  Result, ok, err, Stateful, pure, lift, map_err, map_ok, ◌>>=◌, ◌>>◌,
}
use text.Mathlib.Text.{◌==◌ as str_eq}
use apalis_cron_jobs.Core.State.{State}
use apalis_cron_jobs.Core.Request.{Parts, Request}
use apalis_cron_jobs.Core.Response.{Response}
use apalis_cron_jobs.Sql.Context.{Config, SqlContext, calculate_status}
use apalis_cron_jobs.Sql.Engine.{
  SqlError, invalid_data, foreign_key_violation, data_too_long, out_of_range, panic, Engine,
}
use apalis_cron_jobs.Sql.Table.{
  Row, WorkerRow, Tables, known, is_pending, is_running, is_done, is_null, update_where, row,
}
use apalis_cron_jobs.Sql.Rows.{
  earlier, to_request, lock_row, waiting, new_row, context_row, may_refer, held_by, orphaned_by,
  orphan_row,
}
use apalis_cron_jobs.Sql.Invariant.{insert}
use apalis_cron_jobs.Sql.Selection.{id_in, pick}

module _ {Args Raw : Type 0} (E : Engine Args Raw) (config : Config) where
  open E use {encode}

  abbrev pub M : Type 0 → Type 0
  M A = Stateful (Tables Raw) SqlError A

  -- `ON DUPLICATE KEY UPDATE id = ?` with the id that is there: no column changes, so that the
  -- column's `ON UPDATE CURRENT_TIMESTAMP` does not apply either.
  pub keep_alive_at : ℕ → String → ℤ → M (Unit {0})
  keep_alive_at w layers last_seen db =
      let new_worker : WorkerRow = record {
        id = w;
        worker_type = config.namespace;
        layers = layers;
        last_seen = last_seen;
      } in
      (
        ok tt,
        if known w db.workers then db else record db { workers = db.workers ++ new_worker ∷ [] },
      )

  pub push_request : Request Args SqlContext → ℤ → M (Parts SqlContext)
  unfolding insert
  push_request job now = do
    raw ← lift (map_err invalid_data (encode job.args))
    insert (new_row E config raw job.parts now)
    pure job.parts

  -- The codec encodes what is raw already, by an encoder for such values.
  pub push_raw_request :
      (Raw → Result String Raw) → Request Raw SqlContext → ℤ → M (Parts SqlContext)
  unfolding insert
  push_raw_request encode_raw job now = do
    raw ← lift (map_err invalid_data (encode_raw job.args))
    insert (new_row E config raw job.parts now)
    pure job.parts

  -- `on` is a time that chrono can represent.
  pub schedule_request : Request Args SqlContext → ℤ → M (Parts SqlContext)
  unfolding insert
  schedule_request req on = do
    raw ← lift (map_err invalid_data (encode req.args))
    insert (new_row E config raw req.parts on)
    pure req.parts

  pub fetch_by_id : ℕ → M (Option (Request Args SqlContext))
  unfolding to_request
  fetch_by_id job_id db = elim (row job_id db.jobs) [
    | none ↦ (ok none, db)
    | some job ↦ (map_ok some (to_request E config job), db)
  ]

  -- Jobs of every namespace are counted, and of the failed ones none.
  pub len : M ℕ
  len db = (ok (tally (λ r. is_pending r.status) db.jobs), db)

  pub is_empty : M Bool
  unfolding len
  is_empty = len >>= λ c. pure (c == 0)

  -- The number of seconds is written into a datetime column; what the server makes of it is an
  -- argument.
  pub reschedule : (ℤ → Result SqlError ℤ) → Request Args SqlContext → ℕ → ℤ → M (Unit {0})
  reschedule as_datetime job wait now db =
      if leb (2 ^ 63) wait
      then (err (invalid_data "out of range"), db)
      else if is_null (row job.parts.task_id db.jobs)
      then (ok tt, db)
      else elim (as_datetime (now +ℤ pos wait)) [
        | err e ↦ (err e, db)
        | ok run_at ↦ (
          ok tt,
          record db {
            jobs =
                update_where (λ r. r.id == job.parts.task_id)
                  (λ r. record r {
                    status = State.pending;
                    done_at = none;
                    lock_by = none;
                    lock_at = none;
                    run_at = run_at;
                  })
                  db.jobs;
          },
        )
      ]

  datetime_or_null : (ℤ → Result SqlError ℤ) → Option ℤ → Result SqlError (Option ℤ)
  datetime_or_null as_datetime none = ok none
  datetime_or_null as_datetime (some t) = map_ok some (as_datetime t)

  -- The column of the attempts is an i32.
  pub update : (ℤ → Result SqlError ℤ) → Request Args SqlContext → M (Unit {0})
  unfolding datetime_or_null
  update as_datetime job db =
      let ctx = job.parts.context in
      if leb (2 ^ 63) job.parts.attempt
      then (err (invalid_data "out of range"), db)
      else if is_null (row job.parts.task_id db.jobs)
      then (ok tt, db)
      else if leb (2 ^ 31) job.parts.attempt
      then (err out_of_range, db)
      else elim (datetime_or_null as_datetime ctx.done_at) [
        | err e ↦ (err e, db)
        | ok done_at ↦ elim (datetime_or_null as_datetime ctx.lock_at) [
          | err e ↦ (err e, db)
          | ok lock_at ↦
              if may_refer E config ctx.lock_by db.workers
              then (
                ok tt,
                record db {
                  jobs =
                      update_where (λ r. r.id == job.parts.task_id)
                        (context_row E config job.parts.attempt
                          (record ctx { done_at = done_at; lock_at = lock_at }))
                        db.jobs;
                },
              )
              else (err foreign_key_violation, db)
        ]
      ]

  pub vacuum : M ℕ
  vacuum db = (
    ok (tally (λ r. is_done r.status) db.jobs),
    record db { jobs = select (λ r. not (is_done r.status)) db.jobs },
  )

  pub retry : ℕ → ℕ → M (Unit {0})
  retry w id db = (
    ok tt,
    record db {
      jobs =
          update_where (held_by E config w id)
            (λ r. record r { status = State.pending; done_at = none; lock_by = none }) db.jobs;
    },
  )

  pub kill : ℕ → ℕ → ℤ → M (Unit {0})
  kill w id now db = (
    ok tt,
    record db {
      jobs =
          update_where (held_by E config w id)
            (λ r. record r { status = State.killed; done_at = some now }) db.jobs;
    },
  )

  -- The jobs that the joined SELECT finds: those with attempts left.
  abbrev pub abandoned : ℤ → List WorkerRow → Row Raw → Bool
  abandoned dead_since workers r =
      ltb_ℤ (pos r.attempts) r.max_attempts
      && (is_running r.status && orphaned_by E config dead_since r.lock_by workers)

  -- The limit is not negative.
  pub reenqueue_orphaned : ℕ → ℤ → M Bool
  unfolding orphaned_by
  reenqueue_orphaned count dead_since db =
      let picked =
        pick E count (λ r s. earlier r.lock_at s.lock_at) (abandoned dead_since db.workers)
          db.jobs in
      (ok true, record db { jobs = update_where (id_in picked) (orphan_row E config) db.jobs })

  -- A response as the loop of `poll` writes it, with the encoded result; a text that the column
  -- does not hold fails where the job's row is the worker's. The attempts are below 2 ^ 31.
  pub ack_job :
      {Res : Type 0} (too_long : String → Bool)
      → SqlContext
      → Response Res
      → Result String String
      → ℤ
      → M (Unit {0})
  ack_job too_long ctx res last_result now db = elim ctx.lock_by [
    | none ↦ (err panic, db)
    | some w ↦ elim last_result [
      | err e ↦ (err (invalid_data e), db)
      | ok text ↦
          if ltb 0 (tally (held_by E config w res.task_id) db.jobs) && too_long text
          then (err data_too_long, db)
          else (
            ok tt,
            record db {
              jobs =
                  update_where (held_by E config w res.task_id)
                    (λ r. record r {
                      status = calculate_status ctx res;
                      done_at = some now;
                      last_error = some text;
                      attempts = res.attempt;
                    })
                    db.jobs;
            },
          )
    ]
  ]
