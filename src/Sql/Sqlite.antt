-- ===== src/Sql/Sqlite.antt =====
-- packages/apalis-sql/src/sqlite.rs and from_row.rs: the storage's methods as steps on the tables.
-- The clock is an argument; a statement either fails by a constraint of the schema or is carried out.
pub mod Locks
pub mod Settling
pub mod Recovery
pub mod Stream
pub mod Expose
pub mod Life
pub mod Heartbeat
pub mod Examples
use apalis_cron_jobs.Prelude.{
  ℕ, ◌+◌, ◌*◌, ◌%◌, ◌^◌, ◌≡◌, ◌<◌, ◌≤◌, String, Bool, true, false, not, ◌&&◌, ◌||◌, Option, none,
  some, List, [], ◌∷◌, ◌++◌, length, take, drop, tally, select, All, map, ltb, leb, ◌==◌,
  if◌then◌else◌,
}
use apalis_cron_jobs.Prelude.Int.{ℤ, pos, negsuc, ◌+ℤ◌, ltb_ℤ, leb_ℤ, as_usize}
use apalis_cron_jobs.Prelude.Outcome.{
  Result, ok, err, Stateful, pure, fail, lift, map_err, map_ok, ◌>>=◌, ◌>>◌,
}
use text.Mathlib.Text.{◌==◌ as str_eq}
use apalis_cron_jobs.Core.Error.{Error}
use apalis_cron_jobs.Core.State.{State}
use apalis_cron_jobs.Core.Request.{Parts, Request, new_with_parts}
use apalis_cron_jobs.Core.Response.{Response}
use apalis_cron_jobs.Sql.Context.{Config, SqlContext, calculate_status}
use apalis_cron_jobs.Sql.Engine.{
  SqlError, invalid_data, unique_violation, foreign_key_violation, panic, Engine,
}
use apalis_cron_jobs.Sql.Table.{
  Row, WorkerRow, Tables, known, is_pending, is_running, is_done, is_failed, is_killed, is_null,
  locked_by, limit, update_where, find, row,
}
use apalis_cron_jobs.Sql.Invariant.{insert}
unfoldable pub use apalis_cron_jobs.Sql.Rows.{
  earlier, from_row, to_request, free, lock_row, waiting, due, higher, new_row, reschedule_row,
  context_row, may_refer, held_by, orphaned_by, orphan_row, orphaned, among,
}

module _ {Args Raw : Type 0} (E : Engine Args Raw) (config : Config) where
  open E use {order_by, get_i32, encode, decode}

  abbrev pub M : Type 0 → Type 0
  M A = Stateful (Tables Raw) SqlError A

  pub keep_alive_at : ℕ → String → ℤ → M (Unit {0})
  keep_alive_at w layers last_seen db =
      let touch = λ (v : WorkerRow). if v.id == w then record v { last_seen = last_seen } else v in
      (
        ok tt,
        record db {
          workers =
              if known w db.workers
              then map touch db.workers
              else db.workers
                ++ record {
                  id = w;
                  worker_type = config.namespace;
                  layers = layers;
                  last_seen = last_seen;
                }
                  ∷ [];
        },
      )

  pub fetch_next : ℕ → ℤ → ℕ → M (Option (Row Raw))
  fetch_next w now id db = elim (find (λ r. r.id == id && free E config r) db.jobs) [
    | none ↦ (
      ok (
          find (λ r. r.id == id && (locked_by w r.lock_by && str_eq r.job_type config.namespace))
            db.jobs),
      db,
    )
    | some r ↦
        if known w db.workers
        then (
          ok (some (lock_row E config w now r)),
          record db {
            jobs =
                update_where (λ r. r.id == id && free E config r) (lock_row E config w now) db.jobs;
          },
        )
        else (err foreign_key_violation, db)
  ]

  pub listed : ℤ → List (Row Raw) → List (Row Raw)
  listed now jobs =
      take config.buffer_size (order_by (higher E config) (select (due E config now) jobs))

  -- One round's items: each listed id is fetched in turn; the first error ends the stream.
  pub yield_jobs : ℕ → ℤ → List (Row Raw) → M (List (Option (Request Args SqlContext)))
  unfolding fetch_next to_request
  yield_jobs w now [] = pure []
  yield_jobs w now (r ∷ rs) = fetch_next w now r.id >>= λ res. elim res [
    | none ↦ yield_jobs w now rs >>= λ items. pure (none ∷ items)
    | some job ↦ lift (to_request E config job) >>= λ req.
        yield_jobs w now rs >>= λ items. pure (some req ∷ items)
  ]

  -- A round of `stream_jobs`, after the sleep: an empty one where the worker is not ready.
  pub stream_round : ℕ → Bool → ℤ → M (List (Option (Request Args SqlContext)))
  unfolding listed yield_jobs
  stream_round w is_ready now db =
      if not is_ready
      then (ok [], db)
      else if leb (2 ^ 63) config.buffer_size
      then (err (invalid_data "out of range"), db)
      else elim (listed now db.jobs) [
        | [] ↦ (ok (none ∷ []), db)
        | r ∷ rs ↦ yield_jobs w now (r ∷ rs) db
      ]

  pub push_request : Request Args SqlContext → ℤ → M (Parts SqlContext)
  unfolding insert
  push_request job now = do
    raw ← lift (map_err invalid_data (encode job.args))
    insert (new_row E config raw job.parts now)
    pure job.parts

  -- The codec encodes what is raw already, by an encoder for such values.
  pub push_raw_request :
      (Raw → Result String Raw) → Request Raw SqlContext → ℤ → M (Parts SqlContext)
  unfolding insert
  push_raw_request encode_raw job now = do
    raw ← lift (map_err invalid_data (encode_raw job.args))
    insert (new_row E config raw job.parts now)
    pure job.parts

  pub schedule_request : Request Args SqlContext → ℤ → M (Parts SqlContext)
  unfolding insert
  schedule_request req on = do
    raw ← lift (map_err invalid_data (encode req.args))
    insert (new_row E config raw req.parts on)
    pure req.parts

  pub fetch_by_id : ℕ → M (Option (Request Args SqlContext))
  unfolding to_request
  fetch_by_id job_id db = elim (row job_id db.jobs) [
    | none ↦ (ok none, db)
    | some job ↦ (map_ok some (to_request E config job), db)
  ]

  -- Jobs of every namespace are counted.
  pub len : M ℕ
  len db = (ok (tally (waiting E config) db.jobs), db)

  pub is_empty : M Bool
  unfolding len
  is_empty = len >>= λ c. pure (c == 0)

  pub reschedule : Request Args SqlContext → ℕ → ℤ → M (Unit {0})
  reschedule job wait now db =
      if ltb wait (2 ^ 63)
      then (
        ok tt,
        record db {
          jobs =
              update_where (λ r. r.id == job.parts.task_id)
                (reschedule_row E config (now +ℤ pos wait)) db.jobs;
        },
      )
      else (err (invalid_data "out of range"), db)

  pub update : Request Args SqlContext → M (Unit {0})
  update job db =
      if leb (2 ^ 63) job.parts.attempt
      then (err (invalid_data "out of range"), db)
      else if is_null (row job.parts.task_id db.jobs)
          || may_refer E config job.parts.context.lock_by db.workers
      then (
        ok tt,
        record db {
          jobs =
              update_where (λ r. r.id == job.parts.task_id)
                (context_row E config job.parts.attempt job.parts.context) db.jobs;
        },
      )
      else (err foreign_key_violation, db)

  pub vacuum : M ℕ
  vacuum db = (
    ok (tally (λ r. is_done r.status) db.jobs),
    record db { jobs = select (λ r. not (is_done r.status)) db.jobs },
  )

  pub retry : ℕ → ℕ → M (Unit {0})
  retry w id db = (
    ok tt,
    record db {
      jobs =
          update_where (held_by E config w id)
            (λ r. record r { status = State.pending; done_at = none; lock_by = none }) db.jobs;
    },
  )

  pub kill : ℕ → ℕ → ℤ → M (Unit {0})
  kill w id now db = (
    ok tt,
    record db {
      jobs =
          update_where (held_by E config w id)
            (λ r. record r { status = State.killed; done_at = some now }) db.jobs;
    },
  )

  -- The jobs that the inner SELECT picks, longest locked first.
  pub orphans : ℤ → ℤ → Tables Raw → List (Row Raw)
  orphans count dead_since db = limit count (
      order_by (λ r s. earlier r.lock_at s.lock_at)
        (select (orphaned E config dead_since db.workers) db.jobs))

  pub reenqueue_orphaned : ℤ → ℤ → M (Unit {0})
  unfolding orphans
  reenqueue_orphaned count dead_since db = (
    ok tt,
    record db {
      jobs =
          update_where (among E config (orphans count dead_since db)) (orphan_row E config) db.jobs;
    },
  )

  -- `serde_json::to_string` of the response is the argument `result`.
  pub ack : {Res : Type 0} → SqlContext → Response Res → Result String String → ℤ → M (Unit {0})
  ack ctx res result now db = elim result [
    | err e ↦ (err (invalid_data e), db)
    | ok text ↦ elim ctx.lock_by [
      | none ↦ (err panic, db)
      | some w ↦ (
        ok tt,
        record db {
          jobs =
              update_where (held_by E config w res.task_id)
                (λ r. record r {
                  status = calculate_status ctx res;
                  attempts = res.attempt % 2 ^ 32;
                  done_at = some now;
                  last_error = some text;
                })
                db.jobs;
        },
      )
    ]
  ]
