-- ===== src/Sql/Postgres.antt =====
-- packages/apalis-sql/src/postgres.rs, and the function get_jobs of its migrations: the storage's
-- methods as steps on the tables. The clock is an argument; a statement either fails by a constraint
-- of the schema or is carried out.
pub mod Locks
pub mod Settling
pub mod Heartbeat
pub mod Life
pub mod Expose
pub mod Acks
pub mod Delivery
pub mod Listen
pub mod Chunk
pub mod Examples
use apalis_cron_jobs.Prelude.{
  ℕ, ◌+◌, ◌^◌, String, Bool, true, false, not, ◌&&◌, ◌||◌, Option, none, some, List, [], ◌∷◌, ◌++◌,
  tally, select, map, ltb, leb, ◌==◌, if◌then◌else◌,
}
use apalis_cron_jobs.Prelude.Int.{ℤ, pos, ◌+ℤ◌, ltb_ℤ}
use apalis_cron_jobs.Prelude.Outcome.{
  Result, ok, err, Stateful, pure, lift, map_err, map_ok, ◌>>=◌, ◌>>◌,
}
use text.Mathlib.Text.{◌==◌ as str_eq}
use apalis_cron_jobs.Core.State.{State}
use apalis_cron_jobs.Core.Request.{Parts, Request}
use apalis_cron_jobs.Core.Response.{Response}
use apalis_cron_jobs.Sql.Context.{Config, SqlContext, calculate_status}
use apalis_cron_jobs.Sql.Engine.{
  SqlError, invalid_data, foreign_key_violation, out_of_range, panic, Engine,
}
use apalis_cron_jobs.Sql.Table.{
  Row, WorkerRow, Tables, known, is_running, is_done, is_null, update_where, row,
}
use apalis_cron_jobs.Sql.Rows.{
  to_request, lock_row, waiting, new_row, context_row, may_refer, held_by, orphaned_by,
}
use apalis_cron_jobs.Sql.Invariant.{insert}
use apalis_cron_jobs.Sql.Selection.{id_in, pick}

module _ {Args Raw : Type 0} (E : Engine Args Raw) (config : Config) where
  open E use {encode}

  abbrev pub M : Type 0 → Type 0
  M A = Stateful (Tables Raw) SqlError A

  -- The time is one that chrono can represent.
  pub keep_alive_at : ℕ → String → ℤ → M (Unit {0})
  keep_alive_at w layers last_seen db =
      let touch = λ (v : WorkerRow). if v.id == w then record v { last_seen = last_seen } else v in
      let new_worker : WorkerRow = record {
        id = w;
        worker_type = config.namespace;
        layers = layers;
        last_seen = last_seen;
      } in
      (
        ok tt,
        record db {
          workers =
              if known w db.workers then map touch db.workers else db.workers ++ new_worker ∷ [];
        },
      )

  -- The jobs that `get_jobs` looks for.
  abbrev pub due_before : ℤ → Row Raw → Bool
  due_before now r =
      waiting E config r && (ltb_ℤ r.run_at now && str_eq r.job_type config.namespace)

  abbrev pub sooner : Row Raw → Row Raw → Bool
  sooner r s =
      ltb_ℤ s.priority r.priority || (not (ltb_ℤ r.priority s.priority) && ltb_ℤ r.run_at s.run_at)

  -- Rows that other transactions hold are skipped.
  unfoldable pub listed : ℤ → (ℕ → Bool) → List (Row Raw) → List (Row Raw)
  listed now skipped jobs =
      pick E config.buffer_size sooner (λ r. due_before now r && not (skipped r.id)) jobs

  -- `get_jobs`: the rows that it returns stand in the order of the table here, which nothing in
  -- this library relies on.
  pub get_jobs : ℕ → ℤ → (ℕ → Bool) → M (List (Row Raw))
  unfolding listed
  get_jobs w now skipped db =
      let picked = listed now skipped db.jobs in
      if known w db.workers || tally (id_in picked) db.jobs == 0
      then (
        ok (map (lock_row E config w now) (select (id_in picked) db.jobs)),
        record db { jobs = update_where (id_in picked) (lock_row E config w now) db.jobs },
      )
      else (err foreign_key_violation, db)

  -- Arguments that cannot be decoded are a panic.
  pub requests : List (Row Raw) → Result SqlError (List (Request Args SqlContext))
  unfolding to_request
  requests [] = ok []
  requests (r ∷ rs) =
      let rest = requests rs in
      elim (to_request E config r) [
        | err e ↦ err panic
        | ok req ↦ map_ok (λ (reqs : List (Request Args SqlContext)). req ∷ reqs) rest
      ]

  pub fetch_next : ℕ → ℤ → (ℕ → Bool) → M (List (Request Args SqlContext))
  unfolding get_jobs requests
  fetch_next w now skipped db =
      if leb (2 ^ 31) config.buffer_size
      then (err (invalid_data "out of range"), db)
      else (get_jobs w now skipped >>= λ rows. lift (requests rows)) db

  pub push_request : Request Args SqlContext → ℤ → M (Parts SqlContext)
  unfolding insert
  push_request req now = do
    raw ← lift (map_err invalid_data (encode req.args))
    insert (new_row E config raw req.parts now)
    pure req.parts

  -- The codec encodes what is raw already, by an encoder for such values.
  pub push_raw_request :
      (Raw → Result String Raw) → Request Raw SqlContext → ℤ → M (Parts SqlContext)
  unfolding insert
  push_raw_request encode_raw req now = do
    raw ← lift (map_err invalid_data (encode_raw req.args))
    insert (new_row E config raw req.parts now)
    pure req.parts

  -- `on` is a time that chrono can represent.
  pub schedule_request : Request Args SqlContext → ℤ → M (Parts SqlContext)
  unfolding insert
  schedule_request req on = do
    raw ← lift (map_err invalid_data (encode req.args))
    insert (new_row E config raw req.parts on)
    pure req.parts

  pub fetch_by_id : ℕ → M (Option (Request Args SqlContext))
  unfolding to_request
  fetch_by_id job_id db = elim (row job_id db.jobs) [
    | none ↦ (ok none, db)
    | some job ↦ (map_ok some (to_request E config job), db)
  ]

  -- Jobs of every namespace are counted.
  pub len : M ℕ
  len db = (ok (tally (waiting E config) db.jobs), db)

  pub is_empty : M Bool
  unfolding len
  is_empty = len >>= λ c. pure (c == 0)

  abbrev pub postpone : ℤ → Row Raw → Row Raw
  postpone on r = record r {
    status = State.pending;
    done_at = none;
    lock_by = none;
    lock_at = none;
    run_at = on;
  }

  -- The wait is in seconds, and the sum is a time that chrono can represent.
  pub reschedule : Request Args SqlContext → ℕ → ℤ → M (Unit {0})
  reschedule job wait now db = (
    ok tt,
    record db {
      jobs = update_where (λ r. r.id == job.parts.task_id) (postpone (now +ℤ pos wait)) db.jobs;
    },
  )

  pub update : Request Args SqlContext → M (Unit {0})
  update job db =
      if leb (2 ^ 31) job.parts.attempt
      then (err (invalid_data "out of range"), db)
      else if is_null (row job.parts.task_id db.jobs)
          || may_refer E config job.parts.context.lock_by db.workers
      then (
        ok tt,
        record db {
          jobs =
              update_where (λ r. r.id == job.parts.task_id)
                (context_row E config job.parts.attempt job.parts.context) db.jobs;
        },
      )
      else (err foreign_key_violation, db)

  pub vacuum : M ℕ
  vacuum db = (
    ok (tally (λ r. is_done r.status) db.jobs),
    record db { jobs = select (λ r. not (is_done r.status)) db.jobs },
  )

  pub retry : ℕ → ℕ → M (Unit {0})
  retry w id db = (
    ok tt,
    record db {
      jobs =
          update_where (held_by E config w id)
            (λ r. record r { status = State.pending; done_at = none; lock_by = none }) db.jobs;
    },
  )

  pub kill : ℕ → ℕ → ℤ → M (Unit {0})
  kill w id now db = (
    ok tt,
    record db {
      jobs =
          update_where (held_by E config w id)
            (λ r. record r { status = State.killed; done_at = some now }) db.jobs;
    },
  )

  abbrev pub abandoned : ℤ → List WorkerRow → Row Raw → Bool
  abandoned dead_since workers r =
      is_running r.status && orphaned_by E config dead_since r.lock_by workers

  -- The attempts stay as they are.
  abbrev pub abandon : Row Raw → Row Raw
  abandon r = record r {
    status = State.pending;
    done_at = none;
    lock_by = none;
    lock_at = none;
    last_error = some "Job was abandoned";
  }

  -- `lock_at ASC`: NULL comes last.
  abbrev pub nulls_last : Option ℤ → Option ℤ → Bool
  nulls_last none b = false
  nulls_last (some a) none = true
  nulls_last (some a) (some b) = ltb_ℤ a b

  -- The limit is not negative.
  pub reenqueue_orphaned : ℕ → ℤ → M (Unit {0})
  unfolding orphaned_by
  reenqueue_orphaned count dead_since db =
      let picked =
        pick E count (λ r s. nulls_last r.lock_at s.lock_at) (abandoned dead_since db.workers)
          db.jobs in
      (ok tt, record db { jobs = update_where (id_in picked) abandon db.jobs })
