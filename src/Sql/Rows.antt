-- ===== src/Sql/Rows.antt =====
-- packages/apalis-sql/src/sqlite.rs and from_row.rs: the rows that the statements look for and write, and
-- a row as a request.
use apalis_cron_jobs.Prelude.{
  ℕ, ◌+◌, Bool, true, false, ◌&&◌, ◌||◌, Option, none, some, List, [], ◌∷◌, tally, ltb, ◌==◌,
  if◌then◌else◌,
}
use apalis_cron_jobs.Prelude.Int.{ℤ, pos, ltb_ℤ, as_usize}
use apalis_cron_jobs.Prelude.Outcome.{Result, map_err, map_ok}
use text.Mathlib.Text.{◌==◌ as str_eq}
use apalis_cron_jobs.Core.State.{State}
use apalis_cron_jobs.Core.Request.{Parts, Request, new_with_parts}
use apalis_cron_jobs.Sql.Context.{Config, SqlContext}
use apalis_cron_jobs.Sql.Engine.{SqlError, invalid_data, Engine}
use apalis_cron_jobs.Sql.Table.{
  Row, WorkerRow, known, is_pending, is_running, is_failed, is_null, locked_by,
}

-- `lock_at ASC`: NULL comes first.
unfoldable pub earlier : Option ℤ → Option ℤ → Bool
earlier none none = false
earlier none (some b) = true
earlier (some a) none = false
earlier (some a) (some b) = ltb_ℤ a b

unwrap_or : ℤ → Option ℤ → ℤ
unwrap_or z none = z
unwrap_or z (some a) = a

module _ {Args Raw : Type 0} (E : Engine Args Raw) (config : Config) where
  open E use {get_i32, decode}

  -- `FromRow for SqlRequest`: a row as a request, its arguments still encoded. Its time is one that
  -- chrono can represent.
  unfoldable pub from_row : Row Raw → Request Raw SqlContext
  unfolding unwrap_or new_with_parts
  from_row r = new_with_parts r.job (record {
    task_id = r.id;
    attempt = as_usize (unwrap_or (pos 0) (get_i32 r.attempts));
    context = record {
      status = r.status;
      run_at = r.run_at;
      max_attempts = r.max_attempts;
      last_error = r.last_error;
      lock_at = r.lock_at;
      lock_by = r.lock_by;
      done_at = r.done_at;
      priority = r.priority;
    };
    namespace = none;
  })

  -- The request that the worker gets: decoded, in the storage's own namespace.
  unfoldable pub to_request : Row Raw → Result SqlError (Request Args SqlContext)
  unfolding from_row new_with_parts
  to_request r =
      let stored = from_row r in
      map_ok
        (λ args. new_with_parts args (record (stored.parts) { namespace = some config.namespace }))
        (map_err invalid_data (decode stored.args))

  -- The row may be taken: it waits, and no one holds it.
  abbrev pub free : Row Raw → Bool
  free r = str_eq r.job_type config.namespace && (is_pending r.status && is_null r.lock_by)

  abbrev pub lock_row : ℕ → ℤ → Row Raw → Row Raw
  lock_row w now r = record r { status = State.running; lock_by = some w; lock_at = some now }

  -- The statement that a worker's stream begins each round with.
  abbrev pub waiting : Row Raw → Bool
  waiting r = is_pending r.status || (is_failed r.status && ltb_ℤ (pos r.attempts) r.max_attempts)

  abbrev pub due : ℤ → Row Raw → Bool
  due now r = waiting r && (ltb_ℤ r.run_at now && str_eq r.job_type config.namespace)

  -- `ORDER BY priority DESC`.
  abbrev pub higher : Row Raw → Row Raw → Bool
  higher r s = ltb_ℤ s.priority r.priority

  abbrev pub new_row : Raw → Parts SqlContext → ℤ → Row Raw
  new_row raw parts run_at = record {
    job = raw;
    id = parts.task_id;
    job_type = config.namespace;
    status = State.pending;
    attempts = 0;
    max_attempts = parts.context.max_attempts;
    run_at = run_at;
    last_error = none;
    lock_at = none;
    lock_by = none;
    done_at = none;
    priority = parts.context.priority;
  }

  abbrev pub reschedule_row : ℤ → Row Raw → Row Raw
  reschedule_row until r = record r {
    status = State.failed;
    done_at = none;
    lock_by = none;
    lock_at = none;
    run_at = until;
  }

  abbrev pub context_row : ℕ → SqlContext → Row Raw → Row Raw
  context_row attempts ctx r = record r {
    status = ctx.status;
    attempts = attempts;
    done_at = ctx.done_at;
    lock_by = ctx.lock_by;
    lock_at = ctx.lock_at;
    last_error = ctx.last_error;
    priority = ctx.priority;
  }

  -- Whether the foreign key of a new `lock_by` is met.
  abbrev pub may_refer : Option ℕ → List WorkerRow → Bool
  may_refer none ws = true
  may_refer (some w) ws = known w ws

  -- Only the worker that holds the job may write to it.
  abbrev pub held_by : ℕ → ℕ → Row Raw → Bool
  held_by w id r = r.id == id && locked_by w r.lock_by

  -- A job is orphaned when it runs under a worker of this namespace that was last seen too early.
  unfoldable pub orphaned_by : ℤ → Option ℕ → List WorkerRow → Bool
  orphaned_by dead_since lock [] = false
  orphaned_by dead_since lock (v ∷ vs) =
      if locked_by v.id lock
        && (ltb_ℤ v.last_seen dead_since && str_eq v.worker_type config.namespace)
      then true
      else orphaned_by dead_since lock vs

  abbrev pub orphan_row : Row Raw → Row Raw
  orphan_row r = record r {
    status = State.pending;
    done_at = none;
    lock_by = none;
    lock_at = none;
    attempts = r.attempts + 1;
    last_error = some "Job was abandoned";
  }

  abbrev pub orphaned : ℤ → List WorkerRow → Row Raw → Bool
  orphaned dead_since workers r = is_running r.status && orphaned_by dead_since r.lock_by workers

  abbrev pub among : List (Row Raw) → Row Raw → Bool
  among picked r = ltb 0 (tally (λ s. s.id == r.id) picked)
