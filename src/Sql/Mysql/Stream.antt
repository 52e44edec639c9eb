-- ===== src/Sql/Mysql/Stream.antt =====
-- packages/apalis-sql/src/mysql.rs: the rounds of `stream_jobs`, which lock jobs and read them.
use apalis_cron_jobs.Prelude.{
  ℕ, ◌^◌, Bool, not, ◌&&◌, ◌||◌, Option, none, some, List, [], ◌∷◌, tally, select, leb, ◌==◌,
  if◌then◌else◌,
}
use apalis_cron_jobs.Prelude.Int.{ℤ, ltb_ℤ, leb_ℤ}
use apalis_cron_jobs.Prelude.Outcome.{Result, ok, err, Stateful}
use text.Mathlib.Text.{◌==◌ as str_eq}
use apalis_cron_jobs.Core.Request.{Request}
use apalis_cron_jobs.Sql.Context.{Config, SqlContext}
use apalis_cron_jobs.Sql.Engine.{SqlError, invalid_data, foreign_key_violation, Engine}
use apalis_cron_jobs.Sql.Table.{Row, Tables, known, is_pending, is_null, update_where}
use apalis_cron_jobs.Sql.Rows.{to_request, lock_row, waiting}
use apalis_cron_jobs.Sql.Selection.{id_in, pick}

module _ {Args Raw : Type 0} (E : Engine Args Raw) (config : Config) where
  open E use {order_by}

  abbrev M : Type 0 → Type 0
  M A = Stateful (Tables Raw) SqlError A

  -- The jobs that a round asks for.
  abbrev pub due_by : ℤ → Row Raw → Bool
  due_by now r = waiting E config r && (leb_ℤ r.run_at now && str_eq r.job_type config.namespace)

  -- `ORDER BY priority DESC, run_at ASC`.
  abbrev pub sooner : Row Raw → Row Raw → Bool
  sooner r s =
      ltb_ℤ s.priority r.priority || (not (ltb_ℤ r.priority s.priority) && ltb_ℤ r.run_at s.run_at)

  -- Rows that other transactions hold are skipped.
  unfoldable pub listed : ℤ → (ℕ → Bool) → List (Row Raw) → List (Row Raw)
  listed now skipped jobs =
      pick E config.buffer_size sooner (λ r. due_by now r && not (skipped r.id)) jobs

  -- What the UPDATE of the transaction locks of the jobs that were picked.
  abbrev pub lockable : List (Row Raw) → Row Raw → Bool
  lockable picked r = id_in picked r && (is_pending r.status && is_null r.lock_by)

  -- The transaction of a round: the jobs it picked, if any.
  unfoldable pub lock_jobs : ℕ → ℤ → (ℕ → Bool) → M (List (Row Raw))
  unfolding listed
  lock_jobs w now skipped db =
      let picked = listed now skipped db.jobs in
      if known w db.workers || tally (lockable picked) db.jobs == 0
      then (
        ok picked,
        record db { jobs = update_where (lockable picked) (lock_row E config w now) db.jobs },
      )
      else (err foreign_key_violation, db)

  -- The rows that are read after the transaction.
  unfoldable pub read_jobs : List (Row Raw) → Tables Raw → List (Row Raw)
  read_jobs picked db = order_by sooner (select (id_in picked) db.jobs)

  -- An item of each row, up to one that cannot be decoded, which ends the stream.
  pub items : List (Row Raw) → List (Result SqlError (Option (Request Args SqlContext)))
  unfolding to_request
  items [] = []
  items (r ∷ rs) = elim (to_request E config r) [
    | ok req ↦ ok (some req) ∷ items rs
    | err e ↦ err e ∷ []
  ]

  -- A round of `stream_jobs`, after the sleep: its items and the tables. The other sessions write
  -- as they will between the transaction and the read.
  pub stream_round :
      ℕ
      → Bool
      → ℤ
      → (ℕ → Bool)
      → (Tables Raw → Tables Raw)
      → Tables Raw
      → List (Result SqlError (Option (Request Args SqlContext))) × Tables Raw
  unfolding lock_jobs read_jobs items
  stream_round w is_ready now skipped others db =
      if leb (2 ^ 32) config.buffer_size
      then (err (invalid_data "out of range") ∷ [], db)
      else if not is_ready
      then ([], db)
      else let locked = lock_jobs w now skipped db in
        elim locked.0 [
          | err e ↦ (err e ∷ [], locked.1)
          | ok [] ↦ (ok none ∷ [], db)
          | ok (r ∷ rs) ↦ let later = others locked.1 in (items (read_jobs (r ∷ rs) later), later)
        ]
