-- ===== src/Sql/Dashboard.antt =====
-- packages/apalis-sql/src/{sqlite,mysql,postgres}.rs: what the dashboards of the three storages share.
pub mod Counts
pub mod Pages
use apalis_cron_jobs.Prelude.{
  ℕ, zero, suc, ◌+◌, ◌-◌, ◌*◌, ◌≡◌, refl, sym, ap, ◌∙◌, Bool, true, not, ◌&&◌, ◌||◌, List, [], ◌∷◌,
  ◌++◌, take, drop, tally, select, map, String, arith,
}
use apalis_cron_jobs.Prelude.Outcome.{Result, ok, err, map_ok}
use text.Mathlib.Text.{◌==◌ as str_eq}
use apalis_cron_jobs.Core.State.{State, pending, running, done, failed, killed, scheduled, display}
use apalis_cron_jobs.Core.Request.{Parts, Request, new_with_ctx}
use apalis_cron_jobs.Sql.Context.{Config, SqlContext}
use apalis_cron_jobs.Sql.Engine.{SqlError, panic, Engine}
use apalis_cron_jobs.Sql.Rows.{from_row}
use apalis_cron_jobs.Sql.Table.{
  Row, WorkerRow, Tables, is_pending, is_running, is_done, is_failed, is_killed,
}

-- packages/apalis-core/src/backend.rs.
pub record Stat : Type 0 where
  pub pending : ℕ
  pub running : ℕ
  pub dead : ℕ
  pub failed : ℕ
  pub success : ℕ

abbrev pub is_text : String → State → Bool
is_text text status = str_eq (display status) text

module _ {Raw : Type 0} (config : Config) where
  abbrev pub in_namespace : Row Raw → Bool
  in_namespace r = str_eq r.job_type config.namespace

  abbrev pub counted : (State → Bool) → List (Row Raw) → ℕ
  counted is jobs = tally (λ r. is r.status && in_namespace r) jobs

  -- The columns pending, running, done, retry, failed and killed of the query of `stats`.
  pub six_counts : List (Row Raw) → ℕ × ℕ × ℕ × ℕ × ℕ × ℕ
  six_counts jobs = (
    counted (is_text "Pending") jobs,
    counted (is_text "Running") jobs,
    counted (is_text "Done") jobs,
    counted (is_text "Retry") jobs,
    counted (is_text "Failed") jobs,
    counted (is_text "Killed") jobs,
  )

module _ {Args Raw : Type 0} (E : Engine Args Raw) (config : Config) where
  -- Sorted by `before`; LIMIT 10 OFFSET (page - 1) * 10, from page 1 on.
  pub page_by : (Row Raw → Row Raw → Bool) → State → ℕ → Tables Raw → List (Row Raw)
  page_by before status page db = take 10 (
      drop ((page - 1) * 10) (
        E.order_by before
          (select (λ r. is_text (display status) r.status && in_namespace config r) db.jobs)))

  -- A row that cannot be decoded is a panic. Each request gets a fresh id of its own.
  pub decoded :
      (Row Raw → ℕ) → List (Row Raw) → Result SqlError (List (Request Args (Parts SqlContext)))
  unfolding from_row new_with_ctx
  decoded fresh [] = ok []
  decoded fresh (r ∷ rs) =
      let rest = decoded fresh rs in
      elim (E.decode r.job) [
        | err e ↦ err panic
        | ok args ↦
            map_ok (λ reqs. new_with_ctx (fresh r) args (from_row E config r).parts ∷ reqs) rest
      ]

-- The workers of the namespace, as ids and layers; how the server orders them by `last_seen DESC`
-- is an argument.
pub workers_by :
    {Raw : Type 0} → Config → (List WorkerRow → List WorkerRow) → Tables Raw → List (ℕ × String)
workers_by config order db =
    map (λ v. (v.id, v.layers))
      (take 20 (order (select (λ v. str_eq v.worker_type config.namespace) db.workers)))
