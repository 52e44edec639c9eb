-- ===== src/Sql/Postgres/Expose.antt =====
-- packages/apalis-sql/src/postgres.rs: what the storage tells a dashboard.
use apalis_cron_jobs.Prelude.{
  ℕ, ◌+◌, ◌≡◌, ap, Bool, true, false, not, ◌&&◌, ◌||◌, Option, none, some, List, tally, arith,
  String,
}
use apalis_cron_jobs.Prelude.Int.{ℤ, ltb_ℤ}
use apalis_cron_jobs.Prelude.Outcome.{Result}
use apalis_cron_jobs.Core.State.{State}
use apalis_cron_jobs.Core.Request.{Parts, Request}
use apalis_cron_jobs.Sql.Context.{Config, SqlContext}
use apalis_cron_jobs.Sql.Engine.{SqlError, Engine}
use apalis_cron_jobs.Sql.Table.{Row, WorkerRow, Tables, is_failed, is_killed}
use apalis_cron_jobs.Sql.Dashboard.{
  Stat, is_text, in_namespace, counted, six_counts, page_by, decoded, workers_by,
}
use apalis_cron_jobs.Sql.Dashboard.Counts.{six_counts_lem, counted_total}

module _ {Args Raw : Type 0} (E : Engine Args Raw) (config : Config) where
  pub stats : Tables Raw → Stat
  stats db =
      let res = six_counts config db.jobs in
      record { pending = res.0; running = res.1; dead = res.4; failed = res.3; success = res.2 }

  -- `DESC` puts NULL first.
  abbrev pub later : Option ℤ → Option ℤ → Bool
  later none none = false
  later none (some b) = true
  later (some a) none = false
  later (some a) (some b) = ltb_ℤ b a

  -- `ORDER BY done_at DESC, run_at DESC`.
  abbrev pub latest : Row Raw → Row Raw → Bool
  latest r s =
      later r.done_at s.done_at || (not (later s.done_at r.done_at) && ltb_ℤ s.run_at r.run_at)

  pub page_rows : State → ℕ → Tables Raw → List (Row Raw)
  page_rows = page_by E config latest

  pub list_jobs :
      (Row Raw → ℕ)
      → State
      → ℕ
      → Tables Raw
      → Result SqlError (List (Request Args (Parts SqlContext)))
  unfolding page_rows
  list_jobs fresh status page db = decoded E config fresh (page_rows status page db)

  pub list_workers : (List WorkerRow → List WorkerRow) → Tables Raw → List (ℕ × String)
  list_workers = workers_by config

  -- The dashboard shows the failed jobs as dead, and none as failed; the jobs of the namespace that
  -- its five counts leave out are those killed and those scheduled.
  pub stats_lem :
      (db : Tables Raw)
      → let s = stats db in
        (s.dead ≡ counted config is_failed db.jobs)
        × (s.failed ≡ 0)
        × (s.pending
              + s.running
              + s.dead
              + s.failed
              + s.success
              + counted config is_killed db.jobs
              + counted config (is_text "Scheduled") db.jobs
            ≡ tally (in_namespace config) db.jobs)
  unfolding stats
  stats_lem db =
      let e = six_counts_lem config db.jobs in
      let dead = ap (λ c. c.4) e in
      let failed = ap (λ c. c.3) e in
      (
        dead,
        failed,
        omega (
          arith,
          counted_total config db.jobs,
          dead,
          failed,
          ap (λ c. c.0) e,
          ap (λ c. c.1) e,
          ap (λ c. c.2) e,
        ),
      )
