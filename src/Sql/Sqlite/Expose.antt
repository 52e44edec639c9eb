-- ===== src/Sql/Sqlite/Expose.antt =====
-- packages/apalis-sql/src/sqlite.rs: what the storage tells a dashboard.
use apalis_cron_jobs.Prelude.{
  ℕ, ◌+◌, ◌≡◌, ◌≢◌, refl, Bool, not, ◌&&◌, ◌||◌, List, [], ◌∷◌, tally, All, arith, String,
}
use apalis_cron_jobs.Prelude.Int.{ltb_ℤ}
use apalis_cron_jobs.Prelude.Outcome.{Result}
use apalis_cron_jobs.Core.State.{State}
use apalis_cron_jobs.Core.Request.{Parts, Request}
use apalis_cron_jobs.Sql.Context.{Config, SqlContext}
use apalis_cron_jobs.Sql.Engine.{SqlError, Engine}
use apalis_cron_jobs.Sql.Table.{
  Row, WorkerRow, Tables, is_pending, is_running, is_done, is_failed, is_killed,
}
use apalis_cron_jobs.Sql.Sqlite.{earlier}
use apalis_cron_jobs.Sql.Dashboard.{Stat, in_namespace, counted, page_by, decoded, workers_by}

module _ {Args Raw : Type 0} (E : Engine Args Raw) (config : Config) where
  pub stats : Tables Raw → Stat
  stats db = record {
    pending = counted config is_pending db.jobs;
    running = counted config is_running db.jobs;
    dead = counted config is_killed db.jobs;
    failed = counted config is_failed db.jobs;
    success = counted config is_done db.jobs;
  }

  -- `ORDER BY done_at DESC, run_at DESC`, which puts NULL last.
  abbrev pub latest : Row Raw → Row Raw → Bool
  latest r s =
      earlier s.done_at r.done_at || (not (earlier r.done_at s.done_at) && ltb_ℤ s.run_at r.run_at)

  pub page_rows : State → ℕ → Tables Raw → List (Row Raw)
  page_rows = page_by E config latest

  pub list_jobs :
      (Row Raw → ℕ)
      → State
      → ℕ
      → Tables Raw
      → Result SqlError (List (Request Args (Parts SqlContext)))
  unfolding page_rows
  list_jobs fresh status page db = decoded E config fresh (page_rows status page db)

  pub list_workers : (List WorkerRow → List WorkerRow) → Tables Raw → List (ℕ × String)
  list_workers = workers_by config

  -- The five counts add up to the number of the namespace's jobs, where none is `Scheduled`, a
  -- state that no method of the storage writes by itself.
  pub stats_total :
      (db : Tables Raw)
      → All (λ r. r.status ≢ State.scheduled) db.jobs
      → let s = stats db in
        s.pending + s.running + s.dead + s.failed + s.success ≡ tally (in_namespace config) db.jobs
  unfolding stats
  stats_total db h = loop db.jobs h
    where
      loop :
          (jobs : List (Row Raw))
          → All (λ r. r.status ≢ State.scheduled) jobs
          → counted config is_pending jobs
              + counted config is_running jobs
              + counted config is_killed jobs
              + counted config is_failed jobs
              + counted config is_done jobs
            ≡ tally (in_namespace config) jobs
      loop [] h = refl
      loop (r ∷ rs) h = ground (arith, loop rs h.1)
