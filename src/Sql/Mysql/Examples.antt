-- ===== src/Sql/Mysql/Examples.antt =====
-- The theorems on the MySQL storage at a small table, on the engine that sorts by insertion.
use apalis_cron_jobs.Prelude.{ℕ, ◌≡◌, refl, ◌≤◌, false, [], ◌∷◌, ◌==◌, some, tally, arith}
use apalis_cron_jobs.Prelude.Int.{pos}
use apalis_cron_jobs.Prelude.Outcome.{ok, err}
use apalis_cron_jobs.Sql.Engine.{out_of_range}
use apalis_cron_jobs.Sql.Table.{Tables, row, Unique}
use apalis_cron_jobs.Sql.Selection.{pick}
use apalis_cron_jobs.Sql.Rows.{lock_row, orphaned_by, orphan_row}
use apalis_cron_jobs.Sql.Invariant.{loose}
use apalis_cron_jobs.Sql.Mysql.{reenqueue_orphaned, push_request}
use apalis_cron_jobs.Sql.Mysql.Stream.{lock_jobs, listed, read_jobs}
use apalis_cron_jobs.Sql.Mysql.Locks.{lock_jobs-exclusive, failed_job_given_twice}
use apalis_cron_jobs.Sql.Mysql.Heartbeat.{Beat, beat_all, living_worker_loses_job}
use apalis_cron_jobs.Sql.Mysql.Expose.{stats, stats_misreported}
use apalis_cron_jobs.Sql.Mysql.Life.{start, next, pushes, Reach-Locked}
use apalis_cron_jobs.Sql.Reference.{engine}
use apalis_cron_jobs.Sql.Samples.{config, waiting_row, running_row, tables, tables-Unique, request}

-- All the other jobs have been deleted since the round.
abbrev after : Tables ℕ
after = record {
  jobs = lock_row engine config 1 (pos 130) waiting_row ∷ [];
  workers = tables.workers;
}

lock_jobs-exclusive_example :
    row 7 (lock_jobs engine config 1 (pos 130) (λ i. false) tables).1.jobs
    ≡ some (lock_row engine config 1 (pos 130) waiting_row)
unfolding lock_jobs listed engine pick
lock_jobs-exclusive_example =
    (lock_jobs-exclusive engine config 1 7 (pos 130) (λ i. false) tables after tables-Unique refl
      (omega arith) refl refl refl (λ i. ground arith) refl refl).1

failed_job_given_twice_example :
    let db = (lock_jobs engine config 1 (pos 130) (λ i. false) tables).1 in
    1
    ≤ tally
        (λ r. r.id == 9)
        (read_jobs engine config (listed engine config (pos 130) (λ i. false) tables.jobs) db)
failed_job_given_twice_example =
    (failed_job_given_twice engine config 1 2 9 (pos 130) (pos 140) (λ i. false) (λ i. false) tables
      refl refl (omega arith) refl refl refl (omega arith) refl refl).0

abbrev beat : Beat engine config
beat = record { db = tables; emitted = [] }

living_worker_loses_job_example :
    let after = beat_all engine config 1 "" (pos 150 ∷ pos 180 ∷ []) beat in
    row 8 (reenqueue_orphaned engine config 10 (pos 100) after.db).1.jobs
    ≡ some (orphan_row engine config running_row)
unfolding orphaned_by
living_worker_loses_job_example =
    (living_worker_loses_job engine config 1 8 10 "" (pos 150 ∷ pos 180 ∷ []) (pos 100) beat
      tables-Unique (omega arith) refl refl refl refl).0

Reach-Locked_example :
    let db =
      (push_request engine config (request 5) (pos 130) (record { jobs = []; workers = [] })).1 in
    Unique db.jobs × (loose db.jobs ≤ 0)
Reach-Locked_example =
    Reach-Locked engine config (λ t. err out_of_range) (λ t. false) (λ raw. ok raw)
      (next start (pushes (request 5) (pos 130) refl))

-- A failed job is all that is shown as dead.
stats_misreported_example : (stats engine config tables).dead ≡ 1
stats_misreported_example = (stats_misreported engine config tables).0
