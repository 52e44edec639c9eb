-- ===== src/Sql/Sqlite/Examples.antt =====
-- The theorems on the SQLite storage at a small table, on the engine that sorts by insertion.
use apalis_cron_jobs.Prelude.{◌≤◌, [], ◌∷◌, ℕ, ◌≡◌, refl, none, some, tally, ◌==◌, arith}
use apalis_cron_jobs.Prelude.Int.{pos}
use apalis_cron_jobs.Prelude.Outcome.{ok}
use apalis_cron_jobs.Core.State.{State}
use apalis_cron_jobs.Sql.Rows.{lock_row}
use apalis_cron_jobs.Sql.Table.{Row, Tables, row, Unique}
use apalis_cron_jobs.Sql.Sqlite.{
  fetch_next, push_request, fetch_by_id, reschedule, reenqueue_orphaned, ack,
}
use apalis_cron_jobs.Sql.Sqlite.Locks.{fetch_next_exclusive, rescheduled_is_stranded}
use apalis_cron_jobs.Sql.Sqlite.Settling.{ack-waiting}
use apalis_cron_jobs.Sql.Sqlite.Recovery.{reenqueue_orphaned_lem, failed_job_is_stranded}
use apalis_cron_jobs.Sql.Sqlite.Stream.{push_request-fetch_by_id}
use apalis_cron_jobs.Sql.Sqlite.Life.{start, next as next_state, pushes, Reach-Unique}
use apalis_cron_jobs.Sql.Invariant.{loose}
use apalis_cron_jobs.Sql.Reference.{engine}
use apalis_cron_jobs.Sql.Samples.{
  waiting_row, config, failed_row, tables, tables-Unique, context, request, failure,
}

-- All the other jobs have been deleted since the fetch.
abbrev after : Tables ℕ
after = record {
  jobs = lock_row engine config 1 (pos 130) waiting_row ∷ [];
  workers = tables.workers;
}

fetch_next_exclusive_example : fetch_next engine config 2 (pos 140) 7 after ≡ (ok none, after)
unfolding fetch_next engine
fetch_next_exclusive_example =
    (fetch_next_exclusive engine config 1 2 (pos 130) (pos 140) 7 tables after tables-Unique refl
      (λ i. ground arith) refl (omega arith)).1

rescheduled_is_stranded_example :
    let db = (reschedule engine config (request 8) 60 (pos 130) tables).1 in
    (reschedule engine config (request 8) 60 (pos 130) tables).0 ≡ ok tt
rescheduled_is_stranded_example =
    (rescheduled_is_stranded engine config (request 8) 60 (pos 130) tables tables-Unique refl
      (omega arith)).0

ack-waiting_example :
    (s : Row ℕ) × (row 8 (ack engine config context failure (ok "no route") (pos 150) tables).1.jobs
      ≡ some s)
ack-waiting_example =
    let settled =
      ack-waiting engine config context failure "no route" (pos 150) 1 5 tables refl refl refl refl
        refl (omega arith) in
    (settled.0, settled.1)

reenqueue_orphaned_lem_example :
    tally (λ r. r.id == 8) (reenqueue_orphaned engine config (pos 10) (pos 100) tables).1.jobs
    ≡ tally (λ r. r.id == 8) tables.jobs
reenqueue_orphaned_lem_example =
    (reenqueue_orphaned_lem engine config (pos 10) (pos 100) tables tables-Unique).1 8

failed_job_is_stranded_example :
    let db = (reenqueue_orphaned engine config (pos 10) (pos 100) tables).1 in
    (row 9 db.jobs ≡ some failed_row) × (fetch_next engine config 2 (pos 160) 9 db ≡ (ok none, db))
failed_job_is_stranded_example =
    failed_job_is_stranded engine config 1 2 9 (pos 10) (pos 100) (pos 160) tables tables-Unique
      refl refl refl (omega arith)

push_request-fetch_by_id_example :
    ((push_request engine config (request 5) (pos 130) tables).0 ≡ ok (request 5).parts)
    × (fetch_by_id engine config 5 (push_request engine config (request 5) (pos 130) tables).1 ≡ (
      ok (
          some (record {
            args = 40;
            parts = record {
              task_id = 5;
              attempt = 0;
              context = record {
                status = State.pending;
                run_at = pos 130;
                max_attempts = pos 5;
                last_error = none;
                lock_at = none;
                lock_by = none;
                done_at = none;
                priority = pos 0;
              };
              namespace = some "mail";
            };
          })),
      (push_request engine config (request 5) (pos 130) tables).1,
    ))
unfolding engine
push_request-fetch_by_id_example =
    (push_request-fetch_by_id engine config (request 5) (pos 130) tables refl).0 refl

abbrev pushed : Tables ℕ
pushed = record { jobs = []; workers = tables.workers }

Reach-Unique_example :
    let db = (push_request engine config (request 5) (pos 130) pushed).1 in
    Unique db.jobs × (loose db.jobs ≤ 0)
Reach-Unique_example =
    Reach-Unique engine config
      (next_state (start tables.workers) (pushes (request 5) (pos 130) refl))
