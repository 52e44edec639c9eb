-- ===== src/Sql/Postgres/Examples.antt =====
-- The theorems on the PostgreSQL storage at a small table, on the engine that sorts by insertion.
use apalis_cron_jobs.Prelude.{
  ℕ, zero, suc, ◌≡◌, refl, String, true, false, some, List, [], ◌∷◌, arith,
}
use apalis_cron_jobs.Prelude.Int.{pos}
use apalis_cron_jobs.Prelude.Outcome.{Result, ok, err}
use apalis_cron_jobs.Core.State.{State}
use apalis_cron_jobs.Backend.Queue.{queue}
use apalis_cron_jobs.Sql.Engine.{panic, Engine}
use apalis_cron_jobs.Sql.Table.{Row, Tables, row}
use apalis_cron_jobs.Sql.Selection.{pick}
use apalis_cron_jobs.Sql.Rows.{lock_row, orphaned_by}
use apalis_cron_jobs.Sql.Postgres.{listed, get_jobs, fetch_next, due_before}
use apalis_cron_jobs.Sql.Postgres.Chunk.{ack_chunk}
use apalis_cron_jobs.Sql.Postgres.Locks.{get_jobs-exclusive}
use apalis_cron_jobs.Sql.Postgres.Settling.{undecodable_strands_batch}
use apalis_cron_jobs.Core.Response.{Response}
use apalis_cron_jobs.Backend.Notify.{new}
use apalis_cron_jobs.Sql.Context.{SqlContext, calculate_status}
use apalis_cron_jobs.Sql.Postgres.Acks.{ack, ack_rows, ready_chunk}
use apalis_cron_jobs.Sql.Postgres.Delivery.{acknowledged_job_is_settled}
use apalis_cron_jobs.Sql.Postgres.Heartbeat.{crashes, crashes_are_not_counted}
use apalis_cron_jobs.Sql.Postgres.Listen.{
  PgSubscription, subscribe, listen, inserts, inserts_notify_no_one,
}
use apalis_cron_jobs.Sql.Reference.{engine}
use apalis_cron_jobs.Sql.Samples.{
  context, config, waiting_row, running_row, failed_row, tables, tables-Unique,
}

-- A codec that does not decode 0.
strict_decode : ℕ → Result String ℕ
strict_decode zero = err "no mail"
strict_decode (suc n) = ok n

strict : Engine ℕ ℕ
unfolding engine strict_decode
strict = record engine {
  encode = λ a. ok (suc a);
  decode = strict_decode;
  decode-encode = λ a {raw} h. strict-round a raw h;
}
  where
    strict-round :
        (a raw : ℕ) → ◌≡◌ {A = Result String ℕ} (ok (suc a)) (ok raw) → strict_decode raw ≡ ok a
    strict-round a zero h = cc
    strict-round a (suc raw) h = cc

abbrev broken : Tables ℕ
broken = record {
  jobs = waiting_row ∷ record waiting_row { id = 4; job = 0 } ∷ [];
  workers = tables.workers;
}

undecodable_strands_batch_example :
    let (reply, db) = fetch_next strict config 1 (pos 130) (λ i. false) broken in
    (reply ≡ err panic) × (row 7 db.jobs ≡ some (lock_row strict config 1 (pos 130) waiting_row))
unfolding strict
undecodable_strands_batch_example =
    undecodable_strands_batch strict config 1 7 4 (pos 130) (λ i. false) broken (λ i. ground arith)
      refl (omega arith) (omega arith) refl refl refl refl refl refl refl

-- All the other jobs have been deleted since the round.
abbrev after : Tables ℕ
after = record {
  jobs = lock_row engine config 2 (pos 130) failed_row ∷ [];
  workers = tables.workers;
}

get_jobs-exclusive_example :
    row 9 (get_jobs engine config 2 (pos 130) (λ i. false) tables).1.jobs
    ≡ some (lock_row engine config 2 (pos 130) failed_row)
unfolding get_jobs listed engine pick
get_jobs-exclusive_example =
    (get_jobs-exclusive engine config 2 1 9 (pos 130) (pos 140) (λ i. false) (λ i. false) tables
      after tables-Unique refl (omega arith) refl refl refl (λ i. ground arith) refl refl).1

crashes_are_not_counted_example :
    (s : Row ℕ) × (row 7 (crashes engine config 3 1 (pos 130) (pos 100) 10 tables).jobs ≡ some s)
    × (due_before engine config (pos 130) s ≡ true)
    × (s.attempts ≡ 0)
unfolding orphaned_by
crashes_are_not_counted_example =
    crashes_are_not_counted engine config 3 1 7 (pos 130) (pos 100) 10 tables tables-Unique refl
      refl (omega arith) (omega arith) refl refl

abbrev subscriptions : List (PgSubscription (queue (Unit {0})))
subscriptions = subscribe (queue (Unit {0})) "mail" []

inserts_notify_no_one_example : listen (queue (Unit {0})) (inserts 3) subscriptions ≡ subscriptions
unfolding subscribe
inserts_notify_no_one_example = inserts_notify_no_one (queue (Unit {0})) 3 subscriptions (refl, tt)

abbrev answered : Response ℕ
answered = record { inner = ok 5; task_id = 8; attempt = 2 }

-- The server's choice, where several rows of a chunk are about one job.
abbrev which : ℕ → ℕ
which id = 1

acknowledged_job_is_settled_example :
    let C = queue (SqlContext × Response ℕ) in
    let s' = (ack C (λ (n : ℕ). ok n) context answered (new C)).1 in
    let acks = ack_rows C (λ a. "sent") (ready_chunk C config.buffer_size s').0 in
    row 8 (ack_chunk engine config which 2 (pos 150) acks tables).1.jobs
    ≡ some (record running_row {
      status = State.done;
      done_at = some (pos 150);
      lock_by = some 2;
      last_error = some "sent";
      attempts = 2;
    })
unfolding new calculate_status queue
acknowledged_job_is_settled_example =
    let C = queue (SqlContext × Response ℕ) in
    (acknowledged_job_is_settled engine config C (λ a. "sent") (λ (n : ℕ). ok n) context answered
      answered (new C) which 2 (pos 150) tables refl refl (omega arith) refl refl (omega arith) refl
      refl).3
