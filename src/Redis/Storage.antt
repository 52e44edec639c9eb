-- ===== src/Redis/Storage.antt =====
-- packages/apalis-redis/src/storage.rs: the storage's methods. A method is a step on the database;
-- what it has written before an error stays. The clock is an argument, the server answers every
-- command, and a panic is the error `panic`.
pub mod Methods
pub mod Settling
use apalis_cron_jobs.Prelude.{
  ℕ, ◌+◌, ◌*◌, ◌/◌, ◌^◌, String, Bool, true, false, Option, none, some, List, [], ◌∷◌, length, ltb,
  leb, ◌==◌, ◌≡◌, if◌then◌else◌,
}
use apalis_cron_jobs.Prelude.Int.{ℤ, pos, ◌+ℤ◌}
use apalis_cron_jobs.Prelude.Outcome.{
  Result, ok, err, Stateful, pure, fail, lift, map_err, map_ok, ◌>>=◌, ◌>>◌,
}
use apalis_cron_jobs.Core.Error.{DynError, Error, abort, max_retries_exceeded}
use apalis_cron_jobs.Core.Request.{Parts, Request}
use apalis_cron_jobs.Core.Response.{Response}
use apalis_cron_jobs.Redis.Commands.{Commands}
use apalis_cron_jobs.Redis.Database.{Db, set_at, put_at}
use apalis_cron_jobs.Redis.Scripts
use apalis_cron_jobs.Redis.Scripts.{ScriptError}
use apalis_cron_jobs.Redis.Config.{Config, RedisContext}
use apalis_cron_jobs.Redis.Value.{
  RedisError, encode_error, decode_error, duration_error, invalid_data, id_not_found,
  not_registered, script_error, panic, Value, array, Codec, deserialize_job, element,
}

module _ {Args Bytes : Type 0} (C : Commands Bytes) (K : Codec Args Bytes) (config : Config) where
  open C use {items, hget, hset, zadd, srem}

  abbrev M : Type 0 → Type 0
  M A = Stateful (Db C) RedisError A

  -- A command or script that answers and does not fail.
  abbrev invoke : {A : Type 0} → (Db C → Db C × A) → M A
  invoke script db = let (db', reply) = script db in (ok reply, db')

  abbrev write : (Db C → Db C) → M (Unit {0})
  write command db = (ok tt, command db)

  encoded : Request Args RedisContext → M Bytes
  encoded req = lift (map_err encode_error (K.encode req))

  unwrap : {A : Type 0} → Option A → M A
  unwrap none = fail panic
  unwrap (some a) = pure a

  unfoldable pub keep_alive : ℕ → ℤ → M (Unit {0})
  keep_alive worker_id now = write (Scripts.register_consumer C now worker_id)

  unfoldable pub lock_request : ℕ → Request Args RedisContext → Request Args RedisContext
  lock_request worker_id req = record req {
    parts = record (req.parts) {
      context = record (req.parts.context) { lock_by = some worker_id };
      namespace = some config.namespace;
    };
  }

  -- What `fetch_next` makes of the jobs that came: each is locked by the worker. The first one that
  -- cannot be read ends the loop, and the requests before it are dropped.
  unfoldable pub process_jobs :
      ℕ → List (Option Bytes) → Result RedisError (List (Request Args RedisContext))
  unfolding lock_request
  process_jobs worker_id [] = ok []
  process_jobs worker_id (job ∷ jobs) =
      let rest = process_jobs worker_id jobs in
      elim (deserialize_job (element job)) [
        | err e ↦ err e
        | ok bytes ↦ elim (K.decode bytes) [
          | err e ↦ err invalid_data
          | ok req ↦ map_ok (λ processed. lock_request worker_id req ∷ processed) rest
        ]
      ]

  unfoldable pub fetch_next : ℕ → ℤ → M (List (Request Args RedisContext))
  unfolding keep_alive process_jobs
  fetch_next worker_id now db =
      let (result, db') = Scripts.get_jobs C worker_id config.buffer_size db in
      elim result [
        | ok jobs ↦ (process_jobs worker_id jobs, db')
        | err e ↦ (do keep_alive worker_id now; fail not_registered) db'
      ]

  pub push_request : Request Args RedisContext → M (Parts RedisContext)
  unfolding encoded
  push_request req = do
    job ← encoded req
    _ ← invoke (Scripts.push_job C req.parts.task_id job)
    pure req.parts

  pub schedule_request : Request Args RedisContext → ℤ → M (Parts RedisContext)
  unfolding encoded
  schedule_request req on = do
    job ← encoded req
    _ ← invoke (Scripts.schedule_job C req.parts.task_id job on)
    pure req.parts

  pub len : M ℕ
  len db = (ok (length (items db.active)), db)

  pub is_empty : M Bool
  unfolding len
  is_empty = do pending_jobs ← len; pure (pending_jobs == 0)

  -- HMGET answers with an array of one element, which is no byte string where there is no job; so
  -- a job that is not there is an error, and the `None` of the return type never comes.
  pub fetch_by_id : ℕ → M (Option (Request Args RedisContext))
  fetch_by_id job_id db = (
    elim (deserialize_job (array (hget db.data_hash job_id ∷ []))) [
      | err e ↦ err e
      | ok bytes ↦ map_ok some (map_err decode_error (K.decode bytes))
    ],
    db,
  )

  pub update : Request Args RedisContext → M (Unit {0})
  unfolding encoded
  update job = do
    bytes ← encoded job
    write (λ db. record db { data_hash = hset db.data_hash job.parts.task_id bytes })

  -- `wait` is in seconds, a u64 that must fit an i64.
  pub reschedule : Request Args RedisContext → ℕ → ℤ → M (Unit {0})
  unfolding encoded unwrap
  reschedule job wait now = do
    worker_id ← unwrap job.parts.context.lock_by
    bytes ← encoded job
    seconds ←
        lift (if ltb wait (2 ^ 63) then ok (pos wait) else err (duration_error "out of range"))
    write λ db. record db {
      inflight =
          put_at C worker_id (srem (set_at C worker_id db.inflight) job.parts.task_id).0
            db.inflight;
    }
    write (λ db. record db { failed = zadd db.failed now job.parts.task_id })
    _ ← invoke (Scripts.schedule_job C job.parts.task_id bytes (now +ℤ seconds))
    pure tt

  pub vacuum : M ℕ
  vacuum = invoke (Scripts.vacuum C)

  pub kill : ℕ → ℕ → DynError → ℤ → M (Unit {0})
  kill worker_id task_id error now = do
    _ ← invoke (Scripts.kill_job C worker_id task_id now (K.to_bytes error))
    pure tt

  requeue : ℕ → ℕ → Request Args RedisContext → ℤ → M ℕ
  unfolding encoded
  requeue worker_id task_id job now = do
    bytes ← encoded job
    reply ←
        invoke λ db.
          let (reply, db') = Scripts.retry_job C worker_id task_id now bytes db in (db', reply)
    elim reply [ none ↦ fail script_error | some count ↦ pure count ]

  -- The stored job decides: if its attempts have reached its maximum it is killed.
  pub retry : ℕ → ℕ → ℤ → M ℕ
  unfolding fetch_by_id kill requeue
  retry worker_id task_id now = do
    found ← fetch_by_id task_id
    elim found [
      | none ↦ fail id_not_found
      | some job ↦
          let max_attempts = job.parts.context.max_attempts in
          if leb max_attempts job.parts.attempt
          then (kill worker_id task_id (max_retries_exceeded max_attempts) now >> pure 1)
          else requeue worker_id task_id job now
    ]

  unfoldable pub enqueue_scheduled : ℕ → ℤ → M ℕ
  enqueue_scheduled count now = invoke (Scripts.enqueue_scheduled_jobs C now count)

  pub reenqueue_active : List ℕ → M (Unit {0})
  reenqueue_active job_ids = write (Scripts.reenqueue_active_jobs C job_ids)

  unfoldable pub reenqueue_orphaned : ℕ → ℤ → M ℕ
  reenqueue_orphaned count dead_since = invoke (Scripts.reenqueue_orphaned_jobs C dead_since count)

  complete : ℕ → ℕ → Bytes → ℤ → M (Unit {0})
  complete worker_id task_id success_res now = do
    result ← elim (K.encode_result success_res) [ ok bytes ↦ pure bytes | err e ↦ fail panic ]
    _ ← invoke (Scripts.done_job C worker_id task_id now result)
    pure tt

  -- The response decides: done, dead, or to be tried again while attempts are left.
  settle : RedisContext → Response Bytes → ℕ → ℤ → M (Unit {0})
  unfolding complete kill retry
  settle ctx res worker_id now = elim res.inner [
    | ok success_res ↦ complete worker_id res.task_id success_res now
    | err (abort e) ↦ kill worker_id res.task_id e now
    | err e ↦
        if ltb res.attempt ctx.max_attempts
        then (retry worker_id res.task_id now >>= λ _. pure tt)
        else kill worker_id res.task_id (max_retries_exceeded ctx.max_attempts) now
  ]

  -- The stored attempts are brought up to date first. The inflight key is formatted, with its
  -- `unwrap`, before the response is looked at.
  pub ack : RedisContext → Response Bytes → ℤ → M (Unit {0})
  unfolding fetch_by_id update settle unwrap
  ack ctx res now = do
    found ← fetch_by_id res.task_id
    task ← unwrap found
    update (record task { parts = record (task.parts) { attempt = res.attempt } })
    worker_id ← unwrap ctx.lock_by
    settle ctx res worker_id now
