-- ===== src/Redis/Storage/Settling.antt =====
-- Where an acknowledged job ends up.
use apalis_cron_jobs.Prelude.{
  ℕ, ◌<◌, ◌≡◌, refl, inl, inr, some, List, arith, count, ltb, if◌then◌else◌, Bool-cases,
}
use apalis_cron_jobs.Prelude.Int.{ℤ}
use apalis_cron_jobs.Prelude.Outcome.{Result, ok, err, pure, ◌>>=◌}
use apalis_cron_jobs.Core.Error.{DynError, Error, abort, max_retries_exceeded}
use apalis_cron_jobs.Core.Request.{Request}
use apalis_cron_jobs.Core.Response.{Response}
use apalis_cron_jobs.Redis.Commands.{Commands, ids}
use apalis_cron_jobs.Redis.Config.{Config, RedisContext}
use apalis_cron_jobs.Redis.Value.{Codec, deserialize_job}
use apalis_cron_jobs.Redis.Database.{Db, set_at}
use apalis_cron_jobs.Redis.Scripts.Delivery
use apalis_cron_jobs.Redis.Storage.Methods.{stored}
use apalis_cron_jobs.Redis.Storage.{M, ack, settle, retry, kill, complete}

-- The place that a response sends its job to.
pub data Place : Type 0 where
  done dead scheduled : Place

module _ {Bytes : Type 0} where
  -- A success is done, an abort is dead, and any other error is tried again while the attempts are
  -- below the maximum.
  unfoldable pub destination : ℕ → Response Bytes → Place
  destination max_attempts res = elim res.inner [
    | ok r ↦ done
    | err (abort e) ↦ dead
    | err e ↦ if ltb res.attempt max_attempts then scheduled else dead
  ]

module _ {Args Bytes : Type 0} (C : Commands Bytes) (K : Codec Args Bytes) (config : Config) where
  open C use {hget, entries, members}

  abbrev pub at_place : Place → Db C → List (ℤ × ℕ)
  at_place done db = entries db.done
  at_place dead db = entries db.dead
  at_place scheduled db = entries db.scheduled

  -- The job stands at the place, and no longer in the worker's set.
  abbrev pub Settled : ℕ → ℕ → Place → Db C → Type 0
  Settled w id place db =
      (count id (ids (at_place place db)) ≡ 1) × (count id (members (set_at C w db.inflight)) ≡ 0)

  kill-Settled :
      (w id : ℕ) (e : DynError) (now : ℤ) (db : Db C)
      → count id (members (set_at C w db.inflight)) ≡ 1
      → let (reply, db') = kill C K config w id e now db in (reply ≡ ok tt) × Settled w id dead db'
  unfolding kill
  kill-Settled w id e now db held =
      let facts = Delivery.kill_job_lem C w id now (K.to_bytes e) db id in
      (refl, (ground (arith, facts), ground (arith, facts)))

  complete-Settled :
      (w id : ℕ) (r : Bytes) (now : ℤ) (db : Db C) {bytes : Bytes}
      → K.encode_result r ≡ ok bytes
      → count id (members (set_at C w db.inflight)) ≡ 1
      → let (reply, db') = complete C K config w id r now db in
        (reply ≡ ok tt) × Settled w id done db'
  unfolding complete
  complete-Settled w id r now db {bytes} e held =
      let facts = (Delivery.done_job_lem C w id now bytes db).1 id in
      (ground arith, (ground (arith, facts), ground (arith, facts)))

  -- The stored job has attempts left.
  retry-Settled :
      (w id : ℕ) (now : ℤ) (db : Db C) (job : Request Args RedisContext) {b bytes : Bytes}
      → hget db.data_hash id ≡ some b
      → K.decode b ≡ ok job
      → K.encode job ≡ ok bytes
      → job.parts.attempt < job.parts.context.max_attempts
      → count id (members (set_at C w db.inflight)) ≡ 1
      → let (reply, db') = retry C K config w id now db in
        (reply ≡ ok 1) × Settled w id scheduled db'
  unfolding retry deserialize_job
  retry-Settled w id now db job {b} {bytes} here d e left held =
      let facts = Delivery.retry_job_lem C w id now bytes db held here in
      (ground (arith, facts), (ground (arith, facts), ground (arith, facts)))

  module _ (w : ℕ) (ctx : RedisContext) (now : ℤ) where
    retried_or_killed :
        (id attempt : ℕ) (db : Db C) (job : Request Args RedisContext) {b : Bytes}
        → hget db.data_hash id ≡ some b
        → K.decode b ≡ ok job
        → (bytes : Bytes) × (K.encode job ≡ ok bytes)
        → job.parts.attempt ≡ attempt
        → job.parts.context.max_attempts ≡ ctx.max_attempts
        → count id (members (set_at C w db.inflight)) ≡ 1
        → let m : M C K config (Unit {0}) =
            if ltb attempt ctx.max_attempts
            then (retry C K config w id now >>= λ _. pure tt)
            else kill C K config w id (max_retries_exceeded ctx.max_attempts) now in
          ((m db).0 ≡ ok tt)
          × Settled w id (if ltb attempt ctx.max_attempts then scheduled else dead) (m db).1
    retried_or_killed id attempt db job here d (bytes, enc) same max held =
        elim (Bool-cases (ltb attempt ctx.max_attempts)) [
          | inl left ↦
              let settled = retry-Settled w id now db job here d enc (ground arith) held in
              rw left (
                ground (arith, settled.0),
                (ground (arith, settled.0, settled.1.0), ground (arith, settled.0, settled.1.1)),
              )
          | inr spent ↦
              rw spent (kill-Settled w id (max_retries_exceeded ctx.max_attempts) now db held)
        ]

    settle-Settled :
        (id attempt : ℕ) (inner : Result Error Bytes) (db : Db C) (job : Request Args RedisContext)
        {b : Bytes}
        → hget db.data_hash id ≡ some b
        → K.decode b ≡ ok job
        → ((r : Request Args RedisContext) → (bytes : Bytes) × (K.encode r ≡ ok bytes))
        → ((r : Bytes) → (bytes : Bytes) × (K.encode_result r ≡ ok bytes))
        → job.parts.attempt ≡ attempt
        → job.parts.context.max_attempts ≡ ctx.max_attempts
        → count id (members (set_at C w db.inflight)) ≡ 1
        → let res : Response Bytes = record { inner = inner; task_id = id; attempt = attempt } in
          let (reply, db') = settle C K config ctx res w now db in
          (reply ≡ ok tt) × Settled w id (destination ctx.max_attempts res) db'
    unfolding settle destination
    settle-Settled id attempt (ok r) db job here d enc enc_result same max held =
        let (bytes, e) = enc_result r in complete-Settled w id r now db e held
    settle-Settled id attempt (err (abort e)) db job here d enc enc_result same max held =
        kill-Settled w id e now db held
    settle-Settled id attempt (err e) db job here d enc enc_result same max held =
        retried_or_killed id attempt db job here d (enc job) same max held

    -- A response to a job that the worker holds settles it: the job leaves the worker's set and
    -- stands among the done, the dead or the scheduled jobs, as the response and the attempts say,
    -- provided that the stored job can be read and carries the maximum of its context, and that
    -- requests and results can be encoded.
    pub ack-Settled :
        (res : Response Bytes) (db : Db C) (task : Request Args RedisContext) {b : Bytes}
        → hget db.data_hash res.task_id ≡ some b
        → K.decode b ≡ ok task
        → task.parts.task_id ≡ res.task_id
        → task.parts.context.max_attempts ≡ ctx.max_attempts
        → ctx.lock_by ≡ some w
        → count res.task_id (members (set_at C w db.inflight)) ≡ 1
        → ((r : Request Args RedisContext) → (bytes : Bytes) × (K.encode r ≡ ok bytes))
        → ((r : Bytes) → (bytes : Bytes) × (K.encode_result r ≡ ok bytes))
        → let (reply, db') = ack C K config ctx res now db in
          (reply ≡ ok tt) × Settled w res.task_id (destination ctx.max_attempts res) db'
    unfolding ack deserialize_job
    ack-Settled res db task {b} here d own max locked held enc enc_result =
        let updated : Request Args RedisContext = record task {
          parts = record (task.parts) { attempt = res.attempt };
        } in
        let (bytes, e) = enc updated in
        let db' = record db { data_hash = C.hset db.data_hash res.task_id bytes } in
        let settled =
          settle-Settled res.task_id res.attempt res.inner db' (stored updated)
            (ground (arith, C.hget-hset db.data_hash res.task_id bytes res.task_id))
            (K.decode-encode updated e) enc enc_result refl max held in
        let same : ack C K config ctx res now db ≡ settle C K config ctx res w now db' =
          ground arith in
        rw same settled
