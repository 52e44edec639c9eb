-- ===== src/Redis/Scripts/Moves.antt =====
-- What each script does to the places of a job: a job that leaves one place of the queue enters
-- another.
use apalis_cron_jobs.Prelude.{
  ℕ, ◌+◌, ◌≤◌, ◌≡◌, refl, ap, none, some, [], ◌∷◌, arith, count, count-append, ◌==◌, if◌then◌else◌,
}
use apalis_cron_jobs.Prelude.Int.{ℤ}
use apalis_cron_jobs.Redis.Commands.{Commands}
use apalis_cron_jobs.Redis.Database.{Db, set_at, total-put_at, count-set_at-le, occ}
use apalis_cron_jobs.Redis.Scripts.{
  take_inflight, push_job, schedule_job, done_job, kill_job, retry_job, register_consumer,
}

module _ {Bytes : Type 0} (C : Commands Bytes) where
  open C use {
    items, rpush, items-rpush, members, srem, spop, members_distinct, srem_reply, count-srem,
    count-sadd, count-spop, zadd, entries, count-zadd, hget, items-ltrim, lrange_lem,
  }

  -- SREM takes out one copy if there was one, and says so.
  occ-take_inflight :
      (w id j : ℕ) (db : Db C)
      → occ C j (take_inflight C w id db).0 + (if id == j then (take_inflight C w id db).1 else 0)
        ≡ occ C j db
  unfolding take_inflight occ
  occ-take_inflight w id j db = ground (
    arith,
    total-put_at C j w (srem (set_at C w db.inflight) id).0 db.inflight,
    count-srem (set_at C w db.inflight) id j,
    srem_reply (set_at C w db.inflight) id,
  )

  pub done_job-occ :
      (w id : ℕ) (now : ℤ) (result : Bytes) (db : Db C) (j : ℕ)
      → occ C id db ≤ 1
      → occ C j (done_job C w id now result db).0 ≡ occ C j db
  unfolding done_job occ
  done_job-occ w id now result db j u = ground (
    arith,
    total-put_at C j w (srem (set_at C w db.inflight) id).0 db.inflight,
    count-srem (set_at C w db.inflight) id j,
    srem_reply (set_at C w db.inflight) id,
    count-set_at-le C id w db.inflight,
    count-zadd db.done now id j,
  )

  pub kill_job-occ :
      (w id : ℕ) (now : ℤ) (result : Bytes) (db : Db C) (j : ℕ)
      → occ C id db ≤ 1
      → occ C j (kill_job C w id now result db).0 ≡ occ C j db
  unfolding kill_job occ
  kill_job-occ w id now result db j u = ground (
    arith,
    total-put_at C j w (srem (set_at C w db.inflight) id).0 db.inflight,
    count-srem (set_at C w db.inflight) id j,
    srem_reply (set_at C w db.inflight) id,
    count-set_at-le C id w db.inflight,
    count-zadd db.dead now id j,
  )

  pub retry_job-occ :
      (w id : ℕ) (now : ℤ) (result : Bytes) (db : Db C) (j : ℕ)
      → occ C id db ≤ 1
      → occ C j (retry_job C w id now result db).1 ≡ occ C j db
  unfolding retry_job occ
  retry_job-occ w id now result db j u = ground (
    arith,
    total-put_at C j w (srem (set_at C w db.inflight) id).0 db.inflight,
    count-srem (set_at C w db.inflight) id j,
    srem_reply (set_at C w db.inflight) id,
    count-set_at-le C id w db.inflight,
    count-zadd db.scheduled now id j,
  )

  pub push_job-occ :
      (id : ℕ) (job : Bytes) (db : Db C) (j : ℕ)
      → occ C j (push_job C id job db).0
        ≡ (elim (hget db.data_hash id) [ none ↦ if id == j then 1 else 0 | some _ ↦ 0 ])
          + occ C j db
  unfolding push_job occ
  push_job-occ id job db j = ground (
    arith,
    ap (count j) (items-rpush db.active (id ∷ [])),
    count-append j (items db.active) (id ∷ []),
  )

  pub schedule_job-occ :
      (id : ℕ) (job : Bytes) (on : ℤ) (db : Db C) (j : ℕ)
      → occ C id db ≡ 0
      → occ C j (schedule_job C id job on db).0 ≡ (if id == j then 1 else 0) + occ C j db
  unfolding schedule_job occ
  schedule_job-occ id job on db j u = ground (arith, count-zadd db.scheduled on id j)

  pub register_consumer-occ :
      (now : ℤ) (w : ℕ) (db : Db C) (j : ℕ) → occ C j (register_consumer C now w db) ≡ occ C j db
  unfolding register_consumer occ
  register_consumer-occ now w db j = refl

  pub register_consumer-data :
      (now : ℤ) (w : ℕ) (db : Db C) → (register_consumer C now w db).data_hash ≡ db.data_hash
  unfolding register_consumer
  register_consumer-data now w db = refl
