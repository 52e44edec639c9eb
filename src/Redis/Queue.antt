-- ===== src/Redis/Queue.antt =====
-- The life of the queue: what the storage may run on the database, one script or command after the
-- other, in any order and from any worker, and what holds of every database so reached.
pub mod Invariant
pub mod Bare
use apalis_cron_jobs.Prelude.{ℕ, ◌≤◌, ◌<◌, ◌≡◌, ◌≢◌, Option, none, List, []}
use apalis_cron_jobs.Prelude.Int.{ℤ}
use apalis_cron_jobs.Redis.Commands.{Commands}
use apalis_cron_jobs.Redis.Ranges.{NonNegative}
use apalis_cron_jobs.Redis.Database.{Db, set_at, put_at, occ}
use apalis_cron_jobs.Redis.Scripts.{
  push_job, schedule_job, done_job, kill_job, retry_job, enqueue_scheduled_jobs, get_jobs,
  register_consumer, reenqueue_active_jobs, reenqueue_orphaned_jobs, vacuum,
}

module _ {Bytes : Type 0} (C : Commands Bytes) where
  open C use {members, srem, zadd, hget, hset, entries, no_list, no_zset, no_set, no_hash}

  pub new_db : Db C
  new_db = record {
    active = no_list;
    consumers = no_zset;
    dead = no_zset;
    done = no_zset;
    failed = no_zset;
    inflight = [];
    inflight_bare = no_set;
    data_hash = no_hash;
    results = no_hash;
    scheduled = no_zset;
    signal = no_list;
  }

  -- The writes of `reschedule`: SREM, ZADD to the failed jobs, and the schedule script.
  pub reschedule_job : ℕ → ℕ → Bytes → ℤ → ℤ → Db C → Db C
  reschedule_job w id job now on db =
      let taken = record db {
        inflight = put_at C w (srem (set_at C w db.inflight) id).0 db.inflight;
        failed = zadd db.failed now id;
      } in
      (schedule_job C id job on taken).0

  -- A job is scheduled under an id that the queue does not hold, and rescheduled by the worker that
  -- holds it; scheduled times are not negative; `update` writes to a job that is there.
  pub data Step (db db' : Db C) : Type 0 where
    pushes : (id : ℕ) (job : Bytes) → db' ≡ (push_job C id job db).0 → Step db db'
    schedules :
        (id : ℕ) (job : Bytes) (on : ℤ)
        → occ C id db ≡ 0
        → db' ≡ (schedule_job C id job on db).0
        → Step db db'
    finishes :
        (w id : ℕ) (now : ℤ) (result : Bytes)
        → db' ≡ (done_job C w id now result db).0
        → Step db db'
    kills :
        (w id : ℕ) (now : ℤ) (result : Bytes)
        → db' ≡ (kill_job C w id now result db).0
        → Step db db'
    retries :
        (w id : ℕ) (now : ℤ) (result : Bytes)
        → db' ≡ (retry_job C w id now result db).1
        → Step db db'
    enqueues :
        (now : ℤ) (limit : ℕ)
        → NonNegative (entries db.scheduled)
        → db' ≡ (enqueue_scheduled_jobs C now limit db).0
        → Step db db'
    fetches : (w limit : ℕ) → db' ≡ (get_jobs C w limit db).1 → Step db db'
    registers : (now : ℤ) (w : ℕ) → db' ≡ register_consumer C now w db → Step db db'
    reenqueues : (job_ids : List ℕ) → db' ≡ reenqueue_active_jobs C job_ids db → Step db db'
    recovers :
        (dead_since : ℤ) (limit : ℕ)
        → db' ≡ (reenqueue_orphaned_jobs C dead_since limit db).0
        → Step db db'
    updates :
        (id : ℕ) (job : Bytes)
        → hget db.data_hash id ≢ none
        → db' ≡ record db { data_hash = hset db.data_hash id job }
        → Step db db'
    reschedules :
        (w id : ℕ) (job : Bytes) (now on : ℤ)
        → 0 < (srem (set_at C w db.inflight) id).1
        → db' ≡ reschedule_job w id job now on db
        → Step db db'
    vacuums : db' ≡ (vacuum C db).0 → Step db db'

  pub data Reach : Db C → Type 0 where
    start : Reach new_db
    next : {db db' : Db C} → Reach db → Step db db' → Reach db'

  -- A job stands in one place at most, and the data of every job that stands anywhere is there.
  pub record Inv (db : Db C) : Type 0 where
    pub unique : (j : ℕ) → occ C j db ≤ 1
    pub backed : (j : ℕ) → hget db.data_hash j ≡ none → occ C j db ≡ 0
