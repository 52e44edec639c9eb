-- ===== src/Redis/Scripts.antt =====
-- The Lua scripts under packages/apalis-redis/lua, which the server runs without interruption.
-- A script is a function on the database; times are scores, and `w` is the worker whose inflight
-- set stands at KEYS[1].
pub mod Moves
pub mod Batches
pub mod Data
pub mod Delivery
pub mod Bare
use apalis_cron_jobs.Prelude.{
  ℕ, ◌+◌, ◌-◌, Bool, true, false, Option, none, some, List, [], ◌∷◌, map, length, select, ltb, leb,
  ◌==◌, if◌then◌else◌,
}
use apalis_cron_jobs.Prelude.Int.{ℤ, pos, sub_ℕ, leb_ℤ}
use apalis_cron_jobs.Prelude.Outcome.{Result, ok, err}
use apalis_cron_jobs.Redis.Commands.{Commands, ids}
use apalis_cron_jobs.Redis.Database.{Db, set_at, put_at}

-- What `error(...)` in a script raises.
pub data ScriptError : Type 0 where
  consumer_not_registered : ScriptError

pub record Counts : Type 0 where
  pub pending_count : ℕ
  pub running : ℕ
  pub dead_count : ℕ
  pub failed_count : ℕ
  pub success_count : ℕ

-- ZRANGEBYSCORE from 0 to +inf.
abbrev nonnegative : ℤ × ℕ → Bool
nonnegative (s, i) = leb_ℤ (pos 0) s

module _ {Bytes : Type 0} (C : Commands Bytes) where
  open C use {
    RList, RSet, Hash, items, no_list, rpush, lpush, lrange, ltrim, members, sadd, srem, spop,
    entries, no_zset, zadd, zrem, zscore, zrangebyscore, zremrangebyrank, hget, hset, hdel,
  }

  -- DEL and then LPUSH 1.
  raise_signal : RList
  raise_signal = lpush no_list 1

  -- HSETNX and its reply.
  hsetnx : Hash → ℕ → Bytes → Hash × ℕ
  hsetnx h i v = elim (hget h i) [ none ↦ (hset h i v, 1) | some _ ↦ (h, 0) ]

  -- SREM on a worker's set and its reply.
  take_inflight : ℕ → ℕ → Db C → Db C × ℕ
  take_inflight w id db =
      let (rest, removed) = srem (set_at C w db.inflight) id in
      (record db { inflight = put_at C w rest db.inflight }, removed)

  pub push_job : ℕ → Bytes → Db C → Db C × ℕ
  unfolding raise_signal hsetnx
  push_job id job db =
      let (hash, fresh) = hsetnx db.data_hash id job in
      let stored = record db { data_hash = hash } in
      (
        if fresh == 1
            then record stored { active = rpush db.active (id ∷ []); signal = raise_signal }
            else stored,
        fresh,
      )

  pub schedule_job : ℕ → Bytes → ℤ → Db C → Db C × ℕ
  unfolding hsetnx
  schedule_job id job on db =
      let (hash, fresh) = hsetnx (hdel db.data_hash id) id job in
      (record db { data_hash = hash; scheduled = zadd db.scheduled on id }, fresh)

  pub done_job : ℕ → ℕ → ℤ → Bytes → Db C → Db C × Bool
  unfolding take_inflight
  done_job w id now result db =
      let (taken, removed) = take_inflight w id db in
      if removed == 1
      then (record taken { done = zadd db.done now id; results = hset db.results id result }, true)
      else (taken, false)

  pub kill_job : ℕ → ℕ → ℤ → Bytes → Db C → Db C × ℕ
  unfolding take_inflight
  kill_job w id now result db =
      let (taken, removed) = take_inflight w id db in
      if removed == 1
      then (record taken { dead = zadd db.dead now id; results = hset db.results id result }, 1)
      else (taken, 0)

  -- `HGET` of a hash field that is not there gives `false`, which `HSET` refuses to store: the
  -- script stops there with an error, after the job has been moved.
  reset_job : ℕ → Bytes → ℕ → Db C → Option ℕ × Db C
  reset_job id result removed db = elim (hget db.data_hash id) [
    | none ↦ (none, db)
    | some job ↦ (
      some removed,
      record db { data_hash = hset db.data_hash id job; results = hset db.results id result },
    )
  ]

  pub retry_job : ℕ → ℕ → ℤ → Bytes → Db C → Option ℕ × Db C
  unfolding take_inflight reset_job
  retry_job w id now result db =
      let (taken, removed) = take_inflight w id db in
      if removed == 1
      then reset_job id result removed (record taken { scheduled = zadd db.scheduled now id })
      else (some removed, taken)

  pub enqueue_scheduled_jobs : ℤ → ℕ → Db C → Db C × ℕ
  unfolding raise_signal
  enqueue_scheduled_jobs now limit db =
      let job_ids = zrangebyscore db.scheduled (pos 0) now limit in
      let count = length job_ids in
      (
        if ltb 0 count
            then record db {
              active = rpush db.active job_ids;
              scheduled = zremrangebyrank db.scheduled count;
              signal = raise_signal;
            }
            else db,
        count,
      )

  -- LTRIM and SADD run only if there are jobs; the signal goes down if fewer came than asked for.
  pub get_jobs : ℕ → ℕ → Db C → Result ScriptError (List (Option Bytes)) × Db C
  get_jobs w limit db = elim (zscore db.consumers w) [
    | none ↦ (err consumer_not_registered, db)
    | some _ ↦
        let job_ids = lrange db.active (pos 0) (sub_ℕ limit 1) in
        let count = length job_ids in
        let moved =
          if ltb 0 count
          then record db {
            inflight = put_at C w (sadd (set_at C w db.inflight) job_ids) db.inflight;
            active = ltrim db.active count;
          }
          else db in
        (
          ok (map (hget db.data_hash) job_ids),
          if ltb count limit then record moved { signal = no_list } else moved,
        )
  ]

  pub register_consumer : ℤ → ℕ → Db C → Db C
  register_consumer now w db = record db { consumers = zadd db.consumers now w }

  -- The set at KEYS[1] is here the one that the storage passes, with no worker in its key.
  reenqueue_loop : List ℕ → Db C → Db C
  reenqueue_loop [] db = db
  reenqueue_loop (id ∷ rest) db =
      let (set, removed) = srem db.inflight_bare id in
      let taken = record db { inflight_bare = set } in
      reenqueue_loop rest
        (if removed == 1 then record taken { active = rpush db.active (id ∷ []) } else taken)

  pub reenqueue_active_jobs : List ℕ → Db C → Db C
  unfolding raise_signal reenqueue_loop
  reenqueue_active_jobs job_ids db = record (reenqueue_loop job_ids db) { signal = raise_signal }

  -- One round of the loop over the expired consumers: the database and the limit that is left.
  orphan_round : ℕ → ℕ → Db C → Db C × ℕ
  orphan_round consumer limit db =
      let (rest, jobs) = spop (set_at C consumer db.inflight) limit in
      let count = length jobs in
      let pushed = record db {
        inflight = put_at C consumer rest db.inflight;
        active = if ltb 0 count then rpush db.active jobs else db.active;
        consumers = if ltb count limit then zrem db.consumers consumer else db.consumers;
      } in
      (pushed, limit - count)

  -- `break` when the limit is used up.
  orphan_loop : List ℕ → ℕ → Db C → Db C × ℕ
  unfolding orphan_round
  orphan_loop [] limit db = (db, limit)
  orphan_loop (consumer ∷ rest) limit db =
      let (db', limit') = orphan_round consumer limit db in
      let later = orphan_loop rest limit' db' in if leb limit' 0 then (db', limit') else later

  pub reenqueue_orphaned_jobs : ℤ → ℕ → Db C → Db C × ℕ
  unfolding raise_signal orphan_loop
  reenqueue_orphaned_jobs dead_since limit db =
      let consumers = zrangebyscore db.consumers (pos 0) dead_since limit in
      let (db', left) = orphan_loop consumers limit db in
      let processed = limit - left in
      (if ltb 0 processed then record db' { signal = raise_signal } else db', processed)

  -- Deletes the data of the done jobs, and counts those that had any.
  vacuum_loop : List ℕ → Hash → ℕ → Hash × ℕ
  vacuum_loop [] hash removed = (hash, removed)
  vacuum_loop (id ∷ rest) hash removed =
      vacuum_loop rest (elim (hget hash id) [ none ↦ hash | some _ ↦ hdel hash id ])
        (elim (hget hash id) [ none ↦ removed | some _ ↦ removed + 1 ])

  pub vacuum : Db C → Db C × ℕ
  unfolding vacuum_loop
  vacuum db =
      let (hash, removed) = vacuum_loop (ids (entries db.done)) db.data_hash 0 in
      (record db { data_hash = hash; done = no_zset }, removed)

  -- The sets of the registered consumers are counted.
  running_count : List ℕ → Db C → ℕ
  running_count [] db = 0
  running_count (consumer ∷ rest) db =
      length (members (set_at C consumer db.inflight)) + running_count rest db

  pub stats : Db C → Counts
  unfolding running_count
  stats db = record {
    pending_count = length (items db.active);
    running = running_count (ids (select nonnegative (entries db.consumers))) db;
    dead_count = length (entries db.dead);
    failed_count = length (entries db.failed);
    success_count = length (entries db.done);
  }
