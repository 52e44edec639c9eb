-- ===== src/Redis/Scripts/Data.antt =====
-- What the scripts do to the hash of the jobs' data.
use apalis_cron_jobs.Prelude.{
  ℕ, ◌+◌, ◌≡◌, refl, ◌∙◌, ◌⊎◌, inl, inr, Option-cases, none, some, List, [], ◌∷◌, arith, count,
  ◌==◌, if◌then◌else◌,
}
use apalis_cron_jobs.Prelude.Int.{ℤ, pos}
use apalis_cron_jobs.Redis.Commands.{Commands, ids}
use apalis_cron_jobs.Redis.Database.{Db}
use apalis_cron_jobs.Redis.Scripts.{
  push_job, schedule_job, done_job, kill_job, retry_job, enqueue_scheduled_jobs, get_jobs,
  orphan_round, orphan_loop, reenqueue_orphaned_jobs, reenqueue_loop, reenqueue_active_jobs, vacuum,
  vacuum_loop,
}

module _ {Bytes : Type 0} (C : Commands Bytes) where
  open C use {Hash, hget, hset, hdel, hget-hset, hget-hdel, entries, srem, rpush}

  -- The data of a job that has some is never overwritten by a push.
  pub push_job-data :
      (id : ℕ) (job : Bytes) (db : Db C) (j : ℕ)
      → hget (push_job C id job db).0.data_hash j ≡ (elim (hget db.data_hash j) [
        | none ↦ if id == j then some job else none
        | some v ↦ some v
      ])
  unfolding push_job
  push_job-data id job db j = ground (arith, hget-hset db.data_hash id job j)

  pub schedule_job-data :
      (id : ℕ) (job : Bytes) (on : ℤ) (db : Db C) (j : ℕ)
      → hget (schedule_job C id job on db).0.data_hash j
        ≡ (if id == j then some job else hget db.data_hash j)
  unfolding schedule_job
  schedule_job-data id job on db j = ground (
    arith,
    hget-hdel db.data_hash id id,
    hget-hdel db.data_hash id j,
    hget-hset (hdel db.data_hash id) id job j,
  )

  pub done_job-data :
      (w id : ℕ) (now : ℤ) (result : Bytes) (db : Db C)
      → (done_job C w id now result db).0.data_hash ≡ db.data_hash
  unfolding done_job
  done_job-data w id now result db = ground arith

  pub kill_job-data :
      (w id : ℕ) (now : ℤ) (result : Bytes) (db : Db C)
      → (kill_job C w id now result db).0.data_hash ≡ db.data_hash
  unfolding kill_job
  kill_job-data w id now result db = ground arith

  pub retry_job-data :
      (w id : ℕ) (now : ℤ) (result : Bytes) (db : Db C) (j : ℕ)
      → hget (retry_job C w id now result db).1.data_hash j ≡ hget db.data_hash j
  unfolding retry_job
  retry_job-data w id now result db j = elim (hget_cases id db) [
    | inl gone ↦ ground arith
    | inr (job, here) ↦ ground (arith, hget-hset db.data_hash id job j)
  ]
    where
      hget_cases :
          (i : ℕ) (d : Db C)
          → (hget d.data_hash i ≡ none) ⊎ ((v : Bytes) × (hget d.data_hash i ≡ some v))
      hget_cases i d = Option-cases (hget d.data_hash i)

  pub enqueue_scheduled_jobs-data :
      (now : ℤ) (limit : ℕ) (db : Db C)
      → (enqueue_scheduled_jobs C now limit db).0.data_hash ≡ db.data_hash
  unfolding enqueue_scheduled_jobs
  enqueue_scheduled_jobs-data now limit db = ground arith

  pub get_jobs-data : (w limit : ℕ) (db : Db C) → (get_jobs C w limit db).1.data_hash ≡ db.data_hash
  unfolding get_jobs
  get_jobs-data w limit db = ground arith

  reenqueue_loop-data :
      (job_ids : List ℕ) (db : Db C) → (reenqueue_loop C job_ids db).data_hash ≡ db.data_hash
  unfolding reenqueue_loop
  reenqueue_loop-data [] db = refl
  reenqueue_loop-data (id ∷ rest) db =
      let (set, removed) = srem db.inflight_bare id in
      let taken = record db { inflight_bare = set } in
      let db' =
        if removed == 1 then record taken { active = rpush db.active (id ∷ []) } else taken in
      reenqueue_loop-data rest db' ∙ ground arith

  orphan_loop-data :
      (consumers : List ℕ) (limit : ℕ) (db : Db C)
      → (orphan_loop C consumers limit db).0.data_hash ≡ db.data_hash
  unfolding orphan_loop orphan_round
  orphan_loop-data [] limit db = refl
  orphan_loop-data (consumer ∷ rest) limit db =
      let (db', limit') = orphan_round C consumer limit db in
      ground (arith, orphan_loop-data rest limit' db')

  pub reenqueue_orphaned_jobs-data :
      (dead_since : ℤ) (limit : ℕ) (db : Db C)
      → (reenqueue_orphaned_jobs C dead_since limit db).0.data_hash ≡ db.data_hash
  unfolding reenqueue_orphaned_jobs
  reenqueue_orphaned_jobs-data dead_since limit db =
      ground
        (arith, orphan_loop-data (C.zrangebyscore db.consumers (pos 0) dead_since limit) limit db)

  vacuum_loop-data :
      (done_ids : List ℕ) (h : Hash) (removed j : ℕ)
      → hget (vacuum_loop C done_ids h removed).0 j
        ≡ (if count j done_ids == 0 then hget h j else none)
  unfolding vacuum_loop
  vacuum_loop-data [] h removed j = refl
  vacuum_loop-data (id ∷ rest) h removed j =
      let h' : Hash = elim (hget h id) [ none ↦ h | some _ ↦ hdel h id ] in
      let removed' : ℕ = elim (hget h id) [ none ↦ removed | some _ ↦ removed + 1 ] in
      vacuum_loop-data rest h' removed' j ∙ ground (arith, hget-hdel h id j)

  -- The data of done jobs is deleted, and no other.
  pub vacuum-data :
      (db : Db C) (j : ℕ)
      → hget (vacuum C db).0.data_hash j
        ≡ (if count j (ids (entries db.done)) == 0 then hget db.data_hash j else none)
  unfolding vacuum
  vacuum-data db j = vacuum_loop-data (ids (entries db.done)) db.data_hash 0 j

  pub reenqueue_active_jobs-data :
      (job_ids : List ℕ) (db : Db C) → (reenqueue_active_jobs C job_ids db).data_hash ≡ db.data_hash
  unfolding reenqueue_active_jobs
  reenqueue_active_jobs-data job_ids db = reenqueue_loop-data job_ids db
