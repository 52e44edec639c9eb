-- ===== src/Redis/Scripts/Bare.antt =====
-- packages/apalis-redis/lua: what the scripts do to the in-flight set with no worker in its key.
use apalis_cron_jobs.Prelude.{
  ℕ, ◌≡◌, refl, ap, ◌∙◌, List, [], ◌∷◌, arith, count, inl, inr, Bool-cases, leb,
}
use apalis_cron_jobs.Prelude.Int.{ℤ, pos}
use apalis_cron_jobs.Redis.Commands.{Commands}
use apalis_cron_jobs.Redis.Database.{Db}
use apalis_cron_jobs.Redis.Scripts.{
  push_job, schedule_job, done_job, kill_job, retry_job, reset_job, take_inflight, hsetnx,
  enqueue_scheduled_jobs, get_jobs, register_consumer, reenqueue_loop, reenqueue_active_jobs,
  orphan_round, orphan_loop, reenqueue_orphaned_jobs, vacuum,
}

module _ {Bytes : Type 0} (C : Commands Bytes) where
  open C use {members, srem, srem_reply, count-srem, members-no_set, hget, zscore}

  abbrev pub Bare : Db C → Type 0
  Bare db = (j : ℕ) → count j (members db.inflight_bare) ≡ 0

  orphan_loop-bare :
      (consumers : List ℕ) (limit : ℕ) (db : Db C)
      → (orphan_loop C consumers limit db).0.inflight_bare ≡ db.inflight_bare
  unfolding orphan_loop orphan_round
  orphan_loop-bare [] limit db = refl
  orphan_loop-bare (consumer ∷ rest) limit db =
      let (db', left) = orphan_round C consumer limit db in
      elim (Bool-cases (leb left 0)) [
        | inl over ↦ ground arith
        | inr more ↦ ground (arith, orphan_loop-bare rest left db')
      ]

  reenqueue_loop-Bare :
      (job_ids : List ℕ) (db : Db C) → Bare db → Bare (reenqueue_loop C job_ids db)
  unfolding reenqueue_loop
  reenqueue_loop-Bare [] db empty = empty
  reenqueue_loop-Bare (id ∷ rest) db empty =
      let removed : (srem db.inflight_bare id).1 ≡ 0 = srem_reply db.inflight_bare id ∙ empty id in
      rw (removed, reenqueue_loop)
        (reenqueue_loop-Bare rest (record db { inflight_bare = (srem db.inflight_bare id).0 })
          (λ j. ground (arith, count-srem db.inflight_bare id j, empty j)))

  abbrev pub Same : Db C → Db C → Type 0
  Same db db' = db'.inflight_bare ≡ db.inflight_bare

  pub Same-Bare : (db db' : Db C) → Same db db' → Bare db → Bare db'
  Same-Bare db db' same empty j = ap (λ s. count j (members s)) same ∙ empty j

  pub push_job-Same : (id : ℕ) (job : Bytes) (db : Db C) → Same db (push_job C id job db).0
  unfolding push_job hsetnx
  push_job-Same id job db = ground arith

  pub done_job-Same :
      (w id : ℕ) (now : ℤ) (result : Bytes) (db : Db C) → Same db (done_job C w id now result db).0
  unfolding done_job take_inflight
  done_job-Same w id now result db = ground arith

  pub kill_job-Same :
      (w id : ℕ) (now : ℤ) (result : Bytes) (db : Db C) → Same db (kill_job C w id now result db).0
  unfolding kill_job take_inflight
  kill_job-Same w id now result db = ground arith

  pub retry_job-Same :
      (w id : ℕ) (now : ℤ) (result : Bytes) (db : Db C) → Same db (retry_job C w id now result db).1
  unfolding retry_job reset_job take_inflight
  retry_job-Same w id now result db = ground arith

  pub enqueue_scheduled_jobs-Same :
      (now : ℤ) (limit : ℕ) (db : Db C) → Same db (enqueue_scheduled_jobs C now limit db).0
  unfolding enqueue_scheduled_jobs
  enqueue_scheduled_jobs-Same now limit db = ground arith

  pub get_jobs-Same : (w limit : ℕ) (db : Db C) → Same db (get_jobs C w limit db).1
  unfolding get_jobs
  get_jobs-Same w limit db = ground arith

  pub reenqueue_orphaned_jobs-Same :
      (dead_since : ℤ) (limit : ℕ) (db : Db C)
      → Same db (reenqueue_orphaned_jobs C dead_since limit db).0
  unfolding reenqueue_orphaned_jobs
  reenqueue_orphaned_jobs-Same dead_since limit db =
      let consumers = C.zrangebyscore db.consumers (pos 0) dead_since limit in
      ground (arith, orphan_loop-bare consumers limit db)

  pub schedule_job-Same :
      (id : ℕ) (job : Bytes) (on : ℤ) (db : Db C) → Same db (schedule_job C id job on db).0
  unfolding schedule_job
  schedule_job-Same id job on db = refl

  pub register_consumer-Same :
      (now : ℤ) (w : ℕ) (db : Db C) → Same db (register_consumer C now w db)
  unfolding register_consumer
  register_consumer-Same now w db = refl

  pub vacuum-Same : (db : Db C) → Same db (vacuum C db).0
  unfolding vacuum
  vacuum-Same db = refl

  pub reenqueue_active_jobs-Bare :
      (job_ids : List ℕ) (db : Db C) → Bare db → Bare (reenqueue_active_jobs C job_ids db)
  unfolding reenqueue_active_jobs
  reenqueue_active_jobs-Bare job_ids db empty = reenqueue_loop-Bare job_ids db empty
