-- ===== src/Redis/Queue/Bare.antt =====
-- packages/apalis-redis/lua/reenqueue_active_jobs.lua on the key that storage.rs passes it, the
-- in-flight set with no worker in its key: no call puts a job there.
use apalis_cron_jobs.Prelude.{ℕ, ◌≡◌, ap, ◌∙◌, List, count}
use apalis_cron_jobs.Redis.Commands.{Commands}
use apalis_cron_jobs.Redis.Database.{Db}
use apalis_cron_jobs.Redis.Scripts.{reenqueue_active_jobs}
use apalis_cron_jobs.Redis.Scripts.Delivery.{reenqueue_active_jobs_lem}
use apalis_cron_jobs.Redis.Scripts.Bare
use apalis_cron_jobs.Redis.Queue.{
  Step, Reach, new_db, reschedule_job, start, next, pushes, schedules, finishes, kills, retries,
  enqueues, fetches, registers, reenqueues, recovers, updates, reschedules, vacuums,
}

module _ {Bytes : Type 0} (C : Commands Bytes) where
  Step-Bare : {db db' : Db C} → Step C db db' → Bare.Bare C db → Bare.Bare C db'
  unfolding reschedule_job
  Step-Bare {db} {db'} (pushes id job e) empty =
      Bare.Same-Bare C db db' (ap (λ d. d.inflight_bare) e ∙ Bare.push_job-Same C id job db) empty
  Step-Bare {db} {db'} (schedules id job on fresh e) empty =
      Bare.Same-Bare C db db' (ap (λ d. d.inflight_bare) e ∙ Bare.schedule_job-Same C id job on db)
        empty
  Step-Bare {db} {db'} (finishes w id now result e) empty =
      Bare.Same-Bare C db db'
        (ap (λ d. d.inflight_bare) e ∙ Bare.done_job-Same C w id now result db) empty
  Step-Bare {db} {db'} (kills w id now result e) empty =
      Bare.Same-Bare C db db'
        (ap (λ d. d.inflight_bare) e ∙ Bare.kill_job-Same C w id now result db) empty
  Step-Bare {db} {db'} (retries w id now result e) empty =
      Bare.Same-Bare C db db'
        (ap (λ d. d.inflight_bare) e ∙ Bare.retry_job-Same C w id now result db) empty
  Step-Bare {db} {db'} (enqueues now limit h e) empty =
      Bare.Same-Bare C db db'
        (ap (λ d. d.inflight_bare) e ∙ Bare.enqueue_scheduled_jobs-Same C now limit db) empty
  Step-Bare {db} {db'} (fetches w limit e) empty =
      Bare.Same-Bare C db db' (ap (λ d. d.inflight_bare) e ∙ Bare.get_jobs-Same C w limit db) empty
  Step-Bare {db} {db'} (registers now w e) empty =
      Bare.Same-Bare C db db' (ap (λ d. d.inflight_bare) e ∙ Bare.register_consumer-Same C now w db)
        empty
  Step-Bare {db} {db'} (reenqueues job_ids e) empty =
      rw e (Bare.reenqueue_active_jobs-Bare C job_ids db empty)
  Step-Bare {db} {db'} (recovers dead_since limit e) empty =
      Bare.Same-Bare C db db'
        (ap (λ d. d.inflight_bare) e ∙ Bare.reenqueue_orphaned_jobs-Same C dead_since limit db)
        empty
  Step-Bare {db} {db'} (updates id job there e) empty = rw e empty
  Step-Bare {db} {db'} (reschedules w id job now on held e) empty =
      Bare.Same-Bare C db db' (ap (λ d. d.inflight_bare) e ∙ Bare.schedule_job-Same C id job on _)
        empty
  Step-Bare {db} {db'} (vacuums e) empty =
      Bare.Same-Bare C db db' (ap (λ d. d.inflight_bare) e ∙ Bare.vacuum-Same C db) empty

  Reach-Bare : {db : Db C} → Reach C db → Bare.Bare C db
  unfolding new_db
  Reach-Bare start = λ j. ap (count j) C.members-no_set
  Reach-Bare (next r s) = Step-Bare s (Reach-Bare r)

  -- In every database that the queue's calls can reach, re-enqueueing active jobs moves none of them,
  -- whichever it is asked to move: the active list and all workers' in-flight sets stay.
  pub reenqueue_active_jobs_idle :
      (job_ids : List ℕ) (db : Db C)
      → Reach C db
      → let db' = reenqueue_active_jobs C job_ids db in
        (db'.active ≡ db.active) × (db'.inflight ≡ db.inflight)
  reenqueue_active_jobs_idle job_ids db r = reenqueue_active_jobs_lem C job_ids db (Reach-Bare r)
