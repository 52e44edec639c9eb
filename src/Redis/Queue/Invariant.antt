-- ===== src/Redis/Queue/Invariant.antt =====
-- The queue loses no job and holds none twice.
use native.Mathlib.Decide.{dec_lt}
use apalis_cron_jobs.Prelude.{
  ℕ, ◌+◌, ◌≤◌, ◌<◌, ◌≡◌, refl, sym, ◌∙◌, ap, ◌⊎◌, inl, inr, none, List, arith, count, ◌==◌,
  if◌then◌else◌,
}
use apalis_cron_jobs.Prelude.Int.{ℤ}
use apalis_cron_jobs.Redis.Commands.{Commands, ids}
use apalis_cron_jobs.Redis.Database.{Db, set_at, put_at, occ, total, total-put_at}
use apalis_cron_jobs.Redis.Scripts
use apalis_cron_jobs.Redis.Scripts.Moves
use apalis_cron_jobs.Redis.Scripts.Batches
use apalis_cron_jobs.Redis.Scripts.Data
use apalis_cron_jobs.Redis.Queue.{
  new_db, reschedule_job, Step, pushes, schedules, finishes, kills, retries, enqueues, fetches,
  registers, reenqueues, recovers, updates, reschedules, vacuums, Reach, start, next, Inv,
}

module _ {Bytes : Type 0} (C : Commands Bytes) where
  open C use {hget, hget-hset, entries, srem, srem_reply, count-srem, members}

  keep :
      {db : Db C} (db' : Db C)
      → Inv C db
      → ((j : ℕ) → occ C j db' ≡ occ C j db)
      → ((j : ℕ) → hget db'.data_hash j ≡ none → hget db.data_hash j ≡ none)
      → Inv C db'
  keep db' v same kept = record {
    unique = λ j. omega (arith, same j, v.unique j);
    backed = λ j h. same j ∙ v.backed j (kept j h);
  }

  -- The data hash is what it was.
  same_hash : {h h' : C.Hash} → h' ≡ h → (j : ℕ) → hget h' j ≡ none → hget h j ≡ none
  same_hash e j h = sym (ap (λ x. hget x j) e) ∙ h

  push-Inv : (id : ℕ) (job : Bytes) (db : Db C) → Inv C db → Inv C (Scripts.push_job C id job db).0
  push-Inv id job db v = record {
    unique = λ j. ground (arith, Moves.push_job-occ C id job db j, v.unique j, v.backed id);
    backed = λ j h.
        ground
          (arith, Moves.push_job-occ C id job db j, Data.push_job-data C id job db j, v.backed j);
  }

  schedule-Inv :
      (id : ℕ) (job : Bytes) (on : ℤ) (db : Db C)
      → Inv C db
      → occ C id db ≡ 0
      → Inv C (Scripts.schedule_job C id job on db).0
  schedule-Inv id job on db v fresh = record {
    unique = λ j. ground (arith, Moves.schedule_job-occ C id job on db j fresh, v.unique j);
    backed = λ j h. ground (
      arith,
      Moves.schedule_job-occ C id job on db j fresh,
      Data.schedule_job-data C id job on db j,
      v.backed j,
    );
  }

  -- SREM on the worker's set, and the entry among the failed jobs.
  taken : ℕ → ℕ → ℤ → Db C → Db C
  taken w id now db = record db {
    inflight = put_at C w (srem (set_at C w db.inflight) id).0 db.inflight;
    failed = C.zadd db.failed now id;
  }

  taken-occ :
      (w id : ℕ) (now : ℤ) (db : Db C) (j : ℕ)
      → 0 < (srem (set_at C w db.inflight) id).1
      → occ C j (taken w id now db) + (if id == j then 1 else 0) ≡ occ C j db
  unfolding taken occ
  taken-occ w id now db j h = ground (
    arith,
    total-put_at C j w (srem (set_at C w db.inflight) id).0 db.inflight,
    count-srem (set_at C w db.inflight) id j,
    srem_reply (set_at C w db.inflight) id,
    C.members_distinct (set_at C w db.inflight) id,
  )

  taken-Inv :
      (w id : ℕ) (now : ℤ) (db : Db C)
      → Inv C db
      → 0 < (srem (set_at C w db.inflight) id).1
      → Inv C (taken w id now db)
  unfolding taken
  taken-Inv w id now db v h = record {
    unique = λ j. omega (arith, taken-occ w id now db j h, v.unique j);
    backed = λ j e. omega (arith, taken-occ w id now db j h, v.backed j e);
  }

  reschedule-Inv :
      (w id : ℕ) (job : Bytes) (now on : ℤ) (db : Db C)
      → Inv C db
      → 0 < (srem (set_at C w db.inflight) id).1
      → Inv C (reschedule_job C w id job now on db)
  unfolding reschedule_job taken
  reschedule-Inv w id job now on db v h =
      schedule-Inv id job on (taken w id now db) (taken-Inv w id now db v h)
        (ground (arith, taken-occ w id now db id h, v.unique id))

  update-occ :
      (id : ℕ) (job : Bytes) (db : Db C) (j : ℕ)
      → occ C j (record db { data_hash = C.hset db.data_hash id job }) ≡ occ C j db
  unfolding occ
  update-occ id job db j = refl

  reschedule-le :
      (w id : ℕ) (job : Bytes) (now on : ℤ) (db : Db C)
      → Inv C db
      → 0 < (srem (set_at C w db.inflight) id).1
      → (j : ℕ) → occ C j db ≤ occ C j (reschedule_job C w id job now on db)
  unfolding reschedule_job taken
  reschedule-le w id job now on db v h j =
      let fresh : occ C id (taken w id now db) ≡ 0 =
        ground (arith, taken-occ w id now db id h, v.unique id) in
      omega (
        arith,
        taken-occ w id now db j h,
        Moves.schedule_job-occ C id job on (taken w id now db) j fresh,
      )

  vacuum-Inv : (db : Db C) → Inv C db → Inv C (Scripts.vacuum C db).0
  vacuum-Inv db v = record {
    unique = λ j. omega (arith, Batches.vacuum-occ C db j, v.unique j);
    backed = λ j h.
        ground (arith, Batches.vacuum-occ C db j, Data.vacuum-data C db j, v.unique j, v.backed j);
  }

  pub Step-Inv : {db db' : Db C} → Step C db db' → Inv C db → Inv C db'
  Step-Inv {db} (pushes id job e) v = rw e (push-Inv id job db v)
  Step-Inv {db} (schedules id job on fresh e) v = rw e (schedule-Inv id job on db v fresh)
  Step-Inv {db} {db'} (finishes w id now result e) v = rw e (
      keep _ v (λ j. Moves.done_job-occ C w id now result db j (v.unique id))
        (same_hash (Data.done_job-data C w id now result db)))
  Step-Inv {db} {db'} (kills w id now result e) v = rw e (
      keep _ v (λ j. Moves.kill_job-occ C w id now result db j (v.unique id))
        (same_hash (Data.kill_job-data C w id now result db)))
  Step-Inv {db} {db'} (retries w id now result e) v = rw e (
      keep _ v (λ j. Moves.retry_job-occ C w id now result db j (v.unique id))
        (λ j h. sym (Data.retry_job-data C w id now result db j) ∙ h))
  Step-Inv {db} {db'} (enqueues now limit p e) v = rw e (
      keep _ v (λ j. Batches.enqueue_scheduled_jobs-occ C now limit db j p)
        (same_hash (Data.enqueue_scheduled_jobs-data C now limit db)))
  Step-Inv {db} {db'} (fetches w limit e) v = rw e (
      keep _ v (λ j. Batches.get_jobs-occ C w limit db j (v.unique j))
        (same_hash (Data.get_jobs-data C w limit db)))
  Step-Inv {db} {db'} (registers now w e) v = rw e (
      keep _ v (λ j. Moves.register_consumer-occ C now w db j)
        (same_hash (Moves.register_consumer-data C now w db)))
  Step-Inv {db} {db'} (reenqueues job_ids e) v = rw e (
      keep _ v (λ j. Batches.reenqueue_active_jobs-occ C job_ids db j)
        (same_hash (Data.reenqueue_active_jobs-data C job_ids db)))
  Step-Inv {db} {db'} (recovers dead_since limit e) v = rw e (
      keep _ v (λ j. Batches.reenqueue_orphaned_jobs-occ C dead_since limit db j)
        (same_hash (Data.reenqueue_orphaned_jobs-data C dead_since limit db)))
  Step-Inv {db} (updates id job here e) v = rw e (
      keep _ v (λ j. update-occ id job db j)
        (λ j h. ground (arith, hget-hset db.data_hash id job j)))
  Step-Inv {db} (reschedules w id job now on held e) v =
      rw e (reschedule-Inv w id job now on db v held)
  Step-Inv {db} (vacuums e) v = rw e (vacuum-Inv db v)

  new_db-Inv : Inv C (new_db C)
  unfolding new_db occ total
  new_db-Inv = record { unique = λ j. omega (arith, none_there j); backed = λ j h. none_there j }
    where
      none_there : (j : ℕ) → occ C j (new_db C) ≡ 0
      none_there j = omega (
        arith,
        ap (count j) C.items-no_list,
        ap (count j) C.members-no_set,
        ap (λ (l : List (ℤ × ℕ)). count j (ids l)) C.entries-no_zset,
      )

  -- After any history of the calls of `Step`, under the conditions that it names, every job stands
  -- in one place of the queue at most (active, scheduled, in flight with one worker, done or
  -- dead), and a job that stands anywhere has its data in the hash.
  pub Reach-Inv : {db : Db C} → Reach C db → Inv C db
  Reach-Inv start = new_db-Inv
  Reach-Inv (next r s) = Step-Inv s (Reach-Inv r)

  -- No call of `Step` on a queue with that invariant loses a job: its number of places falls only
  -- when the done jobs are vacuumed, and then the job was one of them.
  pub Step-no_loss :
      {db db' : Db C}
      → Step C db db'
      → Inv C db
      → (j : ℕ)
      → (occ C j db ≤ occ C j db')
        ⊎ ((db' ≡ (Scripts.vacuum C db).0) × (0 < count j (ids (entries db.done))))
  Step-no_loss {db} (pushes id job e) v j =
      rw e (inl (ground (arith, Moves.push_job-occ C id job db j)))
  Step-no_loss {db} (schedules id job on fresh e) v j =
      rw e (inl (omega (arith, Moves.schedule_job-occ C id job on db j fresh)))
  Step-no_loss {db} (finishes w id now result e) v j =
      rw e (inl (omega (arith, Moves.done_job-occ C w id now result db j (v.unique id))))
  Step-no_loss {db} (kills w id now result e) v j =
      rw e (inl (omega (arith, Moves.kill_job-occ C w id now result db j (v.unique id))))
  Step-no_loss {db} (retries w id now result e) v j =
      rw e (inl (omega (arith, Moves.retry_job-occ C w id now result db j (v.unique id))))
  Step-no_loss {db} (enqueues now limit p e) v j =
      rw e (inl (omega (arith, Batches.enqueue_scheduled_jobs-occ C now limit db j p)))
  Step-no_loss {db} (fetches w limit e) v j =
      rw e (inl (omega (arith, Batches.get_jobs-occ C w limit db j (v.unique j))))
  Step-no_loss {db} (registers now w e) v j =
      rw e (inl (omega (arith, Moves.register_consumer-occ C now w db j)))
  Step-no_loss {db} (reenqueues job_ids e) v j =
      rw e (inl (omega (arith, Batches.reenqueue_active_jobs-occ C job_ids db j)))
  Step-no_loss {db} (recovers dead_since limit e) v j =
      rw e (inl (omega (arith, Batches.reenqueue_orphaned_jobs-occ C dead_since limit db j)))
  Step-no_loss {db} (updates id job here e) v j = rw e (inl (omega (arith, update-occ id job db j)))
  Step-no_loss {db} (reschedules w id job now on held e) v j =
      rw e (inl (reschedule-le w id job now on db v held j))
  Step-no_loss {db} (vacuums e) v j = elim (dec_lt 0 (count j (ids (entries db.done)))) [
    | yes was_done ↦ inr (e, was_done)
    | no not_done ↦ rw e (inl (omega (arith, Batches.vacuum-occ C db j)))
  ]
