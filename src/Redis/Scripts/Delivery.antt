-- ===== src/Redis/Scripts/Delivery.antt =====
-- What the scripts deliver: the order of the queue, the place that a job goes to, and whose jobs are
-- taken back.
use apalis_cron_jobs.Prelude.{
  ℕ, zero, suc, ◌+◌, ◌-◌, ◌≤◌, ◌<◌, ◌≡◌, ◌≢◌, ◌⊎◌, inl, inr, Option-cases, refl, ap, ◌∙◌, ◌&&◌,
  none, some, List, [], ◌∷◌, map, arith, length, take, drop, select, count, length-append,
  drop-length-take, ◌==◌, if◌then◌else◌, min,
}
use apalis_cron_jobs.Prelude.Int.{ℤ, pos, sub_ℕ}
use apalis_cron_jobs.Prelude.Outcome.{ok, err}
use apalis_cron_jobs.Redis.Commands.{Commands, ids, in_range}
use apalis_cron_jobs.Redis.Ranges.{count-ids-take-drop}
use apalis_cron_jobs.Redis.Database.{Db, set_at, set_at-put_at}
use apalis_cron_jobs.Redis.Scripts.{
  done_job, kill_job, retry_job, get_jobs, orphan_round, orphan_loop, reenqueue_orphaned_jobs,
  reenqueue_loop, reenqueue_active_jobs, register_consumer, consumer_not_registered,
}
use apalis_cron_jobs.Redis.Scripts.Batches.{batch_lem}

module _ {Bytes : Type 0} (C : Commands Bytes) where
  open C use {
    RList, items, items-rpush, items-ltrim, lrange, lrange_lem, members, srem, srem_reply,
    count-srem, sadd, count-sadd, zscore, hget, entries, zadd, count-zadd, spop, length-spop,
    count-spop,
  }

  -- A worker that is not registered gets an error and nothing moves. One that is, and asks for a
  -- positive number of jobs, gets the data of the head of the active list, at most so many, in the
  -- list's order; the rest stays active, in order; the jobs stand in that worker's set, and no other
  -- worker's set changes.
  pub get_jobs_lem :
      (w limit : ℕ) (db : Db C)
      → 0 < limit
      → let (result, db') = get_jobs C w limit db in
        let batch = take limit (items db.active) in
        ((zscore db.consumers w ≡ none) × (result ≡ err consumer_not_registered) × (db' ≡ db))
        ⊎ ((score : ℤ) × (zscore db.consumers w ≡ some score)
            × (result ≡ ok (map (hget db.data_hash) batch))
            × (items db'.active ≡ drop limit (items db.active))
            × ((j : ℕ)
                → count j (members (set_at C w db'.inflight))
                  ≡ min 1 (count j (members (set_at C w db.inflight)) + count j batch))
            × ((v : ℕ) → v ≢ w → set_at C v db'.inflight ≡ set_at C v db.inflight))
  unfolding get_jobs
  get_jobs_lem w zero db h = elim h [ ]
  get_jobs_lem w (suc n) db h =
      let job_ids = lrange db.active (pos 0) (sub_ℕ (suc n) 1) in
      let xs = items db.active in
      elim (Option-cases (zscore db.consumers w)) [
        | inl e ↦ inl (e, ground arith, ground arith)
        | inr (score, e) ↦ inr (
          score,
          e,
          ground (arith, batch_lem C (suc n) db.active),
          ground (
            arith,
            batch_lem C (suc n) db.active,
            items-ltrim db.active (length job_ids),
            drop-length-take (suc n) xs,
          ),
          (λ j. ground (
            arith,
            batch_lem C (suc n) db.active,
            set_at-put_at C w w (sadd (set_at C w db.inflight) job_ids) db.inflight,
            count-sadd (set_at C w db.inflight) job_ids j,
            C.members_distinct (set_at C w db.inflight) j,
          )),
          λ v ne.
              ground
                (arith, set_at-put_at C w v (sadd (set_at C w db.inflight) job_ids) db.inflight),
        )
      ]

  -- An acknowledgement counts only while the worker holds the job. Then the job leaves the worker's
  -- set, is among the done jobs and has its result stored; otherwise nothing of this happens. The
  -- reply says which. No other job is touched, neither way.
  pub done_job_lem :
      (w id : ℕ) (now : ℤ) (result : Bytes) (db : Db C)
      → let (db', reply) = done_job C w id now result db in
        let held = count id (members (set_at C w db.inflight)) == 1 in
        (reply ≡ held)
        × ((j : ℕ)
            → (count j (ids (entries db'.done))
                ≡ (if held && id == j then 1 else count j (ids (entries db.done))))
              × (hget db'.results j ≡ (if held && id == j then some result else hget db.results j))
              × (count j (members (set_at C w db'.inflight))
                  ≡ (if id == j then 0 else count j (members (set_at C w db.inflight))))
              × (db'.active ≡ db.active)
              × (db'.scheduled ≡ db.scheduled)
              × (db'.dead ≡ db.dead))
  unfolding done_job
  done_job_lem w id now result db =
      let set = set_at C w db.inflight in
      (
        ground (arith, srem_reply set id),
        λ j.
            let facts = set_at-put_at C w w (srem set id).0 db.inflight in
            (
              ground (arith, srem_reply set id, count-zadd db.done now id j),
              ground (arith, srem_reply set id, C.hget-hset db.results id result j),
              ground (arith, srem_reply set id, facts, count-srem set id j),
              ground (arith, srem_reply set id),
              ground (arith, srem_reply set id),
              ground (arith, srem_reply set id),
            ),
      )

  -- The same for a job that is killed: it goes among the dead jobs.
  pub kill_job_lem :
      (w id : ℕ) (now : ℤ) (result : Bytes) (db : Db C) (j : ℕ)
      → let (db', reply) = kill_job C w id now result db in
        let held = count id (members (set_at C w db.inflight)) == 1 in
        (reply ≡ (if held then 1 else 0))
        × (count j (ids (entries db'.dead))
            ≡ (if held && id == j then 1 else count j (ids (entries db.dead))))
        × (hget db'.results j ≡ (if held && id == j then some result else hget db.results j))
        × (count j (members (set_at C w db'.inflight))
            ≡ (if id == j then 0 else count j (members (set_at C w db.inflight))))
        × (db'.active ≡ db.active)
        × (db'.scheduled ≡ db.scheduled)
        × (db'.done ≡ db.done)
  unfolding kill_job
  kill_job_lem w id now result db j =
      let set = set_at C w db.inflight in
      (
        ground (arith, srem_reply set id),
        ground (arith, srem_reply set id, count-zadd db.dead now id j),
        ground (arith, srem_reply set id, C.hget-hset db.results id result j),
        ground (
          arith,
          srem_reply set id,
          set_at-put_at C w w (srem set id).0 db.inflight,
          count-srem set id j,
        ),
        ground (arith, srem_reply set id),
        ground (arith, srem_reply set id),
        ground (arith, srem_reply set id),
      )

  loop :
      (job_ids : List ℕ) (db : Db C)
      → ((j : ℕ) → count j (members db.inflight_bare) ≡ 0)
      → let db' = reenqueue_loop C job_ids db in
        (db'.active ≡ db.active) × (db'.inflight ≡ db.inflight)
  unfolding reenqueue_loop
  loop [] db empty = (refl, refl)
  loop (id ∷ rest) db empty =
      let (set, removed) = srem db.inflight_bare id in
      let db' = record db { inflight_bare = set } in
      let none_removed : removed ≡ 0 = srem_reply db.inflight_bare id ∙ empty id in
      let later = loop rest db' (λ j. ground (arith, count-srem db.inflight_bare id j, empty j)) in
      (ground (arith, none_removed, later), ground (arith, none_removed, later))

  -- With no job in the set at the key that the storage passes, re-enqueueing moves none of the jobs
  -- that it is asked to move, whichever worker holds them.
  pub reenqueue_active_jobs_lem :
      (job_ids : List ℕ) (db : Db C)
      → ((j : ℕ) → count j (members db.inflight_bare) ≡ 0)
      → let db' = reenqueue_active_jobs C job_ids db in
        (db'.active ≡ db.active) × (db'.inflight ≡ db.inflight)
  unfolding reenqueue_active_jobs
  reenqueue_active_jobs_lem job_ids db empty = loop job_ids db empty

  orphan_round_lem :
      (consumer limit : ℕ) (db : Db C)
      → let (db', left) = orphan_round C consumer limit db in
        (length (items db'.active) + left ≡ length (items db.active) + limit)
        × (left ≡ limit - length (members (set_at C consumer db.inflight)))
        × ((v : ℕ) → v ≢ consumer → set_at C v db'.inflight ≡ set_at C v db.inflight)
  unfolding orphan_round
  orphan_round_lem consumer limit db =
      let set = set_at C consumer db.inflight in
      let jobs = (spop set limit).1 in
      (
        ground (
          arith,
          length-spop set limit,
          ap length (items-rpush db.active jobs),
          length-append (items db.active) jobs,
        ),
        ground (arith, length-spop set limit),
        λ v ne. ground (arith, set_at-put_at C consumer v (spop set limit).0 db.inflight),
      )

  orphan_loop_count :
      (consumers : List ℕ) (limit : ℕ) (db : Db C)
      → let (db', left) = orphan_loop C consumers limit db in
        length (items db'.active) + left ≡ length (items db.active) + limit
  unfolding orphan_loop
  orphan_loop_count [] limit db = refl
  orphan_loop_count (consumer ∷ rest) limit db =
      let (db', left) = orphan_round C consumer limit db in
      ground (arith, (orphan_round_lem consumer limit db).0, orphan_loop_count rest left db')

  orphan_loop_left :
      (consumers : List ℕ) (limit : ℕ) (db : Db C) → (orphan_loop C consumers limit db).1 ≤ limit
  unfolding orphan_loop
  orphan_loop_left [] limit db = omega arith
  orphan_loop_left (consumer ∷ rest) limit db =
      let (db', left) = orphan_round C consumer limit db in
      ground (arith, (orphan_round_lem consumer limit db).1, orphan_loop_left rest left db')

  orphan_loop_others :
      (consumers : List ℕ) (limit : ℕ) (db : Db C) (v : ℕ)
      → count v consumers ≡ 0
      → set_at C v (orphan_loop C consumers limit db).0.inflight ≡ set_at C v db.inflight
  unfolding orphan_loop
  orphan_loop_others [] limit db v h = refl
  orphan_loop_others (consumer ∷ rest) limit db v h =
      let (db', left) = orphan_round C consumer limit db in
      let other = (orphan_round_lem consumer limit db).2 v (λ e. ground arith) in
      ground (arith, other, orphan_loop_others rest left db' v (ground arith))

  -- Recovery takes at most so many jobs as it may: the active list grows by exactly the number that
  -- the script reports. A worker that was seen after the deadline keeps all its jobs.
  pub reenqueue_orphaned_jobs_lem :
      (dead_since : ℤ) (limit : ℕ) (db : Db C)
      → let (db', processed) = reenqueue_orphaned_jobs C dead_since limit db in
        (processed ≤ limit)
        × (length (items db'.active) ≡ length (items db.active) + processed)
        × ((v : ℕ)
            → count v (ids (select (in_range (pos 0) dead_since) (entries db.consumers))) ≡ 0
            → set_at C v db'.inflight ≡ set_at C v db.inflight)
  unfolding reenqueue_orphaned_jobs
  reenqueue_orphaned_jobs_lem dead_since limit db =
      let es = select (in_range (pos 0) dead_since) (entries db.consumers) in
      let expired = C.zrangebyscore db.consumers (pos 0) dead_since limit in
      (
        omega arith,
        ground (arith, orphan_loop_count expired limit db, orphan_loop_left expired limit db),
        λ v alive.
            let none_expired : count v expired ≡ 0 = omega (
              arith,
              ap (count v) (C.zrangebyscore_lem db.consumers (pos 0) dead_since limit),
              count-ids-take-drop v limit es,
            ) in
            ground (arith, orphan_loop_others expired limit db v none_expired),
      )

  -- Registering touches the consumers only.
  pub register_consumer_lem :
      (now : ℤ) (w : ℕ) (db : Db C)
      → let db' = register_consumer C now w db in
        (zscore db'.consumers w ≡ some now)
        × (db'.active ≡ db.active)
        × (db'.inflight ≡ db.inflight)
  unfolding register_consumer
  register_consumer_lem now w db = (ground (arith, C.zscore-zadd db.consumers now w w), refl, refl)

  -- A job that is sent back while its data is there becomes scheduled at once, with its data as it
  -- was.
  pub retry_job_lem :
      (w id : ℕ) (now : ℤ) (result : Bytes) (db : Db C) {job : Bytes}
      → count id (members (set_at C w db.inflight)) ≡ 1
      → hget db.data_hash id ≡ some job
      → let (reply, db') = retry_job C w id now result db in
        (reply ≡ some 1)
        × (count id (ids (entries db'.scheduled)) ≡ 1)
        × (count id (members (set_at C w db'.inflight)) ≡ 0)
  unfolding retry_job
  retry_job_lem w id now result db held here =
      let set = set_at C w db.inflight in
      (
        ground (arith, srem_reply set id),
        ground (arith, srem_reply set id, count-zadd db.scheduled now id id),
        ground (
          arith,
          srem_reply set id,
          set_at-put_at C w w (srem set id).0 db.inflight,
          count-srem set id id,
        ),
      )
