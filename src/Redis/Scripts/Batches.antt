-- ===== src/Redis/Scripts/Batches.antt =====
-- The scripts that move many jobs at once.
use apalis_cron_jobs.Prelude.{
  ℕ, zero, suc, ◌+◌, ◌-◌, ◌≤◌, ◌≡◌, refl, sym, ap, ◌∙◌, List, [], ◌∷◌, arith, length, take, drop,
  select, count, count-append, count-take-drop, take-length-take, take-length, count-le-length,
  ◌==◌, if◌then◌else◌,
}
use apalis_cron_jobs.Prelude.Int.{ℤ, pos, sub_ℕ}
use apalis_cron_jobs.Redis.Commands.{Commands, ids, in_range}
use apalis_cron_jobs.Redis.Ranges.{NonNegative, length-ids, count-ids-take-drop, range_prefix}
use apalis_cron_jobs.Redis.Database.{Db, set_at, total-put_at, count-set_at-le, occ}
use apalis_cron_jobs.Redis.Scripts.{
  enqueue_scheduled_jobs, get_jobs, orphan_round, orphan_loop, reenqueue_orphaned_jobs,
  reenqueue_loop, reenqueue_active_jobs, vacuum,
}

module _ {Bytes : Type 0} (C : Commands Bytes) where
  open C use {
    RList, items, rpush, items-rpush, members, members_distinct, srem, srem_reply, count-srem, sadd,
    count-sadd, spop, count-spop, length-spop, entries, entries_ascending, zscore, zrangebyscore,
    zrangebyscore_lem, entries-zremrangebyrank, hget, items-ltrim, lrange, lrange_lem, lrange_whole,
    no_zset, entries-no_zset,
  }

  -- The jobs that are due, as a prefix of the scheduled set.
  due_prefix :
      (db : Db C) (now : ℤ) (limit j : ℕ)
      → NonNegative (entries db.scheduled)
      → let job_ids = zrangebyscore db.scheduled (pos 0) now limit in
        count j job_ids + count j (ids (drop (length job_ids) (entries db.scheduled)))
        ≡ count j (ids (entries db.scheduled))
  due_prefix db now limit j p =
      let es = entries db.scheduled in
      let due = take limit (select (in_range (pos 0) now) es) in
      rw (zrangebyscore_lem db.scheduled (pos 0) now limit) (
        rw (length-ids due) (
          omega (
            arith,
            count-ids-take-drop j (length due) es,
            ap (λ (l : List (ℤ × ℕ)). count j (ids l))
                (range_prefix now limit es (entries_ascending db.scheduled) p),
          )))

  pub enqueue_scheduled_jobs-occ :
      (now : ℤ) (limit : ℕ) (db : Db C) (j : ℕ)
      → NonNegative (entries db.scheduled)
      → occ C j (enqueue_scheduled_jobs C now limit db).0 ≡ occ C j db
  unfolding enqueue_scheduled_jobs occ
  enqueue_scheduled_jobs-occ now limit db j p =
      let job_ids = zrangebyscore db.scheduled (pos 0) now limit in
      ground (
        arith,
        due_prefix db now limit j p,
        ap (count j) (items-rpush db.active job_ids),
        count-append j (items db.active) job_ids,
        ap (λ (l : List (ℤ × ℕ)). count j (ids l))
            (entries-zremrangebyrank db.scheduled (length job_ids)),
      )

  -- The jobs that a worker gets are the head of the active list: so many as it asked for, and all
  -- of them if it asked for none.
  abbrev pub batch_size : ℕ → RList → ℕ
  batch_size zero l = length (items l)
  batch_size (suc limit) l = suc limit

  pub batch_lem :
      (limit : ℕ) (l : RList)
      → lrange l (pos 0) (sub_ℕ limit 1) ≡ take (batch_size limit l) (items l)
  batch_lem zero l = lrange_whole l ∙ sym (take-length (items l))
  batch_lem (suc limit) l =
      let stop : sub_ℕ (suc limit) 1 ≡ pos limit = ground arith in
      let width : limit + 1 - 0 ≡ suc limit = omega arith in
      rw stop (lrange_lem l 0 limit ∙ ap (λ (n : ℕ). take n (items l)) width)

  -- What is read off the active list and what is left of it.
  batch_split :
      (limit j : ℕ) (l : RList)
      → let job_ids = lrange l (pos 0) (sub_ℕ limit 1) in
        count j job_ids + count j (drop (length job_ids) (items l)) ≡ count j (items l)
  batch_split limit j l =
      let xs = items l in
      let n = batch_size limit l in
      rw (batch_lem limit l) (
        omega
          (arith, count-take-drop j (length (take n xs)) xs, ap (count j) (take-length-take n xs)))

  pub get_jobs-occ :
      (w limit : ℕ) (db : Db C) (j : ℕ)
      → occ C j db ≤ 1
      → occ C j (get_jobs C w limit db).1 ≡ occ C j db
  unfolding get_jobs occ
  get_jobs-occ w limit db j u =
      let job_ids = lrange db.active (pos 0) (sub_ℕ limit 1) in
      let set = set_at C w db.inflight in
      ground (
        arith,
        batch_split limit j db.active,
        ap (count j) (items-ltrim db.active (length job_ids)),
        total-put_at C j w (sadd set job_ids) db.inflight,
        count-sadd set job_ids j,
        count-set_at-le C j w db.inflight,
      )

  reenqueue_loop-occ :
      (job_ids : List ℕ) (db : Db C) (j : ℕ) → occ C j (reenqueue_loop C job_ids db) ≡ occ C j db
  unfolding reenqueue_loop occ
  reenqueue_loop-occ [] db j = refl
  reenqueue_loop-occ (id ∷ rest) db j =
      let (set, removed) = srem db.inflight_bare id in
      let taken = record db { inflight_bare = set } in
      let db' =
        if removed == 1 then record taken { active = rpush db.active (id ∷ []) } else taken in
      reenqueue_loop-occ rest db' j
      ∙ ground (
        arith,
        ap (count j) (items-rpush db.active (id ∷ [])),
        count-append j (items db.active) (id ∷ []),
        count-srem db.inflight_bare id j,
        srem_reply db.inflight_bare id,
        members_distinct db.inflight_bare id,
      )

  orphan_round-occ :
      (consumer limit : ℕ) (db : Db C) (j : ℕ)
      → occ C j (orphan_round C consumer limit db).0 ≡ occ C j db
  unfolding orphan_round occ
  orphan_round-occ consumer limit db j =
      let set = set_at C consumer db.inflight in
      ground (
        arith,
        ap (count j) (items-rpush db.active (spop set limit).1),
        count-append j (items db.active) (spop set limit).1,
        total-put_at C j consumer (spop set limit).0 db.inflight,
        count-spop set limit j,
        count-le-length j (spop set limit).1,
      )

  orphan_loop-occ :
      (consumers : List ℕ) (limit : ℕ) (db : Db C) (j : ℕ)
      → occ C j (orphan_loop C consumers limit db).0 ≡ occ C j db
  unfolding orphan_loop
  orphan_loop-occ [] limit db j = refl
  orphan_loop-occ (consumer ∷ rest) limit db j =
      let (db', limit') = orphan_round C consumer limit db in
      ground (arith, orphan_round-occ consumer limit db j, orphan_loop-occ rest limit' db' j)

  pub reenqueue_orphaned_jobs-occ :
      (dead_since : ℤ) (limit : ℕ) (db : Db C) (j : ℕ)
      → occ C j (reenqueue_orphaned_jobs C dead_since limit db).0 ≡ occ C j db
  unfolding reenqueue_orphaned_jobs occ
  reenqueue_orphaned_jobs-occ dead_since limit db j =
      ground
        (arith, orphan_loop-occ (C.zrangebyscore db.consumers (pos 0) dead_since limit) limit db j)

  -- A done job leaves the queue, and no other one does.
  pub vacuum-occ :
      (db : Db C) (j : ℕ) → occ C j (vacuum C db).0 + count j (ids (entries db.done)) ≡ occ C j db
  unfolding vacuum occ
  vacuum-occ db j = omega (arith, ap (λ (l : List (ℤ × ℕ)). count j (ids l)) entries-no_zset)

  pub reenqueue_active_jobs-occ :
      (job_ids : List ℕ) (db : Db C) (j : ℕ)
      → occ C j (reenqueue_active_jobs C job_ids db) ≡ occ C j db
  unfolding reenqueue_active_jobs occ
  reenqueue_active_jobs-occ job_ids db j = reenqueue_loop-occ job_ids db j
