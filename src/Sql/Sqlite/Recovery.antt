-- ===== src/Sql/Sqlite/Recovery.antt =====
-- The recovery of orphaned jobs on SQLite.
use apalis_cron_jobs.Prelude.{
  ℕ, ◌+◌, ◌≡◌, ◌≢◌, refl, ◌≤◌, ◌⊎◌, inl, inr, Bool, true, false, none, some, List, [], ◌∷◌, length,
  take, tally, select, ◌==◌, arith, Bool-cases, length-take, tally-select, tally-take-drop,
  tally_never,
}
use apalis_cron_jobs.Prelude.Int.{ℤ, pos, negsuc}
use apalis_cron_jobs.Prelude.Outcome.{ok}
use apalis_cron_jobs.Core.State.{State}
use apalis_cron_jobs.Sql.Context.{Config}
use apalis_cron_jobs.Sql.Engine.{Engine}
use apalis_cron_jobs.Sql.Table.{
  Row, Tables, is_pending, is_running, limit, update_where, row, Unique, row-update_where,
  tally-update_where, row-id,
}
use apalis_cron_jobs.Sql.Selection.{tally_failing}
use apalis_cron_jobs.Sql.Sqlite.Locks.{fetch_next_refused}
use apalis_cron_jobs.Sql.Sqlite.{
  fetch_next, reenqueue_orphaned, orphans, orphaned, among, orphan_row, earlier,
}

module _ {Args Raw : Type 0} (E : Engine Args Raw) (config : Config) where
  tally-limit :
      (p : Row Raw → Bool) (n : ℤ) (rs : List (Row Raw)) → tally p (limit n rs) ≤ tally p rs
  tally-limit p (pos n) rs = omega (arith, tally-take-drop p n rs)
  tally-limit p (negsuc n) rs = omega arith

  -- A job that is not orphaned is not picked.
  not_picked :
      (count dead_since : ℤ) (db : Tables Raw) (i : ℕ) {r : Row Raw}
      → Unique db.jobs
      → row i db.jobs ≡ some r
      → orphaned E config dead_since db.workers r ≡ false
      → tally (λ s. s.id == i) (orphans E config count dead_since db) ≡ 0
  unfolding orphans
  not_picked count dead_since db i {r} u here fails =
      let q = orphaned E config dead_since db.workers in
      let picked = select q db.jobs in
      let before = λ (r s : Row Raw). earlier r.lock_at s.lock_at in
      omega (
        arith,
        tally-limit (λ (s : Row Raw). s.id == i) count (E.order_by before picked),
        E.tally-order_by before (λ (s : Row Raw). s.id == i) picked,
        tally-select (λ (s : Row Raw). s.id == i) q db.jobs,
        tally_failing q i db.jobs (u i) here fails,
      )

  -- Recovery changes a job only if it is orphaned, that is it runs under a worker of this namespace
  -- that was last seen before the deadline. Then the job is pending, free, and has one attempt more;
  -- every other job's row stays as it was. There are no new rows and none goes.
  pub reenqueue_orphaned_lem :
      (count dead_since : ℤ) (db : Tables Raw)
      → Unique db.jobs
      → let (reply, db') = reenqueue_orphaned E config count dead_since db in
        (reply ≡ ok tt)
        × ((i : ℕ) → tally (λ r. r.id == i) db'.jobs ≡ tally (λ r. r.id == i) db.jobs)
        × ((i : ℕ) (r : Row Raw)
            → row i db.jobs ≡ some r
            → (row i db'.jobs ≡ some r)
              ⊎ ((orphaned E config dead_since db.workers r ≡ true)
                  × (row i db'.jobs ≡ some (orphan_row E config r))))
  unfolding reenqueue_orphaned
  reenqueue_orphaned_lem count dead_since db u =
      let picked = orphans E config count dead_since db in
      (
        refl,
        λ i. tally-update_where (among E config picked) (orphan_row E config) (λ s. refl) i db.jobs,
        λ i r here. elim (Bool-cases (orphaned E config dead_since db.workers r)) [
          | inl yes_orphan ↦ ground (
            arith,
            row-update_where (among E config picked) (orphan_row E config) (λ s. refl) i db.jobs,
          )
          | inr fine ↦ ground (
            arith,
            row-update_where (among E config picked) (orphan_row E config) (λ s. refl) i db.jobs,
            not_picked count dead_since db i u here fine,
            row-id i db.jobs here,
          )
        ],
      )

  sum_ids : List (Row Raw) → List (Row Raw) → ℕ
  sum_ids [] rs = 0
  sum_ids (s ∷ ps) rs = tally (λ r. r.id == s.id) rs + sum_ids ps rs

  tally-among : (ps rs : List (Row Raw)) → tally (among E config ps) rs ≤ sum_ids ps rs
  unfolding sum_ids
  tally-among [] rs = omega (arith, tally_never (among E config []) (λ r. refl) rs)
  tally-among (s ∷ ps) rs = omega (arith, among_cons s ps rs, tally-among ps rs)
    where
      among_cons :
          (s : Row Raw) (ps rs : List (Row Raw))
          → tally (among E config (s ∷ ps)) rs
            ≤ tally (λ r. r.id == s.id) rs + tally (among E config ps) rs
      among_cons s ps [] = omega arith
      among_cons s ps (r ∷ rs) = ground (arith, among_cons s ps rs)

  sum_ids-le : (ps rs : List (Row Raw)) → Unique rs → sum_ids ps rs ≤ length ps
  unfolding sum_ids
  sum_ids-le [] rs u = omega arith
  sum_ids-le (s ∷ ps) rs u = omega (arith, sum_ids-le ps rs u, u s.id)

  tally-update_where-le :
      (p q : Row Raw → Bool) (f : Row Raw → Row Raw) (rs : List (Row Raw))
      → (tally p (update_where q f rs) ≤ tally p rs + tally q rs)
        × (tally p rs ≤ tally p (update_where q f rs) + tally q rs)
  tally-update_where-le p q f [] = omega arith
  tally-update_where-le p q f (r ∷ rs) = ground (arith, tally-update_where-le p q f rs)

  -- Recovery with a limit takes no more jobs than that from the running ones, nor gives more to the
  -- pending ones.
  pub reenqueue_orphaned_limit :
      (n : ℕ) (dead_since : ℤ) (db : Tables Raw)
      → Unique db.jobs
      → let db' = (reenqueue_orphaned E config (pos n) dead_since db).1 in
        (tally (λ r. is_running r.status) db.jobs ≤ tally (λ r. is_running r.status) db'.jobs + n)
        × (tally (λ r. is_pending r.status) db'.jobs ≤ tally (λ r. is_pending r.status) db.jobs + n)
  unfolding reenqueue_orphaned orphans
  reenqueue_orphaned_limit n dead_since db u =
      let all =
        E.order_by (λ (r s : Row Raw). earlier r.lock_at s.lock_at)
          (select (orphaned E config dead_since db.workers) db.jobs) in
      let picked = take n all in
      let few : tally (among E config picked) db.jobs ≤ n =
        omega (arith, tally-among picked db.jobs, sum_ids-le picked db.jobs u, length-take n all) in
      let change = λ (p : Row Raw → Bool).
        tally-update_where-le p (among E config picked) (orphan_row E config) db.jobs in
      (
        omega (arith, (change (λ r. is_running r.status)).1, few),
        omega (arith, (change (λ r. is_pending r.status)).0, few),
      )

  -- A job that failed under a worker stays with that worker: recovery leaves its row as it is,
  -- whatever the deadline, and a fetch after it gives the job to no other worker, at any time.
  pub failed_job_is_stranded :
      (w v id : ℕ) (count dead_since now : ℤ) (db : Tables Raw) {r : Row Raw}
      → Unique db.jobs
      → row id db.jobs ≡ some r
      → r.status ≡ State.failed
      → r.lock_by ≡ some w
      → v ≢ w
      → let db' = (reenqueue_orphaned E config count dead_since db).1 in
        (row id db'.jobs ≡ some r) × (fetch_next E config v now id db' ≡ (ok none, db'))
  failed_job_is_stranded w v id count dead_since now db {r} u here failing held other =
      let db' = (reenqueue_orphaned E config count dead_since db).1 in
      let (_, ids, rows) = reenqueue_orphaned_lem count dead_since db u in
      let there : row id db'.jobs ≡ some r = elim (rows id r here) [
        | inl same ↦ same
        | inr (orphan, _) ↦ ground arith
      ] in
      let u' : Unique db'.jobs = λ i. rw (ids i) (u i) in
      (there, fetch_next_refused E config v now id db' u' there (ground arith) (ground arith))
