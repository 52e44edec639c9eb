-- ===== src/Sql/Mysql/Locks.antt =====
-- The locks of the MySQL storage: which jobs a round takes, and which it hands out without.
use apalis_cron_jobs.Prelude.{
  ℕ, ◌≡◌, refl, ap, ◌∙◌, ◌≤◌, Bool, true, false, not, ◌&&◌, some, List, ◌==◌, length, tally, select,
  arith, tally-select,
}
use apalis_cron_jobs.Prelude.Int.{ℤ, ◌≤ℤ◌}
use apalis_cron_jobs.Prelude.Outcome.{ok}
use apalis_cron_jobs.Core.State.{State}
use apalis_cron_jobs.Sql.Context.{Config}
use apalis_cron_jobs.Sql.Engine.{Engine}
use apalis_cron_jobs.Sql.Rows.{lock_row}
use apalis_cron_jobs.Sql.Selection.{
  id_in, pick-fails, pick-passes, tally_passing, length-update_where,
}
use apalis_cron_jobs.Sql.Table.{
  Row, Tables, known, is_pending, is_null, update_where, row, Unique, row-update_where, row-id,
}
use apalis_cron_jobs.Sql.Mysql.Stream.{due_by, sooner, listed, lockable, lock_jobs, read_jobs}

module _ {Args Raw : Type 0} (E : Engine Args Raw) (config : Config) where
  -- A job that was picked is read, if its row is there.
  read_jobs-row :
      (id : ℕ) (picked : List (Row Raw)) (db : Tables Raw) {r : Row Raw}
      → row id db.jobs ≡ some r
      → 1 ≤ tally (λ s. s.id == id) picked
      → 1 ≤ tally (λ s. s.id == id) (read_jobs E config picked db)
  unfolding read_jobs
  read_jobs-row id picked db {r} there h = omega (
    arith,
    E.tally-order_by (sooner E config) (λ (s : Row Raw). s.id == id)
        (select (id_in picked) db.jobs),
    tally-select (λ (s : Row Raw). s.id == id) (id_in picked) db.jobs,
    tally_passing (id_in picked) id db.jobs there (ground (arith, row-id id db.jobs there)),
  )

  -- A job that is due and not skipped is listed, where the buffer holds the table.
  listed-due :
      (id : ℕ) (now : ℤ) (skipped : ℕ → Bool) (jobs : List (Row Raw)) {r : Row Raw}
      → length jobs ≤ config.buffer_size
      → row id jobs ≡ some r
      → due_by E config now r ≡ true
      → skipped id ≡ false
      → 1 ≤ tally (λ s. s.id == id) (listed E config now skipped jobs)
  unfolding listed
  listed-due id now skipped jobs {r} roomy there is_due free =
      pick-passes E config.buffer_size (sooner E config)
        (λ r. due_by E config now r && not (skipped r.id)) id jobs roomy there
        (ground (arith, row-id id jobs there))

  -- Where ids are unique and the buffer holds the table, a round of a registered worker locks each
  -- job that is due, pending, free and not skipped, and reads it as its own; no later round, of any
  -- worker, lists the job, whatever else has been written to the tables since, while the job's row
  -- stays as this round left it and ids are unique.
  pub lock_jobs-exclusive :
      (w id : ℕ) (now : ℤ) (skipped : ℕ → Bool) (db after : Tables Raw) {r : Row Raw}
      → Unique db.jobs
      → known w db.workers ≡ true
      → length db.jobs ≤ config.buffer_size
      → row id db.jobs ≡ some r
      → due_by E config now r ≡ true
      → skipped id ≡ false
      → Unique after.jobs
      → row id after.jobs ≡ row id (lock_jobs E config w now skipped db).1.jobs
      → is_pending r.status && is_null r.lock_by ≡ true
      → let (reply, db') = lock_jobs E config w now skipped db in
        (reply ≡ ok (listed E config now skipped db.jobs))
        × (row id db'.jobs ≡ some (lock_row E config w now r))
        × (1
            ≤ tally
                (λ s. s.id == id)
                (read_jobs E config (listed E config now skipped db.jobs) db'))
        × ((later : ℤ) (others : ℕ → Bool)
            → tally (λ s. s.id == id) (listed E config later others after.jobs) ≡ 0)
  unfolding lock_jobs listed
  lock_jobs-exclusive w id now skipped db after {r} u here roomy there is_due free u'' same
        pending =
      let picked = listed E config now skipped db.jobs in
      let change = lock_row E config w now in
      let jobs' = update_where (lockable E config picked) change db.jobs in
      let db' : Tables Raw = record db { jobs = jobs' } in
      let result : lock_jobs E config w now skipped db ≡ (ok picked, db') = ground arith in
      let mine = listed-due id now skipped db.jobs roomy there is_due free in
      let there' : row id jobs' ≡ some (change r) = ground (
        arith,
        row-update_where (lockable E config picked) change (λ s. refl) id db.jobs,
        row-id id db.jobs there,
        mine,
      ) in
      let left : row id after.jobs ≡ some (change r) =
        same ∙ ap (λ out. row id out.1.jobs) result ∙ there' in
      rw (result, lock_jobs)
        (
          refl,
          there',
          read_jobs-row id picked db' there' mine,
          λ later others.
              pick-fails E config.buffer_size (sooner E config)
                (λ r. due_by E config later r && not (others r.id)) id after.jobs u'' left refl,
        )

  -- A round hands out a failed job that it lists and leaves the job's row alone.
  failed_job_given :
      (w id : ℕ) (now : ℤ) (skipped : ℕ → Bool) (db : Tables Raw) {r : Row Raw}
      → known w db.workers ≡ true
      → length db.jobs ≤ config.buffer_size
      → row id db.jobs ≡ some r
      → r.status ≡ State.failed
      → due_by E config now r ≡ true
      → skipped id ≡ false
      → let db' = (lock_jobs E config w now skipped db).1 in
        (1 ≤ tally (λ s. s.id == id) (read_jobs E config (listed E config now skipped db.jobs) db'))
        × (row id db'.jobs ≡ some r)
        × (db'.workers ≡ db.workers)
        × (length db'.jobs ≡ length db.jobs)
  unfolding lock_jobs
  failed_job_given w id now skipped db {r} wk roomy there fails is_due free =
      let picked = listed E config now skipped db.jobs in
      let change = lock_row E config w now in
      let jobs' = update_where (lockable E config picked) change db.jobs in
      let db' : Tables Raw = record db { jobs = jobs' } in
      let result : lock_jobs E config w now skipped db ≡ (ok picked, db') = ground arith in
      let there' : row id jobs' ≡ some r =
        ground (arith, row-update_where (lockable E config picked) change (λ s. refl) id db.jobs) in
      rw (result, lock_jobs)
        (
          read_jobs-row id picked db' there'
              (listed-due id now skipped db.jobs roomy there is_due free),
          there',
          refl,
          length-update_where (lockable E config picked) change db.jobs,
        )

  -- A failed job that is due, with attempts left, is handed to the workers of two rounds, one after
  -- the other, where both workers are registered and the buffer holds the table:
  -- neither round changes its row, whoever's lock stands in it.
  pub failed_job_given_twice :
      (w v id : ℕ) (now later : ℤ) (skipped others : ℕ → Bool) (db : Tables Raw) {r : Row Raw}
      → known w db.workers ≡ true
      → known v db.workers ≡ true
      → length db.jobs ≤ config.buffer_size
      → row id db.jobs ≡ some r
      → r.status ≡ State.failed
      → due_by E config now r ≡ true
      → now ≤ℤ later
      → skipped id ≡ false
      → others id ≡ false
      → let first = listed E config now skipped db.jobs in
        let db' = (lock_jobs E config w now skipped db).1 in
        let second = listed E config later others db'.jobs in
        let db'' = (lock_jobs E config v later others db').1 in
        (1 ≤ tally (λ s. s.id == id) (read_jobs E config first db'))
        × (1 ≤ tally (λ s. s.id == id) (read_jobs E config second db''))
        × (row id db'.jobs ≡ some r)
        × (row id db''.jobs ≡ some r)
  failed_job_given_twice w v id now later skipped others db {r} wk vk roomy there fails is_due le
        free free' =
      let (handed, there', workers, size) =
        failed_job_given w id now skipped db wk roomy there fails is_due free in
      let (again, there'', _, _) =
        failed_job_given v id later others (lock_jobs E config w now skipped db).1 (rw workers vk)
          (omega (arith, size, roomy)) there' fails (ground (arith, is_due, le)) free' in
      (handed, again, there', there'')
