-- ===== src/Sql/Sqlite/Locks.antt =====
-- The locks of the SQLite storage: who gets a job.
use apalis_cron_jobs.Prelude.{
  ℕ, ◌^◌, ◌≡◌, ◌≢◌, refl, ◌∙◌, ◌<◌, ◌⊎◌, inl, inr, true, false, ◌&&◌, none, some, ◌==◌,
  if◌then◌else◌, arith, Option-cases,
}
use apalis_cron_jobs.Prelude.Int.{ℤ, pos, ◌+ℤ◌, ltb_ℤ}
use apalis_cron_jobs.Prelude.Outcome.{ok, err}
use text.Mathlib.Text.{◌==◌ as str_eq}
use apalis_cron_jobs.Core.Request.{Request}
use apalis_cron_jobs.Sql.Context.{Config, SqlContext}
use apalis_cron_jobs.Sql.Engine.{foreign_key_violation, Engine}
use apalis_cron_jobs.Sql.Table.{
  Row, Tables, known, is_pending, is_null, locked_by, update_where, row, Unique, row-update_where,
  tally-update_where, find_lem, row-id,
}
use apalis_cron_jobs.Sql.Sqlite.{fetch_next, reschedule, free, lock_row, due, reschedule_row}

module _ {Args Raw : Type 0} (E : Engine Args Raw) (config : Config) where
  -- What a fetch makes of a row: a row that is free is locked by the worker; one that the worker
  -- holds already is given to it again; any other is given to no one.
  pub fetch_next_lem :
      (w : ℕ) (now : ℤ) (id : ℕ) (db : Tables Raw) {r : Row Raw}
      → Unique db.jobs
      → row id db.jobs ≡ some r
      → let (reply, db') = fetch_next E config w now id db in
        ((reply ≡ ok (some (lock_row E config w now r)))
          × (free E config r ≡ true)
          × (row id db'.jobs ≡ some (lock_row E config w now r)))
        ⊎ ((reply ≡ err foreign_key_violation) × (known w db.workers ≡ false) × (db' ≡ db))
        ⊎ ((free E config r ≡ false)
            × (db' ≡ db)
            × (reply
                ≡ ok (
                    if locked_by w r.lock_by && str_eq r.job_type config.namespace
                    then some r
                    else none)))
  unfolding fetch_next
  fetch_next_lem w now id db {r} u here = ground (
    arith,
    find_lem (free E config) id db.jobs (u id),
    find_lem (λ (s : Row Raw). locked_by w s.lock_by && str_eq s.job_type config.namespace) id
        db.jobs (u id),
    row-id id db.jobs here,
    row-update_where (λ (s : Row Raw). s.id == id && free E config s) (lock_row E config w now)
        (λ s. refl) id db.jobs,
  )

  -- A job whose row is not free, and is not locked by the worker, is not given to it.
  pub fetch_next_refused :
      (w : ℕ) (now : ℤ) (id : ℕ) (db : Tables Raw) {r : Row Raw}
      → Unique db.jobs
      → row id db.jobs ≡ some r
      → is_pending r.status && is_null r.lock_by ≡ false
      → locked_by w r.lock_by ≡ false
      → fetch_next E config w now id db ≡ (ok none, db)
  unfolding fetch_next
  fetch_next_refused w now id db {r} u here busy other = ground (
    arith,
    find_lem (free E config) id db.jobs (u id),
    find_lem (λ (s : Row Raw). locked_by w s.lock_by && str_eq s.job_type config.namespace) id
        db.jobs (u id),
  )

  fetch_next-Unique :
      (w : ℕ) (now : ℤ) (id : ℕ) (db : Tables Raw)
      → Unique db.jobs
      → Unique (fetch_next E config w now id db).1.jobs
  unfolding fetch_next
  fetch_next-Unique w now id db u i = ground (
    arith,
    tally-update_where (λ (s : Row Raw). s.id == id && free E config s) (lock_row E config w now)
        (λ s. refl) i db.jobs,
    u i,
  )

  pub fetch_next-Unique_lem :
      (w : ℕ) (now : ℤ) (id : ℕ) (db : Tables Raw)
      → Unique db.jobs
      → Unique (fetch_next E config w now id db).1.jobs
  fetch_next-Unique_lem w now id db u = fetch_next-Unique w now id db u

  -- A fetch of a row that is not there gives nothing.
  fetch_next_absent :
      (w : ℕ) (now : ℤ) (id : ℕ) (db : Tables Raw)
      → Unique db.jobs
      → row id db.jobs ≡ none
      → fetch_next E config w now id db ≡ (ok none, db)
  unfolding fetch_next
  fetch_next_absent w now id db u here = ground (
    arith,
    find_lem (free E config) id db.jobs (u id),
    find_lem (λ (s : Row Raw). locked_by w s.lock_by && str_eq s.job_type config.namespace) id
        db.jobs (u id),
  )

  -- The row after a fetch that gave it is the row that it gave, and the worker holds it.
  pub fetch_next_given :
      (w : ℕ) (now : ℤ) (id : ℕ) (db : Tables Raw) {r : Row Raw}
      → Unique db.jobs
      → (fetch_next E config w now id db).0 ≡ ok (some r)
      → (row id (fetch_next E config w now id db).1.jobs ≡ some r) × (r.lock_by ≡ some w)
  fetch_next_given w now id db {r} u given = elim (Option-cases (row id db.jobs)) [
    | inl gone ↦ cc (fetch_next_absent w now id db u gone)
    | inr (old, here) ↦ elim (fetch_next_lem w now id db u here) [
      | inl (reply, fresh, there) ↦ (there ∙ ground arith, ground arith)
      | inr (inl (reply, unknown, same)) ↦ cc
      | inr (inr (busy, same, reply)) ↦ rw same (ground arith, ground arith)
    ]
  ]

  -- Where ids are unique, once a worker has been given a job, no fetch of another worker is given it,
  -- at any later time and whatever else has been written to the tables since, while the job's row
  -- stays as the first fetch left it; and that row is held by the worker.
  pub fetch_next_exclusive :
      (w v : ℕ) (now later : ℤ) (id : ℕ) (db after : Tables Raw) {r : Row Raw}
      → Unique db.jobs
      → (fetch_next E config w now id db).0 ≡ ok (some r)
      → Unique after.jobs
      → row id after.jobs ≡ row id (fetch_next E config w now id db).1.jobs
      → v ≢ w
      → (r.lock_by ≡ some w) × (fetch_next E config v later id after ≡ (ok none, after))
  fetch_next_exclusive w v now later id db after {r} u given u' same other =
      let (there, held) = fetch_next_given w now id db u given in
      (
        held,
        fetch_next_refused v later id after u' (same ∙ there) (ground (arith, held))
            (ground (arith, held, other)),
      )

  -- A job of the table that is rescheduled, by less than 2 ^ 63 seconds and with ids unique, is
  -- given to no worker, at any later time: it is marked as failed and not as pending, and no one
  -- holds it. Its row still counts as due once its time has come, while it has attempts left.
  pub rescheduled_is_stranded :
      (job : Request Args SqlContext) (wait : ℕ) (now : ℤ) (db : Tables Raw) {r : Row Raw}
      → Unique db.jobs
      → row job.parts.task_id db.jobs ≡ some r
      → wait < 2 ^ 63
      → let (reply, db') = reschedule E config job wait now db in
        (reply ≡ ok tt)
        × ((v : ℕ) (later : ℤ) → fetch_next E config v later job.parts.task_id db' ≡ (ok none, db'))
        × ((later : ℤ)
            → due E config later (reschedule_row E config (now +ℤ pos wait) r) ≡ (
                ltb_ℤ (pos r.attempts) r.max_attempts
                && (ltb_ℤ (now +ℤ pos wait) later && str_eq r.job_type config.namespace)))
        × (row job.parts.task_id db'.jobs ≡ some (reschedule_row E config (now +ℤ pos wait) r))
  unfolding reschedule
  rescheduled_is_stranded job wait now db {r} u here short =
      let id = job.parts.task_id in
      let change = reschedule_row E config (now +ℤ pos wait) in
      let there : row id (update_where (λ (s : Row Raw). s.id == id) change db.jobs)
          ≡ some (change r) =
        ground (
          arith,
          row-id id db.jobs here,
          row-update_where (λ (s : Row Raw). s.id == id) change (λ s. refl) id db.jobs,
        ) in
      let result : reschedule E config job wait now db ≡ (
        ok tt,
        record db { jobs = update_where (λ (s : Row Raw). s.id == id) change db.jobs },
      ) =
        ground arith in
      rw (result, reschedule)
        (
          refl,
          λ v later.
              fetch_next_refused v later id _
                (λ i.
                  rw (tally-update_where (λ (s : Row Raw). s.id == id) change (λ s. refl) i db.jobs)
                    (u i))
                there refl refl,
          λ later. refl,
          there,
        )
