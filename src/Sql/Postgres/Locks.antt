-- ===== src/Sql/Postgres/Locks.antt =====
-- The locks of the PostgreSQL storage: who is given a job, and what is lost with a batch.
use apalis_cron_jobs.Prelude.{
  ℕ, ◌≡◌, refl, ap, ◌∙◌, ◌≤◌, Bool, true, false, not, ◌&&◌, some, List, [], ◌∷◌, map, ◌==◌, length,
  tally, select, if◌then◌else◌, arith, tally-select, tally_mono, tally_never,
}
use apalis_cron_jobs.Prelude.Int.{ℤ}
use apalis_cron_jobs.Prelude.Outcome.{ok}
use apalis_cron_jobs.Sql.Context.{Config}
use apalis_cron_jobs.Sql.Engine.{Engine}
use apalis_cron_jobs.Sql.Rows.{lock_row}
use apalis_cron_jobs.Sql.Selection.{
  id_in, row-update-pick, pick-fails, pick-passes, tally_passing, update_where-Unique,
}
use apalis_cron_jobs.Sql.Table.{
  Row, Tables, known, update_where, row, Unique, row-id, row-update_where,
}
use apalis_cron_jobs.Sql.Postgres.{due_before, sooner, listed, get_jobs}

module _ {Args Raw : Type 0} (E : Engine Args Raw) (config : Config) where
  abbrev pub taken : ℤ → (ℕ → Bool) → Row Raw → Bool
  taken now skipped r = due_before E config now r && not (skipped r.id)

  -- The tables after a round of a worker that is registered.
  abbrev pub locked : ℕ → ℤ → (ℕ → Bool) → Tables Raw → Tables Raw
  locked w now skipped db = record db {
    jobs =
        update_where (id_in (listed E config now skipped db.jobs)) (lock_row E config w now)
          db.jobs;
  }

  pub get_jobs-locked :
      (w : ℕ) (now : ℤ) (skipped : ℕ → Bool) (db : Tables Raw)
      → known w db.workers ≡ true
      → get_jobs E config w now skipped db ≡ (
        ok (
            map
              (lock_row E config w now)
              (select (id_in (listed E config now skipped db.jobs)) db.jobs)),
        locked w now skipped db,
      )
  unfolding get_jobs
  get_jobs-locked w now skipped db k = ground arith

  pub locked-row :
      (w id : ℕ) (now : ℤ) (skipped : ℕ → Bool) (db : Tables Raw) {r : Row Raw}
      → Unique db.jobs
      → length db.jobs ≤ config.buffer_size
      → row id db.jobs ≡ some r
      → row id (locked w now skipped db).jobs
        ≡ some (if taken now skipped r then lock_row E config w now r else r)
  unfolding listed
  locked-row w id now skipped db u roomy there =
      row-update-pick E config.buffer_size (sooner E config) (taken now skipped)
        (lock_row E config w now) (λ s. refl) id db.jobs u roomy there

  pub locked-Unique :
      (w : ℕ) (now : ℤ) (skipped : ℕ → Bool) (db : Tables Raw)
      → Unique db.jobs
      → Unique (locked w now skipped db).jobs
  locked-Unique w now skipped db u =
      update_where-Unique (id_in (listed E config now skipped db.jobs)) (lock_row E config w now)
        (λ s. refl) db.jobs u

  -- A lock does not change whether a test is passed that does not look at it.
  abbrev pub Keeps : ℕ → ℤ → (Row Raw → Bool) → Type 0
  Keeps w now p = (s : Row Raw) → p (lock_row E config w now s) ≡ p s

  tally-map_lock :
      (w : ℕ) (now : ℤ) (p : Row Raw → Bool)
      → Keeps w now p
      → (rs : List (Row Raw)) → tally p (map (lock_row E config w now) rs) ≡ tally p rs
  tally-map_lock w now p keep [] = refl
  tally-map_lock w now p keep (r ∷ rs) = ground (arith, keep r, tally-map_lock w now p keep rs)

  abbrev pub given : ℕ → ℤ → (ℕ → Bool) → Tables Raw → List (Row Raw)
  given w now skipped db =
      map (lock_row E config w now) (select (id_in (listed E config now skipped db.jobs)) db.jobs)

  -- A round gives a job that it takes, and no job that it does not.
  pub given-taken :
      (w id : ℕ) (now : ℤ) (skipped : ℕ → Bool) (db : Tables Raw) (p : Row Raw → Bool) {r : Row Raw}
      → Keeps w now p
      → length db.jobs ≤ config.buffer_size
      → row id db.jobs ≡ some r
      → taken now skipped r ≡ true
      → p r ≡ true
      → 1 ≤ tally p (given w now skipped db)
  unfolding listed
  given-taken w id now skipped db p {r} keep roomy there takes holds =
      let picked = listed E config now skipped db.jobs in
      let both : Row Raw → Bool = λ s. id_in picked s && p s in
      omega (
        arith,
        tally-map_lock w now p keep (select (id_in picked) db.jobs),
        tally-select p (id_in picked) db.jobs,
        tally_mono (λ (s : Row Raw). s.id == id && both s) (λ (s : Row Raw). p s && id_in picked s)
            (λ s h. ground arith) db.jobs,
        tally_passing both id db.jobs there (
            ground (
              arith,
              row-id id db.jobs there,
              pick-passes E config.buffer_size (sooner E config) (taken now skipped) id db.jobs
                  roomy there takes,
            )),
      )

  given-left :
      (w id : ℕ) (now : ℤ) (skipped : ℕ → Bool) (db : Tables Raw) {r : Row Raw}
      → Unique db.jobs
      → row id db.jobs ≡ some r
      → taken now skipped r ≡ false
      → tally (λ s. s.id == id) (given w now skipped db) ≡ 0
  unfolding listed
  given-left w id now skipped db {r} u there leaves =
      let picked = listed E config now skipped db.jobs in
      let absent =
        pick-fails E config.buffer_size (sooner E config) (taken now skipped) id db.jobs u there
          leaves in
      omega (
        arith,
        tally-map_lock w now (λ (s : Row Raw). s.id == id) (λ s. refl)
            (select (id_in picked) db.jobs),
        tally-select (λ (s : Row Raw). s.id == id) (id_in picked) db.jobs,
        tally_never (λ (s : Row Raw). s.id == id && id_in picked s) (λ s. ground arith) db.jobs,
      )

  left-row :
      (w id : ℕ) (now : ℤ) (skipped : ℕ → Bool) (db : Tables Raw) {r : Row Raw}
      → Unique db.jobs
      → row id db.jobs ≡ some r
      → taken now skipped r ≡ false
      → row id (locked w now skipped db).jobs ≡ some r
  unfolding listed
  left-row w id now skipped db {r} u there leaves =
      let picked = listed E config now skipped db.jobs in
      ground (
        arith,
        pick-fails E config.buffer_size (sooner E config) (taken now skipped) id db.jobs u there
            leaves,
        row-id id db.jobs there,
        row-update_where (id_in picked) (lock_row E config w now) (λ s. refl) id db.jobs,
      )

  -- Where ids are unique and the buffer holds the table, a round of a registered worker gives it
  -- each job that is due and not skipped, failed ones too, and locks it; no later round, of any
  -- registered worker, gives the job to anyone or changes its row, whatever else has been written to
  -- the tables since, while the job's row stays as this round left it and ids are unique.
  pub get_jobs-exclusive :
      (w v id : ℕ) (now later : ℤ) (skipped others : ℕ → Bool) (db after : Tables Raw) {r : Row Raw}
      → Unique db.jobs
      → known w db.workers ≡ true
      → length db.jobs ≤ config.buffer_size
      → row id db.jobs ≡ some r
      → due_before E config now r ≡ true
      → skipped id ≡ false
      → Unique after.jobs
      → known v after.workers ≡ true
      → row id after.jobs ≡ row id (get_jobs E config w now skipped db).1.jobs
      → let (reply, db') = get_jobs E config w now skipped db in
        let again = get_jobs E config v later others after in
        ((rows : List (Row Raw)) × (reply ≡ ok rows) × (1 ≤ tally (λ s. s.id == id) rows))
        × (row id db'.jobs ≡ some (lock_row E config w now r))
        × ((rows : List (Row Raw)) × (again.0 ≡ ok rows) × (tally (λ s. s.id == id) rows ≡ 0))
        × (row id again.1.jobs ≡ some (lock_row E config w now r))
  get_jobs-exclusive w v id now later skipped others db after {r} u wk roomy there is_due free u' vk
        same =
      let db' = locked w now skipped db in
      let takes : taken now skipped r ≡ true = ground (arith, row-id id db.jobs there) in
      let there' : row id db'.jobs ≡ some (lock_row E config w now r) =
        ground (arith, locked-row w id now skipped db u roomy there) in
      let stays : row id after.jobs ≡ some (lock_row E config w now r) =
        same ∙ ap (λ out. row id out.1.jobs) (get_jobs-locked w now skipped db wk) ∙ there' in
      rw (get_jobs-locked w now skipped db wk, get_jobs-locked v later others after vk)
        (
          (
            given w now skipped db,
            refl,
            given-taken w id now skipped db (λ (s : Row Raw). s.id == id) (λ s. refl) roomy there
                takes (ground (arith, row-id id db.jobs there)),
          ),
          there',
          (given v later others after, refl, given-left v id later others after u' stays refl),
          left-row v id later others after u' stays refl,
        )
