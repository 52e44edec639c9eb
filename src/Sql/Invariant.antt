-- ===== src/Sql/Invariant.antt =====
-- packages/apalis-sql: what the storages keep true of the job table, statement by statement.
use apalis_cron_jobs.Prelude.{
  ℕ, ◌+◌, true, if◌then◌else◌, ◌≡◌, refl, ◌≤◌, Bool, false, ◌&&◌, none, some, List, [], ◌∷◌, ◌++◌,
  tally, select, map, ◌==◌, arith, inl, inr, Option-cases, tally-select, tally_mono, tally-append,
}
use apalis_cron_jobs.Prelude.Outcome.{Result, ok, err, Stateful, bind_outcome}
use apalis_cron_jobs.Core.Error.{
  Error, failed, abort, worker_error, missing_data, service_error, source_error,
}
use apalis_cron_jobs.Core.Request.{Parts}
use apalis_cron_jobs.Core.Response.{Response}
use apalis_cron_jobs.Sql.Context.{SqlContext, calculate_status}
use apalis_cron_jobs.Sql.Engine.{SqlError, unique_violation}
use apalis_cron_jobs.Sql.Table.{
  Row, Tables, is_running, is_null, update_where, row, Unique, tally-update_where,
}

module _ {Raw : Type 0} where
  -- INSERT INTO jobs.
  unfoldable pub insert : Row Raw → Stateful (Tables Raw) SqlError (Unit {0})
  insert r db = elim (row r.id db.jobs) [
    | none ↦ (ok tt, record db { jobs = db.jobs ++ r ∷ [] })
    | some old ↦ (err unique_violation, db)
  ]

  abbrev pub is_loose : Row Raw → Bool
  is_loose r = is_running r.status && is_null r.lock_by

  -- How many rows run without a lock.
  abbrev pub loose : List (Row Raw) → ℕ
  loose jobs = tally (λ r. is_running r.status && is_null r.lock_by) jobs

  -- Ids are unique, and at most so many rows run without a lock.
  pub record Inv (n : ℕ) (db : Tables Raw) : Type 0 where
    pub unique : Unique db.jobs
    pub held : loose db.jobs ≤ n

  pub loose-update_where :
      (p : Row Raw → Bool) (f : Row Raw → Row Raw)
      → ((r : Row Raw) → is_loose (f r) ≡ false)
      → (rs : List (Row Raw)) → loose (update_where p f rs) ≤ loose rs
  loose-update_where p f keep [] = omega arith
  loose-update_where p f keep (r ∷ rs) = ground (arith, keep r, loose-update_where p f keep rs)

  pub row-absent : (i : ℕ) (rs : List (Row Raw)) → row i rs ≡ none → tally (λ r. r.id == i) rs ≡ 0
  row-absent i [] h = refl
  row-absent i (r ∷ rs) h = ground (arith, λ (k : row i rs ≡ none). row-absent i rs k)

  -- An update may let as many rows run without a lock as it is of.
  loose-update_any :
      (p : Row Raw → Bool) (f : Row Raw → Row Raw) (rs : List (Row Raw))
      → loose (update_where p f rs) ≤ loose rs + tally p rs
  loose-update_any p f [] = omega arith
  loose-update_any p f (r ∷ rs) = ground (arith, loose-update_any p f rs)

module _ {Raw : Type 0} {n : ℕ} where
  -- An update that leaves no row running without a lock.
  pub update-Inv :
      (p : Row Raw → Bool) (f : Row Raw → Row Raw) (db : Tables Raw)
      → ((r : Row Raw) → (f r).id ≡ r.id)
      → ((r : Row Raw) → is_loose (f r) ≡ false)
      → Inv n db
      → Inv n (record db { jobs = update_where p f db.jobs })
  update-Inv p f db ids tight v = record {
    unique = λ i. omega (arith, tally-update_where p f ids i db.jobs, v.unique i);
    held = omega (arith, loose-update_where p f tight db.jobs, v.held);
  }

  pub more-Inv : (m : ℕ) (db : Tables Raw) → n ≤ m → Inv n db → Inv m db
  more-Inv m db le v = record { unique = v.unique; held = omega (arith, v.held, le) }

  pub Inv-add_zero : {db : Tables Raw} → Inv n db → Inv (n + 0) db
  Inv-add_zero {db} v = more-Inv (n + 0) db (omega arith) v

  -- An update of one row that leaves it running without a lock, or never does.
  pub write-Inv :
      (id : ℕ) (f : Row Raw → Row Raw) (db : Tables Raw) (b : Bool)
      → ((r : Row Raw) → (f r).id ≡ r.id)
      → ((r : Row Raw) → is_loose (f r) ≡ b)
      → Inv n db
      → Inv
          (n + (if b then 1 else 0))
          (record db { jobs = update_where (λ r. r.id == id) f db.jobs })
  write-Inv id f db true ids wild v = record {
    unique = λ i.
        omega (arith, tally-update_where (λ (r : Row Raw). r.id == id) f ids i db.jobs, v.unique i);
    held =
        omega
          (arith, loose-update_any (λ (r : Row Raw). r.id == id) f db.jobs, v.held, v.unique id);
  }
  write-Inv id f db false ids tight v =
      more-Inv (n + 0) _ (omega arith) (update-Inv (λ (r : Row Raw). r.id == id) f db ids tight v)

  pub insert-Inv :
      (r : Row Raw) (db : Tables Raw) → is_loose r ≡ false → Inv n db → Inv n (insert r db).1
  unfolding insert
  insert-Inv r db tight v = elim (Option-cases (row r.id db.jobs)) [
    | inl fresh ↦
        rw (fresh, insert)
          (record {
            unique = λ i. ground (
              arith,
              tally-append (λ (s : Row Raw). s.id == i) db.jobs (r ∷ []),
              v.unique i,
              row-absent r.id db.jobs fresh,
            );
            held = ground (arith, tally-append is_loose db.jobs (r ∷ []), v.held);
          })
    | inr (old, there) ↦ rw (there, insert) v
  ]

  -- A change of every row that unlocks none that runs.
  pub map-Inv :
      (f : Row Raw → Row Raw) (db : Tables Raw)
      → ((r : Row Raw) → (f r).id ≡ r.id)
      → ((r : Row Raw) → is_loose r ≡ false → is_loose (f r) ≡ false)
      → Inv n db
      → Inv n (record db { jobs = map f db.jobs })
  map-Inv f db ids tight v = record {
    unique = λ i. omega (arith, same i db.jobs, v.unique i);
    held = omega (arith, fewer db.jobs, v.held);
  }
    where
      same :
          (i : ℕ) (rs : List (Row Raw))
          → tally (λ r. r.id == i) (map f rs) ≡ tally (λ r. r.id == i) rs
      same i [] = refl
      same i (r ∷ rs) = ground (arith, ids r, same i rs)

      fewer : (rs : List (Row Raw)) → loose (map f rs) ≤ loose rs
      fewer [] = omega arith
      fewer (r ∷ rs) = ground (arith, λ (h : is_loose r ≡ false). tight r h, fewer rs)

  -- DELETE.
  pub select-Inv :
      (q : Row Raw → Bool) (db : Tables Raw)
      → Inv n db
      → Inv n (record db { jobs = select q db.jobs })
  select-Inv q db v = record {
    unique = λ i. omega (
      arith,
      v.unique i,
      tally-select (λ (r : Row Raw). r.id == i) q db.jobs,
      tally_mono (λ (r : Row Raw). r.id == i && q r) (λ r. r.id == i) (λ r h. ground arith) db.jobs,
    );
    held = omega (
      arith,
      v.held,
      tally-select is_loose q db.jobs,
      tally_mono (λ (r : Row Raw). is_loose r && q r) is_loose (λ r h. ground arith) db.jobs,
    );
  }

  insert_after :
      (r : Row Raw) (parts : Parts SqlContext) (db : Tables Raw)
      → is_loose r ≡ false
      → Inv n db
      → Inv n (bind_outcome (insert r db) (λ _ (db' : Tables Raw). (ok parts, db'))).1
  insert_after r parts db tight v = rw (pure_after (insert r db)) (insert-Inv r db tight v)
    where
      pure_after :
          (m : Result SqlError (Unit {0}) × Tables Raw)
          → (bind_outcome m (λ _ (db' : Tables Raw). (ok parts, db'))).1 ≡ m.1
      pure_after (ok tt, db') = refl
      pure_after (err e, db') = refl

  -- A request's row goes in where its arguments could be encoded.
  pub store-Inv :
      (encoded : Result SqlError Raw) (f : Raw → Row Raw) (parts : Parts SqlContext)
      (db : Tables Raw)
      → ((raw : Raw) → is_loose (f raw) ≡ false)
      → Inv n db
      → Inv n
          (bind_outcome
            (encoded, db)
            (λ raw (db' : Tables Raw).
              bind_outcome (insert (f raw) db') (λ _ (last : Tables Raw). (ok parts, last)))).1
  store-Inv (ok raw) f parts db tight v = insert_after (f raw) parts db (tight raw) v
  store-Inv (err e) f parts db tight v = v

-- No response leaves a job running.
pub calculate_status-settled :
    {Res : Type 0} (ctx : SqlContext) (id attempt : ℕ) (inner : Result Error Res)
    → let res : Response Res = record { inner = inner; task_id = id; attempt = attempt } in
      is_running (calculate_status ctx res) ≡ false
unfolding calculate_status
calculate_status-settled ctx id attempt (ok r) = refl
calculate_status-settled ctx id attempt (err (abort e)) = refl
calculate_status-settled ctx id attempt (err (failed e)) = ground arith
calculate_status-settled ctx id attempt (err (worker_error e)) = refl
calculate_status-settled ctx id attempt (err (missing_data e)) = refl
calculate_status-settled ctx id attempt (err (service_error e)) = refl
calculate_status-settled ctx id attempt (err (source_error e)) = refl
