-- ===== src/Sql/Postgres/Settling.antt =====
-- What becomes of jobs on PostgreSQL: acknowledgements, batches that cannot be decoded, and workers
-- that die.
use apalis_cron_jobs.Prelude.{
  ℕ, ◌≡◌, refl, ◌≤◌, ◌<◌, ◌^◌, String, Bool, true, false, not, none, some, List, [], ◌∷◌, map,
  length, tally, arith, inl, inr, Option-cases,
}
use apalis_cron_jobs.Prelude.Int.{ℤ}
use apalis_cron_jobs.Prelude.Outcome.{ok, err, is_ok, Result-cases}
use apalis_cron_jobs.Sql.Context.{Config}
use apalis_cron_jobs.Sql.Engine.{panic, Engine}
use apalis_cron_jobs.Sql.Rows.{lock_row, to_request}
use apalis_cron_jobs.Sql.Table.{Row, Tables, known, row, Unique, row-id}
use apalis_cron_jobs.Sql.Postgres.{requests, fetch_next, due_before}
use apalis_cron_jobs.Sql.Postgres.Chunk.{AckRow, about, chosen, all_i32, settle, ack_chunk}
use apalis_cron_jobs.Sql.Postgres.Locks.{given, get_jobs-locked, locked-row, given-taken}

module _ {Args Raw : Type 0} (E : Engine Args Raw) (config : Config) where
  pub settle-id :
      (which : ℕ → ℕ) (w : ℕ) (now : ℤ) (acks : List AckRow) (r : Row Raw)
      → (settle E config which w now acks r).id ≡ r.id
  unfolding settle
  settle-id which w now acks r = elim (Option-cases (chosen (which r.id) (about r.id acks))) [
    | inl nothing ↦ ground arith
    | inr (a, there) ↦ ground arith
  ]

  row-map-settle :
      (which : ℕ → ℕ) (w : ℕ) (now : ℤ) (acks : List AckRow) (id : ℕ) (rs : List (Row Raw))
      {r : Row Raw}
      → row id rs ≡ some r
      → row id (map (settle E config which w now acks) rs)
        ≡ some (settle E config which w now acks r)
  row-map-settle which w now acks id [] here = cc
  row-map-settle which w now acks id (s ∷ rs) {r} here = ground (
    arith,
    settle-id which w now acks s,
    λ (k : row id rs ≡ some r). row-map-settle which w now acks id rs k,
  )

  -- A chunk of acknowledgements whose counts are i32, by a registered worker, leaves each job that
  -- it is not about as it is; a job that it is about gets the state, the result and the attempts of
  -- the response that the server chooses, the time, and the worker as its holder.
  pub ack_chunk_lem :
      (which : ℕ → ℕ) (w : ℕ) (now : ℤ) (acks : List AckRow) (db : Tables Raw)
      → known w db.workers ≡ true
      → all_i32 acks ≡ true
      → let (reply, db') = ack_chunk E config which w now acks db in
        (reply ≡ ok tt)
        × ((id : ℕ) (r : Row Raw)
            → row id db.jobs ≡ some r
            → (chosen (which id) (about id acks) ≡ none → row id db'.jobs ≡ some r)
              × ((a : AckRow)
                  → chosen (which id) (about id acks) ≡ some a
                  → row id db'.jobs
                    ≡ some (record r {
                      status = a.status;
                      done_at = some now;
                      lock_by = some w;
                      last_error = some a.result;
                      attempts = a.attempts;
                    })))
  unfolding settle ack_chunk
  ack_chunk_lem which w now acks db k small = (
    ground arith,
    λ id r here.
        let there = row-map-settle which w now acks id db.jobs here in
        let same = row-id id db.jobs here in (λ h. ground arith, λ a h. ground arith),
  )

  abbrev undecodable : Row Raw → Bool
  undecodable r = not (is_ok (E.decode r.job))

  requests-panic :
      (rows : List (Row Raw)) → 1 ≤ tally undecodable rows → requests E config rows ≡ err panic
  unfolding requests to_request
  requests-panic [] h = absurd (omega arith)
  requests-panic (r ∷ rows) h = elim (Result-cases (E.decode r.job)) [
    | inl (args, k) ↦ ground (arith, λ (l : 1 ≤ tally undecodable rows). requests-panic rows l)
    | inr (e, k) ↦ ground arith
  ]

  -- A batch with a job that cannot be decoded is a panic of the worker's loop, and yet the batch is
  -- locked: where ids are unique, the worker is registered and the buffer holds the table and is an
  -- i32, each job that was due and not skipped runs under the worker, and none is handed out.
  pub undecodable_strands_batch :
      (w id bad : ℕ) (now : ℤ) (skipped : ℕ → Bool) (db : Tables Raw) {r s : Row Raw} {e : String}
      → Unique db.jobs
      → known w db.workers ≡ true
      → length db.jobs ≤ config.buffer_size
      → config.buffer_size < 2 ^ 31
      → row bad db.jobs ≡ some s
      → due_before E config now s ≡ true
      → skipped bad ≡ false
      → E.decode s.job ≡ err e
      → row id db.jobs ≡ some r
      → due_before E config now r ≡ true
      → skipped id ≡ false
      → let (reply, db') = fetch_next E config w now skipped db in
        (reply ≡ err panic) × (row id db'.jobs ≡ some (lock_row E config w now r))
  unfolding fetch_next
  undecodable_strands_batch w id bad now skipped db {r} {s} {e} u k roomy small there_s due_s free_s
        broken there due free =
      let broken_given =
        given-taken E config w bad now skipped db undecodable (λ t. refl) roomy there_s
          (ground (arith, row-id bad db.jobs there_s)) (ground arith) in
      (
        ground (
          arith,
          get_jobs-locked E config w now skipped db k,
          requests-panic (given E config w now skipped db) broken_given,
        ),
        ground (
          arith,
          get_jobs-locked E config w now skipped db k,
          locked-row E config w id now skipped db u roomy there,
          row-id id db.jobs there,
        ),
      )
