-- ===== src/Sql/Sqlite/Settling.antt =====
-- How a job of the SQLite storage is settled: by its response, by vacuum, by hand.
use apalis_cron_jobs.Prelude.{
  ℕ, ◌-◌, ◌%◌, ◌^◌, ◌≡◌, ◌≢◌, refl, ◌∙◌, ◌<◌, ◌≤◌, ◌⊎◌, inl, inr, ◌↔◌, String, Bool, false, not,
  ◌&&◌, some, length, tally, ltb, leb, if◌then◌else◌, arith, Option-cases, tally-select,
  length-select, tally_never,
}
use apalis_cron_jobs.Prelude.Int.{ℤ, pos, as_usize}
use apalis_cron_jobs.Prelude.Outcome.{Result, ok, err}
use apalis_cron_jobs.Core.Error.{
  Error, DynError, failed, abort, worker_error, missing_data, service_error, source_error,
}
use apalis_cron_jobs.Core.State.{State}
use apalis_cron_jobs.Core.Response.{Response}
use apalis_cron_jobs.Sql.Context.{Config, SqlContext, calculate_status}
use apalis_cron_jobs.Sql.Engine.{Engine}
use apalis_cron_jobs.Sql.Table.{
  Row, Tables, is_done, is_killed, locked_by, row, row-update_where, row-id,
}
use apalis_cron_jobs.Sql.Sqlite.{vacuum, ack, waiting, held_by}

abbrev StatusIs : {Res : Type 0} → SqlContext → Response Res → Type 0
StatusIs {Res} ctx res =
    ((calculate_status ctx res ≡ State.done) ↔ ((r : Res) × (res.inner ≡ ok r)))
    × ((calculate_status ctx res ≡ State.killed) ↔ (
        ((e : DynError) × (res.inner ≡ err (abort e)))
        ⊎ ((e : DynError) × (res.inner ≡ err (failed e))
            × (as_usize ctx.max_attempts ≤ res.attempt))))

status_cases :
    {Res : Type 0} (ctx : SqlContext) (id attempt : ℕ) (inner : Result Error Res)
    → let res : Response Res = record { inner = inner; task_id = id; attempt = attempt } in
      StatusIs ctx res
unfolding calculate_status
status_cases ctx id attempt (ok r) =
    ((λ h. (r, refl), λ h. refl), (λ h. cc, λ h. elim h [ inl (e, k) ↦ cc | inr (e, k, l) ↦ cc ]))
status_cases ctx id attempt (err (abort e)) = ((λ h. cc, λ h. cc), (λ h. inl (e, refl), λ h. refl))
status_cases ctx id attempt (err (failed e)) = (
  (λ h. ground arith, λ h. cc),
  (
    λ h. inr (e, refl, ground arith),
    λ h. elim h [ inl (f, k) ↦ cc | inr (f, k, l) ↦ ground arith ],
  ),
)
status_cases ctx id attempt (err (worker_error e)) =
    ((λ h. cc, λ h. cc), (λ h. cc, λ h. elim h [ inl (f, k) ↦ cc | inr (f, k, l) ↦ cc ]))
status_cases ctx id attempt (err (missing_data e)) =
    ((λ h. cc, λ h. cc), (λ h. cc, λ h. elim h [ inl (f, k) ↦ cc | inr (f, k, l) ↦ cc ]))
status_cases ctx id attempt (err (service_error e)) =
    ((λ h. cc, λ h. cc), (λ h. cc, λ h. elim h [ inl (f, k) ↦ cc | inr (f, k, l) ↦ cc ]))
status_cases ctx id attempt (err (source_error e)) =
    ((λ h. cc, λ h. cc), (λ h. cc, λ h. elim h [ inl (f, k) ↦ cc | inr (f, k, l) ↦ cc ]))

-- The state is done exactly when the response is a success, and killed exactly when the task
-- aborted, or failed while its attempts had reached the maximum. In all other cases it is another
-- state: so an error of any other kind never kills the job, whatever its attempts.
pub calculate_status_lem :
    {Res : Type 0} (ctx : SqlContext) (res : Response Res)
    → ((calculate_status ctx res ≡ State.done) ↔ ((r : Res) × (res.inner ≡ ok r)))
      × ((calculate_status ctx res ≡ State.killed) ↔ (
          ((e : DynError) × (res.inner ≡ err (abort e)))
          ⊎ ((e : DynError) × (res.inner ≡ err (failed e))
              × (as_usize ctx.max_attempts ≤ res.attempt))))
calculate_status_lem ctx res = status_cases ctx res.task_id res.attempt res.inner

module _ {Args Raw Res : Type 0} (E : Engine Args Raw) (config : Config) where
  -- An acknowledgement by the worker that holds the job writes the state of the response, its
  -- attempts modulo 2 ^ 32, the time and the text of the result into the job's row; any other
  -- worker's leaves that row as it is. No other job's row is changed, neither way.
  pub ack_lem :
      (ctx : SqlContext) (res : Response Res) (text : String) (now : ℤ) (w : ℕ) (db : Tables Raw)
      → ctx.lock_by ≡ some w
      → let (reply, db') = ack E config ctx res (ok text) now db in
        (reply ≡ ok tt)
        × ((r : Row Raw)
            → row res.task_id db.jobs ≡ some r
            → row res.task_id db'.jobs
              ≡ some (
                  if locked_by w r.lock_by
                  then record r {
                    status = calculate_status ctx res;
                    attempts = res.attempt % 2 ^ 32;
                    done_at = some now;
                    last_error = some text;
                  }
                  else r))
        × ((i : ℕ) → i ≢ res.task_id → row i db'.jobs ≡ row i db.jobs)
  unfolding ack
  ack_lem ctx res text now w db locked =
      let change : Row Raw → Row Raw = λ r. record r {
        status = calculate_status ctx res;
        attempts = res.attempt % 2 ^ 32;
        done_at = some now;
        last_error = some text;
      } in
      let rows = row-update_where (held_by E config w res.task_id) change (λ s. refl) in
      (
        ground arith,
        λ r here. ground (arith, rows res.task_id db.jobs, row-id res.task_id db.jobs here),
        λ i other. elim (Option-cases (row i db.jobs)) [
          | inl gone ↦ ground (arith, rows i db.jobs)
          | inr (r, there) ↦ ground (arith, rows i db.jobs, row-id i db.jobs there)
        ],
      )

  -- The holder's acknowledgement of an `Error::Failed` leaves the job to be tried again exactly
  -- when its attempts are below its maximum, and kills it exactly when they are not; provided that
  -- the row and the context have the same maximum, which is not negative, and the attempts fit a
  -- u32. After a `MissingData` it is to be tried again under the same condition, but it is never
  -- killed: with its attempts used up it is neither.
  pub ack-waiting :
      (ctx : SqlContext) (res : Response Res) (text : String) (now : ℤ) (w m : ℕ) (db : Tables Raw)
      {r : Row Raw}
      → ctx.lock_by ≡ some w
      → ctx.max_attempts ≡ pos m
      → row res.task_id db.jobs ≡ some r
      → r.lock_by ≡ some w
      → r.max_attempts ≡ ctx.max_attempts
      → res.attempt < 2 ^ 32
      → let db' = (ack E config ctx res (ok text) now db).1 in
        (s : Row Raw) × (row res.task_id db'.jobs ≡ some s)
        × ((e : DynError)
            → res.inner ≡ err (failed e)
            → (waiting E config s ≡ ltb res.attempt m) × (is_killed s.status ≡ leb m res.attempt))
        × ((t : String)
            → res.inner ≡ err (missing_data t)
            → (waiting E config s ≡ ltb res.attempt m) × (is_killed s.status ≡ false))
  unfolding calculate_status
  ack-waiting ctx res text now w m db {r} locked max here held same small =
      let s = record r {
        status = calculate_status ctx res;
        attempts = res.attempt % 2 ^ 32;
        done_at = some now;
        last_error = some text;
      } in
      (
        s,
        ground (arith, (ack_lem ctx res text now w db locked).1 r here),
        λ e k. ground arith,
        λ t k. ground arith,
      )

module _ {Args Raw : Type 0} (E : Engine Args Raw) (config : Config) where
  -- `vacuum` deletes the rows of the done jobs, reports how many they were, and keeps all others.
  pub vacuum_lem :
      (db : Tables Raw)
      → let (reply, db') = vacuum E config db in
        (reply ≡ ok (length db.jobs - length db'.jobs))
        × ((p : Row Raw → Bool)
            → tally p db'.jobs ≡ tally (λ r. p r && not (is_done r.status)) db.jobs)
        × (tally (λ r. is_done r.status) db'.jobs ≡ 0)
        × (length db'.jobs ≤ length db.jobs)
  unfolding vacuum
  vacuum_lem db =
      let done : Row Raw → Bool = λ r. is_done r.status in
      (
        ground (arith, length-select done db.jobs),
        λ p. tally-select p (λ r. not (done r)) db.jobs,
        tally-select done (λ r. not (done r)) db.jobs
            ∙ tally_never (λ (r : Row Raw). done r && not (done r)) (λ r. ground arith) db.jobs,
        omega (arith, length-select done db.jobs),
      )
