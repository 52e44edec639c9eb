-- ===== src/Sql/Sqlite/Stream.antt =====
-- From a pushed request to the worker's stream on SQLite.
use apalis_cron_jobs.Prelude.{
  ℕ, ◌+◌, ◌≡◌, refl, sym, ◌∙◌, ◌≤◌, ◌⊎◌, inl, inr, Bool, true, false, not, ◌&&◌, Option, none, some,
  List, [], ◌∷◌, ◌++◌, length, drop, tally, select, ◌==◌, if◌then◌else◌, arith, length-take,
  take-append-drop, subst, tally-select, tally-take-drop, tally_never,
}
use apalis_cron_jobs.Prelude.Int.{ℤ}
use apalis_cron_jobs.Prelude.Outcome.{Result, ok, err, Result-cases}
use apalis_cron_jobs.Core.State.{State}
use apalis_cron_jobs.Core.Request.{Request, new_with_parts}
use apalis_cron_jobs.Sql.Context.{Config, SqlContext}
use apalis_cron_jobs.Sql.Engine.{SqlError, unique_violation, Engine, Ordered}
use apalis_cron_jobs.Sql.Table.{Row, Tables, row, Unique}
use apalis_cron_jobs.Sql.Invariant.{insert}
use apalis_cron_jobs.Sql.Sqlite.{
  fetch_next, stream_round, push_request, fetch_by_id, due, listed, yield_jobs, to_request, higher,
  new_row, schedule_request,
}
use apalis_cron_jobs.Sql.Sqlite.Locks.{fetch_next_given, fetch_next-Unique_lem}

module _ {Args Raw : Type 0} (E : Engine Args Raw) (config : Config) where
  row-append :
      (i : ℕ) (rs : List (Row Raw)) (r : Row Raw)
      → row i rs ≡ none
      → row i (rs ++ r ∷ []) ≡ (if r.id == i then some r else none)
  row-append i [] r h = refl
  row-append i (s ∷ rs) r h = ground (arith, λ (k : row i rs ≡ none). row-append i rs r k)

  pub schedule_request-row :
      (req : Request Args SqlContext) (on : ℤ) (db : Tables Raw) (raw : Raw)
      → E.encode req.args ≡ ok raw
      → row req.parts.task_id db.jobs ≡ none
      → row req.parts.task_id (schedule_request E config req on db).1.jobs
        ≡ some (new_row E config raw req.parts on)
  unfolding schedule_request insert
  schedule_request-row req on db raw e fresh =
      ground (arith, row-append req.parts.task_id db.jobs (new_row E config raw req.parts on) fresh)

  -- A request whose id is new is what `fetch_by_id` then returns: its arguments, no attempt, pending
  -- and due from the moment of the push, with its maximum of attempts and its priority, in the
  -- storage's own namespace; nothing else of its context. Under an id that is there nothing is written
  -- and the push fails.
  pub push_request-fetch_by_id :
      (req : Request Args SqlContext) (now : ℤ) (db : Tables Raw) {raw : Raw}
      → E.encode req.args ≡ ok raw
      → let (reply, db') = push_request E config req now db in
        ((row req.parts.task_id db.jobs ≡ none)
          → (reply ≡ ok req.parts)
            × (fetch_by_id E config req.parts.task_id db' ≡ (
              ok (
                  some (record {
                    args = req.args;
                    parts = record {
                      task_id = req.parts.task_id;
                      attempt = 0;
                      context = record {
                        status = State.pending;
                        run_at = now;
                        max_attempts = req.parts.context.max_attempts;
                        last_error = none;
                        lock_at = none;
                        lock_by = none;
                        done_at = none;
                        priority = req.parts.context.priority;
                      };
                      namespace = some config.namespace;
                    };
                  })),
              db',
            )))
        × ((r : Row Raw)
            → row req.parts.task_id db.jobs ≡ some r
            → (reply ≡ err unique_violation) × (db' ≡ db))
  unfolding push_request fetch_by_id new_with_parts
  push_request-fetch_by_id req now db {raw} e =
      let id = req.parts.task_id in
      let r = new_row E config raw req.parts now in
      (
        λ fresh. (
          ground arith,
          ground (
            arith,
            row-append id db.jobs r fresh,
            E.decode-encode req.args e,
            E.get_i32_lem 0 (omega arith),
          ),
        ),
        λ old there. (ground arith, ground arith),
      )

  -- The jobs that a round lists are due, at most as many as the buffer holds, the highest priority
  -- first, and none that is left out has a higher priority than one that is listed.
  pub listed_lem :
      (now : ℤ) (db : Tables Raw)
      → let jobs = listed E config now db.jobs in
        (length jobs ≤ config.buffer_size)
        × (tally (λ r. not (due E config now r)) jobs ≡ 0)
        × ((rest : List (Row Raw)) × ((p : Row Raw → Bool)
              → tally p jobs + tally p rest ≡ tally (λ r. p r && due E config now r) db.jobs)
            × Ordered (higher E config) (jobs ++ rest))
  unfolding listed
  listed_lem now db =
      let n = config.buffer_size in
      let sorted = E.order_by (higher E config) (select (due E config now) db.jobs) in
      let counted = λ (p : Row Raw → Bool).
        E.tally-order_by (higher E config) p (select (due E config now) db.jobs)
        ∙ tally-select p (due E config now) db.jobs in
      let late : Row Raw → Bool = λ r. not (due E config now r) in
      (
        omega (arith, length-take n sorted),
        omega (
          arith,
          tally-take-drop late n sorted,
          counted late,
          tally_never (λ (r : Row Raw). late r && due E config now r) (λ r. ground arith) db.jobs,
        ),
        (
          drop n sorted,
          λ p. tally-take-drop p n sorted ∙ counted p,
          subst (Ordered (higher E config)) (sym (take-append-drop n sorted)) (
              E.order_by-Ordered (λ (r : Row Raw). r.priority) (select (due E config now) db.jobs)),
        ),
      )

  -- Every request of a round is locked by the worker and carries the storage's namespace.
  abbrev pub Mine : ℕ → List (Option (Request Args SqlContext)) → Type 0
  Mine w [] = Unit
  Mine w (none ∷ items) = Mine w items
  Mine w (some req ∷ items) =
      (req.parts.context.lock_by ≡ some w)
      × (req.parts.namespace ≡ some config.namespace)
      × Mine w items

  to_request_lem :
      (r : Row Raw) {req : Request Args SqlContext}
      → to_request E config r ≡ ok req
      → (req.parts.context.lock_by ≡ r.lock_by) × (req.parts.namespace ≡ some config.namespace)
  unfolding to_request new_with_parts
  to_request_lem r h = ground arith

  -- A round that does not fail has an item for each listed job, and its requests are the worker's.
  abbrev pub Given : ℕ → ℕ → Result SqlError (List (Option (Request Args SqlContext))) → Type 0
  Given w n (ok items) = Mine w items × (length items ≡ n)
  Given w n (err e) = Unit

  yield_jobs-Given :
      (w : ℕ) (now : ℤ) (rs : List (Row Raw)) (db : Tables Raw)
      → Unique db.jobs
      → Given w (length rs) (yield_jobs E config w now rs db).0
  unfolding yield_jobs
  yield_jobs-Given w now [] db u = (tt, refl)
  yield_jobs-Given w now (r ∷ rs) db u =
      let f = fetch_next E config w now r.id db in
      let rest = yield_jobs-Given w now rs f.1 (fetch_next-Unique_lem E config w now r.id db u) in
      elim (Result-cases f.0) [
        | inl (none, k) ↦ elim (Result-cases (yield_jobs E config w now rs f.1).0) [
          | inl (items, m) ↦ ground arith
          | inr (e, m) ↦ ground arith
        ]
        | inl (some job, k) ↦
            let given = fetch_next_given E config w now r.id db u k in
            elim (Result-cases (to_request E config job)) [
              | inl (req, l) ↦ elim (Result-cases (yield_jobs E config w now rs f.1).0) [
                | inl (items, m) ↦ ground (arith, to_request_lem job l)
                | inr (e, m) ↦ ground arith
              ]
              | inr (e, l) ↦ ground arith
            ]
        | inr (e, k) ↦ ground arith
      ]

  -- A round of a worker that is not ready does nothing. Of any other, every request that it yields
  -- is locked by the worker and stands in the storage's namespace; it yields at most as many items as
  -- the buffer holds, and a single empty one where no job is due.
  pub stream_round_lem :
      (w : ℕ) (now : ℤ) (db : Tables Raw)
      → Unique db.jobs
      → (stream_round E config w false now db ≡ (ok [], db))
        × ((items : List (Option (Request Args SqlContext)))
            → (stream_round E config w true now db).0 ≡ ok items
            → Mine w items
              × ((length (listed E config now db.jobs) ≡ 0) × (items ≡ none ∷ [])
                  ⊎ (length items ≡ length (listed E config now db.jobs))
                    × (length items ≤ config.buffer_size)))
  unfolding stream_round
  stream_round_lem w now db u = (
    refl,
    λ items h.
        ground
          (arith, yield_jobs-Given w now (listed E config now db.jobs) db u, (listed_lem now db).0),
  )
