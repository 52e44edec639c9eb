-- ===== src/Step/Delayed.antt =====
-- packages/apalis-core/src/step/mod.rs over the SQLite storage of packages/apalis-sql: when a delayed
-- step is due.
use apalis_cron_jobs.Prelude.{ℕ, ◌≡◌, ◌<◌, ◌^◌, refl, ap, ◌∙◌, String, none, some, List, arith}
use apalis_cron_jobs.Prelude.Int.{ℤ, pos, ltb_ℤ}
use apalis_cron_jobs.Prelude.Outcome.{Result, ok, err}
use text.Mathlib.TextPositions.{eq_refl}
use apalis_cron_jobs.Core.Request.{Parts, new_with_ctx}
use apalis_cron_jobs.Sql.Context.{Config, SqlContext, new_context}
use apalis_cron_jobs.Sql.Engine.{SqlError, Engine}
use apalis_cron_jobs.Sql.Rows.{due, new_row}
use apalis_cron_jobs.Sql.Table.{Row, Tables, row}
use apalis_cron_jobs.Sql.Sqlite.{push_request, schedule_request}
use apalis_cron_jobs.Sql.Sqlite.Stream.{schedule_request-row}
use apalis_cron_jobs.Step.{delay, StepRequest, StepStorage, next_index, Stepped, get, call}
use apalis_cron_jobs.Step.Flow.{delay_lem}

module _ {Compact Raw : Type 0} (E : Engine (StepRequest Compact) Raw) (config : Config) where
  -- The storage's errors as texts, which is what a step makes of them.
  abbrev answer :
      (SqlError → String) → Result SqlError (Parts SqlContext) → Result String (Unit {0})
  answer show (ok parts) = ok tt
  answer show (err e) = err (show e)

  -- `Storage::push` and `Storage::schedule` on SQLite: a request of its own for each, with an id that
  -- is drawn and the default context of the time of the call.
  abbrev pub sqlite_steps : (SqlError → String) → ℕ → ℤ → StepStorage Compact
  sqlite_steps show id now = record {
    Store = Tables Raw;
    push = λ req db.
        let (reply, db') = push_request E config (new_with_ctx id req (new_context now)) now db in
        (answer show reply, db');
    schedule = λ req on db.
        let (reply, db') =
          schedule_request E config (new_with_ctx id req (new_context now)) on db in
        (answer show reply, db');
  }

  -- A step that asks for a delay of so many seconds, whatever the time of the call is, is due on
  -- SQLite at each time later than that many seconds of the epoch, and at no other: the delay does
  -- not count from the call. The step's request can be encoded, and its id is new to the table.
  pub delayed_step_is_due :
      (show : SqlError → String) (id : ℕ) (now : ℤ) (services : List (ℕ × Stepped Compact))
      (req : StepRequest Compact) (db : Tables Raw) (s : Stepped Compact) (c : Compact)
      (seconds : ℕ) (raw : Raw)
      → get req.index services ≡ some s
      → s req.step ≡ ok (delay c seconds)
      → seconds < 2 ^ 63
      → E.encode (record { step = c; index = next_index req.index }) ≡ ok raw
      → row id db.jobs ≡ none
      → (r : Row Raw) × (row id (call (sqlite_steps show id now) services req db).1.jobs ≡ some r)
        × (r.job ≡ raw)
        × ((later : ℤ) → due E config later r ≡ ltb_ℤ (pos seconds) later)
  unfolding new_with_ctx
  delayed_step_is_due show id now services req db s c seconds raw there asks fits encoded fresh =
      let step =
        new_with_ctx id (record { step = c; index = next_index req.index }) (new_context now) in
      (
        new_row E config raw step.parts (pos seconds),
        ap (λ (t : Tables Raw). row id t.jobs)
              (delay_lem (sqlite_steps show id now) services req db s c seconds there asks fits)
            ∙ schedule_request-row E config step (pos seconds) db raw encoded fresh,
        refl,
        λ later. ground (arith, eq_refl config.namespace),
      )
