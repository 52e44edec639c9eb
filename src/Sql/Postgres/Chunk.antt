-- ===== src/Sql/Postgres/Chunk.antt =====
-- packages/apalis-sql/src/postgres.rs: the statement that writes a chunk of acknowledgements.
use apalis_cron_jobs.Prelude.{
  zero, suc, select, ℕ, ◌^◌, String, Bool, true, not, ◌&&◌, ◌||◌, Option, none, some, List, [], ◌∷◌,
  tally, map, ltb, ◌==◌, if◌then◌else◌,
}
use apalis_cron_jobs.Prelude.Int.{ℤ}
use apalis_cron_jobs.Prelude.Outcome.{ok, err, Stateful}
use apalis_cron_jobs.Core.State.{State}
use apalis_cron_jobs.Core.Response.{Response}
use apalis_cron_jobs.Sql.Context.{Config, SqlContext, calculate_status}
use apalis_cron_jobs.Sql.Engine.{SqlError, foreign_key_violation, out_of_range, Engine}
use apalis_cron_jobs.Sql.Table.{Row, Tables, known, is_null}

-- What is written about a response: the row of `json_array_elements` that the loop makes of it.
pub record AckRow : Type 0 where
  pub task_id : ℕ
  pub result : String
  pub status : State
  pub attempts : ℕ

-- `serde_json::to_string` of the response is the argument `text`.
unfoldable pub ack_row : {Res : Type 0} → SqlContext → Response Res → String → AckRow
ack_row ctx res text = record {
  task_id = res.task_id;
  result = text;
  status = calculate_status ctx res;
  attempts = res.attempt;
}

-- The rows about a job.
abbrev pub about : ℕ → List AckRow → List AckRow
about id acks = select (λ a. a.task_id == id) acks

-- One of them, the one at the given place, or the last where there are fewer.
abbrev pub chosen : ℕ → List AckRow → Option AckRow
chosen n [] = none
chosen n (a ∷ []) = some a
chosen zero (a ∷ b ∷ acks) = some a
chosen (suc n) (a ∷ b ∷ acks) = chosen n (b ∷ acks)

-- `(value->>4)::int` fails for a number that is no i32.
abbrev pub all_i32 : List AckRow → Bool
all_i32 [] = true
all_i32 (a ∷ acks) = ltb a.attempts (2 ^ 31) && all_i32 acks

module _ {Args Raw : Type 0} (E : Engine Args Raw) (config : Config) where
  abbrev M : Type 0 → Type 0
  M A = Stateful (Tables Raw) SqlError A

  -- The row of a response goes into the job's row, whoever holds the job. Of several about
  -- one job, `UPDATE … FROM` uses one, and leaves open which: `which` is the server's choice.
  unfoldable pub settle : (ℕ → ℕ) → ℕ → ℤ → List AckRow → Row Raw → Row Raw
  settle which w now acks r = elim (chosen (which r.id) (about r.id acks)) [
    | none ↦ r
    | some a ↦ record r {
      status = a.status;
      done_at = some now;
      lock_by = some w;
      last_error = some a.result;
      attempts = a.attempts;
    }
  ]

  -- The statement of the loop that acknowledges, on a chunk of responses.
  unfoldable pub ack_chunk : (ℕ → ℕ) → ℕ → ℤ → List AckRow → M (Unit {0})
  unfolding settle
  ack_chunk which w now acks db =
      if not (all_i32 acks)
      then (err out_of_range, db)
      else if known w db.workers
          || tally (λ r. not (is_null (chosen (which r.id) (about r.id acks)))) db.jobs == 0
      then (ok tt, record db { jobs = map (settle which w now acks) db.jobs })
      else (err foreign_key_violation, db)
