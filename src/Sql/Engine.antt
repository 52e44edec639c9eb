-- ===== src/Sql/Engine.antt =====
-- packages/apalis-sql: errors, and what the storages rely on of the database and the codec.
use apalis_cron_jobs.Prelude.{
  ℕ, ◌^◌, ◌≡◌, ◌<◌, String, Bool, false, Option, some, List, [], ◌∷◌, tally, All,
}
use apalis_cron_jobs.Prelude.Int.{ℤ, pos, ltb_ℤ}
use apalis_cron_jobs.Prelude.Outcome.{Result, ok}
use apalis_cron_jobs.Sql.Table.{Row}

pub data SqlError : Type 0 where
  invalid_data : String → SqlError
  unique_violation foreign_key_violation data_too_long out_of_range panic : SqlError

-- In descending order: no row stands before one that must precede it.
abbrev pub Ordered : {Raw : Type 0} → (Row Raw → Row Raw → Bool) → List (Row Raw) → Type 0
Ordered before [] = Unit
Ordered before (r ∷ rs) = All (λ s. before s r ≡ false) rs × Ordered before rs

-- What the storage relies on of the database and the codec. How rows are ordered that no `ORDER BY`
-- tells apart is left open; a number that is no i32 may or may not be read as one.
pub record Engine (Args Raw : Type 0) : Type 0 where
  pub order_by : (Row Raw → Row Raw → Bool) → List (Row Raw) → List (Row Raw)
  pub tally-order_by :
      (before : Row Raw → Row Raw → Bool) (p : Row Raw → Bool) (rs : List (Row Raw))
      → tally p (order_by before rs) ≡ tally p rs
  pub order_by-Ordered :
      (key : Row Raw → ℤ) (rs : List (Row Raw))
      → Ordered (λ r s. ltb_ℤ (key s) (key r)) (order_by (λ r s. ltb_ℤ (key s) (key r)) rs)
  pub get_i32 : ℕ → Option ℤ
  pub get_i32_lem : (n : ℕ) → n < 2 ^ 31 → get_i32 n ≡ some (pos n)
  pub encode : Args → Result String Raw
  pub decode : Raw → Result String Args
  pub decode-encode : (a : Args) {raw : Raw} → encode a ≡ ok raw → decode raw ≡ ok a
