-- ===== src/Sql/Table.antt =====
-- packages/apalis-sql/migrations/sqlite: the tables, and the statements that the storage runs on them
-- as functions on lists of rows. An id is unique; `lock_by` refers to a worker.
use apalis_cron_jobs.Prelude.{
  ℕ, ◌≤◌, ◌≡◌, refl, String, Bool, true, false, ◌&&◌, Option, none, some, List, [], ◌∷◌, arith,
  tally, ◌==◌, if◌then◌else◌, take,
}
use apalis_cron_jobs.Prelude.Int.{ℤ, pos, negsuc}
use apalis_cron_jobs.Core.State.{State}

pub record Row (Raw : Type 0) : Type 0 where
  pub job : Raw
  pub id : ℕ
  pub job_type : String
  pub status : State
  pub attempts : ℕ
  pub max_attempts : ℤ
  pub run_at : ℤ
  pub last_error : Option String
  pub lock_at : Option ℤ
  pub lock_by : Option ℕ
  pub done_at : Option ℤ
  pub priority : ℤ

pub record WorkerRow : Type 0 where
  pub id : ℕ
  pub worker_type : String
  pub layers : String
  pub last_seen : ℤ

pub record Tables (Raw : Type 0) : Type 0 where
  pub jobs : List (Row Raw)
  pub workers : List WorkerRow

abbrev pub known : ℕ → List WorkerRow → Bool
known w [] = false
known w (v ∷ vs) = if v.id == w then true else known w vs

-- The tests on states that the statements make.
abbrev pub is_pending : State → Bool
is_pending State.pending = true
is_pending State.scheduled = false
is_pending State.running = false
is_pending State.done = false
is_pending State.failed = false
is_pending State.killed = false

abbrev pub is_running : State → Bool
is_running State.running = true
is_running State.pending = false
is_running State.scheduled = false
is_running State.done = false
is_running State.failed = false
is_running State.killed = false

abbrev pub is_done : State → Bool
is_done State.done = true
is_done State.pending = false
is_done State.scheduled = false
is_done State.running = false
is_done State.failed = false
is_done State.killed = false

abbrev pub is_failed : State → Bool
is_failed State.failed = true
is_failed State.pending = false
is_failed State.scheduled = false
is_failed State.running = false
is_failed State.done = false
is_failed State.killed = false

abbrev pub is_killed : State → Bool
is_killed State.killed = true
is_killed State.pending = false
is_killed State.scheduled = false
is_killed State.running = false
is_killed State.done = false
is_killed State.failed = false

abbrev pub is_null {ℓ} : {A : Type ℓ} → Option A → Bool
is_null none = true
is_null (some a) = false

-- `lock_by = w`: a comparison with NULL is not true.
abbrev pub locked_by : ℕ → Option ℕ → Bool
locked_by w none = false
locked_by w (some v) = v == w

-- `LIMIT n`: no limit where n is negative.
abbrev pub limit {ℓ} : {A : Type ℓ} → ℤ → List A → List A
limit (pos n) xs = take n xs
limit (negsuc n) xs = xs

module _ {Raw : Type 0} where
  -- UPDATE … WHERE.
  abbrev pub update_where : (Row Raw → Bool) → (Row Raw → Row Raw) → List (Row Raw) → List (Row Raw)
  update_where p f [] = []
  update_where p f (r ∷ rs) = (if p r then f r else r) ∷ update_where p f rs

  -- SELECT … WHERE, as far as `fetch_optional` reads it.
  abbrev pub find : (Row Raw → Bool) → List (Row Raw) → Option (Row Raw)
  find p [] = none
  find p (r ∷ rs) = if p r then some r else find p rs

  -- The row of a job.
  abbrev pub row : ℕ → List (Row Raw) → Option (Row Raw)
  row i [] = none
  row i (r ∷ rs) = if r.id == i then some r else row i rs

  abbrev pub Unique : List (Row Raw) → Type 0
  Unique rs = (i : ℕ) → tally (λ r. r.id == i) rs ≤ 1

  -- What an update makes of the row of a job.
  abbrev pub updated : (Row Raw → Bool) → (Row Raw → Row Raw) → Option (Row Raw) → Option (Row Raw)
  updated p f none = none
  updated p f (some r) = some (if p r then f r else r)

  -- A row that is there and passes a test.
  abbrev pub passing : (Row Raw → Bool) → Option (Row Raw) → Option (Row Raw)
  passing p none = none
  passing p (some r) = if p r then some r else none

  pub row-update_where :
      (p : Row Raw → Bool) (f : Row Raw → Row Raw)
      → ((r : Row Raw) → (f r).id ≡ r.id)
      → (i : ℕ) (rs : List (Row Raw)) → row i (update_where p f rs) ≡ updated p f (row i rs)
  row-update_where p f keep i [] = refl
  row-update_where p f keep i (r ∷ rs) = ground (arith, keep r, row-update_where p f keep i rs)

  -- An update leaves the ids alone.
  pub tally-update_where :
      (p : Row Raw → Bool) (f : Row Raw → Row Raw)
      → ((r : Row Raw) → (f r).id ≡ r.id)
      → (i : ℕ) (rs : List (Row Raw))
      → tally (λ r. r.id == i) (update_where p f rs) ≡ tally (λ r. r.id == i) rs
  tally-update_where p f keep i [] = refl
  tally-update_where p f keep i (r ∷ rs) = ground (arith, keep r, tally-update_where p f keep i rs)

  find-absent :
      (q : Row Raw → Bool) (i : ℕ) (rs : List (Row Raw))
      → tally (λ r. r.id == i) rs ≡ 0
      → find (λ r. r.id == i && q r) rs ≡ none
  find-absent q i [] h = refl
  find-absent q i (r ∷ rs) h = ground (arith, find-absent q i rs)

  -- Where ids are unique, a search for an id with a further test looks at that id's row only.
  pub find_lem :
      (q : Row Raw → Bool) (i : ℕ) (rs : List (Row Raw))
      → tally (λ r. r.id == i) rs ≤ 1
      → find (λ r. r.id == i && q r) rs ≡ passing q (row i rs)
  find_lem q i [] h = refl
  find_lem q i (r ∷ rs) h = ground (arith, find_lem q i rs, find-absent q i rs)

  pub row-id : (i : ℕ) (rs : List (Row Raw)) {r : Row Raw} → row i rs ≡ some r → r.id ≡ i
  row-id i [] h = cc
  row-id i (q ∷ rs) {r} h = ground (arith, λ (k : row i rs ≡ some r). row-id i rs k)
