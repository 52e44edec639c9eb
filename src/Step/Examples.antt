-- ===== src/Step/Examples.antt =====
-- The theorems on workflows at one of two steps, on a storage that holds one list.
use apalis_cron_jobs.Prelude.{
  ℕ, ◌+◌, ◌*◌, ◌≡◌, refl, Option, none, some, List, [], ◌∷◌, ◌++◌, ◌==◌, if◌then◌else◌, arith,
}
use apalis_cron_jobs.Prelude.Int.{ℤ, pos, ltb_ℤ}
use apalis_cron_jobs.Prelude.Outcome.{ok}
use apalis_cron_jobs.Step.{
  next, delay, done, StepRequest, StepStorage, next_index, Stepped, call, start_stepped,
}
use apalis_cron_jobs.Sql.Context.{Config}
use apalis_cron_jobs.Sql.Reference.{engine_of}
use apalis_cron_jobs.Sql.Rows.{due}
use apalis_cron_jobs.Sql.Table.{Row, row}
use apalis_cron_jobs.Step.Delayed.{sqlite_steps, delayed_step_is_due}
use apalis_cron_jobs.Step.Flow.{Fifo, work, composed, workflow_completes}

-- What is scheduled waits behind what is pushed.
abbrev storage : StepStorage ℕ
storage = record {
  Store = List (StepRequest ℕ);
  push = λ r db. (ok tt, db ++ r ∷ []);
  schedule = λ r on db. (ok tt, db ++ r ∷ []);
}

take_first : List (StepRequest ℕ) → Option (StepRequest ℕ × List (StepRequest ℕ))
take_first [] = none
take_first (r ∷ rs) = some (r, rs)

abbrev queue : Fifo storage
unfolding take_first
queue = record { empty = []; pop = take_first; push_pop = λ r. (r ∷ [], refl, refl) }

abbrev double : Stepped ℕ
double n = ok (next (2 * n))

abbrev finish : Stepped ℕ
finish n = ok (done (n + 1))

abbrev pause : Stepped ℕ
pause n = ok (delay n 60)

abbrev services : List (ℕ × Stepped ℕ)
services = (1, finish) ∷ (0, double) ∷ []

abbrev action : ℕ → ℕ → ℕ
action i n = if i == 0 then 2 * n else n + 1

abbrev config : Config
config = record {
  keep_alive = 30000;
  buffer_size = 5;
  poll_interval = 100;
  reenqueue_orphaned_after = 300000;
  namespace = "mail";
}

-- A minute's delay that is asked for at the time 5000 is over at 61.
delayed_step_is_due_example :
    let steps = sqlite_steps (engine_of (StepRequest ℕ)) config (λ e. "refused") 3 (pos 5000) in
    let after =
      (call steps
        ((0, pause) ∷ [])
        (record { step = 5; index = 0 })
        (record { jobs = []; workers = [] })).1 in
    (r : Row (StepRequest ℕ)) × (row 3 after.jobs ≡ some r)
    × (r.job ≡ record { step = 5; index = next_index 0 })
    × ((later : ℤ) → due (engine_of (StepRequest ℕ)) config later r ≡ ltb_ℤ (pos 60) later)
unfolding engine_of
delayed_step_is_due_example =
    delayed_step_is_due (engine_of (StepRequest ℕ)) config (λ e. "refused") 3 (pos 5000)
      ((0, pause) ∷ []) (record { step = 5; index = 0 }) (record { jobs = []; workers = [] }) pause
      5 60 (record { step = 5; index = next_index 0 }) refl refl (omega arith) refl refl

workflow_completes_example :
    let started = start_stepped storage (λ (n : ℕ). ok n) 5 [] in
    (started.0 ≡ ok tt)
    × (work storage queue 2 services started.1 ≡ some (ok (composed storage queue action 0 1 5)))
unfolding take_first
workflow_completes_example =
    workflow_completes storage queue (λ (n : ℕ). ok n) 5 services action 1 (omega arith) refl
      (λ i x low. (double, ground arith, ground arith)) (λ x. (finish, refl, refl))
