-- ===== src/Layers/Examples.antt =====
-- The theorems on the layers with two retries, under a service that tries again as tower's does.
use apalis_cron_jobs.Prelude.{ℕ, zero, suc, ◌-◌, ◌≤◌, ◌≡◌, refl, ◌∙◌, ap, none, some, arith}
use apalis_cron_jobs.Prelude.Int.{pos}
use apalis_cron_jobs.Prelude.Outcome.{Result, ok, err, map_err}
use apalis_cron_jobs.Core.Attempt.{increment}
use apalis_cron_jobs.Core.Error.{
  Error, boxed, failed, abort, worker_error, missing_data, service_error, source_error,
  out_of_retries,
}
use apalis_cron_jobs.Core.State.{State}
use apalis_cron_jobs.Layers.Retry.{retry, weigh, RetryService}
use apalis_cron_jobs.Layers.Retry.Runs.{run_exhausted}
use apalis_cron_jobs.Layers.Acknowledge.{ack_service, tracker_service, exhausted_task_is_killed}
use apalis_cron_jobs.Sql.Context.{SqlContext, calculate_status}

try_again : {Res : Type 0} → ℕ → (ℕ → Result Error Res) → ℕ → Result Error Res × ℕ
try_again zero serve attempt = ((retry 2 attempt (serve attempt)).1, attempt)
try_again (suc fuel) serve attempt = elim (retry 2 attempt (serve attempt)).0 [
  | none ↦ ((retry 2 attempt (serve attempt)).1, attempt)
  | some next ↦ try_again fuel serve next
]

weigh_next :
    (Res : Type 0) (attempt : ℕ) (e : Error) {next : ℕ}
    → (weigh {Res = Res} 2 attempt e).0 ≡ some next
    → (attempt ≤ 2) × (next ≡ suc attempt)
unfolding weigh increment
weigh_next Res attempt e h = ground arith

next_of :
    {Res : Type 0} (attempt : ℕ) (r : Result Error Res) {next : ℕ}
    → (retry 2 attempt r).0 ≡ some next
    → (attempt ≤ 2) × (next ≡ suc attempt)
unfolding retry
next_of attempt (ok r) h = cc
next_of attempt (err (abort e)) h = cc
next_of {Res = Res} attempt (err (failed e)) h = weigh_next Res attempt (failed e) h
next_of {Res = Res} attempt (err (worker_error e)) h = weigh_next Res attempt (worker_error e) h
next_of {Res = Res} attempt (err (missing_data e)) h = weigh_next Res attempt (missing_data e) h
next_of {Res = Res} attempt (err (service_error e)) h = weigh_next Res attempt (service_error e) h
next_of {Res = Res} attempt (err (source_error e)) h = weigh_next Res attempt (source_error e) h

try_more :
    {Res : Type 0} (fuel : ℕ) (serve : ℕ → Result Error Res) (attempt next : ℕ)
    → (retry 2 attempt (serve attempt)).0 ≡ some next
    → try_again (suc fuel) serve attempt ≡ try_again fuel serve next
unfolding try_again
try_more fuel serve attempt next h = rw (h, try_again) refl

try_over :
    {Res : Type 0} (fuel : ℕ) (serve : ℕ → Result Error Res) (attempt : ℕ)
    → (retry 2 attempt (serve attempt)).0 ≡ none
    → try_again fuel serve attempt ≡ ((retry 2 attempt (serve attempt)).1, attempt)
unfolding try_again
try_over zero serve attempt h = refl
try_over (suc fuel) serve attempt h = rw (h, try_again) refl

run_once_more :
    {Res : Type 0} (serve : ℕ → Result Error Res) (attempt next : ℕ)
    → (retry 2 attempt (serve attempt)).0 ≡ some next
    → try_again (3 - attempt) serve attempt ≡ try_again (3 - next) serve next
run_once_more serve attempt next h =
    let found = next_of attempt (serve attempt) h in
    let fuel : 3 - attempt ≡ suc (3 - next) = omega (arith, found) in
    ap (λ (k : ℕ). try_again k serve attempt) fuel ∙ try_more (3 - next) serve attempt next h

abbrev tower : RetryService ℕ 2
tower = record {
  run = λ serve attempt. try_again (3 - attempt) serve attempt;
  run_again = run_once_more;
  run_over = λ serve attempt. try_over (3 - attempt) serve attempt;
}

abbrev failing : ℕ → Result Error ℕ
failing n = err (missing_data "no address")

abbrev context : SqlContext
context = record {
  status = State.running;
  run_at = pos 100;
  max_attempts = pos 25;
  last_error = none;
  lock_at = none;
  lock_by = some 1;
  done_at = none;
  priority = pos 0;
}

run_exhausted_example :
    tower.run failing 1 ≡ (err (abort (out_of_retries 3 (missing_data "no address"))), 3)
run_exhausted_example =
    run_exhausted 2 tower (omega arith) failing (λ i. missing_data "no address") (λ i. refl)
      (λ i. refl)

exhausted_task_is_killed_example :
    let response =
      tracker_service
        (ack_service 7 (λ n. (map_err boxed (tower.run failing n).0, (tower.run failing n).1)))
        0 in
    (response.attempt ≡ 3) × (calculate_status context response ≡ State.killed)
exhausted_task_is_killed_example =
    exhausted_task_is_killed 2 tower (omega arith) context 7 failing
      (λ i. missing_data "no address") (λ i. refl) (λ i. refl)
