-- ===== src/Core/Error.antt =====
-- packages/apalis-core/src/error.rs and the error half of response.rs. A boxed error is told apart
-- only as far as `downcast_ref::<Error>` does; the text stands for all else that it holds.
use apalis_cron_jobs.Prelude.{ℕ, ◌≡◌, refl, String, Bool, true, false, Option, none, some}
use apalis_cron_jobs.Prelude.Outcome.{Result, ok, err, map_err}

mutual
  -- The policy errors are those of src/layers/retry/mod.rs, the last one is the `io::Error` that
  -- the Redis storage kills a job with.
  pub data DynError : Type 0 where
    other : String → DynError
    boxed : Error → DynError
    zero_retries : Error → DynError
    out_of_retries : ℕ → Error → DynError
    max_retries_exceeded : ℕ → DynError

  pub data Error : Type 0 where
    failed : DynError → Error
    abort : DynError → Error
    worker_error : String → Error
    missing_data : String → Error
    service_error : DynError → Error
    source_error : DynError → Error

-- `downcast_ref::<Error>`: is the box one of apalis's own errors?
abbrev pub downcast : DynError → Option Error
downcast (boxed e) = some e
downcast (other t) = none
downcast (max_retries_exceeded n) = none
downcast (zero_retries e) = none
downcast (out_of_retries n e) = none

-- `impl From<BoxDynError> for Error`.
unfoldable pub from_boxed : DynError → Error
from_boxed e = elim (downcast e) [ some custom ↦ custom | none ↦ failed e ]

-- `ErrorHandlingService::call`: every error of the inner service is converted.
unfoldable pub handle_errors {ℓ} : {A : Type ℓ} → Result DynError A → Result Error A
unfolding from_boxed
handle_errors r = map_err from_boxed r

-- `impl IntoResponse for bool`.
unfoldable pub bool_into_response : Bool → Result Error Bool
bool_into_response true = ok true
bool_into_response false = err (failed (other "Job returned false"))

-- `impl IntoResponse for Result<T, E>`, after `e.into()`.
unfoldable pub result_into_response {ℓ} : {A : Type ℓ} → Result DynError A → Result Error A
result_into_response (ok value) = ok value
result_into_response (err e) = elim (downcast e) [
  | some custom ↦ err custom
  | none ↦ err (failed e)
]

-- An error of apalis passes through both conversions as it is, so layers may be stacked; what
-- is not one of them becomes `Failed`, and never an error that ends the task for good.
pub boxing_round_trip {ℓ} :
    {A : Type ℓ} (r : Result Error A)
    → (handle_errors (map_err boxed r) ≡ r) × (result_into_response (map_err boxed r) ≡ r)
unfolding handle_errors result_into_response
boxing_round_trip (ok a) = (refl, refl)
boxing_round_trip (err e) = (refl, refl)

-- The layer and the response trait convert alike.
pub handle_errors-into_response {ℓ} :
    {A : Type ℓ} (r : Result DynError A) → handle_errors r ≡ result_into_response r
unfolding handle_errors result_into_response
handle_errors-into_response (ok a) = refl
handle_errors-into_response (err (other t)) = refl
handle_errors-into_response (err (max_retries_exceeded n)) = refl
handle_errors-into_response (err (boxed e)) = refl
handle_errors-into_response (err (zero_retries e)) = refl
handle_errors-into_response (err (out_of_retries n e)) = refl
