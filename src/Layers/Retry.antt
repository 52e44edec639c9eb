-- ===== src/Layers/Retry.antt =====
-- src/layers/retry/mod.rs: when a failed task is tried again. The counter of attempts is shared by
-- the copies of a request, so that it is one number here.
pub mod Runs
use apalis_cron_jobs.Prelude.{
  ℕ, zero, suc, ◌+◌, ◌-◌, ◌≤◌, ◌<◌, ◌≡◌, ◌≢◌, refl, sym, ◌∙◌, ap, ◌^◌, Bool, true, false, Option,
  none, some, arith, leb, ◌==◌, if◌then◌else◌, Bool-cases, inl, inr, ◌↔◌,
}
use apalis_cron_jobs.Prelude.Outcome.{Result, ok, err}
use apalis_cron_jobs.Core.Attempt.{increment}
use apalis_cron_jobs.Core.Error.{
  Error, DynError, failed, abort, worker_error, missing_data, service_error, source_error,
  zero_retries, out_of_retries,
}

unfoldable pub default_retries : ℕ
default_retries = 5

-- What becomes of an error that is not an `Abort`: the counter of the next try, or the error that is
-- returned in its place.
unfoldable pub weigh : {Res : Type 0} → ℕ → ℕ → Error → Option ℕ × Result Error Res
weigh retries attempt e =
    if retries == 0
    then (none, err (abort (zero_retries e)))
    else if leb attempt retries
    then (some (increment attempt), err e)
    else (none, err (abort (out_of_retries attempt e)))

-- `RetryPolicy::retry`: the counter of the next try, if there is one, and the result, which is
-- changed in place.
unfoldable pub retry : {Res : Type 0} → ℕ → ℕ → Result Error Res → Option ℕ × Result Error Res
unfolding weigh
retry retries attempt (ok r) = (none, ok r)
retry retries attempt (err (abort e)) = (none, err (abort e))
retry retries attempt (err e) = weigh retries attempt e

-- `BackoffRetryPolicy::retry`: the counter goes up when the pause is over. `pause` is the backoff's
-- next pause.
unfoldable pub backoff_retry :
    {Res Pause : Type 0}
    → Pause
    → ℕ
    → ℕ
    → Result Error Res
    → Option (Pause × (ℕ → ℕ)) × Result Error Res
unfolding increment
backoff_retry pause retries attempt (ok r) = (none, ok r)
backoff_retry pause retries attempt (err (abort e)) = (none, err (abort e))
backoff_retry pause retries attempt (err e) =
    if retries == 0
    then (none, err (abort (zero_retries e)))
    else if leb attempt retries
    then (some (pause, increment), err e)
    else (none, err (abort (out_of_retries attempt e)))

-- What is assumed of `tower::retry::Retry` under this policy: it calls the service, asks the policy,
-- and begins again with the counter that the policy left until the policy says no. `serve n` is how
-- the call with the counter at n ends. It answers with the result and the counter at the end.
pub record RetryService (Res : Type 0) (retries : ℕ) : Type 0 where
  pub run : (ℕ → Result Error Res) → ℕ → Result Error Res × ℕ
  pub run_again :
      (serve : ℕ → Result Error Res) (attempt next : ℕ)
      → (retry retries attempt (serve attempt)).0 ≡ some next
      → run serve attempt ≡ run serve next
  pub run_over :
      (serve : ℕ → Result Error Res) (attempt : ℕ)
      → (retry retries attempt (serve attempt)).0 ≡ none
      → run serve attempt ≡ ((retry retries attempt (serve attempt)).1, attempt)

-- Whether a result is an error other than an `Abort`.
abbrev pub retriable : {Res : Type 0} → Result Error Res → Bool
retriable (ok r) = false
retriable (err (abort e)) = false
retriable (err (failed e)) = true
retriable (err (worker_error e)) = true
retriable (err (missing_data e)) = true
retriable (err (service_error e)) = true
retriable (err (source_error e)) = true
