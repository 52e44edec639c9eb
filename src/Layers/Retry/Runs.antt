-- ===== src/Layers/Retry/Runs.antt =====
-- How a task's calls end under the retry policies.
use apalis_cron_jobs.Prelude.{
  ℕ, zero, suc, ◌+◌, ◌≤◌, ◌<◌, ◌≡◌, refl, ◌∙◌, ap, ◌^◌, true, Option, none, some, arith, leb, ◌==◌,
  if◌then◌else◌, Bool-cases, inl, inr, ◌↔◌,
}
use apalis_cron_jobs.Prelude.Outcome.{Result, ok, err}
use apalis_cron_jobs.Core.Attempt.{increment}
use apalis_cron_jobs.Core.Error.{
  Error, failed, abort, worker_error, missing_data, service_error, source_error, zero_retries,
  out_of_retries,
}
use apalis_cron_jobs.Layers.Retry.{weigh, retry, backoff_retry, RetryService, retriable}

decide_alike :
    {Res Pause : Type 0} (pause : Pause) (retries attempt : ℕ) (e : Error)
    → let slow : Option (Pause × (ℕ → ℕ)) × Result Error Res =
        if retries == 0
        then (none, err (abort (zero_retries e)))
        else if leb attempt retries
        then (some (pause, increment), err e)
        else (none, err (abort (out_of_retries attempt e))) in
      let fast : Option ℕ × Result Error Res = weigh retries attempt e in
      (slow.1 ≡ fast.1)
      × ((slow.0 ≡ none) ↔ (fast.0 ≡ none))
      × ((next : Pause × (ℕ → ℕ)) → slow.0 ≡ some next → fast.0 ≡ some (next.1 attempt))
unfolding weigh
decide_alike pause retries attempt e = (ground arith, ground arith, λ next h. ground arith)

-- The two policies change the result alike, and where they try again they do so with the same
-- counter.
pub backoff_retry-retry :
    {Res Pause : Type 0} (pause : Pause) (retries attempt : ℕ) (r : Result Error Res)
    → ((backoff_retry pause retries attempt r).1 ≡ (retry retries attempt r).1)
      × (((backoff_retry pause retries attempt r).0 ≡ none) ↔ ((retry retries attempt r).0 ≡ none))
      × ((next : Pause × (ℕ → ℕ))
          → (backoff_retry pause retries attempt r).0 ≡ some next
          → (retry retries attempt r).0 ≡ some (next.1 attempt))
unfolding backoff_retry retry
backoff_retry-retry pause retries attempt (ok r) = (refl, (λ h. refl, λ h. refl), λ next h. cc)
backoff_retry-retry pause retries attempt (err (abort e)) =
    (refl, (λ h. refl, λ h. refl), λ next h. cc)
backoff_retry-retry pause retries attempt (err (failed e)) =
    decide_alike pause retries attempt (failed e)
backoff_retry-retry pause retries attempt (err (worker_error e)) =
    decide_alike pause retries attempt (worker_error e)
backoff_retry-retry pause retries attempt (err (missing_data e)) =
    decide_alike pause retries attempt (missing_data e)
backoff_retry-retry pause retries attempt (err (service_error e)) =
    decide_alike pause retries attempt (service_error e)
backoff_retry-retry pause retries attempt (err (source_error e)) =
    decide_alike pause retries attempt (source_error e)

module _ {Res : Type 0} (retries : ℕ) (tower : RetryService Res retries)
    (fits : retries + 1 < 2 ^ 64) where
  retry-retriable :
      (attempt : ℕ) (r : Result Error Res)
      → retriable r ≡ true
      → 0 < retries
      → attempt ≤ retries
      → (retry retries attempt r).0 ≡ some (suc attempt)
  unfolding retry increment
  retry-retriable attempt (err (failed e)) h some_left within = ground arith
  retry-retriable attempt (err (worker_error e)) h some_left within = ground arith
  retry-retriable attempt (err (missing_data e)) h some_left within = ground arith
  retry-retriable attempt (err (service_error e)) h some_left within = ground arith
  retry-retriable attempt (err (source_error e)) h some_left within = ground arith
  retry-retriable attempt (err (abort e)) h some_left within = cc
  retry-retriable attempt (ok r) h some_left within = cc

  -- An error other than an `Abort` is turned into one once the counter has passed the retries.
  retry_spent :
      (attempt : ℕ) (e : Error)
      → retriable {Res = Res} (err e) ≡ true
      → 0 < retries
      → retries < attempt
      → retry {Res = Res} retries attempt (err e) ≡ (none, err (abort (out_of_retries attempt e)))
  unfolding retry
  retry_spent attempt (failed e) h some_left past = ground arith
  retry_spent attempt (worker_error e) h some_left past = ground arith
  retry_spent attempt (missing_data e) h some_left past = ground arith
  retry_spent attempt (service_error e) h some_left past = ground arith
  retry_spent attempt (source_error e) h some_left past = ground arith
  retry_spent attempt (abort e) h some_left past = cc

  retry_without :
      (e : Error)
      → retriable {Res = Res} (err e) ≡ true
      → retries ≡ 0
      → retry {Res = Res} retries 1 (err e) ≡ (none, err (abort (zero_retries e)))
  unfolding retry
  retry_without (failed e) h without = ground arith
  retry_without (worker_error e) h without = ground arith
  retry_without (missing_data e) h without = ground arith
  retry_without (service_error e) h without = ground arith
  retry_without (source_error e) h without = ground arith
  retry_without (abort e) h without = cc

  -- While the calls fail with errors other than an `Abort` and the counter is within the retries, the
  -- run is the run from a later counter.
  run_skip :
      (n attempt : ℕ) (serve : ℕ → Result Error Res)
      → 0 < retries
      → n + attempt ≤ suc retries
      → ((i : ℕ) → attempt ≤ i → i < n + attempt → retriable (serve i) ≡ true)
      → tower.run serve attempt ≡ tower.run serve (n + attempt)
  run_skip zero attempt serve some_left within fails =
      let e : attempt ≡ 0 + attempt = omega arith in ap (λ (k : ℕ). tower.run serve k) e
  run_skip (suc n) attempt serve some_left within fails =
      let e : n + suc attempt ≡ suc n + attempt = omega arith in
      tower.run_again serve attempt (suc attempt) (
        retry-retriable attempt (serve attempt) (fails attempt (omega arith) (omega arith))
          some_left (omega arith))
      ∙ run_skip n (suc attempt) serve some_left (omega arith)
          (λ i low high. fails i (omega arith) (omega arith))
      ∙ ap (λ (k : ℕ). tower.run serve k) e

  -- With at least one retry, a task whose calls fail with errors other than an `Abort` until one
  -- succeeds, at a counter that has passed the retries by one at most, ends with that success, at
  -- that counter.
  pub run_succeeds :
      (first : ℕ) (n : ℕ) (serve : ℕ → Result Error Res) {r : Res}
      → 0 < retries
      → n + first ≤ suc retries
      → ((i : ℕ) → first ≤ i → i < n + first → retriable (serve i) ≡ true)
      → serve (n + first) ≡ ok r
      → tower.run serve first ≡ (ok r, n + first)
  unfolding retry
  run_succeeds first n serve some_left within fails works =
      run_skip n first serve some_left within fails
      ∙ tower.run_over serve (n + first) (rw (works, retry) refl)
      ∙ ground arith

  -- A task that is first called with the counter at 1 and whose calls always fail with errors
  -- other than an `Abort` ends, with the counter at one more than the retries, as an `Abort` that
  -- holds the error of the call at that counter. Without retries it ends so after the first call,
  -- at 1.
  pub run_exhausted :
      (serve : ℕ → Result Error Res) (errors : ℕ → Error)
      → ((i : ℕ) → serve i ≡ err (errors i))
      → ((i : ℕ) → retriable {Res = Res} (err (errors i)) ≡ true)
      → tower.run serve 1 ≡ (
          if retries == 0
          then (err (abort (zero_retries (errors 1))), 1)
          else (err (abort (out_of_retries (retries + 1) (errors (retries + 1)))), retries + 1))
  run_exhausted serve errors ends fails = elim (Bool-cases (retries == 0)) [
    | inl zero_left ↦
        let over = retry_without (errors 1) (fails 1) (ground arith) in
        rw zero_left (tower.run_over serve 1 (rw (ends 1, over) refl) ∙ rw (ends 1, over) refl)
    | inr left ↦
        let last = retries + 1 in
        let over = retry_spent last (errors last) (fails last) (ground arith) (omega arith) in
        rw left (
          run_skip retries 1 serve (ground arith) (omega arith)
            (λ i low high. rw (ends i) (fails i))
          ∙ tower.run_over serve last (rw (ends last, over) refl)
          ∙ rw (ends last, over) refl)
  ]
