-- ===== src/Layers/Acknowledge.antt =====
-- packages/apalis-core/src/layers.rs and worker/mod.rs: the services around a task, from the count of
-- its attempt to the acknowledgement. What the acknowledgement itself answers is not looked at.
use apalis_cron_jobs.Prelude.{
  ℕ, ◌+◌, ◌^◌, ◌<◌, ◌≡◌, none, some, arith, ◌==◌, true, Bool-cases, inl, inr,
}
use apalis_cron_jobs.Prelude.Outcome.{Result, err, map_err}
use apalis_cron_jobs.Core.Attempt.{increment}
use apalis_cron_jobs.Core.Error.{Error, DynError, boxed, failed, downcast}
use apalis_cron_jobs.Core.Response.{Response}
use apalis_cron_jobs.Core.State.{State}
use apalis_cron_jobs.Layers.Retry.{RetryService, retriable}
use apalis_cron_jobs.Layers.Retry.Runs.{run_exhausted}
use apalis_cron_jobs.Sql.Context.{SqlContext, calculate_status}

custom_or_failed : DynError → Error
custom_or_failed e = elim (downcast e) [ some custom ↦ custom | none ↦ failed e ]

module _ {Res : Type 0} where
  -- `AckService::call`: the response that is acknowledged. The counter is read after the call.
  pub ack_service : ℕ → (ℕ → Result DynError Res × ℕ) → ℕ → Response Res
  unfolding custom_or_failed
  ack_service task_id service attempt =
      let (res, attempt') = service attempt in
      record { inner = map_err custom_or_failed res; task_id = task_id; attempt = attempt' }

  -- `TrackerService::call` counts the attempt before anything else.
  pub tracker_service : (ℕ → Response Res) → ℕ → Response Res
  unfolding increment
  tracker_service service attempt = service (increment attempt)

  -- A new task under a retry policy, whose calls always fail with errors other than an `Abort`,
  -- gives a response that counts one attempt more than the retries, and that the SQL storages
  -- settle as killed, whatever its maximum of attempts is.
  pub exhausted_task_is_killed :
      (retries : ℕ) (tower : RetryService Res retries)
      → retries + 1 < 2 ^ 64
      → (ctx : SqlContext) (id : ℕ) (serve : ℕ → Result Error Res) (errors : ℕ → Error)
      → ((i : ℕ) → serve i ≡ err (errors i))
      → ((i : ℕ) → retriable {Res = Res} (err (errors i)) ≡ true)
      → let service : ℕ → Result DynError Res × ℕ =
          λ n. (map_err boxed (tower.run serve n).0, (tower.run serve n).1) in
        let response = tracker_service (ack_service id service) 0 in
        (response.attempt ≡ retries + 1) × (calculate_status ctx response ≡ State.killed)
  unfolding tracker_service ack_service calculate_status
  exhausted_task_is_killed retries tower fits ctx id serve errors ends fails =
      let over = run_exhausted retries tower fits serve errors ends fails in
      elim (Bool-cases (retries == 0)) [ inl without ↦ ground arith | inr left ↦ ground arith ]
