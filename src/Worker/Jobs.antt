-- ===== src/Worker/Jobs.antt =====
-- packages/apalis-core/src/worker/mod.rs: what `poll_jobs` does about items and answers, and the
-- future of a worker, a poll at a time. The poller and the heartbeat are steps on the worker's context
-- with states of their own.
use apalis_cron_jobs.Prelude.{
  ℕ, ◌≡◌, refl, ◌↔◌, String, Bool, true, false, Option, none, some, List, [], ◌∷◌, if◌then◌else◌,
  arith,
}
use apalis_cron_jobs.Prelude.Outcome.{Result, ok, err}
use apalis_cron_jobs.Core.Error.{
  Error, DynError, boxed, other, zero_retries, out_of_retries, max_retries_exceeded, downcast,
  failed, abort, worker_error, missing_data, service_error, source_error,
}
use apalis_cron_jobs.Core.Request.{Request}
use apalis_cron_jobs.Worker.{Context, stop, wake, is_shutting_down, is_ready}

-- `Event`.
pub data Event : Type 0 where
  started : Event
  engage : (task_id : ℕ) → Event
  idle : Event
  error : DynError → Event
  stopped : Event
  exited : Event

-- An item of the backend's stream: its request, if it has one, and the event that is emitted.
unfoldable pub on_item :
    {Req Ctx : Type 0} → Result Error (Option (Request Req Ctx)) → Option (Request Req Ctx) × Event
on_item (ok (some request)) = (some request, engage request.parts.task_id)
on_item (ok none) = (none, idle)
on_item (err e) = (none, error (boxed e))

is_missing : Option Error → Bool
is_missing none = false
is_missing (some (missing_data t)) = true
is_missing (some (failed e)) = false
is_missing (some (abort e)) = false
is_missing (some (worker_error t)) = false
is_missing (some (service_error e)) = false
is_missing (some (source_error e)) = false

-- An answer of a call: the context afterwards and the events that are emitted.
pub on_response : {Res : Type 0} → Result DynError Res → Context → Context × List Event
unfolding is_missing stop
on_response (ok res) ctx = (ctx, [])
on_response (err e) ctx = (if is_missing (downcast e) then stop ctx else ctx, error e ∷ [])

-- An answer that is a `MissingData` error stops the worker at once: it is shutting down, not ready
-- for new tasks, and woken if its waker is stored. Any other answer leaves its context as it is.
-- An error is emitted, and nothing else.
pub on_response_lem :
    {Res : Type 0} (answer : Result DynError Res) (ctx : Context)
    → let (ctx', events) = on_response answer ctx in
      ((t : String)
        → answer ≡ err (boxed (missing_data t))
        → (is_shutting_down ctx' ≡ true)
          × (is_ready ctx' ≡ false)
          × (ctx.waker ≡ true → ctx'.woken ≡ true))
      × (((t : String) → ¬ (answer ≡ err (boxed (missing_data t)))) → ctx' ≡ ctx)
      × ((e : DynError) → (answer ≡ err e) ↔ (events ≡ error e ∷ []))
unfolding on_response is_missing stop wake is_shutting_down is_ready
on_response_lem (ok res) ctx = (λ t h. cc, λ h. refl, λ e. (λ h. cc, λ h. cc))
on_response_lem (err (other x)) ctx = (λ t h. cc, λ h. refl, λ e. (λ h. cc, λ h. cc))
on_response_lem (err (zero_retries x)) ctx = (λ t h. cc, λ h. refl, λ e. (λ h. cc, λ h. cc))
on_response_lem (err (out_of_retries n x)) ctx = (λ t h. cc, λ h. refl, λ e. (λ h. cc, λ h. cc))
on_response_lem (err (max_retries_exceeded n)) ctx = (λ t h. cc, λ h. refl, λ e. (λ h. cc, λ h. cc))
on_response_lem (err (boxed (failed x))) ctx = (λ t h. cc, λ h. refl, λ e. (λ h. cc, λ h. cc))
on_response_lem (err (boxed (abort x))) ctx = (λ t h. cc, λ h. refl, λ e. (λ h. cc, λ h. cc))
on_response_lem (err (boxed (worker_error x))) ctx = (λ t h. cc, λ h. refl, λ e. (λ h. cc, λ h. cc))
on_response_lem (err (boxed (service_error x))) ctx =
    (λ t h. cc, λ h. refl, λ e. (λ h. cc, λ h. cc))
on_response_lem (err (boxed (source_error x))) ctx = (λ t h. cc, λ h. refl, λ e. (λ h. cc, λ h. cc))
on_response_lem (err (boxed (missing_data x))) ctx =
    (λ t h. ground arith, λ h. absurd (h x refl), λ e. (λ h. cc, λ h. cc))
