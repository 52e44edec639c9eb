-- ===== src/Core/Response.antt =====
-- packages/apalis-core/src/response.rs: the outcome of a task with its id and attempts.
use apalis_cron_jobs.Prelude.{ℕ, Bool, not}
use apalis_cron_jobs.Prelude.Outcome.{Result, ok, err, is_ok, map_ok}
use apalis_cron_jobs.Core.Error.{Error}

pub record Response (Res : Type 0) : Type 0 where
  pub inner : Result Error Res
  pub task_id : ℕ
  pub attempt : ℕ

module _ {Res : Type 0} where
  unfoldable pub success : Res → ℕ → ℕ → Response Res
  success res task_id attempt = record { inner = ok res; task_id = task_id; attempt = attempt }

  unfoldable pub failure : Error → ℕ → ℕ → Response Res
  failure error task_id attempt = record { inner = err error; task_id = task_id; attempt = attempt }

  unfoldable pub is_success : Response Res → Bool
  is_success r = is_ok r.inner

  unfoldable pub is_failure : Response Res → Bool
  is_failure r = not (is_ok r.inner)

unfoldable pub map_response : {A B : Type 0} → (A → B) → Response A → Response B
map_response f r = record { inner = map_ok f r.inner; task_id = r.task_id; attempt = r.attempt }
