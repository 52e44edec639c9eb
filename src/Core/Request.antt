-- ===== src/Core/Request.antt =====
-- packages/apalis-core/src/request.rs. A task id is a 128-bit ULID, here its number; the
-- extensions of a request are not serialised and stand outside this model.
use apalis_cron_jobs.Prelude.{ℕ, String, Option, none}
use apalis_cron_jobs.Core.Attempt

pub record Parts (Ctx : Type 0) : Type 0 where
  pub task_id : ℕ
  pub attempt : ℕ
  pub context : Ctx
  pub namespace : Option String

pub record Request (Args Ctx : Type 0) : Type 0 where
  pub args : Args
  pub parts : Parts Ctx

module _ {Args Ctx : Type 0} where
  unfoldable pub new_with_parts : Args → Parts Ctx → Request Args Ctx
  new_with_parts args parts = record { args = args; parts = parts }

  -- `TaskId::default` draws a fresh id, which is an argument here.
  unfoldable pub new_with_ctx : ℕ → Args → Ctx → Request Args Ctx
  unfolding Attempt.new
  new_with_ctx fresh args ctx = record {
    args = args;
    parts = record { task_id = fresh; attempt = Attempt.new; context = ctx; namespace = none };
  }
