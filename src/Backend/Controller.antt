-- ===== src/Backend/Controller.antt =====
-- packages/apalis-core/src/poller/controller.rs: the switch that a worker's stream is shared with.
use apalis_cron_jobs.Prelude.{ℕ, Bool, ◌==◌}

abbrev pub plugged : ℕ
plugged = 1

abbrev pub unplugged : ℕ
unplugged = 0

abbrev pub stopped : ℕ
stopped = 2

pub record Controller : Type 0 where
  pub state : ℕ

unfoldable pub new : Controller
new = record { state = plugged }

unfoldable pub plug : Controller → Controller
plug c = record c { state = plugged }

unfoldable pub unplug : Controller → Controller
unplug c = record c { state = unplugged }

unfoldable pub stop : Controller → Controller
stop c = record c { state = stopped }

unfoldable pub is_plugged : Controller → Bool
is_plugged c = c.state == plugged

unfoldable pub is_stopped : Controller → Bool
is_stopped c = c.state == stopped
