-- ===== src/Core/Attempt.antt =====
-- packages/apalis-core/src/task/attempt.rs. The counter is shared by all clones of a request, so
-- it is a part of the state of whoever holds the request; here are its operations on the value.
use apalis_cron_jobs.Prelude.{ℕ, ◌+◌, ◌%◌, ◌^◌}

-- `Attempt::default` and `Attempt::new`.
unfoldable pub new : ℕ
new = 0

-- `fetch_add(1)` on an `AtomicUsize` wraps around.
unfoldable pub increment : ℕ → ℕ
increment n = (n + 1) % 2 ^ 64
