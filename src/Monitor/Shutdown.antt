-- ===== src/Monitor/Shutdown.antt =====
-- packages/apalis-core/src/monitor/shutdown.rs: the token that stops a monitor and its workers. A waker
-- is the number of the task that it wakes.
use apalis_cron_jobs.Prelude.{
  ℕ, ◌≡◌, refl, Bool, true, false, Option, none, some, List, [], ◌∷◌, ◌++◌, if◌then◌else◌, arith,
}

pub record Token : Type 0 where
  pub state : Bool
  pub waker : Option ℕ
  pub woken : List ℕ

unfoldable pub new : Token
new = record { state = false; waker = none; woken = [] }

unfoldable pub is_shutting_down : Token → Bool
is_shutting_down t = t.state

-- The waker is taken.
unfoldable pub wake : Token → Token
wake t = elim t.waker [
  | none ↦ t
  | some task ↦ record t { waker = none; woken = t.woken ++ task ∷ [] }
]

unfoldable pub start_shutdown : Token → Token
unfolding wake
start_shutdown t = wake (record t { state = true })

-- A poll by a task: whether it is ready. There is one place for a waker.
unfoldable pub poll : ℕ → Token → Bool × Token
poll task t = if t.state then (true, t) else (false, record t { waker = some task })

-- Polls by some tasks, the first one first.
unfoldable pub poll_all : List ℕ → Token → Token
unfolding poll
poll_all [] t = t
poll_all (task ∷ tasks) t = poll_all tasks (poll task t).1

poll_all-waiting :
    (tasks : List ℕ) (t : Token)
    → t.state ≡ false
    → ((poll_all tasks t).state ≡ false) × ((poll_all tasks t).woken ≡ t.woken)
unfolding poll_all
poll_all-waiting [] t h = (h, refl)
poll_all-waiting (task ∷ tasks) t h = ground (arith, poll_all-waiting tasks (poll task t).1)

-- Of the tasks that poll a token before it is called, the call wakes the last one, once, and no other,
-- whatever it was polled by before; from then on every poll is ready.
pub start_shutdown-wakes_last :
    (tasks : List ℕ) (last task : ℕ)
    → let waiting = (poll last (poll_all tasks new)).1 in
      let called = start_shutdown waiting in
      (called.woken ≡ last ∷ [])
      × (called.waker ≡ none)
      × ((poll task called).0 ≡ true)
      × ((start_shutdown called).woken ≡ last ∷ [])
unfolding new poll start_shutdown wake
start_shutdown-wakes_last tasks last task =
    let (waits, none_yet) = poll_all-waiting tasks new refl in ground arith
