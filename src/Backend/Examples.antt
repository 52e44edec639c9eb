-- ===== src/Backend/Examples.antt =====
-- The theorems on the backend in memory, on a channel that is a list.
use apalis_cron_jobs.Prelude.{ℕ, suc, ◌≡◌, true, false, Option, none, some, List, [], ◌∷◌, ◌++◌}
use apalis_cron_jobs.Core.Request.{Request}
use apalis_cron_jobs.Backend.Channel.{Channel, Poll, ready}
use apalis_cron_jobs.Backend.Queue.{queue}
use apalis_cron_jobs.Backend.Controller
use apalis_cron_jobs.Backend.Poller.{
  BackendStream, Act, polls, unplugs, plugs, items, drain_items, reads, run, drained,
  gate_is_transparent,
}
use apalis_cron_jobs.Backend.Memory.Order
use apalis_cron_jobs.Backend.Memory.Order.{start, repeat, fifo, polls_deliver_all}

abbrev messages : Channel (Request ℕ (Unit {0}))
messages = queue (Request ℕ (Unit {0}))

abbrev message : ℕ → Request ℕ (Unit {0})
message n = record {
  args = n;
  parts = record { task_id = n; attempt = 0; context = tt; namespace = none };
}

abbrev morning : List (Order.Act messages)
morning =
    Order.enqueues true (message 3)
    ∷ Order.enqueues false (message 4)
    ∷ Order.polls
    ∷ Order.dequeues false
    ∷ Order.enqueues false (message 5)
    ∷ []

fifo_example :
    let w = Order.run messages morning (start messages) in
    w.accepted ≡ w.delivered ++ messages.contents w.queue.chan
fifo_example = (fifo messages morning).0

count_up : ℕ → Poll (Option ℕ) × ℕ
count_up n = (ready (some n), suc n)

abbrev stream : BackendStream count_up
stream = record { stream = 0; controller = Controller.new }

abbrev acts : List (Act count_up)
acts = polls ∷ unplugs ∷ polls ∷ plugs ∷ polls ∷ []

gate_is_transparent_example :
    (items count_up acts stream ≡ drain_items count_up (reads count_up acts stream) 0)
    × ((run count_up acts stream).stream ≡ drained count_up (reads count_up acts stream) 0)
gate_is_transparent_example = gate_is_transparent count_up acts stream
