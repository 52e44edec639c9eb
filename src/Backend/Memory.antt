-- ===== src/Backend/Memory.antt =====
-- packages/apalis-core/src/memory.rs and mq/mod.rs: the queue in memory, and what its clones and a
-- worker's stream make of it in any order.
pub mod Order
use apalis_cron_jobs.Prelude.{ℕ, Bool, true, false, Option, none, some}
use apalis_cron_jobs.Prelude.Outcome.{Result, ok, err}
use apalis_cron_jobs.Core.Request.{Request}
use apalis_cron_jobs.Backend.Channel.{Channel, Poll, ready, pending}
use apalis_cron_jobs.Backend.Controller
use apalis_cron_jobs.Backend.Controller.{Controller}
use apalis_cron_jobs.Backend.Poller.{BackendStream}
use apalis_cron_jobs.Backend.Receiver.{Shared, try_send, poll_next, poll_locked, drop_lock}

module _ {Message : Type 0} (C : Channel (Request Message (Unit {0}))) where
  pub record MemoryStorage : Type 0 where
    pub controller : Controller
    pub inner : Shared C

  unfoldable pub new : MemoryStorage
  unfolding Controller.new
  new = record {
    controller = Controller.new;
    inner = record { chan = C.channel 100; held = false; waiting = false };
  }

  -- `fresh`: by a clone that has sent nothing yet.
  unfoldable pub enqueue_request :
      Bool → Request Message (Unit {0}) → Shared C → Result (Unit {0}) (Unit {0}) × Shared C
  unfolding try_send
  enqueue_request fresh req s =
      let (taken, s') = try_send C fresh req s in
      elim taken [ true ↦ (ok tt, s') | false ↦ (err tt, s') ]

  -- A poll of the future that `dequeue_request` returns, and of the one of `dequeue`.
  unfoldable pub dequeue_request :
      Bool → Shared C → Poll (Option (Request Message (Unit {0}))) × Shared C
  unfolding poll_locked
  dequeue_request mine s = poll_locked C mine s

  unfoldable pub dequeue : Bool → Shared C → Poll (Option Message) × Shared C
  unfolding dequeue_request
  dequeue mine s =
      let (answer, s') = dequeue_request mine s in
      elim answer [
        | ready none ↦ (ready none, s')
        | ready (some req) ↦ (ready (some req.args), s')
        | pending ↦ (pending, s')
      ]

  -- Where no one else has the lock.
  unfoldable pub size : Shared C → ℕ
  size s = C.size_hint s.chan

  -- The stream of `poll`: each message is an item of its own, and none is an error.
  unfoldable pub request_stream :
      Shared C → Poll (Option (Option (Request Message (Unit {0})))) × Shared C
  unfolding poll_next
  request_stream s =
      let (answer, s') = poll_next C s in
      elim answer [
        | ready none ↦ (ready none, s')
        | ready (some req) ↦ (ready (some (some req)), s')
        | pending ↦ (pending, s')
      ]

  unfoldable pub poll_stream : MemoryStorage → BackendStream request_stream
  poll_stream storage = record { stream = storage.inner; controller = storage.controller }
