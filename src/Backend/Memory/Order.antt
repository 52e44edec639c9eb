-- ===== src/Backend/Memory/Order.antt =====
-- The order of the messages in memory, over all that the clones of a storage do with it.
use apalis_cron_jobs.Prelude.{
  ℕ, zero, suc, ◌≡◌, refl, sym, ap, ◌∙◌, ◌≤◌, ◌<◌, Bool, false, not, ◌&&◌, List, [], ◌∷◌, ◌++◌,
  length, if◌then◌else◌, arith, inl, inr, Bool-cases,
}
use apalis_cron_jobs.Prelude.Outcome.{err, is_ok}
use mathlib.Core.List.{append_assoc, append-nil}
use apalis_cron_jobs.Core.Request.{Request}
use apalis_cron_jobs.Backend.Channel.{Channel}
use apalis_cron_jobs.Backend.Receiver.{
  Shared, try_send, poll_receiver, poll_next, poll_locked, drop_lock, taken, poll_receiver_lem,
}
use apalis_cron_jobs.Backend.Memory.{new, enqueue_request, dequeue_request}

module _ {Message : Type 0} (C : Channel (Request Message (Unit {0}))) where
  -- What may happen to the queue: a push, a poll of a stream or of a dequeue, the end of a dequeue.
  pub data Act : Type 0 where
    enqueues : (fresh : Bool) → Request Message (Unit {0}) → Act
    polls : Act
    dequeues : (mine : Bool) → Act
    drops : Act

  -- The queue with the messages that it has taken and those that it has given out.
  pub record World : Type 0 where
    pub queue : Shared C
    pub accepted : List (Request Message (Unit {0}))
    pub delivered : List (Request Message (Unit {0}))

  unfoldable pub act : Act → World → World
  unfolding enqueue_request poll_next dequeue_request drop_lock
  act (enqueues fresh req) w =
      let (reply, s) = enqueue_request C fresh req w.queue in
      record w { queue = s; accepted = if is_ok reply then w.accepted ++ req ∷ [] else w.accepted }
  act polls w =
      let (answer, s) = poll_next C w.queue in
      record w { queue = s; delivered = w.delivered ++ taken C answer }
  act (dequeues mine) w =
      let (answer, s) = dequeue_request C mine w.queue in
      record w { queue = s; delivered = w.delivered ++ taken C answer }
  act drops w = record w { queue = drop_lock C w.queue }

  unfoldable pub run : List Act → World → World
  run [] w = w
  run (a ∷ acts) w = run acts (act a w)

  unfoldable pub start : World
  start = record { queue = (new C).inner; accepted = []; delivered = [] }

  Kept : World → Type 0
  Kept w = w.accepted ≡ w.delivered ++ C.contents w.queue.chan

  poll_next-Kept :
      (s : Shared C)
      → let (answer, s') = poll_next C s in C.contents s.chan ≡ taken C answer ++ C.contents s'.chan
  unfolding poll_next
  poll_next-Kept s = elim (Bool-cases s.held) [
    | inl other ↦ ground arith
    | inr free ↦ ground (arith, poll_receiver_lem C s)
  ]

  poll_locked-Kept :
      (mine : Bool) (s : Shared C)
      → let (answer, s') = poll_locked C mine s in
        C.contents s.chan ≡ taken C answer ++ C.contents s'.chan
  unfolding poll_locked
  poll_locked-Kept mine s = elim (Bool-cases (s.held && not mine)) [
    | inl other ↦ ground arith
    | inr free ↦ ground (arith, poll_receiver_lem C s)
  ]

  enqueue_request_lem :
      (fresh : Bool) (req : Request Message (Unit {0})) (s : Shared C)
      → let (reply, s') = enqueue_request C fresh req s in
        (is_ok reply ≡ (C.try_send fresh req s.chan).0)
        × (s'.chan ≡ (C.try_send fresh req s.chan).1)
  unfolding enqueue_request try_send
  enqueue_request_lem fresh req s = elim (Bool-cases (C.try_send fresh req s.chan).0) [
    | inl accepts ↦ ground arith
    | inr refuses ↦ ground arith
  ]

  act-Kept : (a : Act) (w : World) → Kept w → Kept (act a w)
  unfolding act Kept dequeue_request drop_lock
  act-Kept (enqueues fresh req) w k =
      let (replies, moved) = enqueue_request_lem fresh req w.queue in
      elim (Bool-cases (C.try_send fresh req w.queue.chan).0) [
        | inl accepts ↦
            rw (replies, moved, accepts, C.try_send_taken fresh req w.queue.chan accepts)
              (ap (λ reqs. reqs ++ req ∷ []) k ∙ append_assoc w.delivered _ (req ∷ []))
        | inr refuses ↦
            rw (replies, moved, refuses, C.try_send_refused fresh req w.queue.chan refuses) k
      ]
  act-Kept polls w k =
      k
      ∙ ap (λ reqs. w.delivered ++ reqs) (poll_next-Kept w.queue)
      ∙ sym (append_assoc w.delivered _ _)
  act-Kept (dequeues mine) w k =
      k
      ∙ ap (λ reqs. w.delivered ++ reqs) (poll_locked-Kept mine w.queue)
      ∙ sym (append_assoc w.delivered _ _)
  act-Kept drops w k = k

  run-Kept : (acts : List Act) (w : World) → Kept w → Kept (run acts w)
  unfolding run
  run-Kept [] w k = k
  run-Kept (a ∷ acts) w k = run-Kept acts (act a w) (act-Kept a w k)

  act-buffer : (a : Act) (w : World) → C.buffer (act a w).queue.chan ≡ C.buffer w.queue.chan
  unfolding act poll_next poll_receiver dequeue_request poll_locked drop_lock
  act-buffer (enqueues fresh req) w =
      ap C.buffer (enqueue_request_lem fresh req w.queue).1
      ∙ C.buffer-try_send fresh req w.queue.chan
  act-buffer polls w = ground (arith, C.buffer-next w.queue.chan)
  act-buffer (dequeues mine) w = ground (arith, C.buffer-next w.queue.chan)
  act-buffer drops w = refl

  run-buffer :
      (acts : List Act) (w : World) → C.buffer (run acts w).queue.chan ≡ C.buffer w.queue.chan
  unfolding run
  run-buffer [] w = refl
  run-buffer (a ∷ acts) w = run-buffer acts (act a w) ∙ act-buffer a w

  refused_full :
      (acts : List Act) (fresh : Bool) (req : Request Message (Unit {0}))
      → (enqueue_request C fresh req (run acts start).queue).0 ≡ err tt
      → (100 ≤ length (C.contents (run acts start).queue.chan)) × (fresh ≡ false)
  unfolding start new enqueue_request try_send
  refused_full acts fresh req h =
      let s = (run acts start).queue.chan in
      let size : C.buffer s ≡ 100 = run-buffer acts start ∙ (C.channel_lem 100).1 in
      ground (
        arith,
        λ (room : length (C.contents s) < 100). C.try_send_room fresh req s (omega (arith, size)),
        C.try_send_fresh req s,
      )

  -- Whatever the clones of a new storage do, in any order, the messages that were accepted are those
  -- given out, in the same order and each once, and then those still in the channel; and a push is
  -- refused only while at least 100 messages are in the channel, and never on a clone that has
  -- sent nothing yet.
  pub fifo :
      (acts : List Act)
      → let w = run acts start in
        (w.accepted ≡ w.delivered ++ C.contents w.queue.chan)
        × ((fresh : Bool) (req : Request Message (Unit {0}))
            → (enqueue_request C fresh req w.queue).0 ≡ err tt
            → (100 ≤ length (C.contents w.queue.chan)) × (fresh ≡ false))
  unfolding start Kept new
  fifo acts = (run-Kept acts start (sym ((C.channel_lem 100).0)), refused_full acts)

  pub repeat : ℕ → List Act
  repeat zero = []
  repeat (suc n) = polls ∷ repeat n

  polled :
      (x : Request Message (Unit {0})) (xs : List (Request Message (Unit {0}))) (w : World)
      → C.contents w.queue.chan ≡ x ∷ xs
      → w.queue.held ≡ false
      → let w' = act polls w in
        (C.contents w'.queue.chan ≡ xs)
        × (w'.queue.held ≡ false)
        × (w'.delivered ≡ w.delivered ++ x ∷ [])
  unfolding act poll_next poll_receiver
  polled x xs w e free = let (head, rest) = C.next_first w.queue.chan x xs e in ground arith

  -- As many polls as there are messages give out all of them, where no dequeue has the lock: then
  -- all that was accepted has been delivered.
  pub polls_deliver_all :
      (acts : List Act)
      → let w = run acts start in
        w.queue.held ≡ false
        → (run (repeat (length (C.contents w.queue.chan))) w).delivered ≡ w.accepted
  unfolding start Kept new run repeat
  polls_deliver_all acts free =
      let w = run acts start in
      deliver (C.contents w.queue.chan) w refl free
      ∙ sym (run-Kept acts start (sym ((C.channel_lem 100).0)))
    where
      deliver :
          (xs : List (Request Message (Unit {0}))) (w : World)
          → C.contents w.queue.chan ≡ xs
          → w.queue.held ≡ false
          → (run (repeat (length xs)) w).delivered ≡ w.delivered ++ xs
      deliver [] w e free = sym (append-nil w.delivered)
      deliver (x ∷ xs) w e free =
          let (rest, free', more) = polled x xs w e free in
          deliver xs (act polls w) rest free'
          ∙ ap (λ reqs. reqs ++ xs) more
          ∙ append_assoc w.delivered (x ∷ []) xs
