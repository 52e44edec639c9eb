-- ===== src/Backend/Receiver.antt =====
-- packages/apalis-core/src/memory.rs and notify.rs: the receiver of a channel that clones share behind
-- a lock, as both have it.
use apalis_cron_jobs.Prelude.{
  ◌≡◌, refl, Bool, true, false, not, ◌&&◌, Option, none, some, List, [], ◌∷◌, ◌++◌, if◌then◌else◌,
  arith,
}
use apalis_cron_jobs.Backend.Channel.{Channel, Poll, ready, pending}

module _ {A : Type 0} (C : Channel A) where
  -- `held`: a future that waits for a message has the lock. `waiting`: the channel has the waker of
  -- the last task that found it empty.
  pub record Shared : Type 0 where
    pub chan : C.State
    pub held : Bool
    pub waiting : Bool

  -- A send wakes the task whose waker the channel has.
  unfoldable pub try_send : Bool → A → Shared → Bool × Shared
  try_send fresh a s =
      let (taken, chan) = C.try_send fresh a s.chan in
      (taken, record s { chan = chan; waiting = s.waiting && not taken })

  -- The receiver itself is polled.
  unfoldable pub poll_receiver : Shared → Poll (Option A) × Shared
  poll_receiver s =
      let (message, chan) = C.next s.chan in
      elim message [
        | some a ↦ (ready (some a), record s { chan = chan })
        | none ↦ (pending, record s { chan = chan; waiting = true })
      ]

  -- `poll_next` of the wrapper: only with the lock.
  unfoldable pub poll_next : Shared → Poll (Option A) × Shared
  unfolding poll_receiver
  poll_next s = if s.held then (pending, s) else poll_receiver s

  -- A future that takes the lock and waits for a message with it; `mine`: it has the lock already.
  unfoldable pub poll_locked : Bool → Shared → Poll (Option A) × Shared
  unfolding poll_receiver
  poll_locked mine s =
      if s.held && not mine
      then (pending, s)
      else let (answer, s') = poll_receiver s in
        elim answer [
          | ready message ↦ (ready message, record s' { held = false })
          | pending ↦ (pending, record s' { held = true })
        ]

  -- The future is dropped while it has the lock.
  unfoldable pub drop_lock : Shared → Shared
  drop_lock s = record s { held = false }

  -- What a poll takes is the first message; it takes nothing but where it is ready with it.
  abbrev pub taken : Poll (Option A) → List A
  taken (ready (some a)) = a ∷ []
  taken (ready none) = []
  taken pending = []

  pub poll_receiver_lem :
      (s : Shared)
      → let (answer, s') = poll_receiver s in
        (C.contents s.chan ≡ taken answer ++ C.contents s'.chan) × (s'.held ≡ s.held)
  unfolding poll_receiver
  poll_receiver_lem s = first (C.contents s.chan) refl
    where
      first :
          (xs : List A)
          → C.contents s.chan ≡ xs
          → let (answer, s') = poll_receiver s in
            (C.contents s.chan ≡ taken answer ++ C.contents s'.chan) × (s'.held ≡ s.held)
      first [] e = let (nothing, still) = C.next_empty s.chan e in ground arith
      first (a ∷ xs) e = let (head, rest) = C.next_first s.chan a xs e in ground arith
