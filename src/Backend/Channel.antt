-- ===== src/Backend/Channel.antt =====
-- What the library relies on of the bounded channel of the crate futures (futures::channel::mpsc):
-- messages come out in the order in which they went in, each sender has a slot of its own beside
-- those of the buffer, and a refused message leaves no trace. Senders and receiver are alive.
use apalis_cron_jobs.Prelude.{
  ℕ, ◌≡◌, ◌<◌, ◌≤◌, Bool, true, false, Option, none, some, List, [], ◌∷◌, ◌++◌, length,
}

-- `std::task::Poll`.
pub data Poll {ℓ} (A : Type ℓ) : Type ℓ where
  ready : A → Poll A
  pending : Poll A

pub record Channel (A : Type 0) : Type 1 where
  pub State : Type 0
  pub contents : State → List A
  pub buffer : State → ℕ
  pub channel : ℕ → State
  pub channel_lem : (n : ℕ) → (contents (channel n) ≡ []) × (buffer (channel n) ≡ n)
  -- Whether the message was taken; a fresh sender is a clone that has sent nothing yet.
  pub try_send : (fresh : Bool) → A → State → Bool × State
  pub try_send_taken :
      (fresh : Bool) (a : A) (s : State)
      → (try_send fresh a s).0 ≡ true
      → contents (try_send fresh a s).1 ≡ contents s ++ a ∷ []
  pub try_send_refused :
      (fresh : Bool) (a : A) (s : State)
      → (try_send fresh a s).0 ≡ false
      → contents (try_send fresh a s).1 ≡ contents s
  pub try_send_fresh : (a : A) (s : State) → (try_send true a s).0 ≡ true
  pub try_send_room :
      (fresh : Bool) (a : A) (s : State)
      → length (contents s) < buffer s
      → (try_send fresh a s).0 ≡ true
  pub buffer-try_send :
      (fresh : Bool) (a : A) (s : State) → buffer (try_send fresh a s).1 ≡ buffer s
  -- `poll_next` of the receiver: the first message, or none yet.
  pub next : State → Option A × State
  pub next_empty : (s : State) → contents s ≡ [] → ((next s).0 ≡ none) × (contents (next s).1 ≡ [])
  pub next_first :
      (s : State) (a : A) (rest : List A)
      → contents s ≡ a ∷ rest
      → ((next s).0 ≡ some a) × (contents (next s).1 ≡ rest)
  pub buffer-next : (s : State) → buffer (next s).1 ≡ buffer s
  pub size_hint : State → ℕ
  pub size_hint-le : (s : State) → size_hint s ≤ length (contents s)
