-- ===== src/Backend/Queue.antt =====
-- A list that is refused a message once it is as long as its buffer, as a channel.
use apalis_cron_jobs.Prelude.{
  ℕ, ◌≡◌, refl, ◌<◌, ◌≤◌, Bool, true, false, ◌||◌, Option, none, some, List, [], ◌∷◌, ◌++◌, length,
  ltb, if◌then◌else◌, arith,
}
use apalis_cron_jobs.Backend.Channel.{Channel}

module _ {A : Type 0} where
  unfoldable pub send : Bool → A → List A × ℕ → Bool × (List A × ℕ)
  send fresh a s =
      if fresh || ltb (length s.0) s.1 then (true, (s.0 ++ a ∷ [], s.1)) else (false, s)

  unfoldable pub receive : List A × ℕ → Option A × (List A × ℕ)
  receive ([], n) = (none, ([], n))
  receive (x ∷ xs, n) = (some x, (xs, n))

  pub send-taken :
      (fresh : Bool) (a : A) (s : List A × ℕ)
      → (send fresh a s).0 ≡ true
      → (send fresh a s).1.0 ≡ s.0 ++ a ∷ []
  unfolding send
  send-taken fresh a s h = ground arith

  pub send-refused :
      (fresh : Bool) (a : A) (s : List A × ℕ)
      → (send fresh a s).0 ≡ false
      → (send fresh a s).1.0 ≡ s.0
  unfolding send
  send-refused fresh a s h = ground arith

  pub send-fresh : (a : A) (s : List A × ℕ) → (send true a s).0 ≡ true
  unfolding send
  send-fresh a s = refl

  pub send-room :
      (fresh : Bool) (a : A) (s : List A × ℕ) → length s.0 < s.1 → (send fresh a s).0 ≡ true
  unfolding send
  send-room fresh a s h = ground arith

  pub send-buffer : (fresh : Bool) (a : A) (s : List A × ℕ) → (send fresh a s).1.1 ≡ s.1
  unfolding send
  send-buffer fresh a s = ground arith

  pub receive_empty : (s : List A × ℕ) → s.0 ≡ [] → ((receive s).0 ≡ none) × ((receive s).1.0 ≡ [])
  unfolding receive
  receive_empty ([], n) h = (refl, refl)
  receive_empty (x ∷ xs, n) h = cc

  pub receive_first :
      (s : List A × ℕ) (a : A) (rest : List A)
      → s.0 ≡ a ∷ rest
      → ((receive s).0 ≡ some a) × ((receive s).1.0 ≡ rest)
  unfolding receive
  receive_first ([], n) a rest h = cc
  receive_first (x ∷ xs, n) a rest h = (ground arith, ground arith)

  pub receive-buffer : (s : List A × ℕ) → (receive s).1.1 ≡ s.1
  unfolding receive
  receive-buffer ([], n) = refl
  receive-buffer (x ∷ xs, n) = refl

  pub zero-le : (s : List A × ℕ) → 0 ≤ length s.0
  zero-le s = omega arith

unfoldable pub queue : (A : Type 0) → Channel A
unfolding send receive
queue A = record {
  State = List A × ℕ;
  contents = λ s. s.0;
  buffer = λ s. s.1;
  channel = λ n. ([], n);
  channel_lem = λ n. (refl, refl);
  try_send = send;
  try_send_taken = send-taken;
  try_send_refused = send-refused;
  try_send_fresh = send-fresh;
  try_send_room = send-room;
  buffer-try_send = send-buffer;
  next = receive;
  next_empty = receive_empty;
  next_first = receive_first;
  buffer-next = receive-buffer;
  size_hint = λ s. 0;
  size_hint-le = zero-le;
}
