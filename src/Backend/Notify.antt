-- ===== src/Backend/Notify.antt =====
-- packages/apalis-core/src/notify.rs: notifications over a channel, from any clone.
use apalis_cron_jobs.Prelude.{◌≡◌, ap, ◌∙◌, Bool, true, false, Option, List, [], ◌∷◌, ◌++◌, arith}
use apalis_cron_jobs.Prelude.Outcome.{Result, ok, err}
use mathlib.Core.List.{append_assoc}
use apalis_cron_jobs.Backend.Channel.{Channel, Poll}
use apalis_cron_jobs.Backend.Receiver.{Shared, try_send, poll_locked}

module _ {T : Type 0} (C : Channel T) where
  unfoldable pub new : Shared C
  new = record { chan = C.channel 1; held = false; waiting = false }

  -- By a clone of the sender that is made for it; the error gives the value back.
  unfoldable pub notify : T → Shared C → Result T (Unit {0}) × Shared C
  unfolding try_send
  notify value s =
      let (accepts, s') = try_send C true value s in
      elim accepts [ true ↦ (ok tt, s') | false ↦ (err value, s') ]

  -- A poll of the future that `notified` returns, with whether it has the lock already.
  unfoldable pub notified : Bool → Shared C → Poll (Option T) × Shared C
  unfolding poll_locked
  notified mine s = poll_locked C mine s

  unfoldable pub notify_all : List T → Shared C → Shared C
  unfolding notify
  notify_all [] s = s
  notify_all (v ∷ vs) s = notify_all vs (notify v s).1

  pub notify_lem :
      (v : T) (s : Shared C)
      → let (reply, s') = notify v s in
        (reply ≡ ok tt)
        × (C.contents s'.chan ≡ C.contents s.chan ++ v ∷ [])
        × (s'.held ≡ s.held)
        × (s'.waiting ≡ false)
  unfolding notify try_send
  notify_lem v s =
      let fresh = C.try_send_fresh v s.chan in
      ground (arith, fresh, C.try_send_taken true v s.chan fresh)

  -- No notification is refused, however many wait unread, and none is lost or reordered; and none
  -- leaves the receiver's task asleep.
  pub notify_all_lem :
      (vs : List T) (v : T) (s : Shared C)
      → let s' = notify_all vs s in
        ((notify v s').0 ≡ ok tt)
        × (C.contents (notify v s').1.chan ≡ C.contents s.chan ++ (vs ++ v ∷ []))
        × ((notify v s').1.waiting ≡ false)
  unfolding notify_all
  notify_all_lem [] v s = let (reply, there, _, awake) = notify_lem v s in (reply, there, awake)
  notify_all_lem (u ∷ vs) v s =
      let (_, first, _, _) = notify_lem u s in
      let (reply, there, awake) = notify_all_lem vs v (notify u s).1 in
      (
        reply,
        there
            ∙ ap (λ ts. ts ++ (vs ++ v ∷ [])) first
            ∙ append_assoc (C.contents s.chan) (u ∷ []) (vs ++ v ∷ []),
        awake,
      )
