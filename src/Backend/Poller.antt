-- ===== src/Backend/Poller.antt =====
-- packages/apalis-core/src/poller/stream.rs: the stream that a controller gates. The stream inside is
-- a step on a state.
use apalis_cron_jobs.Prelude.{
  ℕ, zero, suc, ◌≡◌, refl, ap, ◌∙◌, Bool, true, false, Option, none, some, List, [], ◌∷◌, ◌++◌,
  ◌==◌, if◌then◌else◌, Bool-cases, inl, inr,
}
use apalis_cron_jobs.Backend.Channel.{Poll, ready, pending}
use apalis_cron_jobs.Backend.Controller
use apalis_cron_jobs.Backend.Controller.{Controller, plugged, stopped, is_plugged, is_stopped}

module _ {S T : Type 0} (inner : S → Poll (Option T) × S) where
  pub record BackendStream : Type 0 where
    pub stream : S
    pub controller : Controller

  -- The three answers of the stream inside are passed on as they are.
  pub poll_next : BackendStream → Poll (Option T) × BackendStream
  unfolding is_plugged is_stopped
  poll_next this =
      if is_plugged this.controller
      then ((inner this.stream).0, record this { stream = (inner this.stream).1 })
      else if is_stopped this.controller
      then (ready none, this)
      else (pending, this)

  pub is_terminated : BackendStream → Bool
  is_terminated this = this.controller.state == stopped

  -- What may happen to a stream: it is polled, or a holder of the controller turns it.
  pub data Act : Type 0 where
    polls plugs unplugs stops : Act

  pub act : Act → BackendStream → BackendStream
  unfolding poll_next Controller.plug Controller.unplug Controller.stop
  act polls this = (poll_next this).1
  act plugs this = record this { controller = Controller.plug this.controller }
  act unplugs this = record this { controller = Controller.unplug this.controller }
  act stops this = record this { controller = Controller.stop this.controller }

  yielded : Poll (Option T) → List T
  yielded (ready (some t)) = t ∷ []
  yielded (ready none) = []
  yielded pending = []

  -- The items of a sequence of acts.
  pub items : List Act → BackendStream → List T
  unfolding yielded act poll_next
  items [] this = []
  items (polls ∷ acts) this = yielded (poll_next this).0 ++ items acts (act polls this)
  items (plugs ∷ acts) this = items acts (act plugs this)
  items (unplugs ∷ acts) this = items acts (act unplugs this)
  items (stops ∷ acts) this = items acts (act stops this)

  -- The state after a sequence of acts.
  pub run : List Act → BackendStream → BackendStream
  run [] this = this
  run (a ∷ acts) this = run acts (act a this)

  -- The stream inside by itself, polled so many times: its items and its state.
  pub drain_items : ℕ → S → List T
  unfolding yielded
  drain_items zero s = []
  drain_items (suc n) s = yielded (inner s).0 ++ drain_items n (inner s).1

  pub drained : ℕ → S → S
  drained zero s = s
  drained (suc n) s = drained n (inner s).1

  -- How many polls of a sequence of acts find the stream plugged in.
  pub reads : List Act → BackendStream → ℕ
  unfolding act poll_next is_plugged
  reads [] this = 0
  reads (polls ∷ acts) this =
      let rest = reads acts (act polls this) in
      if is_plugged this.controller then suc rest else rest
  reads (plugs ∷ acts) this = reads acts (act plugs this)
  reads (unplugs ∷ acts) this = reads acts (act unplugs this)
  reads (stops ∷ acts) this = reads acts (act stops this)

  poll_plugged :
      (this : BackendStream)
      → is_plugged this.controller ≡ true
      → ((poll_next this).0 ≡ (inner this.stream).0)
        × (act polls this ≡ record this { stream = (inner this.stream).1 })
  unfolding poll_next act
  poll_plugged this h = (ap (λ x. x.0) through, ap (λ x. x.1) through)
    where
      through :
          poll_next this ≡ ((inner this.stream).0, record this { stream = (inner this.stream).1 })
      through = rw (h, poll_next) refl

  poll_shut :
      (this : BackendStream)
      → is_plugged this.controller ≡ false
      → (yielded (poll_next this).0 ≡ []) × (act polls this ≡ this)
  unfolding poll_next yielded act
  poll_shut this h = elim (Bool-cases (is_stopped this.controller)) [
    | inl over ↦
        let still : poll_next this ≡ (ready none, this) = rw (h, over, poll_next) refl in
        (ap (λ x. yielded x.0) still, ap (λ x. x.1) still)
    | inr waits ↦
        let still : poll_next this ≡ (pending, this) = rw (h, waits, poll_next) refl in
        (ap (λ x. yielded x.0) still, ap (λ x. x.1) still)
  ]

  -- Whatever is done with the controller between the polls, the gate neither loses, nor repeats, nor
  -- reorders an item: the items are those of the stream inside, polled as often as a poll found the
  -- gate plugged in, and the stream inside is left where that leaves it.
  pub gate_is_transparent :
      (acts : List Act) (this : BackendStream)
      → (items acts this ≡ drain_items (reads acts this) this.stream)
        × ((run acts this).stream ≡ drained (reads acts this) this.stream)
  unfolding items run reads drain_items drained
  gate_is_transparent [] this = (refl, refl)
  gate_is_transparent (polls ∷ acts) this = elim (Bool-cases (is_plugged this.controller)) [
    | inl through ↦
        let (answer, moved) = poll_plugged this through in
        let (same, left) =
          gate_is_transparent acts (record this { stream = (inner this.stream).1 }) in
        rw (answer, moved, through)
          (
            ap (λ ts. yielded (inner this.stream).0 ++ ts) same,
            ap (λ t. (run acts t).stream) moved ∙ left,
          )
    | inr shut ↦
        let (nothing, still) = poll_shut this shut in
        let (same, left) = gate_is_transparent acts this in
        rw (nothing, still, shut) (same, ap (λ t. (run acts t).stream) still ∙ left)
  ]
  gate_is_transparent (plugs ∷ acts) this = gate_is_transparent acts (act plugs this)
  gate_is_transparent (unplugs ∷ acts) this = gate_is_transparent acts (act unplugs this)
  gate_is_transparent (stops ∷ acts) this = gate_is_transparent acts (act stops this)
