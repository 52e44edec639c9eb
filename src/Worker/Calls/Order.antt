-- ===== src/Worker/Calls/Order.antt =====
-- Each request is called once and in order, each call is answered once, and the loop returns.
use apalis_cron_jobs.Prelude.{
  ℕ, zero, suc, ◌+◌, ◌≡◌, refl, sym, ap, ◌∙◌, ◌≤◌, true, Option, none, some, List, [], ◌∷◌, length,
  arith, ◌⊎◌, inl, inr,
}
use apalis_cron_jobs.Prelude.Outcome.{Result}
use apalis_cron_jobs.Backend.Channel.{Poll, ready}
use apalis_cron_jobs.Worker.Calls.{Driver, CallAll, Turn, returns, continues, turn, poll_next, new}
use apalis_cron_jobs.Worker.Calls.Turns.{Inv, turn-Does}

module _ {Req Res E : Type 0} (D : Driver Req Res E) where
  -- The first turn that returns ends the poll.
  poll_returns :
      (fuel : ℕ) (this : CallAll D) {p : Poll (Option (Result E Res))}
      → (turn D this).0 ≡ returns p
      → poll_next D (suc fuel) this ≡ (some p, (turn D this).1)
  unfolding poll_next
  poll_returns fuel this e = rw (e, poll_next) refl

  poll_continues :
      (fuel : ℕ) (this : CallAll D)
      → (turn D this).0 ≡ continues
      → poll_next D (suc fuel) this ≡ poll_next D fuel (turn D this).1
  unfolding poll_next
  poll_continues fuel this e = rw (e, poll_next) refl

  Turn-cases :
      (t : Turn D) → ((p : Poll (Option (Result E Res))) × (t ≡ returns p)) ⊎ (t ≡ continues)
  Turn-cases (returns p) = inl (p, refl)
  Turn-cases continues = inr refl

  poll_zero : (this : CallAll D) → poll_next D zero this ≡ (none, this)
  unfolding poll_next
  poll_zero this = refl

  poll-Inv : (fuel : ℕ) (this : CallAll D) → Inv D this → Inv D (poll_next D fuel this).1
  poll-Inv zero this v = rw (poll_zero this) v
  poll-Inv (suc fuel) this v =
      let d = turn-Does D this v in
      elim (Turn-cases (turn D this).0) [
        | inl (p, e) ↦ rw (poll_returns fuel this e) d.inv
        | inr e ↦ rw (poll_continues fuel this e) (poll-Inv fuel (turn D this).1 d.inv)
      ]

  poll-enough :
      (fuel : ℕ) (this : CallAll D)
      → Inv D this
      → D.backlog this.stream + 2 ≤ fuel
      → (p : Poll (Option (Result E Res))) × ((poll_next D fuel this).0 ≡ some p)
  poll-enough zero this v enough = absurd (omega arith)
  poll-enough (suc fuel) this v enough =
      let d = turn-Does D this v in
      elim (Turn-cases (turn D this).0) [
        | inl (p, e) ↦ (p, ap (λ x. x.0) (poll_returns fuel this e))
        | inr e ↦ elim (d.less e) [
          | inr less ↦
              let (p, k) = poll-enough fuel (turn D this).1 d.inv (omega arith) in
              (p, ap (λ x. x.0) (poll_continues fuel this e) ∙ k)
          | inl ended ↦
              let last = (turn D this).1 in
              elim (Turn-cases (turn D last).0) [
                | inl (p, f) ↦ (
                  p,
                  ap (λ x. x.0) (poll_continues fuel this e) ∙ after fuel last f (omega arith),
                )
                | inr f ↦ absurd (((turn-Does D last d.inv).ended ended).2 f)
              ]
        ]
      ]
    where
      after :
          (fuel : ℕ) (last : CallAll D) {p : Poll (Option (Result E Res))}
          → (turn D last).0 ≡ returns p
          → 1 ≤ fuel
          → (poll_next D fuel last).0 ≡ some p
      after zero last f h = absurd (omega arith)
      after (suc fuel) last f h = ap (λ x. x.0) (poll_returns fuel last f)

  poll-ended :
      (fuel : ℕ) (this : CallAll D)
      → Inv D this
      → this.eof ≡ true
      → (poll_next D fuel this).1.called ≡ this.called
  poll-ended zero this v end = ap (λ x. x.1.called) (poll_zero this)
  poll-ended (suc fuel) this v end =
      let (still, same, stops) = (turn-Does D this v).ended end in
      elim (Turn-cases (turn D this).0) [
        | inl (p, e) ↦ ap (λ x. x.1.called) (poll_returns fuel this e) ∙ same
        | inr e ↦ absurd (stops e)
      ]

  poll-over :
      (fuel : ℕ) (this : CallAll D)
      → Inv D this
      → (poll_next D fuel this).0 ≡ some (ready none)
      → ((poll_next D fuel this).1.eof ≡ true) × (D.size (poll_next D fuel this).1.queue ≡ 0)
  poll-over zero this v h = cc (poll_zero this)
  poll-over (suc fuel) this v h =
      let d = turn-Does D this v in
      elim (Turn-cases (turn D this).0) [
        | inl (p, e) ↦
            let stopped = poll_returns fuel this e in
            let (end, empty) = d.over (cc (stopped, h)) in
            (ap (λ x. x.1.eof) stopped ∙ end, ap (λ x. D.size x.1.queue) stopped ∙ empty)
        | inr e ↦
            let on = poll_continues fuel this e in
            let (end, empty) = poll-over fuel (turn D this).1 d.inv (sym (ap (λ x. x.0) on) ∙ h) in
            (ap (λ x. x.1.eof) on ∙ end, ap (λ x. D.size x.1.queue) on ∙ empty)
      ]

  -- Polls one after the other, each with its fuel.
  unfoldable pub run_polls : List ℕ → CallAll D → CallAll D
  run_polls [] this = this
  run_polls (fuel ∷ fuels) this = run_polls fuels (poll_next D fuel this).1

  run-Inv : (fuels : List ℕ) (this : CallAll D) → Inv D this → Inv D (run_polls fuels this)
  unfolding run_polls
  run-Inv [] this v = v
  run-Inv (fuel ∷ fuels) this v = run-Inv fuels (poll_next D fuel this).1 (poll-Inv fuel this v)

  new-Inv : (s : D.Svc) (t : D.Stm) (q : D.Que) → D.size q ≡ 0 → Inv D (new D s t q)
  unfolding new
  new-Inv s t q empty = record { same = refl; idle = refl; count = omega (arith, empty) }

  -- After any polls, of a stream that began without running calls: the service was called with
  -- exactly the requests that the stream has given, in order and once each; every call is running or
  -- has been answered, once; after the end no poll calls anything more; and the stream says that it
  -- is over only when every call has been answered.
  pub calls_in_order :
      (fuels : List ℕ) (s : D.Svc) (t : D.Stm) (q : D.Que)
      → D.size q ≡ 0
      → let this = run_polls fuels (new D s t q) in
        (this.called ≡ this.received)
        × (length this.called ≡ this.answers + D.size this.queue)
        × ((fuel : ℕ) → this.eof ≡ true → (poll_next D fuel this).1.called ≡ this.called)
        × ((fuel : ℕ)
            → (poll_next D fuel this).0 ≡ some (ready none)
            → let last = (poll_next D fuel this).1 in length last.called ≡ last.answers)
  calls_in_order fuels s t q empty =
      let this = run_polls fuels (new D s t q) in
      let v = run-Inv fuels (new D s t q) (new-Inv s t q empty) in
      (
        v.same,
        v.count,
        λ fuel end. poll-ended fuel this v end,
        λ fuel over.
            let w = poll-Inv fuel this v in
            let (_, gone) = poll-over fuel this v over in omega (arith, w.count, gone),
      )

  -- After any polls, a poll returns within two turns more than the stream has requests ready.
  pub poll_next_returns :
      (fuels : List ℕ) (fuel : ℕ) (s : D.Svc) (t : D.Stm) (q : D.Que)
      → D.size q ≡ 0
      → D.backlog (run_polls fuels (new D s t q)).stream + 2 ≤ fuel
      → (p : Poll (Option (Result E Res))) × ((poll_next D fuel (run_polls fuels (new D s t q))).0
          ≡ some p)
  poll_next_returns fuels fuel s t q empty enough =
      poll-enough fuel (run_polls fuels (new D s t q))
        (run-Inv fuels (new D s t q) (new-Inv s t q empty)) enough
