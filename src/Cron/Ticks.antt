-- ===== src/Cron/Ticks.antt =====
-- What becomes of the ticks of a schedule.
use apalis_cron_jobs.Prelude.{
  ℕ, ◌≡◌, refl, sym, ap, ◌∙◌, Bool, true, ◌&&◌, Option, none, some, List, [], ◌∷◌, ◌++◌, All, arith,
  inl, inr, Bool-cases,
}
use mathlib.Core.List.{append-nil}
use apalis_cron_jobs.Prelude.Int.{ℤ, ltb_ℤ, leb_ℤ}
use apalis_cron_jobs.Cron.{
  Schedule, CronStream, Fate, delivered, missed, poll_sleep, poll_next, into_stream,
}

module _ (sched : Schedule) {Req : Type 0} (default : Req) where
  abbrev pub ticks : List (ℤ × Fate × ℤ) → List ℤ
  ticks [] = []
  ticks ((tick, fate, time) ∷ settled) = tick ∷ ticks settled

  abbrev pub waiting : Option ℤ → List ℤ
  waiting none = []
  waiting (some tick) = tick ∷ []

  -- A tick is delivered at its time or later, and missed when it has passed.
  abbrev pub InTime : ℤ × Fate × ℤ → Type 0
  InTime (tick, delivered, time) = leb_ℤ tick time ≡ true
  InTime (tick, missed, time) = ltb_ℤ tick time ≡ true

  record Inv (this : CronStream sched default) : Type 0 where
    kept : this.given ≡ ticks this.settled ++ waiting this.asleep
    in_time : All InTime this.settled

  ticks-append :
      (xs : List (ℤ × Fate × ℤ)) (y : ℤ × Fate × ℤ) → ticks (xs ++ y ∷ []) ≡ ticks xs ++ y.0 ∷ []
  ticks-append [] y = refl
  ticks-append ((tick, fate, time) ∷ xs) y = ap (λ ts. tick ∷ ts) (ticks-append xs y)

  All-append :
      (xs : List (ℤ × Fate × ℤ)) (y : ℤ × Fate × ℤ)
      → All InTime xs
      → InTime y
      → All InTime (xs ++ y ∷ [])
  All-append [] y h k = (k, tt)
  All-append (x ∷ xs) y h k = (h.0, All-append xs y h.1 k)

  settle-Inv :
      (tick time : ℤ) (fate : Fate) (this : CronStream sched default)
      → this.given ≡ ticks this.settled ++ tick ∷ []
      → All InTime this.settled
      → InTime (tick, fate, time)
      → Inv (record this { asleep = none; settled = this.settled ++ (tick, fate, time) ∷ [] })
  settle-Inv tick time fate this kept in_time now = record {
    kept = kept ∙ sym (ticks-append this.settled (tick, fate, time)) ∙ sym (append-nil _);
    in_time = All-append this.settled (tick, fate, time) in_time now;
  }

  sleep-Inv :
      (fresh : ℕ) (now : ℤ) (fired : Bool) (tick : ℤ) (this : CronStream sched default)
      → this.given ≡ ticks this.settled ++ tick ∷ []
      → All InTime this.settled
      → Inv (poll_sleep sched default fresh now fired tick this).1
  unfolding poll_sleep
  sleep-Inv fresh now fired tick this kept in_time = elim (Bool-cases (leb_ℤ tick now && fired)) [
    | inl over ↦
        rw (over, poll_sleep) (settle-Inv tick now delivered this kept in_time (ground arith))
    | inr waits ↦ rw (waits, poll_sleep) (record { kept = kept; in_time = in_time })
  ]

  poll_next-Inv :
      (fresh : ℕ) (now : ℤ) (fired : Bool) (this : CronStream sched default)
      → Inv this
      → Inv (poll_next sched default fresh now fired this).1
  unfolding poll_next
  poll_next-Inv fresh now fired this v = go this.asleep refl (sched.next this.schedule).0 refl
    where
      go :
          (asleep : Option ℤ)
          → this.asleep ≡ asleep
          → (upcoming : Option ℤ) → (sched.next this.schedule).0 ≡ upcoming
          → Inv (poll_next sched default fresh now fired this).1
      go (some tick) e upcoming f =
          rw (e, poll_next)
            (sleep-Inv fresh now fired tick this
              (v.kept ∙ ap (λ o. ticks this.settled ++ waiting o) e) v.in_time)
      go none e none f = rw (e, f, poll_next) (record { kept = v.kept; in_time = v.in_time })
      go none e (some tick) f =
          let more : this.given ++ tick ∷ [] ≡ ticks this.settled ++ tick ∷ [] =
            ap (λ ts. ts ++ tick ∷ [])
              (v.kept ∙ ap (λ o. ticks this.settled ++ waiting o) e ∙ append-nil _) in
          let this' = record this {
            schedule = (sched.next this.schedule).1;
            given = this.given ++ tick ∷ [];
          } in
          elim (Bool-cases (ltb_ℤ tick now)) [
            | inl late ↦
                rw (e, f, late, poll_next)
                  (record {
                    kept =
                        more
                        ∙ sym (ticks-append this.settled (tick, missed, now))
                        ∙ sym (append-nil _)
                        ∙ ap (λ o. ticks (this.settled ++ (tick, missed, now) ∷ []) ++ waiting o)
                            (sym e);
                    in_time = All-append this.settled (tick, missed, now) v.in_time late;
                  })
            | inr ahead ↦
                rw (e, f, ahead, poll_next) (sleep-Inv fresh now fired tick this' more v.in_time)
          ]

  -- Polls one after the other: a fresh id, the clock, and whether a timer has fired.
  pub polls : List (ℕ × ℤ × Bool) → CronStream sched default → CronStream sched default
  polls [] this = this
  polls ((fresh, now, fired) ∷ ps) this = polls ps (poll_next sched default fresh now fired this).1

  polls-Inv :
      (ps : List (ℕ × ℤ × Bool)) (this : CronStream sched default) → Inv this → Inv (polls ps this)
  unfolding polls
  polls-Inv [] this v = v
  polls-Inv ((fresh, now, fired) ∷ ps) this v =
      polls-Inv ps (poll_next sched default fresh now fired this).1
        (poll_next-Inv fresh now fired this v)

  -- After any polls, at any times, the ticks that the schedule has given are those that were settled,
  -- in the same order and once each, and then the one that is slept for, if there is one. A tick was
  -- delivered at its time or later, and missed only when its time had passed.
  pub ticks_are_settled :
      (ps : List (ℕ × ℤ × Bool)) (schedule : sched.State)
      → let this = polls ps (into_stream sched default schedule) in
        (this.given ≡ ticks this.settled ++ waiting this.asleep) × All InTime this.settled
  unfolding into_stream
  ticks_are_settled ps schedule =
      let v =
        polls-Inv ps (into_stream sched default schedule) (record { kept = refl; in_time = tt }) in
      (v.kept, v.in_time)
