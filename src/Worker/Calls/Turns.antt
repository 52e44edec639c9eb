-- ===== src/Worker/Calls/Turns.antt =====
-- What a turn of the loop does: the invariant, the end, and the progress.
use apalis_cron_jobs.Prelude.{
  suc, ◌+◌, ◌≡◌, ◌≢◌, refl, sym, subst, ap, true, false, Option, none, some, [], ◌∷◌, ◌++◌, ◌==◌,
  length, arith, length-append, ◌⊎◌, inl, inr, Bool-cases,
}
use apalis_cron_jobs.Prelude.Outcome.{Result, ok, err}
use apalis_cron_jobs.Backend.Channel.{Poll, ready, pending}
use apalis_cron_jobs.Worker.Calls.{
  Driver, CallAll, Turn, returns, continues, push_call, gather, ask_service, go_on, turn,
}

module _ {Req Res E : Type 0} (D : Driver Req Res E) where
  -- Between two turns no request is stored.
  pub record Inv (this : CallAll D) : Type 0 where
    pub same : this.called ≡ this.received
    pub idle : this.curr_req ≡ none
    pub count : length this.called ≡ this.answers + D.size this.queue

  -- What a turn does from a state: it keeps the invariant; once the requests have ended, it reads
  -- and calls nothing more and returns; it says that all is over only at the end; and where it goes
  -- on, the backlog has become smaller or the requests have ended.
  pub record Does (this : CallAll D) (turned : Turn D × CallAll D) : Type 0 where
    pub inv : Inv turned.1
    pub ended :
        this.eof ≡ true
        → (turned.1.eof ≡ true) × (turned.1.called ≡ this.called) × (turned.0 ≢ continues)
    pub over : turned.0 ≡ returns (ready none) → (turned.1.eof ≡ true) × (D.size turned.1.queue ≡ 0)
    pub less :
        turned.0 ≡ continues
        → (turned.1.eof ≡ true) ⊎ (D.backlog this.stream ≡ suc (D.backlog turned.1.stream))

  push-Inv :
      (req : Req) (this : CallAll D)
      → length this.called ≡ this.answers + D.size this.queue
      → this.called ++ req ∷ [] ≡ this.received
      → Inv (push_call D req this).1
  unfolding push_call
  push-Inv req this count same = record {
    same = same;
    idle = refl;
    count = omega (
      arith,
      count,
      length-append this.called (req ∷ []),
      D.size-call req this.service this.queue,
    );
  }

  gather-Does : (this : CallAll D) → this.eof ≡ false → Inv this → Does this (gather D this)
  unfolding gather push_call
  gather-Does this open_end v = go (D.poll_stream this.stream).0 refl
    where
      go :
          (answer : Poll (Option Req))
          → (D.poll_stream this.stream).0 ≡ answer
          → Does this (gather D this)
      go pending e =
          rw (v.idle, e, gather)
            (record {
              inv = record { same = v.same; idle = v.idle; count = v.count };
              ended = λ h. cc;
              over = λ h. cc;
              less = λ h. cc;
            })
      go (ready none) e =
          rw (v.idle, e, gather)
            (record {
              inv = record { same = v.same; idle = v.idle; count = v.count };
              ended = λ h. cc;
              over = λ h. cc;
              less = λ h. inl refl;
            })
      go (ready (some req)) e =
          rw (v.idle, e, gather)
            (record {
              inv =
                  push-Inv req
                    (record this {
                      stream = (D.poll_stream this.stream).1;
                      received = this.received ++ req ∷ [];
                    })
                    v.count (ap (λ reqs. reqs ++ req ∷ []) v.same);
              ended = λ h. cc;
              over = λ h. cc;
              less = λ h. inr (D.given this.stream req e);
            })

  ask-Does : (this : CallAll D) → this.eof ≡ false → Inv this → Does this (ask_service D this)
  unfolding ask_service
  ask-Does this open_end v = go (D.poll_ready this.service).0 refl
    where
      asked : CallAll D
      asked = record this { service = (D.poll_ready this.service).1 }

      asked-Inv : Inv asked
      asked-Inv = record { same = v.same; idle = v.idle; count = v.count }

      go :
          (answer : Poll (Result E (Unit {0})))
          → (D.poll_ready this.service).0 ≡ answer
          → Does this (ask_service D this)
      go pending e =
          rw (e, ask_service)
            (record { inv = asked-Inv; ended = λ h. cc; over = λ h. cc; less = λ h. cc })
      go (ready (err x)) e =
          rw (e, ask_service)
            (record {
              inv = record { same = v.same; idle = v.idle; count = v.count };
              ended = λ h. cc;
              over = λ h. cc;
              less = λ h. cc;
            })
      go (ready (ok u)) e =
          let d = gather-Does asked open_end asked-Inv in
          rw (e, ask_service)
            (record { inv = d.inv; ended = λ h. cc; over = d.over; less = d.less })

  go_on-Does : (this : CallAll D) → Inv this → Does this (go_on D this)
  unfolding go_on
  go_on-Does this v = elim (Bool-cases this.eof) [
    | inr open_end ↦
        let asks : go_on D this ≡ ask_service D this = rw (open_end, go_on) refl in
        subst (Does this) (sym asks) (ask-Does this open_end v)
    | inl ended ↦ elim (Bool-cases (D.size this.queue == 0)) [
      | inl empty ↦
          rw (ended, empty, go_on)
            (record {
              inv = record { same = v.same; idle = v.idle; count = v.count };
              ended = λ h. (refl, refl, λ h. cc);
              over = λ h. (refl, ground arith);
              less = λ h. cc;
            })
      | inr busy ↦
          rw (ended, busy, go_on)
            (record {
              inv = record { same = v.same; idle = v.idle; count = v.count };
              ended = λ h. (refl, refl, λ h. cc);
              over = λ h. cc;
              less = λ h. cc;
            })
    ]
  ]

  pub turn-Does : (this : CallAll D) → Inv this → Does this (turn D this)
  unfolding turn
  turn-Does this v = go (D.poll_queue this.queue).0 refl
    where
      polled : CallAll D
      polled = record this { queue = (D.poll_queue this.queue).1 }

      on : D.size (D.poll_queue this.queue).1 ≡ D.size this.queue → Does this (go_on D polled)
      on same =
          let d =
            go_on-Does polled
              (record { same = v.same; idle = v.idle; count = omega (arith, v.count, same) }) in
          record { inv = d.inv; ended = d.ended; over = d.over; less = d.less }

      go :
          (answer : Poll (Option (Result E Res)))
          → (D.poll_queue this.queue).0 ≡ answer
          → Does this (turn D this)
      go pending e = rw (e, turn) (on (D.waits this.queue e).1)
      go (ready none) e =
          let (empty, still) = D.exhausted this.queue e in
          rw (e, turn) (on (omega (arith, empty, still)))
      go (ready (some answer)) e =
          rw (e, turn)
            (record {
              inv = record {
                same = v.same;
                idle = v.idle;
                count = omega (arith, v.count, D.answered this.queue answer e);
              };
              ended = λ h. (h, refl, λ h. cc);
              over = λ h. cc;
              less = λ h. cc;
            })
