-- ===== src/Worker/Calls.antt =====
-- packages/apalis-core/src/worker/call_all.rs: the stream that calls a service with each request of
-- another stream. The service, that stream and the set of running calls are interfaces.
pub mod Turns
pub mod Order
pub mod Examples
use apalis_cron_jobs.Prelude.{
  ℕ, zero, suc, ◌≡◌, ◌<◌, Bool, true, false, Option, none, some, List, [], ◌∷◌, ◌++◌, ◌==◌,
  if◌then◌else◌,
}
use apalis_cron_jobs.Prelude.Outcome.{Result, ok, err}
use apalis_cron_jobs.Backend.Channel.{Poll, ready, pending}

-- `size` is the number of running calls, of which a poll of `FuturesUnordered` takes the answer of one
-- that is ready, if there is one. `backlog` is how many requests the stream can give without being
-- woken.
pub record Driver (Req Res E : Type 0) : Type 1 where
  pub Svc : Type 0
  pub Stm : Type 0
  pub Que : Type 0
  pub poll_ready : Svc → Poll (Result E (Unit {0})) × Svc
  pub call : Req → Svc × Que → Svc × Que
  pub poll_stream : Stm → Poll (Option Req) × Stm
  pub poll_queue : Que → Poll (Option (Result E Res)) × Que
  pub size : Que → ℕ
  pub size-call : (r : Req) (s : Svc) (q : Que) → size (call r (s, q)).1 ≡ suc (size q)
  pub answered :
      (q : Que) (a : Result E Res)
      → (poll_queue q).0 ≡ ready (some a)
      → size q ≡ suc (size (poll_queue q).1)
  pub exhausted :
      (q : Que) → (poll_queue q).0 ≡ ready none → (size q ≡ 0) × (size (poll_queue q).1 ≡ 0)
  pub waits :
      (q : Que) → (poll_queue q).0 ≡ pending → (0 < size q) × (size (poll_queue q).1 ≡ size q)
  pub backlog : Stm → ℕ
  pub given :
      (s : Stm) (r : Req)
      → (poll_stream s).0 ≡ ready (some r)
      → backlog s ≡ suc (backlog (poll_stream s).1)

module _ {Req Res E : Type 0} (D : Driver Req Res E) where
  open D use {Svc, Stm, Que, poll_ready, call, poll_stream, poll_queue, size}

  -- Beside the fields, what the stream has given, what the service was called with, and the answers
  -- that were taken from the running calls.
  pub record CallAll : Type 0 where
    pub service : Svc
    pub stream : Stm
    pub queue : Que
    pub eof : Bool
    pub curr_req : Option Req
    pub received : List Req
    pub called : List Req
    pub answers : ℕ

  -- What a turn of the loop comes to.
  pub data Turn : Type 0 where
    returns : Poll (Option (Result E Res)) → Turn
    continues : Turn

  -- `queue.push(svc.call(req))`.
  pub push_call : Req → CallAll → Turn × CallAll
  push_call req this =
      let started = call req (this.service, this.queue) in
      (
        continues,
        record this {
          service = started.0;
          queue = started.1;
          curr_req = none;
          called = this.called ++ req ∷ [];
        },
      )

  -- The part of a turn from the stored request on, with the service ready.
  pub gather : CallAll → Turn × CallAll
  unfolding push_call
  gather this = elim this.curr_req [
    | some req ↦ push_call req this
    | none ↦
        let polled = poll_stream this.stream in
        let this' = record this { stream = polled.1 } in
        elim polled.0 [
          | pending ↦ (returns pending, this')
          | ready none ↦ (continues, record this' { eof = true })
          | ready (some req) ↦ push_call req (record this' { received = this.received ++ req ∷ [] })
        ]
  ]

  -- The part of a turn after the answers, while requests may come.
  pub ask_service : CallAll → Turn × CallAll
  unfolding gather
  ask_service this =
      let asked = poll_ready this.service in
      let this' = record this { service = asked.1 } in
      elim asked.0 [
        | pending ↦ (returns pending, this')
        | ready (err e) ↦ (returns (ready (some (err e))), record this' { eof = true })
        | ready (ok _) ↦ gather this'
      ]

  -- The part of a turn where no answer is ready.
  pub go_on : CallAll → Turn × CallAll
  unfolding ask_service
  go_on this =
      if this.eof
      then (returns (if size this.queue == 0 then ready none else pending), this)
      else ask_service this

  -- A turn of the loop: an error among the answers is passed on like the others.
  pub turn : CallAll → Turn × CallAll
  unfolding go_on
  turn this =
      let polled = poll_queue this.queue in
      let this' = record this { queue = polled.1 } in
      elim polled.0 [
        | ready (some answer) ↦
            (returns (ready (some answer)), record this' { answers = suc this.answers })
        | ready none ↦ go_on this'
        | pending ↦ go_on this'
      ]

  -- The loop, for so many turns at most: `none` is that they were not enough.
  pub poll_next : ℕ → CallAll → Option (Poll (Option (Result E Res))) × CallAll
  unfolding turn
  poll_next zero this = (none, this)
  poll_next (suc fuel) this =
      let turned = turn this in
      elim turned.0 [
        | returns answer ↦ (some answer, turned.1)
        | continues ↦ poll_next fuel turned.1
      ]

  unfoldable pub new : Svc → Stm → Que → CallAll
  new service stream queue = record {
    service = service;
    stream = stream;
    queue = queue;
    eof = false;
    curr_req = none;
    received = [];
    called = [];
    answers = 0;
  }
