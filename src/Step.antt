-- ===== src/Step.antt =====
-- packages/apalis-core/src/step/mod.rs: workflows of steps that hand their results on by the storage.
-- `usize` indices; a panic is an outcome of its own.
pub mod Flow
pub mod Delayed
pub mod Examples
use apalis_cron_jobs.Prelude.{
  ℕ, suc, ◌+◌, ◌%◌, ◌^◌, ◌≡◌, String, Bool, Option, none, some, List, [], ◌∷◌, ◌==◌, if◌then◌else◌,
  ltb,
}
use apalis_cron_jobs.Prelude.Int.{ℤ, pos}
use apalis_cron_jobs.Prelude.Outcome.{Result, ok, err, Stateful, pure, lift, map_err, ◌>>=◌, ◌>>◌}
use apalis_cron_jobs.Core.Error.{Error, DynError, other, source_error}

-- A delay is a number of seconds; `Delay` keeps only these of a duration.
pub data GoTo (N : Type 0) : Type 0 where
  next : N → GoTo N
  delay : N → ℕ → GoTo N
  done : N → GoTo N

pub record StepRequest (T : Type 0) : Type 0 where
  pub step : T
  pub index : ℕ

pub data Failure : Type 0 where
  panicked : String → Failure
  returned : Error → Failure

-- The storage that the steps are pushed to.
pub record StepStorage (Compact : Type 0) : Type 1 where
  pub Store : Type 0
  pub push : StepRequest Compact → Store → Result String (Unit {0}) × Store
  pub schedule : StepRequest Compact → ℤ → Store → Result String (Unit {0}) × Store

-- `StepIndex for usize`: the sum wraps around.
unfoldable pub next_index : ℕ → ℕ
next_index i = (i + 1) % 2 ^ 64

-- A step, as the workflow calls it.
abbrev pub Stepped : Type 0 → Type 0
Stepped Compact = Compact → Result Failure (GoTo Compact)

pub record StepBuilder (Compact : Type 0) : Type 0 where
  pub steps : List (ℕ × Stepped Compact)
  pub current_index : ℕ

module _ {Compact : Type 0} where
  -- The services by index: an insertion replaces what was there.
  abbrev pub get : ℕ → List (ℕ × Stepped Compact) → Option (Stepped Compact)
  get i [] = none
  get i ((j, s) ∷ m) = if j == i then some s else get i m

  pub new : StepBuilder Compact
  new = record { steps = []; current_index = 0 }

  -- `TransformingService::call`, with the codec's functions at the types of the step.
  pub transform :
      {Current Next : Type 0}
      → (Compact → Result String Current)
      → (Next → Result String Compact)
      → (Current → Result Error (GoTo Next))
      → Stepped Compact
  transform decode encode inner step = elim (decode step) [
    | err e ↦ err (panicked e)
    | ok current ↦ elim (inner current) [
      | err e ↦ err (returned e)
      | ok (next n) ↦ elim (encode n) [ ok c ↦ ok (next c) | err e ↦ err (panicked e) ]
      | ok (delay n t) ↦ elim (encode n) [ ok c ↦ ok (delay c t) | err e ↦ err (panicked e) ]
      | ok (done n) ↦ elim (encode n) [ ok c ↦ ok (done c) | err e ↦ err (panicked e) ]
    ]
  ]

  pub step : StepBuilder Compact → Stepped Compact → StepBuilder Compact
  unfolding next_index
  step builder service = record {
    steps = (builder.current_index, service) ∷ builder.steps;
    current_index = next_index builder.current_index;
  }

  module _ (S : StepStorage Compact) where
    open S use {Store, push, schedule}

    store_error : Result String (Unit {0}) → Result Failure (Unit {0})
    store_error r = map_err (λ e. returned (source_error (other e))) r

    -- What a step's answer makes the service write.
    forward : ℕ → GoTo Compact → Stateful Store Failure (Unit {0})
    unfolding store_error
    forward index (next resp) db =
        let (r, db') = push (record { step = resp; index = index }) db in (store_error r, db')
    forward index (delay n seconds) db =
        if ltb seconds (2 ^ 63)
        then (let (r, db') = schedule (record { step = n; index = index }) (pos seconds) db in
            (store_error r, db'))
        else (err (panicked "out of range"), db)
    forward index (done resp) db = (ok tt, db)

    -- `StepService::call`.
    pub call :
        List (ℕ × Stepped Compact) → StepRequest Compact → Stateful Store Failure (GoTo Compact)
    unfolding next_index forward
    call services req db = elim (get req.index services) [
      | none ↦ (err (panicked "Invalid index in inner services"), db)
      | some service ↦
          (lift (service req.step) >>= λ response.
          forward (next_index req.index) response >>= λ _. pure response)
            db
    ]

    -- `start_stepped`: the first step, from an input that is encoded.
    pub start_stepped :
        {Input : Type 0}
        → (Input → Result String Compact)
        → Input
        → Stateful Store String (Unit {0})
    start_stepped encode input db = elim (encode input) [
      | err e ↦ (err e, db)
      | ok c ↦ push (record { step = c; index = 0 }) db
    ]
