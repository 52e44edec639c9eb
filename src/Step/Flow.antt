-- ===== src/Step/Flow.antt =====
-- How a workflow runs: from the first step to the last.
use apalis_cron_jobs.Prelude.{
  ℕ, zero, suc, ◌+◌, ◌-◌, ◌%◌, ◌^◌, ◌≡◌, ◌<◌, ◌≤◌, refl, ◌∙◌, String, Option, none, some, List, [],
  ◌∷◌, ◌==◌, if◌then◌else◌, ltb, leb, ◌&&◌, arith, length,
}
use apalis_cron_jobs.Prelude.Int.{pos}
use apalis_cron_jobs.Prelude.Outcome.{Result, ok, err}
use apalis_cron_jobs.Step.{
  GoTo, next, delay, done, StepRequest, Failure, panicked, StepStorage, next_index, Stepped,
  StepBuilder, get, new, step, call, start_stepped,
}

module _ {Compact : Type 0} where
  -- A workflow of several steps, added one after the other.
  pub add_steps : StepBuilder Compact → List (Stepped Compact) → StepBuilder Compact
  add_steps builder [] = builder
  add_steps builder (s ∷ ss) = add_steps (step builder s) ss

  pub at : List (Stepped Compact) → ℕ → Option (Stepped Compact)
  at [] i = none
  at (s ∷ ss) zero = some s
  at (s ∷ ss) (suc i) = at ss i

  at-cons :
      (s : Stepped Compact) (ss : List (Stepped Compact)) (d : ℕ)
      → at (s ∷ ss) d ≡ (if d == 0 then some s else at ss (d - 1))
  unfolding at
  at-cons s ss zero = refl
  at-cons s ss (suc d) = let e : suc d - 1 ≡ d = omega arith in rw e (ground arith)

  get-add_steps :
      (ss : List (Stepped Compact)) (builder : StepBuilder Compact) (i : ℕ)
      → builder.current_index + length ss < 2 ^ 64
      → get i (add_steps builder ss).steps ≡ (
          if leb builder.current_index i && ltb i (builder.current_index + length ss)
          then at ss (i - builder.current_index)
          else get i builder.steps)
  unfolding add_steps step next_index
  get-add_steps [] builder i fits = ground arith
  get-add_steps (s ∷ ss) builder i fits =
      let current = builder.current_index in
      let later : (current + 1) % 2 ^ 64 ≡ current + 1 = omega arith in
      let shifted : i - (current + 1) ≡ i - current - 1 = omega arith in
      get-add_steps ss (step builder s) i (omega arith)
      ∙ rw (later, shifted) (ground (arith, at-cons s ss (i - current)))

  at-past : (ss : List (Stepped Compact)) (i : ℕ) → length ss ≤ i → at ss i ≡ none
  unfolding at
  at-past [] i h = refl
  at-past (s ∷ ss) zero h = absurd (omega arith)
  at-past (s ∷ ss) (suc i) h = at-past ss i (omega arith)

  -- Each of the services of a new workflow stands at its place in the order in which they were added,
  -- from 0 on, and there is no other.
  pub steps_in_order :
      (ss : List (Stepped Compact)) (i : ℕ)
      → length ss < 2 ^ 64
      → get i (add_steps new ss).steps ≡ at ss i
  unfolding new
  steps_in_order ss i fits = ground (arith, get-add_steps ss new i (omega arith), at-past ss i)

  module _ (S : StepStorage Compact) where
    open S use {Store, push, schedule}

    -- A step that answers `Next` has its result pushed under the next index and nothing else; `Done`
    -- writes nothing; a step that fails writes nothing and its error is returned; an index without a
    -- service is a panic.
    pub call_lem :
        (services : List (ℕ × Stepped Compact)) (req : StepRequest Compact) (db : Store)
        → req.index + 1 < 2 ^ 64
        → let (reply, db') = call S services req db in
          ((get req.index services ≡ none)
            → (reply ≡ err (panicked "Invalid index in inner services")) × (db' ≡ db))
          × ((s : Stepped Compact)
              → get req.index services ≡ some s
              → ((f : Failure) → s req.step ≡ err f → (reply ≡ err f) × (db' ≡ db))
                × ((c : Compact) → s req.step ≡ ok (done c) → (reply ≡ ok (done c)) × (db' ≡ db))
                × ((c : Compact)
                    → s req.step ≡ ok (next c)
                    → db' ≡ (push (record { step = c; index = req.index + 1 }) db).1))
    unfolding call next_index
    call_lem services req db fits = (
      λ gone. ground arith,
      λ s there. (λ f fails. ground arith, λ c finishes. ground arith, λ c goes_on. ground arith),
    )

    -- A step that asks for a delay has its result scheduled at that many seconds of the epoch,
    -- whatever the time is.
    pub delay_lem :
        (services : List (ℕ × Stepped Compact)) (req : StepRequest Compact) (db : Store)
        (s : Stepped Compact) (c : Compact) (seconds : ℕ)
        → get req.index services ≡ some s
        → s req.step ≡ ok (delay c seconds)
        → seconds < 2 ^ 63
        → (call S services req db).1
          ≡ (schedule (record { step = c; index = next_index req.index }) (pos seconds) db).1
    unfolding call
    delay_lem services req db s c seconds there asks fits = ground arith

    call_next :
        (services : List (ℕ × Stepped Compact)) (k : ℕ) (c' c : Compact) (db db' : Store)
        → k + 1 < 2 ^ 64
        → (s : Stepped Compact) → get k services ≡ some s
        → s c ≡ ok (next c')
        → push (record { step = c'; index = suc k }) db ≡ (ok tt, db')
        → call S services (record { step = c; index = k }) db ≡ (ok (next c'), db')
    unfolding call next_index
    call_next services k c' c db db' fits s there on pushed =
        let later : (k + 1) % 2 ^ 64 ≡ suc k = omega arith in ground arith

    call_done :
        (services : List (ℕ × Stepped Compact)) (k : ℕ) (c' c : Compact) (db : Store)
        → (s : Stepped Compact) → get k services ≡ some s
        → s c ≡ ok (done c')
        → call S services (record { step = c; index = k }) db ≡ (ok (done c'), db)
    unfolding call
    call_done services k c' c db s there stops = ground arith

    -- The storage as a workflow uses it: what is pushed to an empty one is taken out next.
    pub record Fifo : Type 0 where
      pub empty : Store
      pub pop : Store → Option (StepRequest Compact × Store)
      pub push_pop :
          (r : StepRequest Compact)
          → (db : Store) × (push r empty ≡ (ok tt, db)) × (pop db ≡ some (r, empty))

    module _ (Q : Fifo) where
      -- What follows a call.
      abbrev pub go_on :
          Result Failure (GoTo Compact) × Store
          → (Store → Option (Result Failure Compact))
          → Option (Result Failure Compact)
      go_on (err f, db) rest = some (err f)
      go_on (ok (done c), db) rest = some (ok c)
      go_on (ok (next c), db) rest = rest db
      go_on (ok (delay c t), db) rest = rest db

      -- A worker takes the next step out of the storage and calls it, until there is none, one is done
      -- or one fails.
      pub work : ℕ → List (ℕ × Stepped Compact) → Store → Option (Result Failure Compact)
      work zero services db = none
      work (suc fuel) services db = elim (Q.pop db) [
        | none ↦ none
        | some (r, db') ↦ go_on (call S services r db') (work fuel services)
      ]

      -- The steps from `k` on, one after the other.
      pub composed : (ℕ → Compact → Compact) → ℕ → ℕ → Compact → Compact
      composed f k zero c = f k c
      composed f k (suc m) c = composed f (suc k) m (f k c)

      work_from :
          (services : List (ℕ × Stepped Compact)) (f : ℕ → Compact → Compact) (last m k : ℕ)
          (c : Compact) (db : Store)
          → last + 1 < 2 ^ 64
          → m + k ≡ last
          → ((i : ℕ) (x : Compact)
              → i < last
              → (s : Stepped Compact) × (get i services ≡ some s) × (s x ≡ ok (next (f i x))))
          → ((x : Compact)
              → (s : Stepped Compact) × (get last services ≡ some s) × (s x ≡ ok (done (f last x))))
          → Q.pop db ≡ some (record { step = c; index = k }, Q.empty)
          → work (suc m) services db ≡ some (ok (composed f k m c))
      unfolding work composed
      work_from services f last zero k c db fits here goes ends waits =
          let e : k ≡ last = omega arith in
          let (s, there, stops) = ends c in
          rw (waits, work)
            (rw e (rw (call_done services last (f last c) c Q.empty s there stops) refl))
      work_from services f last (suc m) k c db fits here goes ends waits =
          let (s, there, on) = goes k c (omega arith) in
          let (db', pushed, popped) = Q.push_pop (record { step = f k c; index = suc k }) in
          let rest =
            work_from services f last m (suc k) (f k c) db' fits (omega arith) goes ends popped in
          rw (waits, work)
            (rw (call_next services k (f k c) c Q.empty db' (omega arith) s there on pushed) rest)

      -- A workflow whose steps hand on by `Next` and whose last one is `Done` gives the composition of
      -- its steps, once it has been started on an input that can be encoded, after as many calls as it
      -- has steps.
      pub workflow_completes :
          {Input : Type 0} (encode : Input → Result String Compact) (input : Input) {c : Compact}
          (services : List (ℕ × Stepped Compact)) (f : ℕ → Compact → Compact) (last : ℕ)
          → last + 1 < 2 ^ 64
          → encode input ≡ ok c
          → ((i : ℕ) (x : Compact)
              → i < last
              → (s : Stepped Compact) × (get i services ≡ some s) × (s x ≡ ok (next (f i x))))
          → ((x : Compact)
              → (s : Stepped Compact) × (get last services ≡ some s) × (s x ≡ ok (done (f last x))))
          → let (reply, db) = start_stepped S encode input Q.empty in
            (reply ≡ ok tt) × (work (suc last) services db ≡ some (ok (composed f 0 last c)))
      unfolding start_stepped
      workflow_completes encode input {c} services f last fits e goes ends =
          let (db, pushed, popped) = Q.push_pop (record { step = c; index = 0 }) in
          let started : start_stepped S encode input Q.empty ≡ (ok tt, db) = ground arith in
          rw started
            (refl, work_from services f last last 0 c db fits (omega arith) goes ends popped)
