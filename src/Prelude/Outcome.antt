-- ===== src/Prelude/Outcome.antt =====
-- Results, and stateful steps that may fail. What a failing step has written stays written.
use mathlib.Core.Bool.{Bool, true, false}
use mathlib.Core.Path.{◌≡◌, refl}
use mathlib.Core.Logic.{◌⊎◌, inl, inr}

pub data Result {ℓ κ} (E : Type ℓ) (A : Type κ) : Type (ℓ ⊔ κ) where
  ok : A → Result E A
  err : E → Result E A

module _ {ℓ κ} {E : Type ℓ} {A : Type κ} where
  abbrev pub is_ok : Result E A → Bool
  is_ok (ok a) = true
  is_ok (err e) = false

  abbrev pub map_err {μ} : {F : Type μ} → (E → F) → Result E A → Result F A
  map_err f (ok a) = ok a
  map_err f (err e) = err (f e)

  abbrev pub map_ok {μ} : {B : Type μ} → (A → B) → Result E A → Result E B
  map_ok f (ok a) = ok (f a)
  map_ok f (err e) = err e

-- A step on a state `S`: the outcome and the state afterwards.
abbrev pub Stateful {ℓ κ μ} : Type ℓ → Type κ → Type μ → Type (ℓ ⊔ κ ⊔ μ)
Stateful S E A = S → Result E A × S

module _ {ℓ κ μ} {S : Type ℓ} {E : Type κ} where
  abbrev pub pure : {A : Type μ} → A → Stateful S E A
  pure a s = (ok a, s)

  abbrev pub fail : {A : Type μ} → E → Stateful S E A
  fail e s = (err e, s)

  abbrev pub lift : {A : Type μ} → Result E A → Stateful S E A
  lift r s = (r, s)

  -- The rest runs from the state that the first part left, if that succeeded.
  abbrev pub bind_outcome {ν} :
      {A : Type μ} {B : Type ν} → Result E A × S → (A → Stateful S E B) → Result E B × S
  bind_outcome (ok a, s) f = f a s
  bind_outcome (err e, s) f = (err e, s)

infixl 5 ◌>>=◌ ◌>>◌
abbrev pub ◌>>=◌ {ℓ κ μ ν} :
    {S : Type ℓ} {E : Type κ} {A : Type μ} {B : Type ν}
    → Stateful S E A
    → (A → Stateful S E B)
    → Stateful S E B
◌>>=◌ m f s = bind_outcome (m s) f

abbrev pub ◌>>◌ {ℓ κ μ} :
    {S : Type ℓ} {E : Type κ} {B : Type μ}
    → Stateful S E (Unit {0})
    → Stateful S E B
    → Stateful S E B
m >> k = m >>= λ _. k

-- To split on a computed result and keep the equation.
pub Result-cases {ℓ κ} :
    {E : Type ℓ} {A : Type κ} (r : Result E A) → ((a : A) × (r ≡ ok a)) ⊎ ((e : E) × (r ≡ err e))
Result-cases (ok a) = inl (a, refl)
Result-cases (err e) = inr (e, refl)
