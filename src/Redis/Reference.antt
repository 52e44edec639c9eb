-- ===== src/Redis/Reference.antt =====
-- A server in memory: the interface of the commands can be met, and examples can be run.
pub mod Server
use apalis_cron_jobs.Prelude.{
  ℕ, zero, suc, ◌+◌, ◌-◌, ◌≤◌, ◌≡◌, refl, sym, ap, ◌∙◌, Bool, true, false, Option, none, some, List,
  [], ◌∷◌, ◌++◌, arith, length, take, drop, select, count, length-take, take-length,
  count-take-drop, count-append, min, ◌==◌, if◌then◌else◌, Bool-cases, inl, inr, String,
}
use apalis_cron_jobs.Prelude.Int.{ℤ, pos, negsuc, pos_part, neg_part, leb_ℤ, ◌≤ℤ◌}
use apalis_cron_jobs.Redis.Commands.{Commands, Ascending, ids, in_range}

-- Lists without an element.
unfoldable pub without : ℕ → List ℕ → List ℕ
without i [] = []
without i (x ∷ xs) = if x == i then without i xs else x ∷ without i xs

pub count-without :
    (i j : ℕ) (xs : List ℕ) → count j (without i xs) ≡ (if i == j then 0 else count j xs)
unfolding without
count-without i j [] = ground arith
count-without i j (x ∷ xs) = ground (arith, count-without i j xs)

unfoldable pub add_one : ℕ → List ℕ → List ℕ
add_one y xs = if count y xs == 0 then y ∷ xs else xs

unfoldable pub add_all : List ℕ → List ℕ → List ℕ
unfolding add_one
add_all xs [] = xs
add_all xs (y ∷ ys) = add_all (add_one y xs) ys

abbrev pub Distinct : List ℕ → Type 0
Distinct xs = (j : ℕ) → count j xs ≤ 1

pub count-add_all :
    (xs ys : List ℕ) (j : ℕ)
    → Distinct xs
    → count j (add_all xs ys) ≡ min 1 (count j xs + count j ys)
unfolding add_all
count-add_all xs [] j d = omega (arith, d j)
count-add_all xs (y ∷ ys) j d =
    ground (arith, d j, d y, count-add_all (add_one y xs) ys j (λ k. ground (arith, d k)))

-- Sorted sets: removal, insertion behind the scores that are not above, and lookup.
unfoldable pub remove : ℕ → List (ℤ × ℕ) → List (ℤ × ℕ)
remove i [] = []
remove i ((s, x) ∷ r) = if x == i then remove i r else (s, x) ∷ remove i r

unfoldable pub insert : ℤ → ℕ → List (ℤ × ℕ) → List (ℤ × ℕ)
insert s i [] = (s, i) ∷ []
insert s i ((t, x) ∷ r) = if leb_ℤ s t then (s, i) ∷ (t, x) ∷ r else (t, x) ∷ insert s i r

unfoldable pub score_of : List (ℤ × ℕ) → ℕ → Option ℤ
score_of [] j = none
score_of ((s, x) ∷ r) j = if x == j then some s else score_of r j

pub count-remove :
    (i j : ℕ) (es : List (ℤ × ℕ))
    → count j (ids (remove i es)) ≡ (if i == j then 0 else count j (ids es))
unfolding remove
count-remove i j [] = ground arith
count-remove i j ((s, x) ∷ r) = ground (arith, count-remove i j r)

pub count-insert :
    (s : ℤ) (i j : ℕ) (es : List (ℤ × ℕ))
    → count j (ids (insert s i es)) ≡ (if i == j then 1 else 0) + count j (ids es)
unfolding insert
count-insert s i j [] = ground arith
count-insert s i j ((t, x) ∷ r) = ground (arith, count-insert s i j r)

pub score_of-remove :
    (i j : ℕ) (es : List (ℤ × ℕ))
    → score_of (remove i es) j ≡ (if i == j then none else score_of es j)
unfolding remove score_of
score_of-remove i j [] = ground arith
score_of-remove i j ((s, x) ∷ r) = ground (arith, score_of-remove i j r)

pub score_of-insert :
    (s : ℤ) (i j : ℕ) (es : List (ℤ × ℕ))
    → score_of es i ≡ none
    → score_of (insert s i es) j ≡ (if i == j then some s else score_of es j)
unfolding insert score_of
score_of-insert s i j [] h = refl
score_of-insert s i j ((t, x) ∷ r) h = ground (arith, score_of-insert s i j r)

-- The first score of a list, at or above a bound.
abbrev AtLeast : ℤ → List (ℤ × ℕ) → Type 0
AtLeast s [] = Unit {0}
AtLeast s ((t, x) ∷ r) = s ≤ℤ t

Ascending-cons :
    (s : ℤ) (i : ℕ) (es : List (ℤ × ℕ)) → AtLeast s es → Ascending es → Ascending ((s, i) ∷ es)
Ascending-cons s i [] l h = tt
Ascending-cons s i ((t, x) ∷ r) l h = (l, h)

Ascending-uncons :
    (s : ℤ) (i : ℕ) (es : List (ℤ × ℕ)) → Ascending ((s, i) ∷ es) → AtLeast s es × Ascending es
Ascending-uncons s i [] h = (tt, tt)
Ascending-uncons s i ((t, x) ∷ r) h = h

AtLeast-insert :
    (l s : ℤ) (i : ℕ) (es : List (ℤ × ℕ)) → l ≤ℤ s → AtLeast l es → AtLeast l (insert s i es)
unfolding insert
AtLeast-insert l s i [] h k = h
AtLeast-insert l s i ((t, x) ∷ r) h k = ground arith

pub Ascending-insert :
    (s : ℤ) (i : ℕ) (es : List (ℤ × ℕ)) → Ascending es → Ascending (insert s i es)
unfolding insert
Ascending-insert s i [] h = tt
Ascending-insert s i ((t, x) ∷ r) h =
    let (least, rest) = Ascending-uncons t x r h in
    elim (Bool-cases (leb_ℤ s t)) [
      | inl below ↦ rw below (ground arith, h)
      | inr above ↦ rw above (
          Ascending-cons t x (insert s i r) (AtLeast-insert t s i r (ground arith) least)
            (Ascending-insert s i r rest))
    ]

AtLeast-remove :
    (l : ℤ) (i : ℕ) (es : List (ℤ × ℕ)) → Ascending es → AtLeast l es → AtLeast l (remove i es)
unfolding remove
AtLeast-remove l i [] h k = tt
AtLeast-remove l i ((t, x) ∷ r) h k =
    let (least, rest) = Ascending-uncons t x r h in
    elim (Bool-cases (x == i)) [
      | inl hit ↦ rw hit (AtLeast-remove l i r rest (AtLeast-mono l t r k least))
      | inr miss ↦ rw miss k
    ]
  where
    AtLeast-mono : (a b : ℤ) (l : List (ℤ × ℕ)) → a ≤ℤ b → AtLeast b l → AtLeast a l
    AtLeast-mono a b [] p q = tt
    AtLeast-mono a b ((t, x) ∷ r) p q = omega arith

pub Ascending-remove : (i : ℕ) (es : List (ℤ × ℕ)) → Ascending es → Ascending (remove i es)
unfolding remove
Ascending-remove i [] h = tt
Ascending-remove i ((t, x) ∷ r) h =
    let (least, rest) = Ascending-uncons t x r h in
    elim (Bool-cases (x == i)) [
      | inl hit ↦ rw hit (Ascending-remove i r rest)
      | inr miss ↦ rw miss (
          Ascending-cons t x (remove i r) (AtLeast-remove t i r rest least)
            (Ascending-remove i r rest))
    ]
