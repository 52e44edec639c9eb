-- ===== src/Redis/Ranges.antt =====
-- Score ranges of a sorted set: on scores that are not negative, ZRANGEBYSCORE from 0 with a limit
-- reads a prefix of the set, the one that ZREMRANGEBYRANK takes off.
use apalis_cron_jobs.Prelude.{
  ℕ, zero, suc, ◌+◌, ◌≡◌, refl, ap, false, List, [], ◌∷◌, arith, length, take, drop, select, count,
  Bool-cases, inl, inr,
}
use apalis_cron_jobs.Prelude.Int.{ℤ, pos, leb_ℤ, ◌≤ℤ◌}
use apalis_cron_jobs.Redis.Commands.{Ascending, ids, in_range}

abbrev pub NonNegative : List (ℤ × ℕ) → Type 0
NonNegative [] = Unit {0}
NonNegative ((s, i) ∷ r) = (pos 0 ≤ℤ s) × NonNegative r

pub length-ids : (es : List (ℤ × ℕ)) → length (ids es) ≡ length es
length-ids [] = refl
length-ids ((s, i) ∷ r) = ap suc (length-ids r)

pub count-ids-take-drop :
    (j n : ℕ) (es : List (ℤ × ℕ))
    → count j (ids (take n es)) + count j (ids (drop n es)) ≡ count j (ids es)
count-ids-take-drop j zero es = omega arith
count-ids-take-drop j (suc n) [] = omega arith
count-ids-take-drop j (suc n) ((s, i) ∷ r) = omega (arith, count-ids-take-drop j n r)

-- Behind a score that is too high, all are.
select_above :
    (low now s : ℤ) (i : ℕ) (r : List (ℤ × ℕ))
    → Ascending ((s, i) ∷ r)
    → leb_ℤ s now ≡ false
    → select (in_range low now) r ≡ []
select_above low now s i [] h e = refl
select_above low now s i ((t, k) ∷ r) h e = ground (arith, select_above low now t k r h.1)

Ascending-tail : (s : ℤ) (i : ℕ) (r : List (ℤ × ℕ)) → Ascending ((s, i) ∷ r) → Ascending r
Ascending-tail s i [] h = tt
Ascending-tail s i ((t, k) ∷ r) h = h.1

pub range_prefix :
    (now : ℤ) (n : ℕ) (es : List (ℤ × ℕ))
    → Ascending es
    → NonNegative es
    → let due = take n (select (in_range (pos 0) now) es) in due ≡ take (length due) es
range_prefix now zero es h p = refl
range_prefix now (suc n) [] h p = refl
range_prefix now (suc n) ((s, i) ∷ r) h p = elim (Bool-cases (in_range (pos 0) now (s, i))) [
  | inl due ↦ rw due (ap (◌∷◌ (s, i)) (range_prefix now n r (Ascending-tail s i r h) p.1))
  | inr late ↦ rw late (rw (select_above (pos 0) now s i r h (ground arith)) refl)
]
