-- ===== src/Sql/Reference.antt =====
-- A database engine that sorts by insertion, as a value of what the SQL storages rely on. Arguments
-- are numbers and stand in the rows as they are.
use apalis_cron_jobs.Prelude.{
  ℕ, ◌≡◌, refl, sym, Bool, true, false, some, List, [], ◌∷◌, arith, tally, All, if◌then◌else◌,
}
use apalis_cron_jobs.Prelude.Int.{ℤ, pos, ltb_ℤ}
use apalis_cron_jobs.Prelude.Outcome.{ok}
use apalis_cron_jobs.Sql.Engine.{Engine, Ordered}
use apalis_cron_jobs.Sql.Table.{Row}

module _ {Raw : Type 0} where
  put_in : (Row Raw → Row Raw → Bool) → Row Raw → List (Row Raw) → List (Row Raw)
  put_in before r [] = r ∷ []
  put_in before r (s ∷ rs) =
      let rest = put_in before r rs in if before r s then r ∷ s ∷ rs else s ∷ rest

  unfoldable pub sorted : (Row Raw → Row Raw → Bool) → List (Row Raw) → List (Row Raw)
  unfolding put_in
  sorted before [] = []
  sorted before (r ∷ rs) = put_in before r (sorted before rs)

  tally-put_in :
      (before : Row Raw → Row Raw → Bool) (p : Row Raw → Bool) (r : Row Raw) (rs : List (Row Raw))
      → tally p (put_in before r rs) ≡ tally p (r ∷ rs)
  unfolding put_in
  tally-put_in before p r [] = refl
  tally-put_in before p r (s ∷ rs) = ground (arith, tally-put_in before p r rs)

  pub tally-sorted :
      (before : Row Raw → Row Raw → Bool) (p : Row Raw → Bool) (rs : List (Row Raw))
      → tally p (sorted before rs) ≡ tally p rs
  unfolding sorted
  tally-sorted before p [] = refl
  tally-sorted before p (r ∷ rs) =
      omega (arith, tally-put_in before p r (sorted before rs), tally-sorted before p rs)

  module _ (key : Row Raw → ℤ) where
    abbrev pub above : Row Raw → Row Raw → Bool
    above r s = ltb_ℤ (key s) (key r)

    -- A bound of rows is a bound of those inserted among them.
    All-weaken :
        (r s : Row Raw) (rs : List (Row Raw))
        → above r s ≡ true
        → All (λ t. above t s ≡ false) rs
        → All (λ t. above t r ≡ false) rs
    All-weaken r s [] h a = tt
    All-weaken r s (t ∷ rs) h a = (ground arith, All-weaken r s rs h a.1)

    All-put_in :
        (r s : Row Raw) (rs : List (Row Raw))
        → above r s ≡ false
        → All (λ t. above t s ≡ false) rs
        → All (λ t. above t s ≡ false) (put_in above r rs)
    unfolding put_in
    All-put_in r s [] h a = (h, tt)
    All-put_in r s (t ∷ rs) h a = ground (arith, All-put_in r s rs h a.1)

    put_in-Ordered :
        (r : Row Raw) (rs : List (Row Raw)) → Ordered above rs → Ordered above (put_in above r rs)
    unfolding put_in
    put_in-Ordered r [] h = (tt, tt)
    put_in-Ordered r (s ∷ rs) h = ground (
      arith,
      λ (k : above r s ≡ true). All-weaken r s rs k h.0,
      λ (k : above r s ≡ false). All-put_in r s rs k h.0,
      put_in-Ordered r rs h.1,
    )

    pub sorted-Ordered : (rs : List (Row Raw)) → Ordered above (sorted above rs)
    unfolding sorted
    sorted-Ordered [] = tt
    sorted-Ordered (r ∷ rs) = put_in-Ordered r (sorted above rs) (sorted-Ordered rs)

unfoldable pub engine : Engine ℕ ℕ
unfolding sorted
engine = record {
  order_by = sorted;
  tally-order_by = tally-sorted;
  order_by-Ordered = sorted-Ordered;
  get_i32 = λ n. some (pos n);
  get_i32_lem = λ n h. refl;
  encode = λ a. ok a;
  decode = λ raw. ok raw;
  decode-encode = λ a h. sym h;
}

-- The same for arguments of any type.
unfoldable pub engine_of : (A : Type 0) → Engine A A
unfolding sorted
engine_of A = record {
  order_by = sorted;
  tally-order_by = tally-sorted;
  order_by-Ordered = sorted-Ordered;
  get_i32 = λ n. some (pos n);
  get_i32_lem = λ n h. refl;
  encode = λ a. ok a;
  decode = λ raw. ok raw;
  decode-encode = λ a h. sym h;
}
