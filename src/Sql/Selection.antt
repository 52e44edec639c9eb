-- ===== src/Sql/Selection.antt =====
-- packages/apalis-sql: `SELECT … WHERE … ORDER BY … LIMIT`, as the storages on MySQL and PostgreSQL
-- use it to pick jobs, and the rows it picks.
use apalis_cron_jobs.Prelude.{
  ℕ, ◌≡◌, refl, ◌≤◌, Bool, true, false, ◌&&◌, some, List, [], ◌∷◌, length, take, drop, tally,
  select, ltb, ◌==◌, if◌then◌else◌, arith, inl, inr, Bool-cases, length-take, length-drop,
  tally-select, tally-take-drop, tally_mono, tally-le-length,
}
use apalis_cron_jobs.Sql.Engine.{Engine}
use apalis_cron_jobs.Sql.Table.{
  Row, row, Unique, update_where, row-update_where, tally-update_where, row-id,
}

module _ {Raw : Type 0} where
  -- `id IN (…)`, of the rows that were picked.
  abbrev pub id_in : List (Row Raw) → Row Raw → Bool
  id_in picked r = ltb 0 (tally (λ s. s.id == r.id) picked)

  -- The row of a job that passes a test is among those that do, and one that fails it is not.
  pub tally_failing :
      (q : Row Raw → Bool) (i : ℕ) (rs : List (Row Raw)) {r : Row Raw}
      → tally (λ s. s.id == i) rs ≤ 1
      → row i rs ≡ some r
      → q r ≡ false
      → tally (λ s. s.id == i && q s) rs ≡ 0
  tally_failing q i [] u here fails = refl
  tally_failing q i (s ∷ rs) {r} u here fails = elim (Bool-cases (s.id == i)) [
    | inl e ↦ ground (
      arith,
      tally_mono (λ (t : Row Raw). t.id == i && q t) (λ (t : Row Raw). t.id == i)
          (λ t h. ground arith) rs,
    )
    | inr n ↦ ground (
      arith,
      λ (h : tally (λ (s : Row Raw). s.id == i) rs ≤ 1) (k : row i rs ≡ some r).
          tally_failing q i rs h k fails,
    )
  ]

  pub tally_passing :
      (q : Row Raw → Bool) (i : ℕ) (rs : List (Row Raw)) {r : Row Raw}
      → row i rs ≡ some r
      → q r ≡ true
      → 1 ≤ tally (λ s. s.id == i && q s) rs
  tally_passing q i [] here holds = cc
  tally_passing q i (s ∷ rs) {r} here holds =
      ground (arith, λ (k : row i rs ≡ some r). tally_passing q i rs k holds)

module _ {Args Raw : Type 0} (E : Engine Args Raw) where
  unfoldable pub pick :
      ℕ → (Row Raw → Row Raw → Bool) → (Row Raw → Bool) → List (Row Raw) → List (Row Raw)
  pick n before q jobs = take n (E.order_by before (select q jobs))

  module _ (n : ℕ) (before : Row Raw → Row Raw → Bool) (q : Row Raw → Bool) where
    -- What is picked passes the test, and is not more than the limit.
    pub tally-pick :
        (p : Row Raw → Bool) (jobs : List (Row Raw))
        → tally p (pick n before q jobs) ≤ tally (λ r. p r && q r) jobs
    unfolding pick
    tally-pick p jobs = omega (
      arith,
      tally-take-drop p n (E.order_by before (select q jobs)),
      E.tally-order_by before p (select q jobs),
      tally-select p q jobs,
    )

    pub length-pick : (jobs : List (Row Raw)) → length (pick n before q jobs) ≤ n
    unfolding pick
    length-pick jobs = omega (arith, length-take n (E.order_by before (select q jobs)))

    -- A job that fails the test is not picked.
    pub pick-fails :
        (i : ℕ) (jobs : List (Row Raw)) {r : Row Raw}
        → Unique jobs
        → row i jobs ≡ some r
        → q r ≡ false
        → tally (λ s. s.id == i) (pick n before q jobs) ≡ 0
    pick-fails i jobs {r} u here fails = omega (
      arith,
      tally-pick (λ (s : Row Raw). s.id == i) jobs,
      tally_failing q i jobs (u i) here fails,
    )

    -- With a limit of at least the number of rows, each job that passes the test is picked.
    pub pick-passes :
        (i : ℕ) (jobs : List (Row Raw)) {r : Row Raw}
        → length jobs ≤ n
        → row i jobs ≡ some r
        → q r ≡ true
        → 1 ≤ tally (λ s. s.id == i) (pick n before q jobs)
    unfolding pick
    pick-passes i jobs {r} roomy here holds =
        let sorted = E.order_by before (select q jobs) in
        let is : Row Raw → Bool = λ s. s.id == i in
        let all : Row Raw → Bool = λ s. true in
        omega (
          arith,
          tally-take-drop is n sorted,
          tally-le-length is (drop n sorted),
          length-drop n sorted,
          tally_all sorted,
          E.tally-order_by before all (select q jobs),
          E.tally-order_by before is (select q jobs),
          tally-select all q jobs,
          tally-le-length (λ (s : Row Raw). all s && q s) jobs,
          tally-select is q jobs,
          tally_passing q i jobs here holds,
        )
      where
        tally_all : (rs : List (Row Raw)) → tally (λ s. true) rs ≡ length rs
        tally_all [] = refl
        tally_all (r ∷ rs) = omega (arith, tally_all rs)

    -- With that limit, an update of what is picked writes the jobs that pass the test and no other.
    pub row-update-pick :
        (f : Row Raw → Row Raw)
        → ((r : Row Raw) → (f r).id ≡ r.id)
        → (i : ℕ) (jobs : List (Row Raw)) {r : Row Raw} → Unique jobs
        → length jobs ≤ n
        → row i jobs ≡ some r
        → row i (update_where (id_in (pick n before q jobs)) f jobs) ≡ some (if q r then f r else r)
    row-update-pick f keep i jobs {r} u roomy here = elim (Bool-cases (q r)) [
      | inl holds ↦ ground (
        arith,
        row-update_where (id_in (pick n before q jobs)) f keep i jobs,
        pick-passes i jobs roomy here holds,
        row-id i jobs here,
      )
      | inr fails ↦ ground (
        arith,
        row-update_where (id_in (pick n before q jobs)) f keep i jobs,
        pick-fails i jobs u here fails,
        row-id i jobs here,
      )
    ]

module _ {Raw : Type 0} where
  pub length-update_where :
      (p : Row Raw → Bool) (f : Row Raw → Row Raw) (rs : List (Row Raw))
      → length (update_where p f rs) ≡ length rs
  length-update_where p f [] = refl
  length-update_where p f (r ∷ rs) = omega (arith, length-update_where p f rs)

  -- Ids stay unique under an update.
  pub update_where-Unique :
      (p : Row Raw → Bool) (f : Row Raw → Row Raw)
      → ((r : Row Raw) → (f r).id ≡ r.id)
      → (rs : List (Row Raw)) → Unique rs
      → Unique (update_where p f rs)
  update_where-Unique p f keep rs u i = omega (arith, tally-update_where p f keep i rs, u i)
