-- ===== src/Sql/Dashboard/Pages.antt =====
-- packages/apalis-sql/src/{sqlite,mysql,postgres}.rs: the pages of a dashboard, put together.
use apalis_cron_jobs.Prelude.{
  ℕ, zero, suc, ◌+◌, ◌-◌, ◌*◌, ◌≡◌, refl, sym, ap, ◌∙◌, Bool, ◌&&◌, List, [], ◌∷◌, ◌++◌, take, drop,
  select, arith,
}
use apalis_cron_jobs.Core.State.{State, display}
use apalis_cron_jobs.Sql.Context.{Config}
use apalis_cron_jobs.Sql.Engine.{Engine}
use apalis_cron_jobs.Sql.Table.{Row, Tables}
use apalis_cron_jobs.Sql.Dashboard.{is_text, in_namespace, page_by}

module _ {Args Raw : Type 0} (E : Engine Args Raw) (config : Config)
    (before : Row Raw → Row Raw → Bool) where
  -- All the jobs in a state, in the order of the pages.
  abbrev pub listing : State → Tables Raw → List (Row Raw)
  listing status db =
      E.order_by before
        (select (λ r. is_text (display status) r.status && in_namespace config r) db.jobs)

  -- The first so many pages, one after the other.
  pub pages : State → ℕ → Tables Raw → List (Row Raw)
  pages status zero db = []
  pages status (suc n) db = pages status n db ++ page_by E config before status (suc n) db

  take_more : (n : ℕ) (xs : List (Row Raw)) → take n xs ++ take 10 (drop n xs) ≡ take (n + 10) xs
  take_more zero xs = refl
  take_more (suc n) [] =
      let e : suc n + 10 ≡ suc (n + 10) = omega arith in
      ap (λ (k : ℕ). take {A = Row Raw} k []) (sym e)
  take_more (suc n) (x ∷ xs) =
      let e : suc n + 10 ≡ suc (n + 10) = omega arith in
      ap (◌∷◌ x) (take_more n xs) ∙ ap (λ (k : ℕ). take k (x ∷ xs)) (sym e)

  -- Pages neither overlap nor leave a job out: the first n pages are the first 10 * n jobs.
  pub pages_lem :
      (status : State) (n : ℕ) (db : Tables Raw)
      → pages status n db ≡ take (n * 10) (listing status db)
  unfolding pages page_by
  pages_lem status zero db = refl
  pages_lem status (suc n) db =
      let all = listing status db in
      let from : (suc n - 1) * 10 ≡ n * 10 = omega arith in
      let to : n * 10 + 10 ≡ suc n * 10 = omega arith in
      ap (λ (ps : List (Row Raw)). ps ++ page_by E config before status (suc n) db)
        (pages_lem status n db)
      ∙ ap (λ (k : ℕ). take (n * 10) all ++ take 10 (drop k all)) from
      ∙ take_more (n * 10) all
      ∙ ap (λ (k : ℕ). take k all) to
