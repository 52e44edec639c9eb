-- ===== src/Sql/Dashboard/Counts.antt =====
-- packages/apalis-sql/src/{mysql,postgres}.rs: what the six counts of the dashboards come to.
use apalis_cron_jobs.Prelude.{
  ℕ, ◌+◌, ◌≡◌, refl, ap, Bool, ◌&&◌, List, [], ◌∷◌, tally, if◌then◌else◌, arith,
}
use apalis_cron_jobs.Core.State.{State, pending, running, done, failed, killed, scheduled, display}
use apalis_cron_jobs.Sql.Context.{Config}
use apalis_cron_jobs.Sql.Table.{Row, is_pending, is_running, is_done, is_failed, is_killed}
use apalis_cron_jobs.Sql.Dashboard.{is_text, counted, in_namespace, six_counts}

spelled :
    (s : State)
    → (is_text "Pending" s ≡ is_pending s)
      × (is_text "Running" s ≡ is_running s)
      × (is_text "Done" s ≡ is_done s)
      × (is_text "Retry" s ≡ Bool.false)
      × (is_text "Failed" s ≡ is_failed s)
      × (is_text "Killed" s ≡ is_killed s)
unfolding display
spelled pending = (refl, refl, refl, refl, refl, refl)
spelled scheduled = (refl, refl, refl, refl, refl, refl)
spelled running = (refl, refl, refl, refl, refl, refl)
spelled done = (refl, refl, refl, refl, refl, refl)
spelled failed = (refl, refl, refl, refl, refl, refl)
spelled killed = (refl, refl, refl, refl, refl, refl)

abbrev bit : Bool → ℕ
bit b = if b then 1 else 0

in_one :
    (s : State) (a : Bool)
    → bit (is_pending s && a)
        + bit (is_running s && a)
        + bit (is_done s && a)
        + bit (is_failed s && a)
        + bit (is_killed s && a)
        + bit (is_text "Scheduled" s && a)
      ≡ bit a
unfolding display
in_one pending a = omega arith
in_one scheduled a = omega arith
in_one running a = omega arith
in_one done a = omega arith
in_one failed a = omega arith
in_one killed a = omega arith

module _ {Raw : Type 0} (config : Config) where
  -- The counts by the states' spellings are the counts by the states, and nothing is in a state
  -- that is spelled Retry.
  pub six_counts_lem :
      (jobs : List (Row Raw))
      → six_counts config jobs ≡ (
        counted config is_pending jobs,
        counted config is_running jobs,
        counted config is_done jobs,
        0,
        counted config is_failed jobs,
        counted config is_killed jobs,
      )
  unfolding six_counts
  six_counts_lem [] = refl
  six_counts_lem (r ∷ rs) =
      let (p, n, d, t, f, k) = spelled r.status in
      let rest = six_counts_lem rs in
      rw
        (
          p,
          n,
          d,
          t,
          f,
          k,
          ap (λ c. c.0) rest,
          ap (λ c. c.1) rest,
          ap (λ c. c.2) rest,
          ap (λ c. c.3) rest,
          ap (λ c. c.4) rest,
          ap (λ c. c.5) rest,
        )
        refl

  -- Each job of the namespace is in one of six states, or is scheduled.
  pub counted_total :
      (jobs : List (Row Raw))
      → counted config is_pending jobs
          + counted config is_running jobs
          + counted config is_done jobs
          + counted config is_failed jobs
          + counted config is_killed jobs
          + counted config (is_text "Scheduled") jobs
        ≡ tally (in_namespace config) jobs
  counted_total [] = refl
  counted_total (r ∷ rs) =
      let rest = counted_total rs in omega (arith, in_one r.status (in_namespace config r), rest)
