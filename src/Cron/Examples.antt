-- ===== src/Cron/Examples.antt =====
-- The theorems on cron at a schedule of two ticks.
use apalis_cron_jobs.Prelude.{
  ℕ, ◌≡◌, refl, String, true, false, Option, none, some, List, [], ◌∷◌, ◌++◌,
}
use apalis_cron_jobs.Prelude.Int.{ℤ, pos}
use apalis_cron_jobs.Prelude.Outcome.{Result, ok}
use apalis_cron_jobs.Cron.{Schedule, CronStream, into_stream}
use apalis_cron_jobs.Cron.Ticks.{polls, ticks, waiting, ticks_are_settled}
use apalis_cron_jobs.Cron.Pipe.{pipe_heartbeat, exhausted_schedule_spins}

abbrev next_tick : List ℤ → Option ℤ × List ℤ
next_tick [] = (none, [])
next_tick (tick ∷ rest) = (some tick, rest)

abbrev schedule : Schedule
schedule = record { State = List ℤ; next = next_tick; display = λ t. "0 7 * * *" }

schedule_stays : (s : List ℤ) → (next_tick s).0 ≡ none → (next_tick (next_tick s).1).0 ≡ none
schedule_stays [] h = refl
schedule_stays (tick ∷ rest) h = cc

abbrev args : ℕ
args = 0

abbrev mornings : List ℤ
mornings = pos 700 ∷ pos 1700 ∷ []

ticks_are_settled_example :
    let this =
      polls schedule args
        ((1, pos 650, false) ∷ (2, pos 700, true) ∷ (3, pos 1800, false) ∷ [])
        (into_stream schedule args mornings) in
    this.given ≡ ticks schedule args this.settled ++ waiting schedule args this.asleep
ticks_are_settled_example =
    (ticks_are_settled schedule args
      ((1, pos 650, false) ∷ (2, pos 700, true) ∷ (3, pos 1800, false) ∷ []) mornings).0

push_up : ℕ → ℕ → Result String (Unit {0}) × ℕ
push_up n pushed = (ok tt, n)

abbrev over : CronStream schedule args
over = record { schedule = []; asleep = none; given = []; settled = [] }

exhausted_schedule_spins_example :
    (pipe_heartbeat schedule args (λ n. n) (pos 1800) (λ n. true) push_up 1_000 over 0).0 ≡ false
exhausted_schedule_spins_example =
    (exhausted_schedule_spins schedule args (λ n. n) (pos 1800) (λ n. true) push_up schedule_stays
      1_000 over 0 refl refl).0
