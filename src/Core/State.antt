-- ===== src/Core/State.antt =====
-- packages/apalis-core/src/request.rs: the states of a job and their spelling in the databases.
use text.Mathlib.Text.{◌==◌}
use text.Mathlib.TextEquality.{eq_iff}
use apalis_cron_jobs.Prelude.{◌≡◌, refl, ◌⊎◌, String, ◌||◌, if◌then◌else◌, arith}
use apalis_cron_jobs.Prelude.Outcome.{Result, ok, err}
use apalis_cron_jobs.Core.Error.{Error, missing_data}

pub data State : Type 0 where
  pending scheduled running done failed killed : State

-- `impl Display for State`.
unfoldable pub display : State → String
display pending = "Pending"
display running = "Running"
display done = "Done"
display failed = "Failed"
display killed = "Killed"
display scheduled = "Scheduled"

-- `impl FromStr for State`.
unfoldable pub from_str : String → Result Error State
from_str s =
    if s == "Pending" || s == "Latest"
    then ok pending
    else if s == "Running"
    then ok running
    else if s == "Done"
    then ok done
    else if s == "Failed"
    then ok failed
    else if s == "Killed"
    then ok killed
    else if s == "Scheduled"
    then ok scheduled
    else err (missing_data "Invalid Job state")

-- What `Display` writes into a row is read back as the same state.
pub from_str-display : (s : State) → from_str (display s) ≡ ok s
unfolding from_str display
from_str-display pending = refl
from_str-display scheduled = refl
from_str-display running = refl
from_str-display done = refl
from_str-display failed = refl
from_str-display killed = refl

-- A text that is read as a state is that state's spelling, or the old spelling of `Pending`.
pub display-from_str :
    (t : String) (s : State)
    → from_str t ≡ ok s
    → (t ≡ display s) ⊎ ((t ≡ "Latest") × (s ≡ pending))
unfolding from_str display
display-from_str t s h = ground (
  arith,
  eq_iff t "Pending",
  eq_iff t "Latest",
  eq_iff t "Running",
  eq_iff t "Done",
  eq_iff t "Failed",
  eq_iff t "Killed",
  eq_iff t "Scheduled",
)
