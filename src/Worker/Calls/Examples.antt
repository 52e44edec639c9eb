-- ===== src/Worker/Calls/Examples.antt =====
-- The theorems on the calls and the future of a worker, at a service that answers at once.
use apalis_cron_jobs.Prelude.{
  ℕ, suc, ◌≡◌, ◌<◌, refl, true, false, Option, none, some, List, [], ◌∷◌, ◌++◌, length, arith,
  length-append,
}
use apalis_cron_jobs.Prelude.Outcome.{Result, ok, err}
use apalis_cron_jobs.Core.Error.{DynError, boxed, missing_data}
use apalis_cron_jobs.Backend.Channel.{Poll, ready, pending}
use apalis_cron_jobs.Worker.{Context, is_shutting_down, is_ready}
use apalis_cron_jobs.Worker.Calls.{Driver, poll_next, new}
use apalis_cron_jobs.Worker.Calls.Order.{run_polls, calls_in_order, poll_next_returns}
use apalis_cron_jobs.Worker.Jobs.{on_response, on_response_lem}

abbrev read : List ℕ → Poll (Option ℕ) × List ℕ
read [] = (ready none, [])
read (x ∷ xs) = (ready (some x), xs)

abbrev answer : List ℕ → Poll (Option (Result ℕ ℕ)) × List ℕ
answer [] = (ready none, [])
answer (x ∷ xs) = (ready (some (ok x)), xs)

length-answer :
    (q : List ℕ) (a : Result ℕ ℕ)
    → (answer q).0 ≡ ready (some a)
    → length q ≡ suc (length (answer q).1)
length-answer [] a h = cc
length-answer (x ∷ xs) a h = refl

answer-none : (q : List ℕ) → (answer q).0 ≡ ready none → (length q ≡ 0) × (length (answer q).1 ≡ 0)
answer-none [] h = (refl, refl)
answer-none (x ∷ xs) h = cc

answer_ready :
    (q : List ℕ) → (answer q).0 ≡ pending → (0 < length q) × (length (answer q).1 ≡ length q)
answer_ready [] h = cc
answer_ready (x ∷ xs) h = cc

length-read :
    (s : List ℕ) (r : ℕ) → (read s).0 ≡ ready (some r) → length s ≡ suc (length (read s).1)
length-read [] r h = cc
length-read (x ∷ xs) r h = refl

length-call : (r : ℕ) (q : List ℕ) → length (q ++ r ∷ []) ≡ suc (length q)
length-call r q = omega (arith, length-append q (r ∷ []))

abbrev driver : Driver ℕ ℕ ℕ
driver = record {
  Svc = Unit {0};
  Stm = List ℕ;
  Que = List ℕ;
  poll_ready = λ s. (ready (ok tt), s);
  call = λ r sq. (sq.0, sq.1 ++ r ∷ []);
  poll_stream = read;
  poll_queue = answer;
  size = length;
  size-call = λ r s q. length-call r q;
  answered = length-answer;
  exhausted = answer-none;
  waits = answer_ready;
  backlog = length;
  given = length-read;
}

calls_in_order_example :
    let this = run_polls driver (9 ∷ 9 ∷ []) (new driver tt (3 ∷ 4 ∷ []) []) in
    this.called ≡ this.received
calls_in_order_example = (calls_in_order driver (9 ∷ 9 ∷ []) tt (3 ∷ 4 ∷ []) [] refl).0

poll_next_returns_example :
    (p : Poll (Option (Result ℕ ℕ))) × ((poll_next driver 4
        (run_polls driver [] (new driver tt (3 ∷ 4 ∷ []) []))).0
      ≡ some p)
unfolding run_polls new
poll_next_returns_example = poll_next_returns driver [] 4 tt (3 ∷ 4 ∷ []) [] refl (omega arith)

abbrev ctx : Context
ctx = record {
  task_count = 0;
  running = true;
  is_ready_flag = true;
  shutdown = none;
  waker = true;
  woken = false;
}

abbrev lost : Result DynError ℕ
lost = err (boxed (missing_data "no such extension"))

on_response_lem_example :
    (is_shutting_down (on_response lost ctx).0 ≡ true)
    × (is_ready (on_response lost ctx).0 ≡ false)
    × (true ≡ true → (on_response lost ctx).0.woken ≡ true)
on_response_lem_example = (on_response_lem lost ctx).0 "no such extension" refl
