-- ===== src/Worker/Shutdown.antt =====
-- How a worker winds down: what may happen to its context, and what holds at the end.
use apalis_cron_jobs.Prelude.{
  zero, ◌∙◌, ◌==◌, inl, inr, Bool-cases, false, ℕ, suc, ◌+◌, ◌^◌, ◌≡◌, ◌<◌, refl, ◌↔◌, Bool, true,
  Option, some, arith,
}
use apalis_cron_jobs.Worker.{
  Context, new, start, wake, stop, start_task, end_task, is_shutting_down, is_ready, poll_ready,
  poll,
}

-- A worker with its live tasks: a task is tracked when it is called and ends once. At most so many are
-- live at a time as the counter can hold.
pub data Step : Context × ℕ → Context × ℕ → Type 0 where
  starts : (ctx : Context) (n : ℕ) → Step (ctx, n) (start ctx, n)
  stops : (ctx : Context) (n : ℕ) → Step (ctx, n) (stop ctx, n)
  tracks : (ctx : Context) (n : ℕ) → n + 1 < 2 ^ 64 → Step (ctx, n) (start_task ctx, suc n)
  ends : (ctx : Context) (n : ℕ) → Step (ctx, suc n) (end_task ctx, n)
  asks : (ctx : Context) (n : ℕ) (ready : Bool) → Step (ctx, n) (poll_ready ready ctx, n)
  polls : (ctx : Context) (n : ℕ) → Step (ctx, n) ((poll ctx).1, n)
  -- The monitor's token is called.
  signals : (ctx : Context) (n : ℕ) → Step (ctx, n) (record ctx { shutdown = some true }, n)

pub data Reach (shutdown : Option Bool) : Context × ℕ → Type 0 where
  fresh : Reach shutdown (new shutdown, 0)
  next : {s t : Context × ℕ} → Reach shutdown s → Step s t → Reach shutdown t

Counts : Context × ℕ → Type 0
Counts s = (s.0.task_count ≡ s.1) × (s.1 < 2 ^ 64)

Step-Counts : {s t : Context × ℕ} → Step s t → Counts s → Counts t
unfolding Counts start stop wake start_task end_task poll_ready poll
Step-Counts (starts ctx n) h = h
Step-Counts (stops ctx n) h = h
Step-Counts (tracks ctx n fits) h = omega arith
Step-Counts (ends ctx n) h = ground arith
Step-Counts (asks ctx n ready) h = h
Step-Counts (polls ctx n) h = ground arith
Step-Counts (signals ctx n) h = h

Reach-Counts : {shutdown : Option Bool} {s : Context × ℕ} → Reach shutdown s → Counts s
unfolding Counts new
Reach-Counts fresh = (refl, omega arith)
Reach-Counts (next r st) = Step-Counts st (Reach-Counts r)

-- In every state that a worker can reach, its future is done exactly when it is shutting down and no
-- task is live; and then it is not ready for new ones.
pub poll_done_iff :
    (shutdown : Option Bool) (ctx : Context) (n : ℕ)
    → Reach shutdown (ctx, n)
    → (((poll ctx).0 ≡ true) ↔ ((is_shutting_down ctx ≡ true) × (n ≡ 0)))
      × (((poll ctx).0 ≡ true) → is_ready ctx ≡ false)
unfolding poll is_ready Counts
poll_done_iff shutdown ctx n r =
    let counted = Reach-Counts r in ((λ h. ground arith, λ h. ground arith), λ h. ground arith)

-- The end of the last task wakes the worker where its last poll left it waiting.
pub last_task_wakes :
    (shutdown : Option Bool) (ctx : Context)
    → Reach shutdown (ctx, 1)
    → ctx.waker ≡ true
    → ((end_task ctx).woken ≡ true) × ((end_task ctx).task_count ≡ 0)
unfolding end_task wake Counts
last_task_wakes shutdown ctx r waits = let counted = Reach-Counts r in ground arith

-- So many of the live tasks end.
pub end_tasks : ℕ → Context → Context
end_tasks zero ctx = ctx
end_tasks (suc k) ctx = end_tasks k (end_task ctx)

-- What the end of a task leaves of a worker that is shutting down.
end_task_lem :
    (ctx : Context) (n : ℕ)
    → Counts (ctx, suc n)
    → Counts (end_task ctx, n)
      × (is_shutting_down (end_task ctx) ≡ is_shutting_down ctx)
      × (n ≡ 0 → ctx.waker ≡ true → (end_task ctx).woken ≡ true)
      × (0 < n → (end_task ctx).waker ≡ ctx.waker)
unfolding Counts end_task wake is_shutting_down
end_task_lem ctx n counted = (
  ground (arith, counted),
  ground (arith, counted),
  λ last waits. ground (arith, counted),
  λ more. ground (arith, counted),
)

drains :
    (n : ℕ) (ctx : Context)
    → Counts (ctx, n)
    → is_shutting_down ctx ≡ true
    → ((k : ℕ) → k < n → (poll (end_tasks k ctx)).0 ≡ false)
      × ((poll (end_tasks n ctx)).0 ≡ true)
      × (0 < n → ctx.waker ≡ true → (end_tasks n ctx).woken ≡ true)
unfolding Counts end_tasks poll
drains zero ctx counted over =
    (λ k less. ground arith, ground (arith, counted, over), λ less waker. ground arith)
drains (suc n) ctx counted over =
    let (fewer, still, last, kept) = end_task_lem ctx n counted in
    let (waits, done, woken) = drains n (end_task ctx) fewer (still ∙ over) in
    (
      early waits,
      done,
      λ some waker. elim (Bool-cases (n == 0)) [
        | inl none_left ↦ ground (arith, last, none_left, waker)
        | inr more ↦ ground (arith, woken, kept, more, waker)
      ],
    )
  where
    early :
        ((k : ℕ) → k < n → (poll (end_tasks k (end_task ctx))).0 ≡ false)
        → (k : ℕ) → k < suc n
        → (poll (end_tasks k ctx)).0 ≡ false
    early waits zero less = ground (arith, counted)
    early waits (suc k) less = waits k (omega (arith, less))

-- A worker that is shutting down with so many live tasks, in any state that it can reach, is done
-- when they have all ended, and not before; and where its last poll left it
-- waiting, the end of the last one wakes it.
pub shutdown_drains :
    (shutdown : Option Bool) (ctx : Context) (n : ℕ)
    → Reach shutdown (ctx, n)
    → is_shutting_down ctx ≡ true
    → ((k : ℕ) → k < n → (poll (end_tasks k ctx)).0 ≡ false)
      × ((poll (end_tasks n ctx)).0 ≡ true)
      × (0 < n → ctx.waker ≡ true → (end_tasks n ctx).woken ≡ true)
shutdown_drains shutdown ctx n r over = drains n ctx (Reach-Counts r) over
