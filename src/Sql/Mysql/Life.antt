-- ===== src/Sql/Mysql/Life.antt =====
-- The life of the job table on MySQL: any sequence of the storage's writes, from any workers.
use apalis_cron_jobs.Prelude.{
  ℕ, ◌^◌, ◌≡◌, refl, sym, subst, String, Bool, not, ◌&&◌, ◌||◌, none, some, [], ltb, leb, ◌==◌,
  tally, arith, inl, inr, Bool-cases, Option-cases, ◌+◌, ◌≤◌, if◌then◌else◌,
}
use apalis_cron_jobs.Prelude.Int.{ℤ, pos, ◌+ℤ◌}
use apalis_cron_jobs.Prelude.Outcome.{Result, ok, err, Result-cases}
use apalis_cron_jobs.Core.State.{State}
use apalis_cron_jobs.Core.Request.{Request}
use apalis_cron_jobs.Core.Response.{Response}
use apalis_cron_jobs.Sql.Context.{Config, SqlContext, calculate_status}
use apalis_cron_jobs.Sql.Engine.{SqlError, Engine}
use apalis_cron_jobs.Sql.Table.{Row, Tables, known, is_done, is_null, row, Unique, is_running}
use apalis_cron_jobs.Sql.Rows.{lock_row, new_row, held_by, orphan_row, may_refer, context_row}
use apalis_cron_jobs.Sql.Invariant.{
  loose, Inv, update-Inv, store-Inv, select-Inv, calculate_status-settled, more-Inv, write-Inv,
  Inv-add_zero,
}
use apalis_cron_jobs.Sql.Mysql.{
  keep_alive_at, push_request, push_raw_request, schedule_request, reschedule, vacuum, retry, kill,
  reenqueue_orphaned, ack_job, update, datetime_or_null,
}
use apalis_cron_jobs.Sql.Mysql.Stream.{lock_jobs, listed, lockable}

module _ {Args Raw : Type 0} (E : Engine Args Raw) (config : Config)
    (as_datetime : ℤ → Result SqlError ℤ) (too_long : String → Bool)
    (encode_raw : Raw → Result String Raw) where
  -- The writes of the storage.
  pub data Step (db db' : Tables Raw) : Type 1 where
    beats :
        (w : ℕ) (layers : String) (now : ℤ)
        → db' ≡ (keep_alive_at E config w layers now db).1
        → Step db db'
    pushes :
        (req : Request Args SqlContext) (now : ℤ)
        → db' ≡ (push_request E config req now db).1
        → Step db db'
    pushes_raw :
        (req : Request Raw SqlContext) (now : ℤ)
        → db' ≡ (push_raw_request E config encode_raw req now db).1
        → Step db db'
    schedules :
        (req : Request Args SqlContext) (on : ℤ)
        → db' ≡ (schedule_request E config req on db).1
        → Step db db'
    locks :
        (w : ℕ) (now : ℤ) (skipped : ℕ → Bool)
        → db' ≡ (lock_jobs E config w now skipped db).1
        → Step db db'
    reschedules :
        (job : Request Args SqlContext) (wait : ℕ) (now : ℤ)
        → db' ≡ (reschedule E config as_datetime job wait now db).1
        → Step db db'
    retries : (w id : ℕ) → db' ≡ (retry E config w id db).1 → Step db db'
    kills : (w id : ℕ) (now : ℤ) → db' ≡ (kill E config w id now db).1 → Step db db'
    recovers :
        (count : ℕ) (dead_since : ℤ)
        → db' ≡ (reenqueue_orphaned E config count dead_since db).1
        → Step db db'
    acks :
        {Res : Type 0} (ctx : SqlContext) (res : Response Res) (result : Result String String)
        (now : ℤ)
        → db' ≡ (ack_job E config too_long ctx res result now db).1
        → Step db db'
    updates :
        (job : Request Args SqlContext) → db' ≡ (update E config as_datetime job db).1 → Step db db'
    vacuums : db' ≡ (vacuum E config db).1 → Step db db'

  pub data Reach : Tables Raw → Type 1 where
    start : Reach (record { jobs = []; workers = [] })
    next : {db db' : Tables Raw} → Reach db → Step db db' → Reach db'

  keep_alive-Inv :
      {n : ℕ} (w : ℕ) (layers : String) (now : ℤ) (db : Tables Raw)
      → Inv n db
      → Inv n (keep_alive_at E config w layers now db).1
  unfolding keep_alive_at
  keep_alive-Inv w layers now db v = elim (Bool-cases (known w db.workers)) [
    | inl here ↦ rw (here, keep_alive_at) v
    | inr fresh ↦ rw (fresh, keep_alive_at) (record { unique = v.unique; held = v.held })
  ]

  lock_jobs-Inv :
      {n : ℕ} (w : ℕ) (now : ℤ) (skipped : ℕ → Bool) (db : Tables Raw)
      → Inv n db
      → Inv n (lock_jobs E config w now skipped db).1
  unfolding lock_jobs
  lock_jobs-Inv w now skipped db v =
      let p = lockable E config (listed E config now skipped db.jobs) in
      elim (Bool-cases (known w db.workers || tally p db.jobs == 0)) [
        | inl may ↦
            rw (may, lock_jobs)
              (update-Inv p (lock_row E config w now) db (λ r. refl) (λ r. refl) v)
        | inr unmet ↦ rw (unmet, lock_jobs) v
      ]

  reschedule-Inv :
      {n : ℕ} (job : Request Args SqlContext) (wait : ℕ) (now : ℤ) (db : Tables Raw)
      → Inv n db
      → Inv n (reschedule E config as_datetime job wait now db).1
  unfolding reschedule
  reschedule-Inv job wait now db v = elim (Bool-cases (leb (2 ^ 63) wait)) [
    | inl long ↦ rw (long, reschedule) v
    | inr short ↦ elim (Bool-cases (is_null (row job.parts.task_id db.jobs))) [
      | inl gone ↦ rw (short, gone, reschedule) v
      | inr there ↦ elim (Result-cases (as_datetime (now +ℤ pos wait))) [
        | inr (e, k) ↦ rw (short, there, k, reschedule) v
        | inl (run_at, k) ↦
            rw (short, there, k, reschedule)
              (update-Inv (λ (r : Row Raw). r.id == job.parts.task_id)
                (λ r. record r {
                  status = State.pending;
                  done_at = none;
                  lock_by = none;
                  lock_at = none;
                  run_at = run_at;
                })
                db (λ r. refl) (λ r. refl) v)
      ]
    ]
  ]

  ack-Inv :
      {n : ℕ} {Res : Type 0} (ctx : SqlContext) (res : Response Res) (result : Result String String)
      (now : ℤ) (db : Tables Raw)
      → Inv n db
      → Inv n (ack_job E config too_long ctx res result now db).1
  unfolding ack_job
  ack-Inv {n} ctx res (err e) now db v = elim (Option-cases ctx.lock_by) [
    | inl unlocked ↦ subst (Inv n) (sym (ground arith)) v
    | inr (w, locked) ↦ subst (Inv n) (sym (ground arith)) v
  ]
  ack-Inv {n} ctx res (ok text) now db v = elim (Option-cases ctx.lock_by) [
    | inl unlocked ↦ subst (Inv n) (sym (ground arith)) v
    | inr (w, locked) ↦
        elim (Bool-cases
          (ltb 0 (tally (held_by E config w res.task_id) db.jobs) && too_long text)) [
            | inl fails ↦ subst (Inv n) (sym (ground arith)) v
            | inr fits ↦
                let change : Row Raw → Row Raw = λ r. record r {
                  status = calculate_status ctx res;
                  done_at = some now;
                  last_error = some text;
                  attempts = res.attempt;
                } in
                let settled = calculate_status-settled ctx res.task_id res.attempt res.inner in
                subst (Inv n) (sym (ground arith)) (
                  update-Inv (held_by E config w res.task_id) change db (λ r. refl)
                    (λ r. ground (arith, settled)) v)
          ]
  ]

  -- Whether an update writes that a job runs without a lock.
  abbrev unlocks : Request Args SqlContext → ℕ
  unlocks job =
      if is_running job.parts.context.status && is_null job.parts.context.lock_by then 1 else 0

  -- How many of a history's calls are such updates.
  abbrev pub unlocked_by : {db db' : Tables Raw} → Step db db' → ℕ
  unlocked_by (updates job e) = unlocks job
  unlocked_by _ = 0

  update-Inv_step :
      {n : ℕ} (job : Request Args SqlContext) (db : Tables Raw)
      → Inv n db
      → Inv (n + unlocks job) (update E config as_datetime job db).1
  unfolding update
  update-Inv_step {n} job db v =
      let ctx = job.parts.context in
      let kept = more-Inv (n + unlocks job) db (omega arith) v in
      elim (Bool-cases (leb (2 ^ 63) job.parts.attempt)) [
        | inl large ↦ rw (large, update) kept
        | inr small ↦ elim (Bool-cases (is_null (row job.parts.task_id db.jobs))) [
          | inl gone ↦ rw (small, gone, update) kept
          | inr there ↦ elim (Bool-cases (leb (2 ^ 31) job.parts.attempt)) [
            | inl big ↦ rw (small, there, big, update) kept
            | inr fits ↦ elim (Result-cases (datetime_or_null E config as_datetime ctx.done_at)) [
              | inr (e, k) ↦ rw (small, there, fits, k, update) kept
              | inl (done_at, k) ↦
                  elim (Result-cases (datetime_or_null E config as_datetime ctx.lock_at)) [
                    | inr (e, l) ↦ rw (small, there, fits, k, l, update) kept
                    | inl (lock_at, l) ↦
                        elim (Bool-cases (may_refer E config ctx.lock_by db.workers)) [
                          | inl allowed ↦
                              rw (small, there, fits, k, l, allowed, update)
                                (write-Inv job.parts.task_id
                                  (context_row E config job.parts.attempt
                                    (record ctx { done_at = done_at; lock_at = lock_at }))
                                  db (is_running ctx.status && is_null ctx.lock_by) (λ r. refl)
                                  (λ r. refl) v)
                          | inr unmet ↦ rw (small, there, fits, k, l, unmet, update) kept
                        ]
                  ]
            ]
          ]
        ]
      ]

  Step-Inv :
      {n : ℕ} {db db' : Tables Raw} (step : Step db db') → Inv n db → Inv (n + unlocked_by step) db'
  unfolding push_request push_raw_request schedule_request retry kill reenqueue_orphaned vacuum
  Step-Inv {db} (beats w layers now e) v = rw e (keep_alive-Inv w layers now db (Inv-add_zero v))
  Step-Inv {db} (pushes req now e) v = rw e (
      store-Inv _ (λ (raw : Raw). new_row E config raw req.parts now) req.parts db (λ raw. refl)
        (Inv-add_zero v))
  Step-Inv {db} (pushes_raw req now e) v = rw e (
      store-Inv _ (λ (raw : Raw). new_row E config raw req.parts now) req.parts db (λ raw. refl)
        (Inv-add_zero v))
  Step-Inv {db} (schedules req on e) v = rw e (
      store-Inv _ (λ (raw : Raw). new_row E config raw req.parts on) req.parts db (λ raw. refl)
        (Inv-add_zero v))
  Step-Inv {db} (locks w now skipped e) v = rw e (lock_jobs-Inv w now skipped db (Inv-add_zero v))
  Step-Inv {db} (reschedules job wait now e) v =
      rw e (reschedule-Inv job wait now db (Inv-add_zero v))
  Step-Inv {db} (retries w id e) v = rw e (
      update-Inv (held_by E config w id)
        (λ r. record r { status = State.pending; done_at = none; lock_by = none }) db (λ r. refl)
        (λ r. refl) (Inv-add_zero v))
  Step-Inv {db} (kills w id now e) v = rw e (
      update-Inv (held_by E config w id)
        (λ r. record r { status = State.killed; done_at = some now }) db (λ r. refl) (λ r. refl)
        (Inv-add_zero v))
  Step-Inv {db} (recovers count dead_since e) v =
      rw e (update-Inv _ (orphan_row E config) db (λ r. refl) (λ r. refl) (Inv-add_zero v))
  Step-Inv {db} (acks ctx res result now e) v =
      rw e (ack-Inv ctx res result now db (Inv-add_zero v))
  Step-Inv {db} (updates job e) v = rw e (update-Inv_step job db v)
  Step-Inv {db} (vacuums e) v = rw e (select-Inv (λ r. not (is_done r.status)) db (Inv-add_zero v))

  -- The updates of a history that write that a job runs without a lock.
  abbrev pub unlocked : {db : Tables Raw} → Reach db → ℕ
  unlocked start = 0
  unlocked (next r s) = unlocked r + unlocked_by s

  -- From empty tables, after any writes of the MySQL storage, ids are unique, and no more jobs run
  -- without a lock than `update` was told to leave so: without such an update, none.
  pub Reach-Locked :
      {db : Tables Raw} (r : Reach db) → Unique db.jobs × (loose db.jobs ≤ unlocked r)
  Reach-Locked r = let v = reached r in (v.unique, v.held)
    where
      reached : {db : Tables Raw} (r : Reach db) → Inv (unlocked r) db
      reached start = record { unique = λ i. omega arith; held = omega arith }
      reached (next r s) = Step-Inv s (reached r)
