-- ===== src/Sql/Sqlite/Life.antt =====
-- The life of the job table: any sequence of the storage's writes, from any workers.
use apalis_cron_jobs.Sql.Rows.{may_refer, context_row}
use apalis_cron_jobs.Prelude.{
  ℕ, ◌%◌, ◌^◌, ◌≡◌, refl, sym, subst, inl, inr, String, not, ◌&&◌, none, some, List, [], ltb, ◌==◌,
  arith, Bool-cases, Option-cases, ◌+◌, ◌≤◌, ◌||◌, if◌then◌else◌, leb,
}
use apalis_cron_jobs.Prelude.Int.{ℤ, pos, ◌+ℤ◌}
use apalis_cron_jobs.Prelude.Outcome.{Result, ok, err}
use apalis_cron_jobs.Core.State.{State}
use apalis_cron_jobs.Core.Request.{Request}
use apalis_cron_jobs.Core.Response.{Response}
use apalis_cron_jobs.Sql.Context.{Config, SqlContext, calculate_status}
use apalis_cron_jobs.Sql.Engine.{Engine}
use apalis_cron_jobs.Sql.Table.{Row, WorkerRow, Tables, is_done, Unique, is_running, is_null, row}
use apalis_cron_jobs.Sql.Invariant.{
  loose, Inv, loose-update_where, update-Inv, store-Inv, select-Inv, calculate_status-settled,
  more-Inv, write-Inv, Inv-add_zero,
}
use apalis_cron_jobs.Sql.Sqlite.{
  fetch_next, push_request, push_raw_request, schedule_request, reschedule, vacuum, retry, kill,
  reenqueue_orphaned, ack, free, lock_row, held_by, orphans, among, orphan_row, reschedule_row,
  new_row, update,
}
use apalis_cron_jobs.Sql.Sqlite.Locks.{fetch_next-Unique_lem}

module _ {Args Raw : Type 0} (E : Engine Args Raw) (config : Config) where
  -- The writes of the storage.
  pub data Step (db db' : Tables Raw) : Type 1 where
    pushes :
        (req : Request Args SqlContext) (now : ℤ)
        → db' ≡ (push_request E config req now db).1
        → Step db db'
    pushes_raw :
        (encode_raw : Raw → Result String Raw) (req : Request Raw SqlContext) (now : ℤ)
        → db' ≡ (push_raw_request E config encode_raw req now db).1
        → Step db db'
    schedules :
        (req : Request Args SqlContext) (on : ℤ)
        → db' ≡ (schedule_request E config req on db).1
        → Step db db'
    fetches : (w : ℕ) (now : ℤ) (id : ℕ) → db' ≡ (fetch_next E config w now id db).1 → Step db db'
    reschedules :
        (job : Request Args SqlContext) (wait : ℕ) (now : ℤ)
        → db' ≡ (reschedule E config job wait now db).1
        → Step db db'
    retries : (w id : ℕ) → db' ≡ (retry E config w id db).1 → Step db db'
    kills : (w id : ℕ) (now : ℤ) → db' ≡ (kill E config w id now db).1 → Step db db'
    recovers :
        (count dead_since : ℤ)
        → db' ≡ (reenqueue_orphaned E config count dead_since db).1
        → Step db db'
    acks :
        {Res : Type 0} (ctx : SqlContext) (res : Response Res) (result : Result String String)
        (now : ℤ)
        → db' ≡ (ack E config ctx res result now db).1
        → Step db db'
    updates : (job : Request Args SqlContext) → db' ≡ (update E config job db).1 → Step db db'
    vacuums : db' ≡ (vacuum E config db).1 → Step db db'

  pub data Reach : Tables Raw → Type 1 where
    start : (workers : List WorkerRow) → Reach (record { jobs = []; workers = workers })
    next : {db db' : Tables Raw} → Reach db → Step db db' → Reach db'
    -- Workers come and are seen, in the other table.
    beats :
        {db : Tables Raw}
        → Reach db
        → (workers : List WorkerRow) → Reach (record db { workers = workers })

  fetch_next-Inv :
      {n : ℕ} (w : ℕ) (now : ℤ) (id : ℕ) (db : Tables Raw)
      → Inv n db
      → Inv n (fetch_next E config w now id db).1
  unfolding fetch_next
  fetch_next-Inv w now id db v = record {
    unique = fetch_next-Unique_lem E config w now id db v.unique;
    held = ground (
      arith,
      loose-update_where (λ (r : Row Raw). r.id == id && free E config r) (lock_row E config w now)
          (λ r. refl) db.jobs,
      v.held,
    );
  }

  push-Inv :
      {n : ℕ} (req : Request Args SqlContext) (now : ℤ) (db : Tables Raw)
      → Inv n db
      → Inv n (push_request E config req now db).1
  unfolding push_request
  push-Inv req now db v =
      store-Inv _ (λ (raw : Raw). new_row E config raw req.parts now) req.parts db (λ raw. refl) v

  schedule-Inv :
      {n : ℕ} (req : Request Args SqlContext) (on : ℤ) (db : Tables Raw)
      → Inv n db
      → Inv n (schedule_request E config req on db).1
  unfolding schedule_request
  schedule-Inv req on db v =
      store-Inv _ (λ (raw : Raw). new_row E config raw req.parts on) req.parts db (λ raw. refl) v

  reschedule-Inv :
      {n : ℕ} (job : Request Args SqlContext) (wait : ℕ) (now : ℤ) (db : Tables Raw)
      → Inv n db
      → Inv n (reschedule E config job wait now db).1
  unfolding reschedule
  reschedule-Inv job wait now db v = elim (Bool-cases (ltb wait (2 ^ 63))) [
    | inl short ↦
        rw (short, reschedule)
          (update-Inv (λ r. r.id == job.parts.task_id) (reschedule_row E config (now +ℤ pos wait))
            db (λ r. refl) (λ r. refl) v)
    | inr long ↦ rw (long, reschedule) v
  ]

  ack-Inv :
      {n : ℕ} {Res : Type 0} (ctx : SqlContext) (res : Response Res) (result : Result String String)
      (now : ℤ) (db : Tables Raw)
      → Inv n db
      → Inv n (ack E config ctx res result now db).1
  unfolding ack
  ack-Inv {n} ctx res (err e) now db v = v
  ack-Inv {n} ctx res (ok text) now db v = elim (Option-cases ctx.lock_by) [
    | inl unlocked ↦ subst (Inv n) (sym (ground arith)) v
    | inr (w, locked) ↦
        let change : Row Raw → Row Raw = λ r. record r {
          status = calculate_status ctx res;
          attempts = res.attempt % 2 ^ 32;
          done_at = some now;
          last_error = some text;
        } in
        let settled = calculate_status-settled ctx res.task_id res.attempt res.inner in
        subst (Inv n) (sym (ground arith)) (
          update-Inv (held_by E config w res.task_id) change db (λ r. refl)
            (λ r. ground (arith, settled)) v)
  ]

  -- Whether an update writes that a job runs without a lock.
  abbrev unlocks : Request Args SqlContext → ℕ
  unlocks job =
      if is_running job.parts.context.status && is_null job.parts.context.lock_by then 1 else 0

  -- How many of a history's calls are such updates.
  abbrev pub unlocked_by : {db db' : Tables Raw} → Step db db' → ℕ
  unlocked_by (updates job e) = unlocks job
  unlocked_by _ = 0

  update-Inv_step :
      {n : ℕ} (job : Request Args SqlContext) (db : Tables Raw)
      → Inv n db
      → Inv (n + unlocks job) (update E config job db).1
  unfolding update
  update-Inv_step {n} job db v =
      let kept = more-Inv (n + unlocks job) db (omega arith) v in
      let may =
        is_null (row job.parts.task_id db.jobs)
        || may_refer E config job.parts.context.lock_by db.workers in
      elim (Bool-cases (leb (2 ^ 63) job.parts.attempt)) [
        | inl large ↦ rw (large, update) kept
        | inr small ↦ elim (Bool-cases may) [
          | inl allowed ↦
              rw (small, allowed, update)
                (write-Inv job.parts.task_id
                  (context_row E config job.parts.attempt job.parts.context) db
                  (is_running job.parts.context.status && is_null job.parts.context.lock_by)
                  (λ r. refl) (λ r. refl) v)
          | inr unmet ↦ rw (small, unmet, update) kept
        ]
      ]

  Step-Inv :
      {n : ℕ} {db db' : Tables Raw} (step : Step db db') → Inv n db → Inv (n + unlocked_by step) db'
  unfolding push_raw_request retry kill reenqueue_orphaned vacuum
  Step-Inv {db} (pushes req now e) v = rw e (push-Inv req now db (Inv-add_zero v))
  Step-Inv {db} (pushes_raw encode_raw req now e) v = rw e (
      store-Inv _ (λ (raw : Raw). new_row E config raw req.parts now) req.parts db (λ raw. refl)
        (Inv-add_zero v))
  Step-Inv {db} (schedules req on e) v = rw e (schedule-Inv req on db (Inv-add_zero v))
  Step-Inv {db} (fetches w now id e) v = rw e (fetch_next-Inv w now id db (Inv-add_zero v))
  Step-Inv {db} (reschedules job wait now e) v =
      rw e (reschedule-Inv job wait now db (Inv-add_zero v))
  Step-Inv {db} (retries w id e) v = rw e (
      update-Inv (held_by E config w id)
        (λ r. record r { status = State.pending; done_at = none; lock_by = none }) db (λ r. refl)
        (λ r. refl) (Inv-add_zero v))
  Step-Inv {db} (kills w id now e) v = rw e (
      update-Inv (held_by E config w id)
        (λ r. record r { status = State.killed; done_at = some now }) db (λ r. refl) (λ r. refl)
        (Inv-add_zero v))
  Step-Inv {db} (recovers count dead_since e) v = rw e (
      update-Inv (among E config (orphans E config count dead_since db)) (orphan_row E config) db
        (λ r. refl) (λ r. refl) (Inv-add_zero v))
  Step-Inv {db} (acks ctx res result now e) v =
      rw e (ack-Inv ctx res result now db (Inv-add_zero v))
  Step-Inv {db} (updates job e) v = rw e (update-Inv_step job db v)
  Step-Inv {db} (vacuums e) v = rw e (select-Inv (λ r. not (is_done r.status)) db (Inv-add_zero v))

  -- The updates of a history that write that a job runs without a lock.
  abbrev pub unlocked : {db : Tables Raw} → Reach db → ℕ
  unlocked (start workers) = 0
  unlocked (next r s) = unlocked r + unlocked_by s
  unlocked (beats r workers) = unlocked r

  -- From an empty table, after any writes of the storage, ids are unique, and no more jobs run
  -- without a lock than `update` was told to leave so: without such an update, none.
  pub Reach-Unique :
      {db : Tables Raw} (r : Reach db) → Unique db.jobs × (loose db.jobs ≤ unlocked r)
  Reach-Unique r = let v = reached r in (v.unique, v.held)
    where
      reached : {db : Tables Raw} (r : Reach db) → Inv (unlocked r) db
      reached (start workers) = record { unique = λ i. omega arith; held = omega arith }
      reached (next r s) = Step-Inv s (reached r)
      reached (beats r workers) = let v = reached r in record { unique = v.unique; held = v.held }
