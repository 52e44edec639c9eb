-- ===== src/Sql/Postgres/Life.antt =====
-- The life of the job table on PostgreSQL: any sequence of the storage's writes, from any workers.
use apalis_cron_jobs.Prelude.{
  ℕ, ◌≡◌, refl, String, Bool, false, not, ◌||◌, none, some, List, [], ◌==◌, tally, arith, inl, inr,
  Bool-cases, Option-cases, ◌+◌, ◌≤◌, ◌&&◌, if◌then◌else◌, leb, ◌^◌,
}
use apalis_cron_jobs.Prelude.Int.{ℤ, pos, ◌+ℤ◌}
use apalis_cron_jobs.Prelude.Outcome.{Result}
use apalis_cron_jobs.Core.State.{State}
use apalis_cron_jobs.Core.Request.{Request}
use apalis_cron_jobs.Sql.Context.{Config, SqlContext}
use apalis_cron_jobs.Sql.Engine.{Engine}
use apalis_cron_jobs.Sql.Table.{Row, Tables, known, is_done, is_null, Unique, is_running, row}
use apalis_cron_jobs.Sql.Rows.{lock_row, new_row, held_by, may_refer, context_row}
use apalis_cron_jobs.Sql.Selection.{id_in}
use apalis_cron_jobs.Sql.Invariant.{
  is_loose, loose, Inv, update-Inv, store-Inv, select-Inv, map-Inv, more-Inv, write-Inv,
  Inv-add_zero,
}
use apalis_cron_jobs.Sql.Postgres.{
  keep_alive_at, get_jobs, listed, push_request, push_raw_request, schedule_request, postpone,
  reschedule, vacuum, retry, kill, reenqueue_orphaned, abandon, update,
}
use apalis_cron_jobs.Sql.Postgres.Chunk.{AckRow, about, chosen, all_i32, settle, ack_chunk}
use apalis_cron_jobs.Sql.Postgres.Settling.{settle-id}

module _ {Args Raw : Type 0} (E : Engine Args Raw) (config : Config)
    (encode_raw : Raw → Result String Raw) where
  -- The writes of the storage.
  pub data Step (db db' : Tables Raw) : Type 1 where
    beats :
        (w : ℕ) (layers : String) (now : ℤ)
        → db' ≡ (keep_alive_at E config w layers now db).1
        → Step db db'
    pushes :
        (req : Request Args SqlContext) (now : ℤ)
        → db' ≡ (push_request E config req now db).1
        → Step db db'
    pushes_raw :
        (req : Request Raw SqlContext) (now : ℤ)
        → db' ≡ (push_raw_request E config encode_raw req now db).1
        → Step db db'
    schedules :
        (req : Request Args SqlContext) (on : ℤ)
        → db' ≡ (schedule_request E config req on db).1
        → Step db db'
    locks :
        (w : ℕ) (now : ℤ) (skipped : ℕ → Bool)
        → db' ≡ (get_jobs E config w now skipped db).1
        → Step db db'
    reschedules :
        (job : Request Args SqlContext) (wait : ℕ) (now : ℤ)
        → db' ≡ (reschedule E config job wait now db).1
        → Step db db'
    retries : (w id : ℕ) → db' ≡ (retry E config w id db).1 → Step db db'
    kills : (w id : ℕ) (now : ℤ) → db' ≡ (kill E config w id now db).1 → Step db db'
    recovers :
        (count : ℕ) (dead_since : ℤ)
        → db' ≡ (reenqueue_orphaned E config count dead_since db).1
        → Step db db'
    acks :
        (which : ℕ → ℕ) (w : ℕ) (now : ℤ) (rows : List AckRow)
        → db' ≡ (ack_chunk E config which w now rows db).1
        → Step db db'
    updates : (job : Request Args SqlContext) → db' ≡ (update E config job db).1 → Step db db'
    vacuums : db' ≡ (vacuum E config db).1 → Step db db'

  pub data Reach : Tables Raw → Type 1 where
    start : Reach (record { jobs = []; workers = [] })
    next : {db db' : Tables Raw} → Reach db → Step db db' → Reach db'

  keep_alive-Inv :
      {n : ℕ} (w : ℕ) (layers : String) (now : ℤ) (db : Tables Raw)
      → Inv n db
      → Inv n (keep_alive_at E config w layers now db).1
  unfolding keep_alive_at
  keep_alive-Inv w layers now db v = record { unique = v.unique; held = v.held }

  get_jobs-Inv :
      {n : ℕ} (w : ℕ) (now : ℤ) (skipped : ℕ → Bool) (db : Tables Raw)
      → Inv n db
      → Inv n (get_jobs E config w now skipped db).1
  unfolding get_jobs
  get_jobs-Inv w now skipped db v =
      let p = id_in (listed E config now skipped db.jobs) in
      elim (Bool-cases (known w db.workers || tally p db.jobs == 0)) [
        | inl may ↦
            rw (may, get_jobs) (update-Inv p (lock_row E config w now) db (λ r. refl) (λ r. refl) v)
        | inr unmet ↦ rw (unmet, get_jobs) v
      ]

  settle-tight :
      (which : ℕ → ℕ) (w : ℕ) (now : ℤ) (rows : List AckRow) (r : Row Raw)
      → is_loose r ≡ false
      → is_loose (settle E config which w now rows r) ≡ false
  unfolding settle
  settle-tight which w now rows r tight =
      elim (Option-cases (chosen (which r.id) (about r.id rows))) [
        | inl nothing ↦ ground arith
        | inr (a, there) ↦ ground arith
      ]

  ack-Inv :
      {n : ℕ} (which : ℕ → ℕ) (w : ℕ) (now : ℤ) (rows : List AckRow) (db : Tables Raw)
      → Inv n db
      → Inv n (ack_chunk E config which w now rows db).1
  unfolding ack_chunk
  ack-Inv which w now rows db v = elim (Bool-cases (not (all_i32 rows))) [
    | inl large ↦ rw (large, ack_chunk) v
    | inr small ↦
        elim (Bool-cases (
          known w db.workers
          || tally (λ r. not (is_null (chosen (which r.id) (about r.id rows)))) db.jobs == 0)) [
            | inl may ↦
                rw (small, may, ack_chunk)
                  (map-Inv (settle E config which w now rows) db
                    (settle-id E config which w now rows) (settle-tight which w now rows) v)
            | inr unmet ↦ rw (small, unmet, ack_chunk) v
          ]
  ]

  -- Whether an update writes that a job runs without a lock.
  abbrev unlocks : Request Args SqlContext → ℕ
  unlocks job =
      if is_running job.parts.context.status && is_null job.parts.context.lock_by then 1 else 0

  -- How many of a history's calls are such updates.
  abbrev pub unlocked_by : {db db' : Tables Raw} → Step db db' → ℕ
  unlocked_by (updates job e) = unlocks job
  unlocked_by _ = 0

  update-Inv_step :
      {n : ℕ} (job : Request Args SqlContext) (db : Tables Raw)
      → Inv n db
      → Inv (n + unlocks job) (update E config job db).1
  unfolding update
  update-Inv_step {n} job db v =
      let kept = more-Inv (n + unlocks job) db (omega arith) v in
      let may =
        is_null (row job.parts.task_id db.jobs)
        || may_refer E config job.parts.context.lock_by db.workers in
      elim (Bool-cases (leb (2 ^ 31) job.parts.attempt)) [
        | inl large ↦ rw (large, update) kept
        | inr small ↦ elim (Bool-cases may) [
          | inl allowed ↦
              rw (small, allowed, update)
                (write-Inv job.parts.task_id
                  (context_row E config job.parts.attempt job.parts.context) db
                  (is_running job.parts.context.status && is_null job.parts.context.lock_by)
                  (λ r. refl) (λ r. refl) v)
          | inr unmet ↦ rw (small, unmet, update) kept
        ]
      ]

  Step-Inv :
      {n : ℕ} {db db' : Tables Raw} (step : Step db db') → Inv n db → Inv (n + unlocked_by step) db'
  unfolding push_request push_raw_request schedule_request reschedule retry kill reenqueue_orphaned
      vacuum
  Step-Inv {db} (beats w layers now e) v = rw e (keep_alive-Inv w layers now db (Inv-add_zero v))
  Step-Inv {db} (pushes req now e) v = rw e (
      store-Inv _ (λ (raw : Raw). new_row E config raw req.parts now) req.parts db (λ raw. refl)
        (Inv-add_zero v))
  Step-Inv {db} (pushes_raw req now e) v = rw e (
      store-Inv _ (λ (raw : Raw). new_row E config raw req.parts now) req.parts db (λ raw. refl)
        (Inv-add_zero v))
  Step-Inv {db} (schedules req on e) v = rw e (
      store-Inv _ (λ (raw : Raw). new_row E config raw req.parts on) req.parts db (λ raw. refl)
        (Inv-add_zero v))
  Step-Inv {db} (locks w now skipped e) v = rw e (get_jobs-Inv w now skipped db (Inv-add_zero v))
  Step-Inv {db} (reschedules job wait now e) v = rw e (
      update-Inv (λ (r : Row Raw). r.id == job.parts.task_id) (postpone E config (now +ℤ pos wait))
        db (λ r. refl) (λ r. refl) (Inv-add_zero v))
  Step-Inv {db} (retries w id e) v = rw e (
      update-Inv (held_by E config w id)
        (λ r. record r { status = State.pending; done_at = none; lock_by = none }) db (λ r. refl)
        (λ r. refl) (Inv-add_zero v))
  Step-Inv {db} (kills w id now e) v = rw e (
      update-Inv (held_by E config w id)
        (λ r. record r { status = State.killed; done_at = some now }) db (λ r. refl) (λ r. refl)
        (Inv-add_zero v))
  Step-Inv {db} (recovers count dead_since e) v =
      rw e (update-Inv _ (abandon E config) db (λ r. refl) (λ r. refl) (Inv-add_zero v))
  Step-Inv {db} (acks which w now rows e) v = rw e (ack-Inv which w now rows db (Inv-add_zero v))
  Step-Inv {db} (updates job e) v = rw e (update-Inv_step job db v)
  Step-Inv {db} (vacuums e) v = rw e (select-Inv (λ r. not (is_done r.status)) db (Inv-add_zero v))

  -- The updates of a history that write that a job runs without a lock.
  abbrev pub unlocked : {db : Tables Raw} → Reach db → ℕ
  unlocked start = 0
  unlocked (next r s) = unlocked r + unlocked_by s

  -- From empty tables, after any writes of the PostgreSQL storage, ids are unique, and no more jobs run
  -- without a lock than `update` was told to leave so: without such an update, none.
  pub Reach-Held : {db : Tables Raw} (r : Reach db) → Unique db.jobs × (loose db.jobs ≤ unlocked r)
  Reach-Held r = let v = reached r in (v.unique, v.held)
    where
      reached : {db : Tables Raw} (r : Reach db) → Inv (unlocked r) db
      reached start = record { unique = λ i. omega arith; held = omega arith }
      reached (next r s) = Step-Inv s (reached r)
