-- ===== src/Redis/Examples.antt =====
-- The theorems on the Redis storage at a small queue, on the server in memory.
use apalis_cron_jobs.Prelude.{
  ℕ, ◌-◌, ◌≤◌, ◌<◌, ◌≡◌, refl, sym, ◌⊎◌, true, false, none, some, [], ◌∷◌, arith, length, take,
  drop, count, min,
}
use apalis_cron_jobs.Prelude.Int.{pos}
use apalis_cron_jobs.Prelude.Outcome.{ok, err}
use apalis_cron_jobs.Core.State.{State}
use apalis_cron_jobs.Core.Error.{DynError, failed}
use apalis_cron_jobs.Core.Request.{Request}
use apalis_cron_jobs.Core.Response.{Response}
use apalis_cron_jobs.Redis.Commands.{Commands, ids}
use apalis_cron_jobs.Redis.Database.{Db, set_at, occ}
use apalis_cron_jobs.Redis.Config.{Config, RedisContext}
use apalis_cron_jobs.Redis.Value.{Codec}
use apalis_cron_jobs.Redis.Reference.Server.{server}
use apalis_cron_jobs.Redis.Scripts.{
  get_jobs, register_consumer, push_job, reenqueue_active_jobs, reenqueue_orphaned_jobs, vacuum,
}
use apalis_cron_jobs.Redis.Scripts.Delivery.{reenqueue_orphaned_jobs_lem}
use apalis_cron_jobs.Redis.Queue.{
  new_db, Inv, start, next as next_state, pushes, registers, fetches,
}
use apalis_cron_jobs.Redis.Queue.Bare.{reenqueue_active_jobs_idle}
use apalis_cron_jobs.Redis.Queue.Invariant.{Reach-Inv, Step-no_loss}
use apalis_cron_jobs.Redis.Storage.{push_request, fetch_next, ack}
use apalis_cron_jobs.Redis.Storage.Methods.{fetch_by_id-push_request, fetch_next_lem}
use apalis_cron_jobs.Redis.Storage.Settling.{ack-Settled, Settled, destination}
use apalis_cron_jobs.Redis.Heartbeat.{poll_next_tick}
use apalis_cron_jobs.Redis.Heartbeat.Turns.{Sends, turns, turns-Sends}
use apalis_cron_jobs.Redis.Expose.{page_ids, all_ids, pages_overlap}

-- A job is stored as it is, less its namespace.
abbrev Job : Type 0
Job = Request ℕ RedisContext

abbrev C : Commands Job
C = server Job

abbrev context : RedisContext
context = record { max_attempts = 5; lock_by = some 1; run_at = none }

abbrev request : ℕ → Job
request id = record {
  args = 40;
  parts = record { task_id = id; attempt = 0; context = context; namespace = none };
}

abbrev codec : Codec ℕ Job
codec = record {
  encode = λ r. ok (record r { parts = record (r.parts) { namespace = none } });
  decode = λ r. ok r;
  encode_result = λ r. ok r;
  to_bytes = λ e. request 0;
  decode-encode = λ r h. sym h;
}

abbrev config : Config
config = record {
  poll_interval = 100;
  buffer_size = 10;
  keep_alive = 30000;
  enqueue_scheduled = 30000;
  reenqueue_orphaned_after = 300000;
  namespace = "mail";
}

alone : (i j : ℕ) → count j (i ∷ []) ≤ 1
alone i j = ground arith

-- Job 7 waits, job 8 is with worker 1.
abbrev db : Db C
unfolding server
db = record {
  active = 7 ∷ [];
  consumers = ((pos 50, 1) ∷ [], tt, alone 1);
  dead = C.no_zset;
  done = C.no_zset;
  failed = C.no_zset;
  inflight = (1, (8 ∷ [], alone 8)) ∷ [];
  inflight_bare = C.no_set;
  data_hash = (7, request 7) ∷ (8, request 8) ∷ [];
  results = [];
  scheduled = C.no_zset;
  signal = [];
}

abbrev failure : Response Job
failure = record { inner = err (failed (DynError.other "no route")); task_id = 8; attempt = 2 }

Reach-Inv_example : Inv C (push_job C 5 (request 5) (new_db C)).0
Reach-Inv_example = Reach-Inv C (next_state start (pushes 5 (request 5) refl))

Step-no_loss_example :
    (occ C 5 (new_db C) ≤ occ C 5 (push_job C 5 (request 5) (new_db C)).0)
    ⊎ (((push_job C 5 (request 5) (new_db C)).0 ≡ (vacuum C (new_db C)).0)
        × (0 < count 5 (ids (C.entries (new_db C).done))))
Step-no_loss_example = Step-no_loss C (pushes 5 (request 5) refl) (Reach-Inv C start) 5

ack-Settled_example :
    ((ack C codec config context failure (pos 60) db).0 ≡ ok tt)
    × Settled C codec config 1 8
        (destination 5 failure)
        (ack C codec config context failure (pos 60) db).1
unfolding server set_at
ack-Settled_example =
    ack-Settled C codec config 1 context (pos 60) failure db (request 8) refl refl refl refl refl
      refl (λ r. (_, refl)) (λ r. (_, refl))

fetch_next_lem_example :
    C.items (fetch_next C codec config 1 (pos 60) db).1.active ≡ drop 10 (C.items db.active)
unfolding server
fetch_next_lem_example = (fetch_next_lem C codec config 1 (pos 60) db refl (omega arith)).1

reenqueue_orphaned_jobs_lem_example : (reenqueue_orphaned_jobs C (pos 55) 3 db).1 ≤ 3
reenqueue_orphaned_jobs_lem_example = (reenqueue_orphaned_jobs_lem C (pos 55) 3 db).0

fetch_by_id-push_request_example :
    (push_request C codec config (request 5) db).0 ≡ ok (request 5).parts
fetch_by_id-push_request_example = (fetch_by_id-push_request C codec config (request 5) db refl).0

pages_overlap_example :
    (length (page_ids C codec State.pending 1 db)
      ≡ min 11 (length (all_ids C codec State.pending db) - 0))
    × (take 1 (page_ids C codec State.pending 2 db) ≡ drop 10 (page_ids C codec State.pending 1 db))
pages_overlap_example = pages_overlap C codec State.pending 0 db

-- The fetch of job 7, and a turn at which the worker was not ready.
turns-Sends_example :
    Sends C codec config 1 1 []
      (turns C codec config 1
        (poll_next_tick true (pos 60) ∷ poll_next_tick false (pos 70) ∷ [])
        (record { db = db; sent = []; emitted = [] })).sent
turns-Sends_example =
    turns-Sends C codec config 1 (poll_next_tick true (pos 60) ∷ poll_next_tick false (pos 70) ∷ [])
      (record { db = db; sent = []; emitted = [] }) (omega arith)

-- Worker 1 registers, job 5 is pushed and fetched.
abbrev fetched : Db C
fetched =
    (get_jobs C 1 10 (register_consumer C (pos 50) 1 (push_job C 5 (request 5) (new_db C)).0)).1

reenqueue_active_jobs_idle_example :
    let db' = reenqueue_active_jobs C (5 ∷ []) fetched in
    (db'.active ≡ fetched.active) × (db'.inflight ≡ fetched.inflight)
reenqueue_active_jobs_idle_example = reenqueue_active_jobs_idle C (5 ∷ []) fetched (
    next_state
      (next_state (next_state start (pushes 5 (request 5) refl)) (registers (pos 50) 1 refl))
      (fetches 1 10 refl))
