-- ===== src/Redis/Storage/Methods.antt =====
-- What the storage's methods promise their callers.
use apalis_cron_jobs.Prelude.{
  ℕ, ◌<◌, ◌≡◌, refl, inl, inr, ◌↔◌, String, Bool, true, false, Option, none, some, List, [], ◌∷◌,
  map, arith, take, drop, count, Option-cases,
}
use apalis_cron_jobs.Prelude.Int.{ℤ}
use apalis_cron_jobs.Prelude.Outcome.{Result, ok, err, is_ok, map_ok, Result-cases}
use apalis_cron_jobs.Core.Request.{Request}
use apalis_cron_jobs.Redis.Commands.{Commands}
use apalis_cron_jobs.Redis.Config.{Config, RedisContext}
use apalis_cron_jobs.Redis.Value.{RedisError, not_registered, encode_error, Codec, deserialize_job}
use apalis_cron_jobs.Redis.Database.{Db}
use apalis_cron_jobs.Redis.Scripts.Data
use apalis_cron_jobs.Redis.Scripts.Delivery
use apalis_cron_jobs.Redis.Storage.{
  push_request, fetch_by_id, fetch_next, process_jobs, lock_request, keep_alive, is_empty,
}

-- The request as the database gives it back.
abbrev pub stored : {Args : Type 0} → Request Args RedisContext → Request Args RedisContext
stored r = record r { parts = record (r.parts) { namespace = none } }

module _ {Args Bytes : Type 0} (C : Commands Bytes) (K : Codec Args Bytes) (config : Config) where
  open C use {hget, items, zscore}

  found_bytes :
      (db : Db C) (id : ℕ) (req : Request Args RedisContext) {b : Bytes}
      → hget db.data_hash id ≡ some b
      → K.decode b ≡ ok req
      → fetch_by_id C K config id db ≡ (ok (some req), db)
  unfolding fetch_by_id deserialize_job
  found_bytes db id req e d = ground arith

  -- A request that is pushed under a new id is what `fetch_by_id` then returns, less what is not
  -- serialised; under an id that is there already, the old request stays, and the push still
  -- answers with the new parts.
  pub fetch_by_id-push_request :
      (req : Request Args RedisContext) (db : Db C) {b : Bytes}
      → K.encode req ≡ ok b
      → let (reply, db') = push_request C K config req db in
        (reply ≡ ok req.parts)
        × ((hget db.data_hash req.parts.task_id ≡ none)
            → fetch_by_id C K config req.parts.task_id db' ≡ (ok (some (stored req)), db'))
        × ((v : Bytes)
            → hget db.data_hash req.parts.task_id ≡ some v
            → hget db'.data_hash req.parts.task_id ≡ some v)
  unfolding push_request
  fetch_by_id-push_request req db {b} e =
      let id = req.parts.task_id in
      let db' = (push_request C K config req db).1 in
      (
        ground arith,
        (λ fresh.
            found_bytes db' id (stored req) (ground (arith, Data.push_job-data C id b db id))
              (K.decode-encode req e)),
        λ v old. ground (arith, Data.push_job-data C id b db id),
      )

  -- Where a request cannot be encoded nothing is written.
  pub push_request_unencodable :
      (req : Request Args RedisContext) (db : Db C) {t : String}
      → K.encode req ≡ err t
      → push_request C K config req db ≡ (err (encode_error t), db)
  unfolding push_request
  push_request_unencodable req db e = ground arith

  -- `is_empty` is true exactly when no job is active, and asking changes nothing.
  pub is_empty_iff :
      (db : Db C) → ((is_empty C K config db ≡ (ok true, db)) ↔ (items db.active ≡ []))
  unfolding is_empty
  is_empty_iff db = (λ h. ground arith, λ h. ground arith)

  -- Whether an element of a reply is a request that the codec reads.
  abbrev pub readable : Option Bytes → Bool
  readable none = false
  readable (some b) = is_ok (K.decode b)

  -- One job that cannot be read fails the whole batch.
  process_jobs_poisoned :
      (w id : ℕ) (db : Db C) (batch : List ℕ)
      → 0 < count id batch
      → readable (hget db.data_hash id) ≡ false
      → is_ok (process_jobs C K config w (map (hget db.data_hash) batch)) ≡ false
  unfolding process_jobs deserialize_job
  process_jobs_poisoned w id db [] h e = elim h [ ]
  process_jobs_poisoned w id db (x ∷ batch) h e =
      ground (arith, process_jobs_poisoned w id db batch)

  -- The requests of a batch: one for each job, in order, as the job's data reads, but that the
  -- worker holds it and that it has the queue's namespace.
  abbrev pub Given : ℕ → Db C → List ℕ → List (Request Args RedisContext) → Type 0
  Given w db [] [] = Unit {0}
  Given w db [] (req ∷ reqs) = ⊥
  Given w db (id ∷ ids) [] = ⊥
  Given w db (id ∷ ids) (req ∷ reqs) =
      ((b : Bytes) × (read : Request Args RedisContext) × (hget db.data_hash id ≡ some b)
        × (K.decode b ≡ ok read)
        × (req ≡ record read {
          parts = record (read.parts) {
            context = record (read.parts.context) { lock_by = some w };
            namespace = some config.namespace;
          };
        }))
      × Given w db ids reqs

  -- What the batch makes of a fetch: all its requests, or an error, and then one of its jobs cannot
  -- be read.
  abbrev pub Delivered :
      ℕ → Db C → List ℕ → Result RedisError (List (Request Args RedisContext)) → Type 0
  Delivered w db batch (ok reqs) = Given w db batch reqs
  Delivered w db batch (err e) =
      (id : ℕ) × (0 < count id batch) × (readable (hget db.data_hash id) ≡ false)

  Delivered-cons :
      (w id : ℕ) (db : Db C) (batch : List ℕ) (b : Bytes) (read : Request Args RedisContext)
      (r : Result RedisError (List (Request Args RedisContext)))
      → hget db.data_hash id ≡ some b
      → K.decode b ≡ ok read
      → Delivered w db batch r
      → Delivered w db (id ∷ batch) (map_ok (λ reqs. lock_request C K config w read ∷ reqs) r)
  unfolding lock_request
  Delivered-cons w id db batch b read (ok reqs) there reads h = ((b, read, there, reads, refl), h)
  Delivered-cons w id db batch b read (err e) there reads (bad, stands, unread) =
      (bad, ground (arith, stands), unread)

  process_jobs-Delivered :
      (w : ℕ) (db : Db C) (batch : List ℕ)
      → Delivered w db batch (process_jobs C K config w (map (hget db.data_hash) batch))
  unfolding process_jobs deserialize_job
  process_jobs-Delivered w db [] = tt
  process_jobs-Delivered w db (id ∷ batch) = elim (Option-cases (hget db.data_hash id)) [
    | inl gone ↦ rw gone (id, ground arith, ground arith)
    | inr (b, there) ↦ elim (Result-cases (K.decode b)) [
      | inl (req, e) ↦
          rw (there, e)
            (Delivered-cons w id db batch b req
              (process_jobs C K config w (map (hget db.data_hash) batch)) there e
              (process_jobs-Delivered w db batch))
      | inr (t, e) ↦ rw (there, e) (id, ground arith, ground arith)
    ]
  ]

  -- What a registered worker that asks for at least one job gets of the batch at the head of the
  -- active list: its requests, one for each job and in order, each as the job's data reads but held
  -- by the worker and in the queue's namespace; or, exactly where some job of the batch cannot be
  -- read, an error. Whichever it is, the batch has left the active list, and the rest stays.
  pub fetch_next_lem :
      (w : ℕ) (now : ℤ) (db : Db C) {score : ℤ}
      → zscore db.consumers w ≡ some score
      → 0 < config.buffer_size
      → let (reply, db') = fetch_next C K config w now db in
        let batch = take config.buffer_size (items db.active) in
        Delivered w db batch reply
        × (items db'.active ≡ drop config.buffer_size (items db.active))
        × ((id : ℕ)
            → 0 < count id batch
            → readable (hget db.data_hash id) ≡ false
            → is_ok reply ≡ false)
  unfolding fetch_next
  fetch_next_lem w now db e h = elim (Delivery.get_jobs_lem C w config.buffer_size db h) [
    | inl (unregistered, _, _) ↦ cc
    | inr (_, _, reply, active, _, _) ↦
        let batch = take config.buffer_size (items db.active) in
        rw (reply, fetch_next)
          (
            process_jobs-Delivered w db batch,
            active,
            λ id there bad. process_jobs_poisoned w id db batch there bad,
          )
  ]

  -- A worker that is not registered gets an error, and is registered for the next call: nothing else
  -- of the queue changes.
  pub fetch_next_unregistered :
      (w : ℕ) (now : ℤ) (db : Db C)
      → zscore db.consumers w ≡ none
      → 0 < config.buffer_size
      → let (reply, db') = fetch_next C K config w now db in
        (reply ≡ err not_registered)
        × (zscore db'.consumers w ≡ some now)
        × (db'.active ≡ db.active)
        × (db'.inflight ≡ db.inflight)
  unfolding fetch_next keep_alive
  fetch_next_unregistered w now db e h = elim (Delivery.get_jobs_lem C w config.buffer_size db h) [
    | inl (_, reply, same) ↦
        let (seen, active, inflight) = Delivery.register_consumer_lem C now w db in
        rw (reply, same, fetch_next) (refl, seen, active, inflight)
    | inr (s, registered, _, _, _, _) ↦ cc
  ]
