-- ===== src/Redis/Heartbeat/Turns.antt =====
-- What the heartbeat of packages/apalis-redis/src/storage.rs sends to its worker's stream, over any turns.
use apalis_cron_jobs.Prelude.{
  ℕ, ◌+◌, ◌*◌, ◌≡◌, ◌≤◌, ◌<◌, refl, ap, sym, ◌∙◌, inl, inr, true, false, none, some, List, [], ◌∷◌,
  ◌++◌, length, take, All, arith, length-take, length-append, Option-cases,
}
use mathlib.Core.List.{append_assoc, append-nil}
use apalis_cron_jobs.Prelude.Int.{ℤ}
use apalis_cron_jobs.Prelude.Outcome.{Result, ok, err}
use apalis_cron_jobs.Core.Request.{Request}
use apalis_cron_jobs.Redis.Commands.{Commands}
use apalis_cron_jobs.Redis.Database.{Db}
use apalis_cron_jobs.Redis.Config.{Config, RedisContext}
use apalis_cron_jobs.Redis.Value.{RedisError, Codec}
use apalis_cron_jobs.Redis.Storage.{fetch_next}
use apalis_cron_jobs.Redis.Storage.Methods.{
  Given, Delivered, fetch_next_lem, fetch_next_unregistered,
}
use apalis_cron_jobs.Redis.Heartbeat.{
  RedisPollError, Wake, keep_alive_tick, enqueue_scheduled_tick, poll_next_tick, id_to_ack,
  reenqueue_orphaned_tick, Beat, turn, note, received,
}

module _ {Args Bytes : Type 0} (C : Commands Bytes) (K : Codec Args Bytes) (config : Config)
    (worker_id : ℕ) where
  open C use {items, zscore}

  abbrev pub LockedBy : Request Args RedisContext → Type 0
  LockedBy r =
      (r.parts.context.lock_by ≡ some worker_id) × (r.parts.namespace ≡ some config.namespace)

  Given-locked :
      (db : Db C) (batch : List ℕ) (reqs : List (Request Args RedisContext))
      → Given C K config worker_id db batch reqs
      → All LockedBy reqs × (length reqs ≡ length batch)
  Given-locked db [] [] h = (tt, refl)
  Given-locked db [] (req ∷ reqs) h = absurd h
  Given-locked db (id ∷ batch) [] h = absurd h
  Given-locked db (id ∷ batch) (req ∷ reqs) ((b, read, there, reads, same), h) =
      let (all, size) = Given-locked db batch reqs h in
      (
        (
          (
            ap (λ (r : Request Args RedisContext). r.parts.context.lock_by) same,
            ap (λ (r : Request Args RedisContext). r.parts.namespace) same,
          ),
          all,
        ),
        omega (arith, size),
      )

  -- A fetch answers with no more requests than the buffer takes, all held by the worker.
  abbrev Fits : Result RedisError (List (Request Args RedisContext)) → Type 0
  Fits (ok reqs) = All LockedBy reqs × (length reqs ≤ config.buffer_size)
  Fits (err e) = Unit {0}

  Delivered-Fits :
      (db : Db C) (reply : Result RedisError (List (Request Args RedisContext)))
      → Delivered C K config worker_id db (take config.buffer_size (items db.active)) reply
      → Fits reply
  Delivered-Fits db (err e) h = tt
  Delivered-Fits db (ok reqs) h =
      let (all, size) = Given-locked db (take config.buffer_size (items db.active)) reqs h in
      (all, omega (arith, size, length-take config.buffer_size (items db.active)))

  fetch_next-Fits :
      (now : ℤ) (db : Db C)
      → 0 < config.buffer_size
      → Fits (fetch_next C K config worker_id now db).0
  fetch_next-Fits now db some_room = elim (Option-cases (zscore db.consumers worker_id)) [
    | inl unknown ↦
        rw ((fetch_next_unregistered C K config worker_id now db unknown some_room).0) tt
    | inr (score, known) ↦
        Delivered-Fits db _ (fetch_next_lem C K config worker_id now db known some_room).0
  ]

  -- What was sent since, with how many polls of a ready worker there were.
  abbrev pub Sends :
      ℕ → List (Request Args RedisContext) → List (Request Args RedisContext) → Type 0
  Sends polls before after =
      (new : List (Request Args RedisContext)) × (after ≡ before ++ new)
      × All LockedBy new
      × (length new ≤ polls * config.buffer_size)

  abbrev pub ready_poll : Wake Bytes → ℕ
  ready_poll (poll_next_tick true now) = 1
  ready_poll _ = 0

  abbrev pub ready_polls : List (Wake Bytes) → ℕ
  ready_polls [] = 0
  ready_polls (wake ∷ wakes) = ready_poll wake + ready_polls wakes

  pub turns : List (Wake Bytes) → Beat C K config worker_id → Beat C K config worker_id
  turns [] beat = beat
  turns (wake ∷ wakes) beat = turns wakes (turn C K config worker_id wake beat)

  nothing-Sends :
      (before after : List (Request Args RedisContext)) → after ≡ before → Sends 0 before after
  nothing-Sends before after same = ([], same ∙ sym (append-nil before), tt, omega arith)

  note-sent :
      {A : Type 0} (kind : RedisError → RedisPollError) (out : Result RedisError A × Db C)
      (beat : Beat C K config worker_id)
      → (note C K config worker_id kind out beat).sent ≡ beat.sent
  unfolding note
  note-sent kind (ok a, db') beat = refl
  note-sent kind (err e, db') beat = refl

  received-Sends :
      (out : Result RedisError (List (Request Args RedisContext)) × Db C)
      (beat : Beat C K config worker_id)
      → Fits out.0
      → Sends 1 beat.sent (received C K config worker_id out beat).sent
  unfolding received
  received-Sends (ok reqs, db') beat (all, size) = (reqs, refl, all, omega (arith, size))
  received-Sends (err e, db') beat h = ([], sym (append-nil beat.sent), tt, omega arith)

  turn-Sends :
      (wake : Wake Bytes) (beat : Beat C K config worker_id)
      → 0 < config.buffer_size
      → Sends (ready_poll wake) beat.sent (turn C K config worker_id wake beat).sent
  unfolding turn
  turn-Sends (keep_alive_tick now) beat h = nothing-Sends beat.sent _ (note-sent _ _ beat)
  turn-Sends (enqueue_scheduled_tick now) beat h = nothing-Sends beat.sent _ (note-sent _ _ beat)
  turn-Sends (poll_next_tick true now) beat h =
      received-Sends (fetch_next C K config worker_id now beat.db) beat
        (fetch_next-Fits now beat.db h)
  turn-Sends (poll_next_tick false now) beat h = nothing-Sends beat.sent _ refl
  turn-Sends (id_to_ack (some (ctx, res)) now) beat h =
      nothing-Sends beat.sent _ (note-sent _ _ beat)
  turn-Sends (id_to_ack none now) beat h = nothing-Sends beat.sent _ refl
  turn-Sends (reenqueue_orphaned_tick dead_since) beat h =
      nothing-Sends beat.sent _ (note-sent _ _ beat)

  share : (a b : ℕ) → (a + b) * config.buffer_size ≡ a * config.buffer_size + b * config.buffer_size
  share a b = omega arith

  held-append :
      (xs ys : List (Request Args RedisContext))
      → All LockedBy xs
      → All LockedBy ys
      → All LockedBy (xs ++ ys)
  held-append [] ys h k = k
  held-append (x ∷ xs) ys h k = (h.0, held-append xs ys h.1 k)

  -- Over any turns of the heartbeat, acknowledgements included, what goes to the stream is requests
  -- that the worker holds, in the queue's namespace, and no more of them than a buffer's worth for
  -- each poll at which the worker was ready: none where it never was. The buffer is not empty.
  pub turns-Sends :
      (wakes : List (Wake Bytes)) (beat : Beat C K config worker_id)
      → 0 < config.buffer_size
      → Sends (ready_polls wakes) beat.sent (turns wakes beat).sent
  unfolding turns
  turns-Sends [] beat h = nothing-Sends beat.sent _ refl
  turns-Sends (wake ∷ wakes) beat h =
      let (first, sent, held, few) = turn-Sends wake beat h in
      let (rest, sent', held', few') = turns-Sends wakes (turn C K config worker_id wake beat) h in
      (
        first ++ rest,
        sent' ∙ ap (λ before. before ++ rest) sent ∙ append_assoc beat.sent first rest,
        held-append first rest held held',
        omega (
          arith,
          length-append first rest,
          few,
          few',
          share (ready_poll wake) (ready_polls wakes),
        ),
      )
