-- ===== src/Sql/Postgres/Acks.antt =====
-- packages/apalis-sql/src/postgres.rs: an acknowledgement on its way from `ack`, over the notifier,
-- to the loop of `poll` that writes it to the table.
use apalis_cron_jobs.Prelude.{
  ℕ, zero, suc, ◌≡◌, refl, ap, ◌∙◌, String, true, false, Option, none, some, List, [], ◌∷◌, ◌++◌,
  take, drop, arith,
}
use apalis_cron_jobs.Prelude.Outcome.{Result, ok, err}
use apalis_cron_jobs.Core.Response.{Response}
use apalis_cron_jobs.Sql.Context.{SqlContext}
use apalis_cron_jobs.Sql.Engine.{SqlError, panic, invalid_data}
use apalis_cron_jobs.Sql.Postgres.Chunk.{AckRow, ack_row}
use apalis_cron_jobs.Backend.Channel.{Channel, Poll, ready, pending}
use apalis_cron_jobs.Backend.Receiver.{Shared, poll_next, poll_receiver}
use apalis_cron_jobs.Backend.Notify.{notify, notify_lem}

-- The answer of the task, encoded; an answer that cannot be is a panic.
abbrev pub encoded :
    {Res Raw : Type 0} → (Res → Result String Raw) → Response Res → Result SqlError (Response Raw)
encoded encode res = elim res.inner [
  | err e ↦ ok (record { inner = err e; task_id = res.task_id; attempt = res.attempt })
  | ok r ↦ elim (encode r) [
    | err e ↦ err panic
    | ok raw ↦ ok (record { inner = ok raw; task_id = res.task_id; attempt = res.attempt })
  ]
]

module _ {Raw : Type 0} (C : Channel (SqlContext × Response Raw)) where
  -- A notifier that refuses is an error of the kind Interrupted.
  abbrev told : {T : Type 0} → Result T (Unit {0}) → Result SqlError (Unit {0})
  told (ok u) = ok tt
  told (err v) = err (invalid_data "interrupted")

  abbrev send_on :
      SqlContext → Shared C → Result SqlError (Response Raw) → Result SqlError (Unit {0}) × Shared C
  send_on ctx s (err e) = (err e, s)
  send_on ctx s (ok raw) = let sent = notify C (ctx, raw) s in (told sent.0, sent.1)

  pub ack :
      {Res : Type 0}
      → (Res → Result String Raw)
      → SqlContext
      → Response Res
      → Shared C
      → Result SqlError (Unit {0}) × Shared C
  unfolding notify
  ack encode ctx res s = send_on ctx s (encoded encode res)

  -- A poll's answer, with the chunk that would go on from it.
  abbrev prepend :
      Poll (Option (SqlContext × Response Raw))
      → Shared C
      → List (SqlContext × Response Raw) × Shared C
      → List (SqlContext × Response Raw) × Shared C
  prepend pending s rest = ([], s)
  prepend (ready none) s rest = ([], s)
  prepend (ready (some a)) s rest = (a ∷ rest.0, rest.1)

  -- `ready_chunks`: what is ready now, up to so many; nothing is no chunk.
  pub ready_chunk : ℕ → Shared C → List (SqlContext × Response Raw) × Shared C
  unfolding poll_next
  ready_chunk zero s = ([], s)
  ready_chunk (suc n) s =
      let polled = poll_next C s in prepend polled.0 polled.1 (ready_chunk n polled.1)

  -- `serde_json::to_string` of an answer is the argument `text`.
  abbrev pub ack_rows : (Response Raw → String) → List (SqlContext × Response Raw) → List AckRow
  ack_rows text [] = []
  ack_rows text (a ∷ acks) = ack_row a.0 a.1 (text a.1) ∷ ack_rows text acks

  poll_empty :
      (s : Shared C)
      → s.held ≡ false
      → (C.next s.chan).0 ≡ none
      → poll_next C s ≡ (pending, record s { chan = (C.next s.chan).1; waiting = true })
  unfolding poll_next poll_receiver
  poll_empty s free e = ground arith

  poll_first :
      (s : Shared C) (a : SqlContext × Response Raw)
      → s.held ≡ false
      → (C.next s.chan).0 ≡ some a
      → poll_next C s ≡ (ready (some a), record s { chan = (C.next s.chan).1 })
  unfolding poll_next poll_receiver
  poll_first s a free e = ground arith

  pub ready_chunk_lem :
      (n : ℕ) (s : Shared C)
      → s.held ≡ false
      → ((ready_chunk n s).0 ≡ take n (C.contents s.chan))
        × (C.contents (ready_chunk n s).1.chan ≡ drop n (C.contents s.chan))
  unfolding ready_chunk
  ready_chunk_lem zero s free = (refl, refl)
  ready_chunk_lem (suc n) s free =
      go (C.contents s.chan) refl (ready_chunk_lem n (record s { chan = (C.next s.chan).1 }) free)
    where
      go :
          (xs : List (SqlContext × Response Raw))
          → C.contents s.chan ≡ xs
          → (let rest = ready_chunk n (record s { chan = (C.next s.chan).1 }) in
              let left = C.contents (C.next s.chan).1 in
              (rest.0 ≡ take n left) × (C.contents rest.1.chan ≡ drop n left))
          → ((ready_chunk (suc n) s).0 ≡ take (suc n) xs)
            × (C.contents (ready_chunk (suc n) s).1.chan ≡ drop (suc n) xs)
      go [] e ih =
          let (nothing, still) = C.next_empty s.chan e in
          let step : ready_chunk (suc n) s
              ≡ ([], record s { chan = (C.next s.chan).1; waiting = true }) =
            ap (λ p. prepend p.0 p.1 (ready_chunk n p.1)) (poll_empty s free nothing) in
          (ap (λ p. p.0) step, ap (λ p. C.contents p.1.chan) step ∙ still)
      go (a ∷ xs) e ih =
          let (head, left) = C.next_first s.chan a xs e in
          let rest = ready_chunk n (record s { chan = (C.next s.chan).1 }) in
          let step : ready_chunk (suc n) s ≡ (a ∷ rest.0, rest.1) =
            ap (λ p. prepend p.0 p.1 (ready_chunk n p.1)) (poll_first s a free head) in
          (
            ap (λ p. p.0) step ∙ ap (◌∷◌ a) (ih.0 ∙ ap (take n) left),
            ap (λ p. C.contents p.1.chan) step ∙ ih.1 ∙ ap (drop n) left,
          )

  pub ack_told :
      {Res : Type 0} (encode : Res → Result String Raw) (ctx : SqlContext) (res : Response Res)
      (raw : Response Raw) (s : Shared C)
      → encoded encode res ≡ ok raw
      → let (reply, s') = ack encode ctx res s in
        (reply ≡ ok tt)
        × (C.contents s'.chan ≡ C.contents s.chan ++ (ctx, raw) ∷ [])
        × (s'.held ≡ s.held)
  unfolding ack
  ack_told encode ctx res raw s e =
      let (reply, there, same, _) = notify_lem C (ctx, raw) s in
      let step = ap (send_on ctx s) e in
      (
        ap (λ p. p.0) step ∙ ap told reply,
        ap (λ p. C.contents p.1.chan) step ∙ there,
        ap (λ p. p.1.held) step ∙ same,
      )

  pub ack_rows-append :
      (text : Response Raw → String) (acks : List (SqlContext × Response Raw))
      (a : SqlContext × Response Raw)
      → ack_rows text (acks ++ a ∷ []) ≡ ack_rows text acks ++ ack_row a.0 a.1 (text a.1) ∷ []
  ack_rows-append text [] a = refl
  ack_rows-append text (b ∷ acks) a =
      ap (◌∷◌ (ack_row b.0 b.1 (text b.1))) (ack_rows-append text acks a)
