-- ===== src/Sql/Postgres/Delivery.antt =====
-- packages/apalis-sql/src/postgres.rs: an acknowledgement is written by the chunk that takes it.
use apalis_cron_jobs.Prelude.{
  ℕ, zero, suc, ◌≡◌, refl, ap, ◌∙◌, ◌<◌, ◌≤◌, ◌^◌, ◌+◌, String, true, false, some, List, [], ◌∷◌,
  ◌++◌, take, drop, length, arith,
}
use apalis_cron_jobs.Prelude.Int.{ℤ}
use apalis_cron_jobs.Prelude.Outcome.{Result, ok}
use apalis_cron_jobs.Core.Response.{Response}
use apalis_cron_jobs.Sql.Context.{Config, SqlContext, calculate_status}
use apalis_cron_jobs.Sql.Engine.{Engine}
use apalis_cron_jobs.Sql.Table.{Row, Tables, known, row}
use apalis_cron_jobs.Sql.Postgres.Chunk.{AckRow, ack_row, about, chosen, all_i32, ack_chunk}
use apalis_cron_jobs.Sql.Postgres.Settling.{ack_chunk_lem}
use apalis_cron_jobs.Sql.Postgres.Acks.{
  encoded, ack, ready_chunk, ack_rows, ready_chunk_lem, ack_told, ack_rows-append,
}
use apalis_cron_jobs.Backend.Channel.{Channel}
use apalis_cron_jobs.Backend.Receiver.{Shared}

about-append :
    (id : ℕ) (acks : List AckRow) (a : AckRow)
    → about id acks ≡ []
    → a.task_id ≡ id
    → about id (acks ++ a ∷ []) ≡ a ∷ []
about-append id [] a fresh same = ground (arith, same)
about-append id (b ∷ acks) a fresh same =
    ground (arith, λ (h : about id acks ≡ []). about-append id acks a h same)

all_i32-append :
    (acks : List AckRow) (a : AckRow)
    → all_i32 acks ≡ true
    → a.attempts < 2 ^ 31
    → all_i32 (acks ++ a ∷ []) ≡ true
all_i32-append [] a small fits = ground arith
all_i32-append (b ∷ acks) a small fits =
    ground (arith, λ (h : all_i32 acks ≡ true). all_i32-append acks a h fits)

take_all : {A : Type 0} (n : ℕ) (xs : List A) → length xs ≤ n → take n xs ≡ xs
take_all zero [] h = refl
take_all zero (x ∷ xs) h = ground arith
take_all (suc n) [] h = refl
take_all (suc n) (x ∷ xs) h = ap (◌∷◌ x) (take_all n xs (omega (arith, h)))

drop_all : {A : Type 0} (n : ℕ) (xs : List A) → length xs ≤ n → drop n xs ≡ []
drop_all zero [] h = refl
drop_all zero (x ∷ xs) h = ground arith
drop_all (suc n) [] h = refl
drop_all (suc n) (x ∷ xs) h = drop_all n xs (omega (arith, h))

length-append_one : {A : Type 0} (xs : List A) (a : A) → length (xs ++ a ∷ []) ≡ length xs + 1
length-append_one [] a = refl
length-append_one (x ∷ xs) a = omega (arith, length-append_one xs a)

module _ {Args Raw : Type 0} (E : Engine Args Raw) (config : Config)
    (C : Channel (SqlContext × Response Raw)) (text : Response Raw → String) where
  -- An acknowledgement is accepted, and the next chunk takes it and writes it to the job: where the
  -- answer can be encoded, the chunk has room for what waits and for it, no earlier answer about the
  -- job waits, all counts are i32, the worker is registered, the job is in the table and nothing has
  -- the receiver's lock.
  pub acknowledged_job_is_settled :
      {Res : Type 0} (encode : Res → Result String Raw) (ctx : SqlContext) (res : Response Res)
      (raw : Response Raw) (s : Shared C) (which : ℕ → ℕ) (w : ℕ) (now : ℤ) (db : Tables Raw)
      {r : Row Raw}
      → encoded encode res ≡ ok raw
      → s.held ≡ false
      → length (C.contents s.chan) < config.buffer_size
      → about raw.task_id (ack_rows C text (C.contents s.chan)) ≡ []
      → all_i32 (ack_rows C text (C.contents s.chan)) ≡ true
      → raw.attempt < 2 ^ 31
      → known w db.workers ≡ true
      → row raw.task_id db.jobs ≡ some r
      → let (reply, s') = ack C encode ctx res s in
        let (chunk, s'') = ready_chunk C config.buffer_size s' in
        let (written, db') = ack_chunk E config which w now (ack_rows C text chunk) db in
        (reply ≡ ok tt)
        × (C.contents s''.chan ≡ [])
        × (written ≡ ok tt)
        × (row raw.task_id db'.jobs
            ≡ some (record r {
              status = calculate_status ctx raw;
              done_at = some now;
              lock_by = some w;
              last_error = some (text raw);
              attempts = raw.attempt;
            }))
  unfolding ack_row
  acknowledged_job_is_settled encode ctx res raw s which w now db {r} e free room fresh small fits k
        there =
      let (reply, queued, same) = ack_told C encode ctx res raw s e in
      let s' = (ack C encode ctx res s).1 in
      let all = C.contents s.chan ++ (ctx, raw) ∷ [] in
      let short : length all ≤ config.buffer_size =
        omega (arith, length-append_one (C.contents s.chan) (ctx, raw), room) in
      let (given, left) = ready_chunk_lem C config.buffer_size s' (same ∙ free) in
      let chunk_is : (ready_chunk C config.buffer_size s').0 ≡ all =
        given ∙ ap (take config.buffer_size) queued ∙ take_all config.buffer_size all short in
      let rows_are : ack_rows C text (ready_chunk C config.buffer_size s').0
          ≡ ack_rows C text (C.contents s.chan) ++ ack_row ctx raw (text raw) ∷ [] =
        ap (ack_rows C text) chunk_is ∙ ack_rows-append C text (C.contents s.chan) (ctx, raw) in
      let (written, each) =
        ack_chunk_lem E config which w now (ack_rows C text (ready_chunk C config.buffer_size s').0)
          db k
          (ap all_i32 rows_are
            ∙ all_i32-append (ack_rows C text (C.contents s.chan)) (ack_row ctx raw (text raw))
                small fits) in
      (
        reply,
        left ∙ ap (drop config.buffer_size) queued ∙ drop_all config.buffer_size all short,
        written,
        (each raw.task_id r there).1 (ack_row ctx raw (text raw)) (
            ap (chosen (which raw.task_id)) (
              ap (about raw.task_id) rows_are
              ∙ about-append raw.task_id (ack_rows C text (C.contents s.chan))
                  (ack_row ctx raw (text raw)) fresh refl)),
      )
