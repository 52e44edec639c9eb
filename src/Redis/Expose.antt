-- ===== src/Redis/Expose.antt =====
-- packages/apalis-redis/src/expose.rs: what the storage tells a dashboard. Pages count from 1.
use apalis_cron_jobs.Prelude.{
  ℕ, zero, suc, ◌+◌, ◌-◌, ◌*◌, ◌≡◌, refl, sym, Option, none, some, List, [], ◌∷◌, ◌++◌, length,
  take, drop, min, arith, map, length-take, length-drop,
}
use apalis_cron_jobs.Prelude.Int.{pos, negsuc, sub_ℕ}
use apalis_cron_jobs.Prelude.Outcome.{Result, ok, err, map_ok}
use apalis_cron_jobs.Core.State.{State}
use apalis_cron_jobs.Core.Request.{Request}
use apalis_cron_jobs.Redis.Commands.{Commands, ids}
use apalis_cron_jobs.Redis.Database.{Db, set_at}
use apalis_cron_jobs.Redis.Config.{RedisContext}
use apalis_cron_jobs.Redis.Value.{RedisError, panic, Codec}

drop_nil : (n : ℕ) → drop {A = ℕ} n [] ≡ []
drop_nil zero = refl
drop_nil (suc n) = refl

drop-add : (a b : ℕ) (xs : List ℕ) → drop (a + b) xs ≡ drop b (drop a xs)
drop-add zero b xs = let e : 0 + b ≡ b = omega arith in rw e refl
drop-add (suc a) b [] = let e : suc a + b ≡ suc (a + b) = omega arith in rw e (sym (drop_nil b))
drop-add (suc a) b (x ∷ xs) =
    let e : suc a + b ≡ suc (a + b) = omega arith in rw e (drop-add a b xs)

overlap : (k : ℕ) (xs : List ℕ) → take 1 (take 11 (drop k xs)) ≡ drop k (take (k + 1) xs)
overlap zero [] = refl
overlap zero (x ∷ xs) = refl
overlap (suc k) [] = let e : suc k + 1 ≡ suc (k + 1) = omega arith in rw e refl
overlap (suc k) (x ∷ xs) = let e : suc k + 1 ≡ suc (k + 1) = omega arith in rw e (overlap k xs)

module _ {Args Bytes : Type 0} (C : Commands Bytes) (K : Codec Args Bytes) where
  open C use {items, members, entries, lrange, zrange, hget}

  -- `deserialize_multiple_jobs` on the elements of the reply: one that is no byte string is left out,
  -- and one that cannot be read is a panic.
  pub deserialize_multiple_jobs :
      List (Option Bytes) → Result RedisError (List (Request Args RedisContext))
  deserialize_multiple_jobs [] = ok []
  deserialize_multiple_jobs (none ∷ rest) = deserialize_multiple_jobs rest
  deserialize_multiple_jobs (some bytes ∷ rest) =
      let others = deserialize_multiple_jobs rest in
      elim (K.decode bytes) [ err e ↦ err panic | ok req ↦ map_ok (λ jobs. req ∷ jobs) others ]

  abbrev pub jobs_of : Db C → List ℕ → Result RedisError (List (Request Args RedisContext))
  jobs_of db job_ids = deserialize_multiple_jobs (map (hget db.data_hash) job_ids)

  pub running_jobs : Db C → List ℕ → Result RedisError (List (Request Args RedisContext))
  unfolding deserialize_multiple_jobs
  running_jobs db [] = ok []
  running_jobs db (worker ∷ workers) =
      let rest = running_jobs db workers in
      elim (jobs_of db (members (set_at C worker db.inflight))) [
        | err e ↦ err e
        | ok jobs ↦ map_ok (λ others. jobs ++ others) rest
      ]

  -- From `(page - 1) * 10` to `page * 10`, both included.
  pub page_ids : State → ℕ → Db C → List ℕ
  page_ids State.pending page db = lrange db.active (sub_ℕ (page * 10) 10) (pos (page * 10))
  page_ids State.scheduled page db = lrange db.active (sub_ℕ (page * 10) 10) (pos (page * 10))
  page_ids State.running page db = []
  page_ids State.done page db = zrange db.done (sub_ℕ (page * 10) 10) (pos (page * 10))
  page_ids State.failed page db = zrange db.failed (sub_ℕ (page * 10) 10) (pos (page * 10))
  page_ids State.killed page db = zrange db.dead (sub_ℕ (page * 10) 10) (pos (page * 10))

  pub list_jobs : State → ℕ → Db C → Result RedisError (List (Request Args RedisContext))
  unfolding deserialize_multiple_jobs running_jobs page_ids
  list_jobs State.running page db = running_jobs db (zrange db.consumers (pos 0) (negsuc 0))
  list_jobs State.pending page db = jobs_of db (page_ids State.pending page db)
  list_jobs State.scheduled page db = jobs_of db (page_ids State.scheduled page db)
  list_jobs State.done page db = jobs_of db (page_ids State.done page db)
  list_jobs State.failed page db = jobs_of db (page_ids State.failed page db)
  list_jobs State.killed page db = jobs_of db (page_ids State.killed page db)

  -- All jobs in a state that is listed page by page.
  abbrev pub all_ids : State → Db C → List ℕ
  all_ids State.pending db = items db.active
  all_ids State.scheduled db = items db.active
  all_ids State.running db = []
  all_ids State.done db = ids (entries db.done)
  all_ids State.failed db = ids (entries db.failed)
  all_ids State.killed db = ids (entries db.dead)

  page_ids-slice :
      (state : State) (n : ℕ) (db : Db C)
      → page_ids state (suc n) db ≡ take 11 (drop (n * 10) (all_ids state db))
  unfolding page_ids
  page_ids-slice state n db =
      let width : suc n * 10 + 1 - n * 10 ≡ 11 = omega arith in
      let low : sub_ℕ (suc n * 10) 10 ≡ pos (n * 10) = ground arith in
      elim state as (λ s. page_ids s (suc n) db ≡ take 11 (drop (n * 10) (all_ids s db))) [
        | State.pending ↦ ranged_list low width db.active
        | State.scheduled ↦ ranged_list low width db.active
        | State.running ↦ rw (drop_nil (n * 10)) refl
        | State.done ↦ ranged_set low width db.done
        | State.failed ↦ ranged_set low width db.failed
        | State.killed ↦ ranged_set low width db.dead
      ]
    where
      ranged_list :
          sub_ℕ (suc n * 10) 10 ≡ pos (n * 10)
          → suc n * 10 + 1 - n * 10 ≡ 11
          → (l : C.RList)
          → lrange l (sub_ℕ (suc n * 10) 10) (pos (suc n * 10)) ≡ take 11 (drop (n * 10) (items l))
      ranged_list low width l = rw low (rw (C.lrange_lem l (n * 10) (suc n * 10)) (rw width refl))

      ranged_set :
          sub_ℕ (suc n * 10) 10 ≡ pos (n * 10)
          → suc n * 10 + 1 - n * 10 ≡ 11
          → (z : C.ZSet)
          → zrange z (sub_ℕ (suc n * 10) 10) (pos (suc n * 10))
            ≡ take 11 (drop (n * 10) (ids (entries z)))
      ranged_set low width z = rw low (rw (C.zrange_lem z (n * 10) (suc n * 10)) (rw width refl))

  -- In each state that is listed page by page, a page holds eleven jobs where there are as many
  -- left, and the first job of the next page is the eleventh of this one.
  pub pages_overlap :
      (state : State) (n : ℕ) (db : Db C)
      → (length (page_ids state (suc n) db) ≡ min 11 (length (all_ids state db) - n * 10))
        × (take 1 (page_ids state (suc (suc n)) db) ≡ drop 10 (page_ids state (suc n) db))
  pages_overlap state n db =
      let all = all_ids state db in
      let ten : suc n * 10 ≡ n * 10 + 10 = omega arith in
      (
        rw (page_ids-slice state n db)
            (omega (arith, length-take 11 (drop (n * 10) all), length-drop (n * 10) all)),
        rw (page_ids-slice state n db, page_ids-slice state (suc n) db)
            (rw ten (rw (drop-add (n * 10) 10 all) (overlap 10 (drop (n * 10) all)))),
      )

  -- The dashboard's workers are the registered ones.
  pub list_workers : Db C → List ℕ
  list_workers db = zrange db.consumers (pos 0) (negsuc 0)
