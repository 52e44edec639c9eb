-- ===== src/Redis/Database.antt =====
-- The keys of one namespace of the Redis storage (the templates and key functions of
-- packages/apalis-redis/src/storage.rs), each with its value. Distinct keys are distinct fields.
use apalis_cron_jobs.Prelude.{
  ℕ, ◌+◌, ◌≤◌, ◌≡◌, ap, List, [], ◌∷◌, arith, count, ◌==◌, if◌then◌else◌,
}
use apalis_cron_jobs.Redis.Commands.{Commands, ids}

module _ {Bytes : Type 0} (C : Commands Bytes) where
  open C use {RList, RSet, ZSet, Hash, items, members, entries, no_set, members-no_set}

  pub record Db : Type 0 where
    pub active : RList  -- {queue}:active
    pub consumers : ZSet  -- {queue}:consumers
    pub dead : ZSet  -- {queue}:dead
    pub done : ZSet  -- {queue}:done
    pub failed : ZSet  -- {queue}:failed
    pub inflight : List (ℕ × RSet)  -- {queue}:inflight:{worker}, by worker
    pub inflight_bare : RSet  -- {queue}:inflight
    pub data_hash : Hash  -- {queue}:data
    pub results : Hash  -- {queue}:data::result
    pub scheduled : ZSet  -- {queue}:scheduled
    pub signal : RList  -- {queue}:signal

  -- The set at a worker's key; a key that is not there reads as the empty set.
  unfoldable pub set_at : ℕ → List (ℕ × RSet) → RSet
  set_at w [] = no_set
  set_at w ((v, s) ∷ r) = if v == w then s else set_at w r

  unfoldable pub put_at : ℕ → RSet → List (ℕ × RSet) → List (ℕ × RSet)
  put_at w t [] = (w, t) ∷ []
  put_at w t ((v, s) ∷ r) = if v == w then (v, t) ∷ r else (v, s) ∷ put_at w t r

  -- How many workers' sets hold a job.
  unfoldable pub total : ℕ → List (ℕ × RSet) → ℕ
  total j [] = 0
  total j ((v, s) ∷ r) = count j (members s) + total j r

  pub total-put_at :
      (j w : ℕ) (t : RSet) (l : List (ℕ × RSet))
      → total j (put_at w t l) + count j (members (set_at w l)) ≡ total j l + count j (members t)
  unfolding total set_at put_at
  total-put_at j w t [] = omega (arith, ap (count j) members-no_set)
  total-put_at j w t ((v, s) ∷ r) = ground (arith, total-put_at j w t r)

  pub count-set_at-le : (j w : ℕ) (l : List (ℕ × RSet)) → count j (members (set_at w l)) ≤ total j l
  unfolding total set_at
  count-set_at-le j w [] = omega (arith, ap (count j) members-no_set)
  count-set_at-le j w ((v, s) ∷ r) = ground (arith, count-set_at-le j w r)

  pub set_at-put_at :
      (w v : ℕ) (t : RSet) (l : List (ℕ × RSet))
      → set_at v (put_at w t l) ≡ (if w == v then t else set_at v l)
  unfolding set_at put_at
  set_at-put_at w v t [] = ground arith
  set_at-put_at w v t ((u, s) ∷ r) = ground (arith, set_at-put_at w v t r)

  -- In how many places of the queue a job stands.
  unfoldable pub occ : ℕ → Db → ℕ
  occ j db =
      count j (items db.active)
      + count j (ids (entries db.scheduled))
      + total j db.inflight
      + count j (members db.inflight_bare)
      + count j (ids (entries db.done))
      + count j (ids (entries db.dead))

  -- Every job stands in one place at most.
  abbrev pub Unique : Db → Type 0
  Unique db = (j : ℕ) → occ j db ≤ 1
