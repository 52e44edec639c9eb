-- ===== src/Redis/Commands.antt =====
-- The Redis server is not part of this repository. What the scripts and the storage call of it is
-- this interface: values of the four kinds that a key may hold, the commands on a value, and what
-- the Redis documentation says of them. A command touches the value of its own key only.
use apalis_cron_jobs.Prelude.{
  ℕ, ◌+◌, ◌-◌, ◌≤◌, ◌≡◌, Bool, ◌&&◌, Option, none, some, List, [], ◌∷◌, ◌++◌, min, length, take,
  drop, select, count, ◌==◌, if◌then◌else◌,
}
use apalis_cron_jobs.Prelude.Int.{ℤ, pos, negsuc, leb_ℤ, ◌≤ℤ◌}

-- Members in the order of their scores.
abbrev pub Ascending : List (ℤ × ℕ) → Type 0
Ascending [] = Unit {0}
Ascending ((s, i) ∷ []) = Unit {0}
Ascending ((s, i) ∷ (t, j) ∷ r) = (s ≤ℤ t) × Ascending ((t, j) ∷ r)

abbrev pub ids : List (ℤ × ℕ) → List ℕ
ids [] = []
ids ((s, i) ∷ r) = i ∷ ids r

abbrev pub in_range : ℤ → ℤ → ℤ × ℕ → Bool
in_range low high (s, i) = leb_ℤ low s && leb_ℤ s high

-- Ids of jobs and of consumers are numbers; a hash holds byte strings.
pub record Commands (Bytes : Type 0) : Type 1 where
  pub RList : Type 0
  pub RSet : Type 0
  pub ZSet : Type 0
  pub Hash : Type 0
  -- Lists: LRANGE 0 -1, a key that is not there, RPUSH, LPUSH, LRANGE, LTRIM n -1.
  pub items : RList → List ℕ
  pub no_list : RList
  pub rpush : RList → List ℕ → RList
  pub lpush : RList → ℕ → RList
  pub lrange : RList → ℤ → ℤ → List ℕ
  pub ltrim : RList → ℕ → RList
  pub items-no_list : items no_list ≡ []
  pub items-rpush : (l : RList) (xs : List ℕ) → items (rpush l xs) ≡ items l ++ xs
  pub items-lpush : (l : RList) (x : ℕ) → items (lpush l x) ≡ x ∷ items l
  pub lrange_lem :
      (l : RList) (a b : ℕ) → lrange l (pos a) (pos b) ≡ take (b + 1 - a) (drop a (items l))
  pub lrange_whole : (l : RList) → lrange l (pos 0) (negsuc 0) ≡ items l
  pub items-ltrim : (l : RList) (n : ℕ) → items (ltrim l n) ≡ drop n (items l)
  -- Sets: SMEMBERS, SADD, SREM with its reply, SPOP of any so many members.
  pub members : RSet → List ℕ
  pub no_set : RSet
  pub sadd : RSet → List ℕ → RSet
  pub srem : RSet → ℕ → RSet × ℕ
  pub spop : RSet → ℕ → RSet × List ℕ
  pub members-no_set : members no_set ≡ []
  pub members_distinct : (s : RSet) (j : ℕ) → count j (members s) ≤ 1
  pub count-sadd :
      (s : RSet) (xs : List ℕ) (j : ℕ)
      → count j (members (sadd s xs)) ≡ min 1 (count j (members s) + count j xs)
  pub srem_reply : (s : RSet) (i : ℕ) → (srem s i).1 ≡ count i (members s)
  pub count-srem :
      (s : RSet) (i j : ℕ)
      → count j (members (srem s i).0) ≡ (if i == j then 0 else count j (members s))
  pub count-spop :
      (s : RSet) (n j : ℕ)
      → count j (members (spop s n).0) + count j (spop s n).1 ≡ count j (members s)
  pub length-spop : (s : RSet) (n : ℕ) → length (spop s n).1 ≡ min n (length (members s))
  -- Sorted sets: ZRANGE 0 -1 WITHSCORES, ZADD, ZREM, ZSCORE, ZRANGE, ZRANGEBYSCORE with LIMIT 0 n, and
  -- ZREMRANGEBYRANK from 0 on, of so many members.
  pub entries : ZSet → List (ℤ × ℕ)
  pub no_zset : ZSet
  pub zadd : ZSet → ℤ → ℕ → ZSet
  pub zrem : ZSet → ℕ → ZSet
  pub zscore : ZSet → ℕ → Option ℤ
  pub zrange : ZSet → ℤ → ℤ → List ℕ
  pub zrangebyscore : ZSet → ℤ → ℤ → ℕ → List ℕ
  pub zremrangebyrank : ZSet → ℕ → ZSet
  pub entries-no_zset : entries no_zset ≡ []
  pub entries_ascending : (z : ZSet) → Ascending (entries z)
  pub count-zadd :
      (z : ZSet) (s : ℤ) (i j : ℕ)
      → count j (ids (entries (zadd z s i))) ≡ (if i == j then 1 else count j (ids (entries z)))
  pub count-zrem :
      (z : ZSet) (i j : ℕ)
      → count j (ids (entries (zrem z i))) ≡ (if i == j then 0 else count j (ids (entries z)))
  pub zscore-zadd :
      (z : ZSet) (s : ℤ) (i j : ℕ) → zscore (zadd z s i) j ≡ (if i == j then some s else zscore z j)
  pub zrange_lem :
      (z : ZSet) (a b : ℕ) → zrange z (pos a) (pos b) ≡ take (b + 1 - a) (drop a (ids (entries z)))
  pub zrange_whole : (z : ZSet) → zrange z (pos 0) (negsuc 0) ≡ ids (entries z)
  pub zrangebyscore_lem :
      (z : ZSet) (low high : ℤ) (n : ℕ)
      → zrangebyscore z low high n ≡ ids (take n (select (in_range low high) (entries z)))
  pub entries-zremrangebyrank :
      (z : ZSet) (n : ℕ) → entries (zremrangebyrank z n) ≡ drop n (entries z)
  -- Hashes: HGET, HSET, HDEL.
  pub hget : Hash → ℕ → Option Bytes
  pub no_hash : Hash
  pub hset : Hash → ℕ → Bytes → Hash
  pub hdel : Hash → ℕ → Hash
  pub hget-no_hash : (i : ℕ) → hget no_hash i ≡ none
  pub hget-hset :
      (h : Hash) (i : ℕ) (v : Bytes) (j : ℕ)
      → hget (hset h i v) j ≡ (if i == j then some v else hget h j)
  pub hget-hdel : (h : Hash) (i j : ℕ) → hget (hdel h i) j ≡ (if i == j then none else hget h j)
