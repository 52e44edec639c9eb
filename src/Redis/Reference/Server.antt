-- ===== src/Redis/Reference/Server.antt =====
-- The server in memory, as a value of the interface.
use apalis_cron_jobs.Prelude.{
  ℕ, zero, suc, ◌+◌, ◌-◌, ◌≤◌, ◌≡◌, refl, ap, ◌∙◌, Option, none, some, List, [], ◌∷◌, ◌++◌, arith,
  length, take, drop, select, count, length-take, take-length, count-take-drop, ◌==◌, if◌then◌else◌,
}
use apalis_cron_jobs.Prelude.Int.{ℤ, pos, negsuc}
use apalis_cron_jobs.Redis.Commands.{Commands, Ascending, ids, in_range}
use apalis_cron_jobs.Redis.Reference.{
  without, add_all, Distinct, remove, insert, score_of, count-without, count-add_all, count-remove,
  count-insert, score_of-remove, score_of-insert, Ascending-insert, Ascending-remove,
}

abbrev pub Members : Type 0
Members = (xs : List ℕ) × Distinct xs

abbrev pub Entries : Type 0
Entries = (es : List (ℤ × ℕ)) × Ascending es × Distinct (ids es)

-- From one index to another, both included; an index below 0 counts from the end.
abbrev pub index : List ℕ → ℤ → ℕ
index xs (pos a) = a
index xs (negsuc a) = length xs - suc a

abbrev pub slice : List ℕ → ℤ → ℤ → List ℕ
slice xs a b = take (index xs b + 1 - index xs a) (drop (index xs a) xs)

pub slice_whole : (xs : List ℕ) → slice xs (pos 0) (negsuc 0) ≡ xs
slice_whole [] = refl
slice_whole (x ∷ xs) =
    let width : length (x ∷ xs) - suc 0 + 1 - 0 ≡ length (x ∷ xs) = omega arith in
    ap (λ (n : ℕ). take n (x ∷ xs)) width ∙ take-length (x ∷ xs)

add_members : Members → List ℕ → Members
add_members s ys = (add_all s.0 ys, λ j. omega (arith, count-add_all s.0 ys j s.1))

remove_member : Members → ℕ → Members × ℕ
remove_member s i =
    ((without i s.0, λ j. ground (arith, count-without i j s.0, s.1 j)), count i s.0)

pop_members : Members → ℕ → Members × List ℕ
pop_members s n = ((drop n s.0, λ j. omega (arith, count-take-drop j n s.0, s.1 j)), take n s.0)

add_entry : Entries → ℤ → ℕ → Entries
add_entry z s i = (
  insert s i (remove i z.0),
  Ascending-insert s i (remove i z.0) (Ascending-remove i z.0 z.1),
  λ j. ground (arith, count-insert s i j (remove i z.0), count-remove i j z.0, z.2 j),
)

remove_entry : Entries → ℕ → Entries
remove_entry z i =
    (remove i z.0, Ascending-remove i z.0 z.1, λ j. ground (arith, count-remove i j z.0, z.2 j))

pub Ascending-drop : (n : ℕ) (es : List (ℤ × ℕ)) → Ascending es → Ascending (drop n es)
Ascending-drop zero es h = h
Ascending-drop (suc n) [] h = tt
Ascending-drop (suc n) ((s, i) ∷ []) h = Ascending-drop n [] tt
Ascending-drop (suc n) ((s, i) ∷ (t, j) ∷ r) h = Ascending-drop n ((t, j) ∷ r) h.1

pub count-ids-drop-le : (j n : ℕ) (es : List (ℤ × ℕ)) → count j (ids (drop n es)) ≤ count j (ids es)
count-ids-drop-le j zero es = omega arith
count-ids-drop-le j (suc n) [] = omega arith
count-ids-drop-le j (suc n) ((s, i) ∷ r) = omega (arith, count-ids-drop-le j n r)

drop_entries : Entries → ℕ → Entries
drop_entries z n =
    (drop n z.0, Ascending-drop n z.0 z.1, λ j. omega (arith, count-ids-drop-le j n z.0, z.2 j))

module _ {Bytes : Type 0} where
  unfoldable pub field : List (ℕ × Bytes) → ℕ → Option Bytes
  field [] i = none
  field ((k, v) ∷ h) i = if k == i then some v else field h i

  unfoldable pub delete : List (ℕ × Bytes) → ℕ → List (ℕ × Bytes)
  delete [] i = []
  delete ((k, v) ∷ h) i = if k == i then delete h i else (k, v) ∷ delete h i

  pub field-delete :
      (h : List (ℕ × Bytes)) (i j : ℕ) → field (delete h i) j ≡ (if i == j then none else field h j)
  unfolding field delete
  field-delete [] i j = ground arith
  field-delete ((k, v) ∷ h) i j = ground (arith, field-delete h i j)

unfoldable pub server : (Bytes : Type 0) → Commands Bytes
unfolding without add_all remove insert score_of add_members remove_member pop_members add_entry
    remove_entry drop_entries field delete
server Bytes = record {
  RList = List ℕ;
  RSet = Members;
  ZSet = Entries;
  Hash = List (ℕ × Bytes);
  items = λ l. l;
  no_list = [];
  rpush = λ l xs. l ++ xs;
  lpush = λ l x. x ∷ l;
  lrange = slice;
  ltrim = λ l n. drop n l;
  items-no_list = refl;
  items-rpush = λ l xs. refl;
  items-lpush = λ l x. refl;
  lrange_lem = λ l a b. refl;
  lrange_whole = slice_whole;
  items-ltrim = λ l n. refl;
  members = λ s. s.0;
  no_set = ([], λ j. omega arith);
  sadd = add_members;
  srem = remove_member;
  spop = pop_members;
  members-no_set = refl;
  members_distinct = λ s j. s.1 j;
  count-sadd = λ s xs j. count-add_all s.0 xs j s.1;
  srem_reply = λ s i. refl;
  count-srem = λ s i j. count-without i j s.0;
  count-spop = λ s n j. omega (arith, count-take-drop j n s.0);
  length-spop = λ s n. length-take n s.0;
  entries = λ z. z.0;
  no_zset = ([], tt, λ j. omega arith);
  zadd = add_entry;
  zrem = remove_entry;
  zscore = λ z j. score_of z.0 j;
  zrange = λ z a b. slice (ids z.0) a b;
  zrangebyscore = λ z low high n. ids (take n (select (in_range low high) z.0));
  zremrangebyrank = drop_entries;
  entries-no_zset = refl;
  entries_ascending = λ z. z.1;
  count-zadd = λ z s i j. ground (arith, count-insert s i j (remove i z.0), count-remove i j z.0);
  count-zrem = λ z i j. count-remove i j z.0;
  zscore-zadd = λ z s i j. ground (
    arith,
    score_of-remove i i z.0,
    score_of-remove i j z.0,
    score_of-insert s i j (remove i z.0),
  );
  zrange_lem = λ z a b. refl;
  zrange_whole = λ z. slice_whole (ids z.0);
  zrangebyscore_lem = λ z low high n. refl;
  entries-zremrangebyrank = λ z n. refl;
  hget = field;
  no_hash = [];
  hset = λ h i v. (i, v) ∷ h;
  hdel = delete;
  hget-no_hash = λ i. refl;
  hget-hset = λ h i v j. refl;
  hget-hdel = field-delete;
}
