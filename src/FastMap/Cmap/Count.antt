-- ===== src/FastMap/Cmap/Count.antt =====
-- cmap.go: Count, CountPerMap and IsEmpty.
use cbsignal_redis.Base.{
  ℕ, zero, suc, ◌+◌, ◌≤◌, ◌<◌, ◌≡◌, refl, true, none, List, [], ◌∷◌, arith, if◌then◌else◌, ==_iff,
  length, set, Bytes,
}
use cbsignal_redis.Dict.{lookup, insert, erase, length-insert, length-erase}
use cbsignal_redis.FastMap.Cmap.{
  shard_count, ConcurrentMap, shard_index, new_cmap, shard_at, get_shard, modify, set_item, get,
  has, remove, count, count_per_map, is_empty, IsValid,
}
use cbsignal_redis.FastMap.Cmap.Laws.{shard_index-lt}

unfoldable pub sum : List ℕ → ℕ
sum [] = 0
sum (n ∷ ns) = n + sum ns

module _ {V : Type 0} where
  count-set :
      (m : ConcurrentMap V) (i : ℕ) (items : List (Bytes × V))
      → i < length m
      → count (set m i (record { items = items })) + length (shard_at m i) ≡ count m + length items
  unfolding count
  count-set [] i items h = absurd (omega arith)
  count-set (s ∷ m) zero items h = omega arith
  count-set (s ∷ m) (suc i) items h = omega (arith, count-set m i items (omega arith))

  pub count-set_item :
      (k : Bytes) (v : V) (m : ConcurrentMap V)
      → length m ≡ shard_count
      → count (set_item k v m) ≡ count m + (if has k m then 0 else 1)
  unfolding set_item modify has get_shard
  count-set_item k v m h =
      let entries = shard_at m (shard_index k) in
      omega (
        arith,
        count-set m (shard_index k) (insert k v entries) (omega (arith, shard_index-lt k)),
        length-insert k v entries,
      )

  pub count-remove :
      (k : Bytes) (m : ConcurrentMap V)
      → IsValid m
      → count (remove k m) + (if has k m then 1 else 0) ≡ count m
  unfolding remove modify has get_shard
  count-remove k m h =
      let entries = shard_at m (shard_index k) in
      omega (
        arith,
        count-set m (shard_index k) (erase k entries) (omega (arith, h.size, shard_index-lt k)),
        length-erase k entries (h.distinct (shard_index k)),
      )

  -- The counts per shard add up to the count of the whole map.
  sum-count_per_map : (m : ConcurrentMap V) → sum (count_per_map m) ≡ count m
  unfolding sum count_per_map count
  sum-count_per_map [] = refl
  sum-count_per_map (s ∷ m) = omega (arith, sum-count_per_map m)

  count-shard_at-le : (m : ConcurrentMap V) (i : ℕ) → length (shard_at m i) ≤ count m
  unfolding count
  count-shard_at-le [] i = omega arith
  count-shard_at-le (s ∷ m) zero = omega arith
  count-shard_at-le (s ∷ m) (suc i) = omega (arith, count-shard_at-le m i)

  -- The shards of a map with no entry are empty.
  shard_at_of_empty : (m : ConcurrentMap V) (i : ℕ) → count m ≡ 0 → shard_at m i ≡ []
  shard_at_of_empty m i h = go (shard_at m i) (count-shard_at-le m i)
    where
      go : (l : List (Bytes × V)) → length l ≤ count m → l ≡ []
      go [] le = refl
      go (e ∷ l) le = absurd (omega arith)

  get_of_is_empty : (k : Bytes) (m : ConcurrentMap V) → is_empty m ≡ true → get k m ≡ none
  unfolding is_empty get get_shard lookup
  get_of_is_empty k m h = rw (shard_at_of_empty m (shard_index k) ((==_iff (count m) 0).0 h))

pub count-new_cmap : (V : Type 0) → count (new_cmap {V = V}) ≡ 0
unfolding count new_cmap
count-new_cmap V = refl
