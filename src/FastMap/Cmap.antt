-- ===== src/FastMap/Cmap.antt =====
-- util/fastmap/cmap/cmap.go: a map in 32 shards, each a Go map behind a lock. An operation that
-- holds one shard's lock is one step. `V` stands for *client.Client; a nil pointer is `none`.
-- Not modelled: MarshalJSON, which is Items and a call of the JSON library.
pub mod Laws
pub mod Refine
pub mod Count
pub mod Iter
pub mod Each
pub mod Instance
use cbsignal_redis.Base.{
  ℕ, ◌+◌, ◌*◌, ◌%◌, ◌^◌, ◌≡◌, ◌≢◌, Bool, true, false, ◌&&◌, Option, none, List, [], ◌∷◌, ◌==◌,
  if◌then◌else◌, length, set, get_or, replicate, Bytes,
}
use cbsignal_redis.Dict.{lookup, insert, erase, is_some, IsDistinct}
use Prim.Native.Nat.{bit_xor}

abbrev pub shard_count : ℕ
shard_count = 32

abbrev pub prime32 : ℕ
prime32 = 16777619

-- The loop of fnv32 over the key's bytes.
unfoldable pub fnv32_from : ℕ → Bytes → ℕ
fnv32_from hash [] = hash
fnv32_from hash (c ∷ key) = fnv32_from (bit_xor (hash * prime32 % 2 ^ 32) c) key

unfoldable pub fnv32 : Bytes → ℕ
unfolding fnv32_from
fnv32 key = fnv32_from 2166136261 key

pub record ConcurrentMapShared (V : Type 0) : Type 0 where
  pub items : List (Bytes × V)

abbrev pub ConcurrentMap : Type 0 → Type 0
ConcurrentMap V = List (ConcurrentMapShared V)

-- The index under which GetShard finds the shard of a key.
unfoldable pub shard_index : Bytes → ℕ
unfolding fnv32
shard_index key = fnv32 key % shard_count

module _ {V : Type 0} where
  abbrev pub empty_shard : ConcurrentMapShared V
  empty_shard = record { items = [] }

  unfoldable pub new_cmap : ConcurrentMap V
  new_cmap = replicate shard_count empty_shard

  -- `m[i]`. A map has 32 shards (`IsValid`), so the default is not read.
  abbrev pub shard_at : ConcurrentMap V → ℕ → List (Bytes × V)
  shard_at m i = (get_or m i empty_shard).items

  unfoldable pub get_shard : ConcurrentMap V → Bytes → List (Bytes × V)
  get_shard m key = shard_at m (shard_index key)

  -- What an operation on the shard of a key does to the map.
  unfoldable pub modify : ConcurrentMap V → Bytes → List (Bytes × V) → ConcurrentMap V
  modify m key items = set m (shard_index key) (record { items = items })

  unfoldable pub set_item : Bytes → V → ConcurrentMap V → ConcurrentMap V
  set_item key value m = modify m key (insert key value (get_shard m key))

  unfoldable pub mset : List (Bytes × V) → ConcurrentMap V → ConcurrentMap V
  mset [] m = m
  mset ((key, value) ∷ entries) m = mset entries (set_item key value m)

  -- The callback gets whether the key was there, the old value and the new one.
  unfoldable pub upsert :
      Bytes → V → (Bool → Option V → V → V) → ConcurrentMap V → V × ConcurrentMap V
  upsert key value cb m =
      let v = lookup key (get_shard m key) in
      let res = cb (is_some v) v value in (res, modify m key (insert key res (get_shard m key)))

  unfoldable pub set_if_absent : Bytes → V → ConcurrentMap V → Bool × ConcurrentMap V
  set_if_absent key value m =
      if is_some (lookup key (get_shard m key))
      then (false, m)
      else (true, modify m key (insert key value (get_shard m key)))

  unfoldable pub get : Bytes → ConcurrentMap V → Option V
  unfolding get_shard
  get key m = lookup key (get_shard m key)

  unfoldable pub has : Bytes → ConcurrentMap V → Bool
  has key m = is_some (lookup key (get_shard m key))

  unfoldable pub remove : Bytes → ConcurrentMap V → ConcurrentMap V
  remove key m = modify m key (erase key (get_shard m key))

  unfoldable pub remove_cb :
      Bytes → (Bytes → Option V → Bool → Bool) → ConcurrentMap V → Bool × ConcurrentMap V
  remove_cb key cb m =
      let v = lookup key (get_shard m key) in
      let wanted = cb key v (is_some v) in
      (wanted, if wanted && is_some v then modify m key (erase key (get_shard m key)) else m)

  unfoldable pub pop : Bytes → ConcurrentMap V → Option V × ConcurrentMap V
  pop key m = (lookup key (get_shard m key), modify m key (erase key (get_shard m key)))

  -- The loop of Count and CountNoLock over the shards.
  unfoldable pub count : ConcurrentMap V → ℕ
  count [] = 0
  count (shard ∷ m) = length shard.items + count m

  unfoldable pub count_per_map : ConcurrentMap V → List ℕ
  count_per_map [] = []
  count_per_map (shard ∷ m) = length shard.items ∷ count_per_map m

  unfoldable pub is_empty : ConcurrentMap V → Bool
  unfolding count
  is_empty m = count m == 0

  -- 32 shards, every key in the shard of its hash, and there once.
  pub record IsValid (m : ConcurrentMap V) : Type 0 where
    pub size : length m ≡ shard_count
    pub placed : (i : ℕ) (k : Bytes) → lookup k (shard_at m i) ≢ none → shard_index k ≡ i
    pub distinct : (i : ℕ) → IsDistinct (shard_at m i)
