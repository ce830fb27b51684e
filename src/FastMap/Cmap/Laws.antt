-- ===== src/FastMap/Cmap/Laws.antt =====
-- cmap.go: the sharded map as one flat map, and its well-formedness.
use native.Mathlib.Decide.{ℕ_discrete}
use cbsignal_redis.Base.{
  ℕ, ◌<◌, ◌≡◌, refl, ap, ◌∙◌, ◌≢◌, inl, inr, Option, none, some, List, arith, if◌then◌else◌,
  Bool-cases, length, length-set, length-replicate, get_or-set_self, get_or-set_ne,
  get_or-replicate, Bytes, str_eq, eq_iff,
}
use cbsignal_redis.Dict.{
  lookup, is_some, IsDistinct, lookup-insert, lookup-erase, insert-IsDistinct, erase-IsDistinct,
}
use cbsignal_redis.FastMap.Cmap.{
  shard_count, ConcurrentMap, shard_index, empty_shard, new_cmap, shard_at, get_shard, modify,
  set_item, get, has, remove, ConcurrentMapShared, IsValid,
}

pub shard_index-lt : (k : Bytes) → shard_index k < shard_count
unfolding shard_index
shard_index-lt k = omega arith

module _ {V : Type 0} where
  -- The entries of a key's shard after an operation on the shard of another.
  pub shard_at-modify_self :
      (m : ConcurrentMap V) (k : Bytes) (items : List (Bytes × V))
      → length m ≡ shard_count
      → shard_at (modify m k items) (shard_index k) ≡ items
  unfolding modify
  shard_at-modify_self m k items h =
      ap (λ (s : ConcurrentMapShared V). s.items)
        (get_or-set_self m (shard_index k) (record { items = items }) empty_shard
          (omega (arith, shard_index-lt k)))

  pub shard_at-modify_ne :
      (m : ConcurrentMap V) (k : Bytes) (i : ℕ) (items : List (Bytes × V))
      → shard_index k ≢ i
      → shard_at (modify m k items) i ≡ shard_at m i
  unfolding modify
  shard_at-modify_ne m k i items h =
      ap (λ (s : ConcurrentMapShared V). s.items)
        (get_or-set_ne m (shard_index k) i (record { items = items }) empty_shard h)

  -- An operation that changes one key in its shard changes that key in the map, and no other.
  get-modify :
      (m : ConcurrentMap V) (k j : Bytes) (items : List (Bytes × V)) (r : Option V)
      → length m ≡ shard_count
      → ((i : Bytes) → lookup i items ≡ (if str_eq k i then r else lookup i (get_shard m k)))
      → get j (modify m k items) ≡ (if str_eq k j then r else get j m)
  unfolding get get_shard
  get-modify m k j items r size h = elim (ℕ_discrete (shard_index k) (shard_index j)) [
    | yes e ↦ rw (← e, shard_at-modify_self m k items size) (h j)
    | no ne ↦ rw (shard_at-modify_ne m k (shard_index j) items ne) (elim (Bool-cases (str_eq k j)) [
      | inl same ↦ absurd (ne (ap shard_index ((eq_iff k j).0 same)))
      | inr other ↦ rw other
    ])
  ]

  modify-IsValid :
      (m : ConcurrentMap V) (k : Bytes) (items : List (Bytes × V)) (r : Option V)
      → ((i : Bytes) → lookup i items ≡ (if str_eq k i then r else lookup i (get_shard m k)))
      → IsDistinct items
      → IsValid m
      → IsValid (modify m k items)
  unfolding get_shard
  modify-IsValid m k items r h d v = record {
    size = unfold modify in length-set m (shard_index k) (record { items = items }) ∙ v.size;
    placed = λ i j found. elim (ℕ_discrete (shard_index k) i) [
      | yes e ↦ elim (Bool-cases (str_eq k j)) [
        | inl same ↦ rw (← (eq_iff k j).0 same) e
        | inr other ↦ rw (← e) (
            v.placed (shard_index k) j
              (rw (← e, shard_at-modify_self m k items v.size, h j, other) at found))
      ]
      | no ne ↦ v.placed i j (rw (shard_at-modify_ne m k i items ne) at found)
    ];
    distinct = λ i. elim (ℕ_discrete (shard_index k) i) [
      | yes e ↦ rw (← e, shard_at-modify_self m k items v.size) d
      | no ne ↦ rw (shard_at-modify_ne m k i items ne) (v.distinct i)
    ];
  }

  pub get-new_cmap : (k : Bytes) → get k (new_cmap {V = V}) ≡ none
  unfolding get get_shard new_cmap lookup
  get-new_cmap k =
      ap (λ (s : ConcurrentMapShared V). lookup k s.items)
        (get_or-replicate shard_count (shard_index k) (empty_shard {V = V}))

  pub new_cmap-IsValid : IsValid (new_cmap {V = V})
  unfolding new_cmap lookup
  new_cmap-IsValid = record {
    size = length-replicate shard_count (empty_shard {V = V});
    placed = λ i k found. absurd (
        found (
          ap (λ (s : ConcurrentMapShared V). lookup k s.items)
            (get_or-replicate shard_count i (empty_shard {V = V}))));
    distinct = λ i. rw (get_or-replicate shard_count i (empty_shard {V = V})) tt;
  }

  -- A set is seen by the reads of its key, and by no other.
  pub get-set_item :
      (k j : Bytes) (v : V) (m : ConcurrentMap V)
      → length m ≡ shard_count
      → get j (set_item k v m) ≡ (if str_eq k j then some v else get j m)
  unfolding set_item
  get-set_item k j v m size =
      get-modify m k j _ (some v) size (λ i. lookup-insert k i v (get_shard m k))

  pub get-remove :
      (k j : Bytes) (m : ConcurrentMap V)
      → length m ≡ shard_count
      → get j (remove k m) ≡ (if str_eq k j then none else get j m)
  unfolding remove
  get-remove k j m size = get-modify m k j _ none size (λ i. lookup-erase k i (get_shard m k))

  pub has-get : (k : Bytes) (m : ConcurrentMap V) → has k m ≡ is_some (get k m)
  unfolding has get
  has-get k m = refl

  pub set_item-IsValid :
      (k : Bytes) (v : V) (m : ConcurrentMap V) → IsValid m → IsValid (set_item k v m)
  unfolding set_item
  set_item-IsValid k v m h =
      modify-IsValid m k _ (some v) (λ i. lookup-insert k i v (get_shard m k))
        (insert-IsDistinct k v (get_shard m k) (unfold get_shard in h.distinct (shard_index k))) h

  pub remove-IsValid : (k : Bytes) (m : ConcurrentMap V) → IsValid m → IsValid (remove k m)
  unfolding remove
  remove-IsValid k m h =
      modify-IsValid m k _ none (λ i. lookup-erase k i (get_shard m k))
        (erase-IsDistinct k (get_shard m k) (unfold get_shard in h.distinct (shard_index k))) h
