-- ===== src/FastMap/Cmap/Each.antt =====
-- cmap.go: IterCb, which goes through the shards in their order. The items of a shard come in the order of
-- its list, since Go leaves the order of a map open.
use cbsignal_redis.Base.{
  ℕ, zero, suc, ◌<◌, ◌≡◌, refl, ap, ◌∙◌, List, [], ◌∷◌, ◌++◌, arith, length, set, get_or, concat,
  Bytes,
}
use cbsignal_redis.Dict.{lookup, insert}
use cbsignal_redis.FastMap.Cmap.{ConcurrentMap, get, IsValid}
use cbsignal_redis.FastMap.Cmap.Iter.{
  Tuple, get_chan_by_shard, snapshot, items_from, lookup-items, FanIn, drained, recv,
}

module _ {V : Type 0} where
  -- With a callback over a state of its own, over the items of a shard and over the shards.
  unfoldable pub iter_shard {ℓ} : {S : Type ℓ} → (Bytes → V → S → S) → List (Tuple V) → S → S
  iter_shard fn [] s = s
  iter_shard fn ((key, value) ∷ items) s = iter_shard fn items (fn key value s)

  unfoldable pub iter_cb {ℓ} : {S : Type ℓ} → (Bytes → V → S → S) → ConcurrentMap V → S → S
  unfolding iter_shard
  iter_cb fn [] s = s
  iter_cb fn (shard ∷ m) s = iter_cb fn m (iter_shard fn shard.items s)

  -- The callback that enters each item in a map.
  abbrev pub enter : Bytes → V → List (Bytes × V) → List (Bytes × V)
  enter key value tmp = insert key value tmp

  iter_shard-enter :
      (items : List (Tuple V)) (rest : List (Tuple V)) (tmp : List (Bytes × V))
      → items_from (iter_shard enter items tmp) rest ≡ items_from tmp (items ++ rest)
  unfolding iter_shard items_from
  iter_shard-enter [] rest tmp = refl
  iter_shard-enter ((key, value) ∷ items) rest tmp =
      iter_shard-enter items rest (insert key value tmp)

  iter_cb-enter :
      (m : ConcurrentMap V) (tmp : List (Bytes × V))
      → iter_cb enter m tmp ≡ items_from tmp (concat (snapshot m))
  unfolding iter_cb snapshot items_from get_chan_by_shard
  iter_cb-enter [] tmp = refl
  iter_cb-enter (shard ∷ m) tmp =
      iter_cb-enter m (iter_shard enter shard.items tmp)
      ∙ iter_shard-enter shard.items (concat (snapshot m)) tmp

  -- Channels of which the first `n` are drained.
  abbrev after : ℕ → List (List (Tuple V)) → List (List (Tuple V))
  after zero chans = chans
  after (suc n) chans = [] ∷ after n chans

  after-drained :
      (n : ℕ) (chans : List (List (Tuple V))) → after n ([] ∷ chans) ≡ after (suc n) chans
  after-drained zero chans = refl
  after-drained (suc n) chans = ap (λ (l : List (List (Tuple V))). [] ∷ l) (after-drained n chans)

  after-none : (n i : ℕ) → get_or (after n []) i [] ≡ []
  after-none zero i = refl
  after-none (suc n) zero = refl
  after-none (suc n) (suc i) = after-none n i

  after-next :
      (n : ℕ) (chan chan' : List (Tuple V)) (chans : List (List (Tuple V)))
      → (n < length (after n (chan ∷ chans)))
        × (get_or (after n (chan ∷ chans)) n [] ≡ chan)
        × (set (after n (chan ∷ chans)) n chan' ≡ after n (chan' ∷ chans))
  after-next zero chan chan' chans = (omega arith, refl, refl)
  after-next (suc n) chan chan' chans =
      let (inside, at, changed) = after-next n chan chan' chans in
      (omega arith, at, ap (λ (l : List (List (Tuple V))). [] ∷ l) changed)

  -- The channels of the shards may be delivered one after the other.
  one_by_one : (n : ℕ) (chans : List (List (Tuple V))) → FanIn V (after n chans) (concat chans)
  one_by_one n [] = drained (after n []) (after-none n)
  one_by_one n ([] ∷ chans) = rw (after-drained n chans) (one_by_one (suc n) chans)
  one_by_one n ((t ∷ chan) ∷ chans) =
      let (inside, at, changed) = after-next n (t ∷ chan) chan chans in
      recv (after n ((t ∷ chan) ∷ chans)) n t chan (concat (chan ∷ chans)) inside at
        (rw changed (one_by_one n (chan ∷ chans)))

  -- On a well-formed map, IterCb with the callback that enters every item in a map, at first empty, makes
  -- a map that answers every lookup as the sharded map does.
  pub lookup-iter_cb :
      (m : ConcurrentMap V) (k : Bytes) → IsValid m → lookup k (iter_cb enter m []) ≡ get k m
  lookup-iter_cb m k valid =
      rw (iter_cb-enter m [])
        (lookup-items m (concat (snapshot m)) k valid (one_by_one 0 (snapshot m)))
