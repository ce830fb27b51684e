-- ===== src/FastMap/Cmap/Iter.antt =====
-- cmap.go: iteration. `snapshot` copies every shard into a channel; `fanIn` forwards the channels'
-- items to one channel in an order that the scheduler chooses. The functions below it take what that
-- channel delivers. The theorems hold for every order.
use native.Mathlib.Decide.{ℕ_discrete}
use cbsignal_redis.Base.{
  ℕ, zero, suc, ◌<◌, ◌≡◌, refl, sym, ap, ◌∙◌, ◌≢◌, inl, inr, Bool, Option, none, some, List, [],
  ◌∷◌, arith, if◌then◌else◌, Bool-cases, length, set, get_or, get_or-set_self, get_or-set_ne, Bytes,
  str_eq, str_eq_refl, eq_iff,
}
use cbsignal_redis.Dict.{lookup, insert, IsDistinct, lookup-insert}
use cbsignal_redis.FastMap.Cmap.{
  ConcurrentMap, shard_index, shard_at, get_shard, get, remove, ConcurrentMapShared, IsValid,
}
use cbsignal_redis.FastMap.Cmap.Laws.{get-remove, remove-IsValid}

abbrev pub Tuple : Type 0 → Type 0
Tuple V = Bytes × V

-- What the goroutines of `fanIn` may deliver: one channel's next item, again and again, until all
-- channels are drained.
pub data FanIn (V : Type 0) : List (List (Tuple V)) → List (Tuple V) → Type 0 where
  drained : (chans : List (List (Tuple V))) → ((i : ℕ) → get_or chans i [] ≡ []) → FanIn V chans []
  recv :
      (chans : List (List (Tuple V))) (i : ℕ) (t : Tuple V) (rest out : List (Tuple V))
      → i < length chans
      → get_or chans i [] ≡ t ∷ rest
      → FanIn V (set chans i rest) out
      → FanIn V chans (t ∷ out)

module _ {V : Type 0} where
  -- The channel of a shard, filled and closed (GetChanByShard, and each goroutine of `snapshot`).
  unfoldable pub get_chan_by_shard : ConcurrentMapShared V → List (Tuple V)
  get_chan_by_shard shard = shard.items

  unfoldable pub snapshot : ConcurrentMap V → List (List (Tuple V))
  unfolding get_chan_by_shard
  snapshot [] = []
  snapshot (shard ∷ m) = get_chan_by_shard shard ∷ snapshot m

  -- Items, over what `IterBuffered` delivers: `tmp` is the map made so far.
  unfoldable pub items_from : List (Bytes × V) → List (Tuple V) → List (Bytes × V)
  items_from tmp [] = tmp
  items_from tmp ((key, val) ∷ out) = items_from (insert key val tmp) out

  -- Clear, over what `IterBuffered` delivers.
  unfoldable pub clear_from : ConcurrentMap V → List (Tuple V) → ConcurrentMap V
  clear_from m [] = m
  clear_from m ((key, val) ∷ out) = clear_from (remove key m) out

  -- Range, with a callback over a state of its own: it stops at the first `false`.
  unfoldable pub range_from {ℓ} : {S : Type ℓ} → (Bytes → V → S → Bool × S) → List (Tuple V) → S → S
  range_from f [] s = s
  range_from f ((key, val) ∷ out) s =
      let (more, s') = f key val s in let rest = range_from f out s' in if more then rest else s'

  -- Keys, over the items that its goroutines deliver.
  unfoldable pub keys_of : List (Tuple V) → List Bytes
  keys_of [] = []
  keys_of ((key, val) ∷ out) = key ∷ keys_of out

  abbrev chan_at : List (List (Tuple V)) → ℕ → List (Tuple V)
  chan_at chans i = get_or chans i []

  -- What the channel of a key's shard still holds of that key.
  abbrev pending : Bytes → List (List (Tuple V)) → Option V
  pending k chans = lookup k (chan_at chans (shard_index k))

  record IsPlaced (chans : List (List (Tuple V))) : Type 0 where
    placed : (i : ℕ) (k : Bytes) → lookup k (chan_at chans i) ≢ none → shard_index k ≡ i
    distinct : (i : ℕ) → IsDistinct (chan_at chans i)

  chan_at-snapshot : (m : ConcurrentMap V) (i : ℕ) → chan_at (snapshot m) i ≡ shard_at m i
  unfolding snapshot
  chan_at-snapshot [] i = refl
  chan_at-snapshot (s ∷ m) zero = refl
  chan_at-snapshot (s ∷ m) (suc i) = chan_at-snapshot m i

  snapshot-IsPlaced : (m : ConcurrentMap V) → IsValid m → IsPlaced (snapshot m)
  snapshot-IsPlaced m h = record {
    placed = λ i k found. h.placed i k (rw (chan_at-snapshot m i) at found);
    distinct = λ i. rw (chan_at-snapshot m i) (h.distinct i);
  }

  module _ (chans : List (List (Tuple V))) (i : ℕ) (k₀ : Bytes) (v₀ : V) (rest : List (Tuple V))
      (inside : i < length chans) (here : chan_at chans i ≡ (k₀, v₀) ∷ rest)
      (valid : IsPlaced chans) where
    IsDistinct-here : IsDistinct ((k₀, v₀) ∷ rest)
    IsDistinct-here = rw here at (valid.distinct i)

    index_here : shard_index k₀ ≡ i
    unfolding lookup
    index_here = valid.placed i k₀ (rw (here, str_eq_refl k₀) (λ e. cc))

    chan_at-recv_self : chan_at (set chans i rest) i ≡ rest
    chan_at-recv_self = get_or-set_self chans i rest [] inside

    chan_at-recv_ne : (j : ℕ) → i ≢ j → chan_at (set chans i rest) j ≡ chan_at chans j
    chan_at-recv_ne j ne = get_or-set_ne chans i j rest [] ne

    rest_placed : (k : Bytes) → lookup k rest ≢ none → shard_index k ≡ i
    unfolding lookup
    rest_placed k found = elim (Bool-cases (str_eq k₀ k)) [
      | inl same ↦ rw (← (eq_iff k₀ k).0 same) index_here
      | inr other ↦ valid.placed i k (rw (here, other) found)
    ]

    recv-IsPlaced : IsPlaced (set chans i rest)
    recv-IsPlaced = record {
      placed = λ j k found. elim (ℕ_discrete i j) [
        | yes e ↦ rest_placed k (rw (← e, chan_at-recv_self) at found) ∙ e
        | no ne ↦ valid.placed j k (rw (chan_at-recv_ne j ne) at found)
      ];
      distinct = λ j. elim (ℕ_discrete i j) [
        | yes e ↦ rw (← e, chan_at-recv_self) IsDistinct-here.1
        | no ne ↦ rw (chan_at-recv_ne j ne) (valid.distinct j)
      ];
    }

    pending-recv :
        (k : Bytes)
        → pending k chans ≡ (if str_eq k₀ k then some v₀ else pending k (set chans i rest))
    unfolding lookup
    pending-recv k = elim (ℕ_discrete i (shard_index k)) [
      | yes e ↦ rw (← e, here, chan_at-recv_self)
      | no ne ↦ rw (chan_at-recv_ne (shard_index k) ne) (elim (Bool-cases (str_eq k₀ k)) [
        | inl same ↦ absurd (ne (sym index_here ∙ ap shard_index ((eq_iff k₀ k).0 same)))
        | inr other ↦ rw other
      ])
    ]

    pending-recv_self : pending k₀ (set chans i rest) ≡ none
    pending-recv_self = rw (index_here, chan_at-recv_self) IsDistinct-here.0

  abbrev or_else : Option V → Option V → Option V
  or_else none d = d
  or_else (some v) d = some v

  lookup-items_from :
      {chans : List (List (Tuple V))} {out : List (Tuple V)} (tmp : List (Bytes × V)) (k : Bytes)
      → FanIn V chans out
      → IsPlaced chans
      → lookup k (items_from tmp out) ≡ or_else (pending k chans) (lookup k tmp)
  unfolding items_from lookup
  lookup-items_from tmp k (drained chans h) placed = rw (h (shard_index k))
  lookup-items_from tmp k (recv chans i (k₀, v₀) rest out inside here run) placed =
      let ih =
        lookup-items_from (insert k₀ v₀ tmp) k run
          (recv-IsPlaced chans i k₀ v₀ rest inside here placed) in
      let gone = pending-recv_self chans i k₀ v₀ rest inside here placed in
      ground (
        arith,
        ih,
        gone,
        pending-recv chans i k₀ v₀ rest inside here placed k,
        lookup-insert k₀ k v₀ tmp,
        eq_iff k₀ k,
      )

  get-clear_from-pending :
      {chans : List (List (Tuple V))} {out : List (Tuple V)} (m : ConcurrentMap V) (k : Bytes)
      → FanIn V chans out
      → IsPlaced chans
      → IsValid m
      → ((j : Bytes) → pending j chans ≡ none → get j m ≡ none)
      → get k (clear_from m out) ≡ none
  unfolding clear_from lookup
  get-clear_from-pending m k (drained chans h) placed valid left = left k (rw (h (shard_index k)))
  get-clear_from-pending m k (recv chans i (k₀, v₀) rest out inside here run) placed valid left =
      get-clear_from-pending (remove k₀ m) k run
        (recv-IsPlaced chans i k₀ v₀ rest inside here placed) (remove-IsValid k₀ m valid)
        λ j none_left. ground (
          arith,
          left j,
          none_left,
          pending-recv chans i k₀ v₀ rest inside here placed j,
          get-remove k₀ j m valid.size,
        )

  -- Whatever the order in which the shards' goroutines deliver, the map that Items makes from a
  -- well-formed map answers every lookup as the sharded map does.
  pub lookup-items :
      (m : ConcurrentMap V) (out : List (Tuple V)) (k : Bytes)
      → IsValid m
      → FanIn V (snapshot m) out
      → lookup k (items_from [] out) ≡ get k m
  unfolding get get_shard lookup
  lookup-items m out k valid run = ground (
    arith,
    lookup-items_from [] k run (snapshot-IsPlaced m valid),
    chan_at-snapshot m (shard_index k),
  )

  -- Whatever that order, Clear leaves no key of a well-formed map.
  pub get-clear :
      (m : ConcurrentMap V) (out : List (Tuple V)) (k : Bytes)
      → IsValid m
      → FanIn V (snapshot m) out
      → get k (clear_from m out) ≡ none
  unfolding get get_shard
  get-clear m out k valid run =
      get-clear_from-pending m k run (snapshot-IsPlaced m valid) valid
        λ j h. rw (← chan_at-snapshot m (shard_index j)) h

  clear_from-IsValid :
      (m : ConcurrentMap V) (out : List (Tuple V)) → IsValid m → IsValid (clear_from m out)
  unfolding clear_from
  clear_from-IsValid m [] h = h
  clear_from-IsValid m ((k, v) ∷ out) h = clear_from-IsValid (remove k m) out (remove-IsValid k m h)
