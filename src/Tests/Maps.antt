-- ===== src/Tests/Maps.antt =====
-- The sharded map and the rate limit at work.
use cbsignal_redis.Base.{
  ℕ, ◌+◌, ◌-◌, ◌*◌, ◌/◌, ◌≤◌, ◌≡◌, refl, ◌≢◌, false, some, List, [], ◌∷◌, arith, replicate,
  get_or-replicate,
}
use cbsignal_redis.Base.Int.{pos}
use cbsignal_redis.Dict.{lookup, insert}
use cbsignal_redis.FastMap.Cmap.{
  fnv32, ConcurrentMap, shard_index, new_cmap, get_shard, modify, set_item, get, IsValid,
}
use cbsignal_redis.FastMap.Cmap.Laws.{new_cmap-IsValid, set_item-IsValid}
use cbsignal_redis.FastMap.Cmap.Refine.{
  run, run_flat, view, run-refines, Call, sets, sets_if_absent, pops, gets,
}
use cbsignal_redis.FastMap.Cmap.Each.{iter_cb, enter, lookup-iter_cb}
use cbsignal_redis.FastMap.Cmap.Iter.{snapshot, items_from, lookup-items, drained, recv}
use cbsignal_redis.RateLimit.{new_bucket_with_quantum, take_available, Bucket}
use cbsignal_redis.RateLimit.Refill.{bucket_of, take_available_lem}
use cbsignal_redis.RateLimit.Quantum.{find_quantum, find_quantum_ends, running}
use cbsignal_redis.RateLimit.Limit.{grants, rate_limit}
use cbsignal_redis.Tests.Instances.{alice, bob}

abbrev calls : List (Call ℕ)
calls = sets alice 1 ∷ gets alice ∷ sets_if_absent alice 2 ∷ pops alice ∷ gets bob ∷ []

abbrev no_clients : ConcurrentMap ℕ
no_clients = new_cmap

run-refines_example :
    ((run calls no_clients).0 ≡ (run_flat calls (view no_clients)).0)
    × (view (run calls no_clients).1 ≡ (run_flat calls (view no_clients)).1)
    × IsValid (run calls no_clients).1
run-refines_example = run-refines calls no_clients new_cmap-IsValid

abbrev one_client : ConcurrentMap ℕ
one_client = set_item alice 1 no_clients

lookup-items_example : lookup alice (items_from [] ((alice, 1) ∷ [])) ≡ get alice one_client
unfolding set_item modify new_cmap get_shard shard_index fnv32 insert lookup snapshot
lookup-items_example =
    lookup-items one_client ((alice, 1) ∷ []) alice
      (set_item-IsValid alice 1 no_clients new_cmap-IsValid)
      (recv (snapshot one_client) 29 (alice, 1) [] [] (omega arith) refl
        (drained (replicate 32 []) (λ i. get_or-replicate 32 i [])))

lookup-iter_cb_example : lookup alice (iter_cb enter one_client []) ≡ get alice one_client
lookup-iter_cb_example =
    lookup-iter_cb one_client alice (set_item-IsValid alice 1 no_clients new_cmap-IsValid)

rate_limit_example :
    (s : ℕ) × (tb : Bucket) × (grants
        (new_bucket_with_quantum (pos 10) (pos 5) (pos 5) (pos 0))
        ((3, 4) ∷ (25, 9) ∷ [])
      ≡ some (s, tb))
    × (s ≤ 5 + (40 - 0) / 10 * 5)
rate_limit_example =
    rate_limit 0 10 5 5 40 ((3, 4) ∷ (25, 9) ∷ []) (omega arith) (omega arith) (omega arith)
      (omega arith, omega arith, (omega arith, omega arith, omega arith))

take_available_lem_example :
    take_available (bucket_of 0 10 5 5 1 0) (pos 25) (pos 9) ≡ some (pos 5, bucket_of 0 10 5 5 0 2)
take_available_lem_example =
    take_available_lem 0 10 5 5 1 0 25 9 (omega arith) (omega arith) (omega arith) (omega arith)
      (omega arith) (omega arith)

-- No quantum fits.
find_quantum_ends_example : find_quantum (λ q. pos q) (λ q d. false) 400 1 ≢ running
find_quantum_ends_example = find_quantum_ends (λ q. pos q) (λ q d. false)
