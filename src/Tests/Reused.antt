-- ===== src/Tests/Reused.antt =====
-- An instance from its start on, and a client of it that two peers come to share.
use cbsignal_redis.Base.{
  ℕ, suc, ◌+◌, ◌≤◌, ◌≡◌, refl, false, some, List, [], ◌∷◌, arith, ◌==◌, if◌then◌else◌, str, str_eq,
}
use cbsignal_redis.Errors.{ok}
use cbsignal_redis.Dict.{lookup, insert, erase}
use cbsignal_redis.FastMap.Cmap.{shard_index, new_cmap, modify, set_item, get, has, remove}
use cbsignal_redis.FastMap.Cmap.Instance.{cmap}
use cbsignal_redis.Client.{new_websocket_peer_client}
use cbsignal_redis.World.{World}
use cbsignal_redis.Hub.{
  get_client, do_register, do_unregister, close, drop_client, allocate_from, allocate,
}
use cbsignal_redis.Main.{Server}
use cbsignal_redis.Main.Dispatch.{common_handler, HttpRequest}
use cbsignal_redis.Main.Websocket.{join_ws, leave}
use cbsignal_redis.Main.Websocket.Reader.{read_round, control, data_message, messages}
use cbsignal_redis.System.Safe.{times, PickingPool, IsSafe}
use cbsignal_redis.System.Steps.{reached-IsSafe, IsFresh, serves, reads, started, goes}
use cbsignal_redis.System.Race.{both_test, interleave, double_drop-shares, tests}
use cbsignal_redis.System.Reuse.{stale_leave-shares}
use cbsignal_redis.Tests.Instances.{alice, bob, env, others, alice_client, empty_world}
use cbsignal_redis.Tests.Service.{to_bob, alice_named}
use cbsignal_redis.Tests.Requests.{hmac_hex, settings, carol, service, carol_joins, two_signals}

abbrev fresh_world : World env
fresh_world = record empty_world { heap = λ q. record alice_client { msg_queue = [] } }

fresh_world-IsFresh :
    IsFresh env hmac_hex (λ b. ok to_bob) two_signals (λ conn b net. net) fresh_world
fresh_world-IsFresh = record { no_clients = refl; no_pool = refl; no_messages = λ p. refl }

-- sync.Pool as the tests have it gives the client put back last.
env-PickingPool : PickingPool env
env-PickingPool = record { picks = λ n pool rest p h q. picked pool rest p h q }
  where
    picked :
        (pool rest : List ℕ) (p : ℕ)
        → env.pool_get 0 pool ≡ some (p, rest)
        → (q : ℕ) → (if p == q then 1 else 0) + times q rest ≤ times q pool
    picked [] rest p h q = cc
    picked (x ∷ pool) rest p h q =
        let first : x ≡ p = cc in
        let others : pool ≡ rest = cc in rw (← first, ← others) (omega arith)

abbrev fresh : Server env
fresh = record service { world = fresh_world }

abbrev carol_upgrades : HttpRequest
carol_upgrades = record {
  upgrade = str "websocket";
  method = str "GET";
  upgraded = some 7;
  request = carol_joins;
}

-- Carol connects, and her reader gets a ping and a signal.
abbrev carol_connected : Server env
carol_connected = (common_handler env others two_signals hmac_hex settings carol_upgrades fresh).1

reached-IsSafe_example :
    IsSafe env
      (read_round env others
        (λ b. ok to_bob)
        (λ conn b net. net)
        1
        7
        (messages 300 (control [] ∷ data_message (str " {} ") ∷ []))
        carol_connected.world).1
reached-IsSafe_example =
    reached-IsSafe env hmac_hex (λ b. ok to_bob) two_signals (λ conn b net. net) env-PickingPool
      (goes (goes (started fresh_world-IsFresh) (serves others settings carol_upgrades fresh)) (
        reads others 1 7 (messages 300 (control [] ∷ data_message (str " {} ") ∷ []))
          carol_connected))

-- Alice and bob connect and are dropped, alice first. Alice connects again and gets bob's client, and
-- carol gets the one that alice had.
abbrev swapped : World env
swapped =
    let w = (join_ws env bob 8 (join_ws env alice 7 fresh_world).1).1 in
    let w' = (drop_client env bob 2 (drop_client env alice 1 w).1).1 in
    (join_ws env carol 10 (join_ws env alice 9 w').1).1

swapped_lem :
    (get_client env alice swapped ≡ some 2)
    × (get_client env carol swapped ≡ some 1)
    × (str_eq alice carol ≡ false)
    × (env.pool_get swapped.gets (1 ∷ swapped.pool) ≡ some (1, []))
unfolding join_ws drop_client do_unregister do_register allocate allocate_from close get_client
    str_eq new_websocket_peer_client cmap get lookup set_item modify new_cmap shard_index insert has
    remove erase
swapped_lem = (refl, refl, refl, refl)

-- The end of alice's first reader lets dave in at carol's client.
stale_leave-shares_example :
    let (r, w') = join_ws env (str "dave-44") 11 (leave env alice 1 swapped) in
    (get_client env carol w' ≡ some 1)
    × (get_client env (str "dave-44") w' ≡ some 1)
    × ((w'.heap 1).peer_id ≡ str "dave-44")
    × ((w'.heap 1).conn ≡ 11)
stale_leave-shares_example =
    stale_leave-shares env alice carol (str "dave-44") 1 2 11 [] swapped (λ e. cc) swapped_lem.0
      swapped_lem.1 swapped_lem.2 swapped_lem.3

-- Alice is connected, and the sweep and her reader drop her client at once; then bob and carol connect.
abbrev alice_connected : World env
alice_connected = (join_ws env alice 7 fresh_world).1

alice_connected_lem :
    (get_client env alice alice_connected ≡ some 1)
    × (env.pool_get alice_connected.gets (1 ∷ 1 ∷ alice_connected.pool)
        ≡ some (1, 1 ∷ alice_connected.pool))
    × (env.pool_get (suc alice_connected.gets) (1 ∷ alice_connected.pool)
        ≡ some (1, alice_connected.pool))
unfolding join_ws do_register allocate allocate_from get_client str_eq new_websocket_peer_client
    cmap get lookup set_item modify new_cmap shard_index insert
alice_connected_lem = (refl, refl, refl)

double_drop-shares_example :
    let dropped = interleave env alice 1 both_test tests tests alice_connected in
    let w' = (join_ws env carol 9 (join_ws env bob 8 dropped).1).1 in
    (get_client env bob w' ≡ some 1)
    × (get_client env carol w' ≡ some 1)
    × ((w'.heap 1).peer_id ≡ carol)
    × ((w'.heap 1).conn ≡ 9)
double_drop-shares_example =
    double_drop-shares env alice bob carol 1 8 9 alice_connected alice_named alice_connected_lem.0
      alice_connected_lem.1 alice_connected_lem.2
