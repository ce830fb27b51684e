-- ===== src/Tests/Peers.antt =====
-- Three instances that share a Redis: alice comes to the first and moves to the second; the third
-- looks her up.
use cbsignal_redis.Base.{
  ℕ, ◌≡◌, refl, ap, true, false, Option, none, some, List, [], ◌∷◌, ◌++◌, arith, ◌==◌,
  if◌then◌else◌, Bytes, str, str_eq, str_eq_refl, contains,
}
use cbsignal_redis.Dict.{lookup, is_some}
use cbsignal_redis.FastMap.{FastMap}
use cbsignal_redis.Errors.{redis_nil, ok, err}
use cbsignal_redis.Redis.{key_for_peer_id, break_on_error, set_local_peer, del_local_peer, BigCache}
use cbsignal_redis.World.{Env, World}
use cbsignal_redis.Hub.{get_client, do_register, do_unregister}
use cbsignal_redis.Directory.{
  instance_at, step, run, enter, enter_all, Event, Cluster, Directory, joins, leaves, renews,
}
use cbsignal_redis.Directory.Agreement.{run-Agrees, Agrees}
use cbsignal_redis.Directory.Lookup.{LooksUp, Misses, look, run-refines_directory, late_leave-hides}
use cbsignal_redis.Directory.Signals.{IsSent, signal_follows_directory}
use cbsignal_redis.Directory.Stale.{run-cache, signal_goes_astray, KeepingCache}
use cbsignal_redis.Nodes.Node.{new_node}
use cbsignal_redis.Nodes.NodeHub.{NodeHub}
use cbsignal_redis.Handler.{key_for_filter, target_of, filter_get, handle_signal, SignalMsg}
use cbsignal_redis.Tests.Instances.{alice, server, env, others, alice_client}
use cbsignal_redis.Directory.Keys.{found, AnsweringKeys}
use cbsignal_redis.Tests.Requests.{carol}

-- A cache that forgets nothing.
abbrev memory : BigCache
memory = record {
  Cache = Bytes → Option Bytes;
  cache_get = λ k c. c k;
  cache_set = λ k v c j. if str_eq k j then some v else c j;
}

memory-keeps : KeepingCache memory
memory-keeps = record { get-set = λ k v c. rw (str_eq_refl k) refl }

abbrev pub caching : Env
caching = record env { big_cache = memory }

abbrev pub head : List Bytes → Option Bytes
head [] = none
head (v ∷ l) = some v

pub get_head : (l : List Bytes) → (elim l [ [] ↦ err redis_nil | v ∷ rest ↦ ok v ]) ≡ found (head l)
get_head [] = refl
get_head (v ∷ l) = refl

pub head-if :
    (b : _) (l l' : List Bytes) → head (if b then l else l') ≡ (if b then head l else head l')
head-if true l l' = refl
head-if false l l' = refl

abbrev pub server_keys : AnsweringKeys server
server_keys = record {
  value = λ k db. head (db k);
  get_answers = λ k db. get_head (db k);
  get_keeps = λ k j db. refl;
  set_answers = λ k v ttl db. refl;
  set_stores = λ k v ttl j db. head-if (str_eq k j) (v ∷ []) (db j);
  expire_keeps = λ k ttl j db. refl;
  del_answers = λ k db. refl;
  del_removes = λ k j db. head-if (str_eq k j) [] (db j);
}

abbrev pub addr_of : ℕ → Bytes
addr_of i =
    if i == 0 then str "10.0.0.1:80" else if i == 1 then str "10.0.0.2:80" else str "10.0.0.3:80"

-- Who comes to which instance.
abbrev pub peer_of : ℕ → ℕ → Bytes
peer_of i p = if i == 2 then carol else alice

abbrev hub_of : ℕ → NodeHub
hub_of i = record {
  nodes =
      (str "10.0.0.1:80", new_node (str "10.0.0.1:80"))
      ∷ (str "10.0.0.2:80", new_node (str "10.0.0.2:80"))
      ∷ [];
  self_addr = addr_of i;
}

-- Nobody has come yet.
abbrev pub start_at : ℕ → World caching
start_at i = record {
  clients = FastMap.empty caching.fast_map;
  heap = λ p. record alice_client { peer_id = peer_of i p };
  pool = [];
  next = 1;
  gets = 0;
  now = 100;
  redis = record {
    self_addr = addr_of i;
    is_alive = true;
    breaks = 0;
    cache = λ k. none;
    db = λ k. [];
  };
  net = [];
  seen_pairs = [];
  node_hub = hub_of i;
}

abbrev pub fresh_start : Cluster caching
fresh_start = record { db = λ k. []; instances = start_at }

abbrev pub nobody : Directory
nobody = record { owner = λ j. none; has_peer = λ i j. false }

pub fresh_start-Agrees : Agrees caching server_keys addr_of peer_of fresh_start nobody
unfolding get_client
fresh_start-Agrees = record {
  alive = λ i. refl;
  own_addr = λ i. refl;
  own_name = λ i p. refl;
  owners = λ j. refl;
  peers = λ i j. rw (FastMap.get-empty caching.fast_map j) refl;
}

abbrev pub moves : List Event
moves = joins 0 0 ∷ joins 1 0 ∷ []

-- The caches stay empty: nobody has looked anyone up.
pub run-Misses : (es : List Event) (r : ℕ) → Misses caching r alice (run caching es fresh_start)
run-Misses es r = ap (λ (c : Bytes → Option Bytes). c alice) (run-cache caching es fresh_start r)

run-refines_directory_example :
    let c' = run caching moves fresh_start in
    let d' = enter_all addr_of peer_of moves nobody in
    ((i : ℕ) (id : Bytes) → is_some (get_client caching id (c'.instances i)) ≡ d'.has_peer i id)
    × ((r : ℕ) (id : Bytes)
        → Misses caching r id c'
        → LooksUp caching r id c' (found (d'.owner id)))
run-refines_directory_example =
    run-refines_directory caching server_keys addr_of peer_of fresh_start nobody moves
      fresh_start-Agrees

abbrev pub moved : Cluster caching
moved = run caching moves fresh_start

abbrev at_both : Directory
at_both = enter_all addr_of peer_of moves nobody

moved-Agrees : Agrees caching server_keys addr_of peer_of moved at_both
moved-Agrees =
    run-Agrees caching server_keys addr_of peer_of moves fresh_start nobody fresh_start-Agrees

has_alice :
    (is_some (get_client caching alice (moved.instances 0)) ≡ true)
    × (is_some (get_client caching alice (moved.instances 1)) ≡ true)
unfolding enter_all enter str_eq
has_alice = (moved-Agrees.peers 0 alice, moved-Agrees.peers 1 alice)

late_leave-hides_example :
    let c' = run caching (leaves 0 alice ∷ renews 1 alice ∷ []) moved in
    (is_some (get_client caching alice (c'.instances 1)) ≡ true)
    × ((r : ℕ) → Misses caching r alice c' → LooksUp caching r alice c' (err redis_nil))
unfolding str_eq
late_leave-hides_example =
    late_leave-hides caching server_keys addr_of peer_of moved at_both 0 1 alice ((1, alice) ∷ [])
      moved-Agrees refl refl has_alice.0 has_alice.1

-- The third instance looks alice up while she is at the first.
abbrev first_only : Cluster caching
first_only = run caching (joins 0 0 ∷ []) fresh_start

abbrev at_first : Directory
at_first = enter_all addr_of peer_of (joins 0 0 ∷ []) nobody

first_only-Agrees : Agrees caching server_keys addr_of peer_of first_only at_first
first_only-Agrees =
    run-Agrees caching server_keys addr_of peer_of (joins 0 0 ∷ []) fresh_start nobody
      fresh_start-Agrees

at_first_owner : at_first.owner alice ≡ some (str "10.0.0.1:80")
unfolding enter_all enter str_eq
at_first_owner = refl

-- carol, at the third instance, sends alice a signal.
abbrev pub from_carol : SignalMsg
from_carol = record {
  action = str "signal";
  to_peer_id = alice;
  to = [];
  reply_data = none;
  reason = [];
}

abbrev pub signal : Bytes
signal = str "signal" ++ carol

signal_follows_directory_example :
    let w = instance_at caching 2 moved in
    let w' = handle_signal caching others from_carol 0 w in
    IsSent caching from_carol (str "10.0.0.2:80") signal (new_node (str "10.0.0.2:80")) w'
    × (w'.heap ≡ w.heap)
    × (w'.clients ≡ w.clients)
unfolding enter_all enter str_eq run step do_register set_local_peer break_on_error filter_get
    contains key_for_filter target_of lookup new_node
signal_follows_directory_example =
    signal_follows_directory caching server_keys addr_of peer_of others from_carol 0
      (str "10.0.0.2:80") signal (new_node (str "10.0.0.2:80")) fresh_start nobody moves 2
      fresh_start-Agrees (run-Misses moves 2) refl refl
      (record {
        fresh = refl;
        far = refl;
        known = refl;
        living = refl;
        alive = refl;
        room = omega arith;
        marshal = refl;
      })

abbrev later : List Event
later = leaves 0 alice ∷ joins 1 0 ∷ []

signal_goes_astray_example :
    let c' = run caching later (look caching 2 alice first_only) in
    IsSent caching from_carol
      (str "10.0.0.1:80")
      signal
      (new_node (str "10.0.0.1:80"))
      (handle_signal caching others from_carol 0 (instance_at caching 2 c'))
    × (server_keys.value (key_for_peer_id alice) c'.db
        ≡ (enter_all addr_of peer_of later at_first).owner alice)
unfolding enter_all enter str_eq run step do_register do_unregister set_local_peer del_local_peer
    break_on_error filter_get contains key_for_filter target_of lookup new_node
signal_goes_astray_example =
    signal_goes_astray caching server_keys addr_of peer_of memory-keeps others from_carol 0
      (str "10.0.0.1:80") signal (new_node (str "10.0.0.1:80")) first_only at_first later 2
      first_only-Agrees (run-Misses (joins 0 0 ∷ []) 2) at_first_owner refl
      (record {
        fresh = refl;
        far = refl;
        known = refl;
        living = refl;
        alive = refl;
        room = omega arith;
        marshal = refl;
      })

moved_owner : (enter_all addr_of peer_of later at_first).owner alice ≡ some (str "10.0.0.2:80")
unfolding enter_all enter str_eq
moved_owner = refl
