-- ===== src/Tests/Collisions.antt =====
-- A signal between two peers that hides the signals of two others.
use cbsignal_redis.Base.{
  ◌≡◌, refl, true, none, List, ◌∷◌, ◌==◌, if◌then◌else◌, Bytes, str, str_eq, str_eq_refl, contains,
}
use cbsignal_redis.Errors.{redis_nil}
use cbsignal_redis.Redis.{key_for_peer_id, get_remote_peer_addr}
use cbsignal_redis.World.{World}
use cbsignal_redis.Hub.{get_client}
use cbsignal_redis.Handler.{key_for_filter, target_of, filter_get, handle_signal, SignalMsg}
use cbsignal_redis.Handler.Routing.{pair_key}
use cbsignal_redis.Handler.Collision.{handle_signal-collides}
use cbsignal_redis.Tests.Instances.{env, others, alice_client, empty_world, nobody_here}
use cbsignal_redis.Tests.Service.{to_bob}

-- "alice-1" is at every address but 5, where "alice-" is.
abbrev two_peers : World env
two_peers = record empty_world {
  heap = λ q. if q == 5 then record alice_client { peer_id = str "alice-" } else alice_client;
}

abbrev to_peer : Bytes → SignalMsg
to_peer id = record to_bob { to_peer_id = id }

two_peers_only : get_client env (str "nobody") two_peers ≡ none
unfolding get_client
two_peers_only = nobody_here (str "nobody")

handle_signal-collides_example :
    let w' = handle_signal env others (to_peer (str "nobody")) 0 two_peers in
    handle_signal env others (to_peer (str "1nobody")) 5 w'
    ≡ (filter_get env (pair_key env others (to_peer (str "1nobody")) 5 two_peers) w').1
unfolding target_of str_eq filter_get contains key_for_filter get_remote_peer_addr key_for_peer_id
handle_signal-collides_example =
    handle_signal-collides env others (to_peer (str "nobody")) (to_peer (str "1nobody")) 0 5
      (str "alice-") (str "1") (str "nobody") two_peers seen_after refl refl refl refl refl
      two_peers_only redis_nil refl
  where
    seen_after : (k : Bytes) (s : List Bytes) → contains k (k ∷ s) ≡ true
    seen_after k s = rw (str_eq_refl k) refl
