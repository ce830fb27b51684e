-- ===== src/Tests/Service.antt =====
-- The service at work for one registered polling client, alice, who knows of bob at another instance.
use cbsignal_redis.Base.{
  ℕ, ◌≡◌, refl, ◌≢◌, true, ◌&&◌, not, none, List, [], ◌∷◌, ◌++◌, arith, ◌==◌, if◌then◌else◌,
  replicate, Bytes, str, str_eq, str_eq_refl, contains,
}
use cbsignal_redis.Dict.{lookup, is_some}
use cbsignal_redis.Messages.{SignalReq}
use cbsignal_redis.Redis.{key_for_peer_id, get_remote_peer_addr}
use cbsignal_redis.Nodes.Node.{new_node}
use cbsignal_redis.World.{World}
use cbsignal_redis.Hub.{get_client, do_register, do_unregister, deliver}
use cbsignal_redis.Hub.Registry.{do_unregister_lem, deliver_to_full, IsSound}
use cbsignal_redis.Handler.{
  key_for_filter, target_of, filter_get, handle_signal, handle_reject, handle_all, SignalMsg,
  signal_handler, reject_handler, heartbeat_handler,
}
use cbsignal_redis.Handler.Routing.{pair_key, handle_signal-polling}
use cbsignal_redis.Handler.Rejecting.{handle_reject-once}
use cbsignal_redis.Handler.Sound.{handle_all-IsSound}
use cbsignal_redis.Tests.Instances.{
  alice, bob, env, others, alice_client, world, alice_here, world-IsSound,
}

abbrev pub to_bob : SignalMsg
to_bob = record { action = str "signal"; to_peer_id = bob; to = []; reply_data = none; reason = [] }

abbrev pub to_alice : SignalMsg
to_alice = record to_bob { to_peer_id = alice }

abbrev to_nobody : SignalMsg
to_nobody = record to_bob { to_peer_id = str "nobody" }

seen_after : (k : Bytes) (s : List Bytes) → contains k (k ∷ s) ≡ true
unfolding contains
seen_after k s = rw (str_eq_refl k) refl

handle_signal-polling_example :
    let w' = handle_signal env others to_alice 0 world in
    ((w'.heap 0).msg_queue ≡ (str "m1") ∷ (str "signal" ++ alice) ∷ [])
    × (w'.clients ≡ world.clients)
unfolding target_of str_eq filter_get contains key_for_filter get_remote_peer_addr key_for_peer_id
    lookup do_register new_node
handle_signal-polling_example =
    handle_signal-polling env others to_alice 0 world 0 (str "signal" ++ alice) refl alice_here refl
      (omega arith) refl

-- bob is here as well, at address 1, and rejects alice.
abbrev two_clients : World env
two_clients = record world {
  heap = λ q. if q == 1 then record alice_client { peer_id = bob } else alice_client;
}

abbrev rejection : SignalMsg
rejection = record to_alice { action = str "reject"; reason = str "busy" }

handle_reject-once_example :
    let w' = handle_reject env others rejection 1 two_clients in
    ((w'.heap 0).msg_queue ≡ (str "m1") ∷ (str "reject" ++ bob) ∷ [])
    × ((later : SignalMsg)
        → target_of later ≡ target_of rejection
        → (handle_signal env others later 1 w'
            ≡ (filter_get env (pair_key env others later 1 w') w').1)
          × (handle_reject env others later 1 w'
              ≡ (filter_get env (pair_key env others later 1 w') w').1))
unfolding target_of str_eq filter_get contains key_for_filter get_remote_peer_addr key_for_peer_id
    lookup do_register new_node
handle_reject-once_example =
    handle_reject-once env others seen_after rejection 1 0 (str "reject" ++ bob) two_clients refl
      (unfold get_client in alice_here) refl (omega arith) refl

-- Alice's messages, and the instance after them.
abbrev handled : World env
handled =
    handle_all env others
      (signal_handler to_bob 0 ∷ reject_handler to_alice 0 ∷ heartbeat_handler 0 ∷ []) world

handle_all-IsSound_example :
    ((id : Bytes) → get_client env id handled ≡ get_client env id world) × IsSound env handled
handle_all-IsSound_example =
    handle_all-IsSound env others
      (signal_handler to_bob 0 ∷ reject_handler to_alice 0 ∷ heartbeat_handler 0 ∷ []) world
      world-IsSound

pub alice_named : alice ≢ []
alice_named = λ h. cc

do_unregister_lem_example :
    let (done, w') = do_unregister env alice world in
    (done ≡ (not (str_eq alice []) && is_some (get_client env alice world)))
    × ((j : Bytes)
        → get_client env j w' ≡ (if done && str_eq alice j then none else get_client env j world))
    × ((q : ℕ) → w'.heap q ≡ world.heap q)
do_unregister_lem_example = do_unregister_lem env alice world

-- alice's queue is full.
abbrev full_world : World env
full_world = record world { heap = λ q. record alice_client { msg_queue = replicate 30 (str "m") } }

abbrev for_alice : SignalReq
for_alice = record { to_peer_id = alice; payload = str "hi" }

full_world-IsSound : IsSound env full_world
unfolding get_client do_register
full_world-IsSound = record {
  own_id = λ id p h. IsSound.own_id world-IsSound id p h;
  fits = λ p. omega arith;
}

deliver_to_full_example :
    let w' = deliver env for_alice full_world in
    ((j : Bytes)
      → get_client env j w' ≡ (if str_eq alice j then none else get_client env j full_world))
    × (w'.pool ≡ 0 ∷ full_world.pool)
unfolding get_client
deliver_to_full_example =
    deliver_to_full env for_alice 0 full_world full_world-IsSound alice_named alice_here refl
      (omega arith)
