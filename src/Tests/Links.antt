-- ===== src/Tests/Links.antt =====
-- Two instances that share a Redis: signals from one to alice, who polls at the other.
use cbsignal_redis.Base.{
  ◌+◌, ◌≤◌, ◌≡◌, refl, false, some, List, [], ◌∷◌, ◌++◌, map, arith, length, concat, Bytes, str,
  str_eq,
}
use cbsignal_redis.Messages.{SignalReq}
use cbsignal_redis.Client.{polling_queue_size, send_data_polling, send_message}
use cbsignal_redis.Dict.{lookup, insert}
use cbsignal_redis.FastMap.Cmap.{shard_index, new_cmap, modify, set_item, get}
use cbsignal_redis.FastMap.Cmap.Instance.{cmap}
use cbsignal_redis.Redis.{
  key_for_peer_id, key_for_mq, break_on_error, set_local_peer, push_msg_to_mq, block_pop_mq,
  RedisState,
}
use cbsignal_redis.Hub.{get_client, do_register, send_to, after_send, deliver}
use cbsignal_redis.Nodes.Aggregator.{AggregatorOption}
use cbsignal_redis.Nodes.Node.{trim_if_long, after_push, send_batch_req, batch_process}
use cbsignal_redis.Delivery.{
  payloads, push_batch, started, take_batch, deliver_next, step, run, Event, Link, pushes, takes,
  delivers,
}
use cbsignal_redis.Delivery.Client.{IsAt-redis, IsAt}
use cbsignal_redis.Delivery.Queue.{mq}
use cbsignal_redis.Delivery.Accepted.{batches_arrive}
use cbsignal_redis.Delivery.Drain.{in_turn, in_turn_lem}
use cbsignal_redis.Tests.Instances.{
  alice, server, no_cache, server_lists, encode, env, db, redis_with, world, alice_here,
  world-IsSound, server_pops,
}
use mathlib.Core.List.{Permᴰ}

abbrev near_addr : Bytes
near_addr = str "10.0.0.1:80"

abbrev to_alice : Bytes → SignalReq
to_alice b = record { to_peer_id = alice; payload = b }

-- Two batches, and the second is delivered first.
abbrev crossing : List Event
crossing =
    pushes (to_alice (str "s1") ∷ [])
    ∷ pushes (to_alice (str "s2") ∷ [])
    ∷ takes
    ∷ takes
    ∷ delivers 1
    ∷ delivers 0
    ∷ []

abbrev sender : RedisState server no_cache
sender = redis_with db

alice-IsAt : IsAt env alice 0 (str "m1" ∷ []) world
alice-IsAt = record {
  sound = world-IsSound;
  here = alice_here;
  polling = unfold do_register in refl;
  holds = unfold do_register in refl;
}

near-empty : mq env server_lists near_addr world ≡ []
unfolding do_register set_local_peer break_on_error key_for_mq key_for_peer_id str_eq
near-empty = refl

alice_room :
    1 + length (payloads alice (to_alice (str "s1") ∷ to_alice (str "s2") ∷ []))
    ≤ polling_queue_size
unfolding str_eq
alice_room = omega arith

batches_arrive_example :
    let l =
      run env near_addr crossing
        (record { sender = sender; world = world; flights = []; received = [] }) in
    ((pending : List (List SignalReq)) × (mq env server_lists near_addr l.world
        ≡ map encode pending)
      × Permᴰ
          (l.received ++ concat l.flights ++ concat pending)
          (to_alice (str "s1") ∷ to_alice (str "s2") ∷ []))
    × (get_client env alice l.world ≡ some 0)
    × ((l.world.heap 0).msg_queue ≡ str "m1" ∷ payloads alice l.received)
batches_arrive_example =
    batches_arrive env server_lists server_pops encode near_addr alice 0 (str "m1" ∷ []) sender
      world crossing near-empty alice-IsAt ((refl, refl), ((refl, refl), tt)) alice_room
      (omega arith)

-- The second batch overtakes the first.
crossing_overtakes :
    ((run env near_addr crossing
        (record { sender = sender; world = world; flights = []; received = [] })).world.heap
      0).msg_queue
    ≡ str "m1" ∷ str "s2" ∷ str "s1" ∷ []
unfolding run step push_batch take_batch deliver_next started batch_process send_batch_req
    after_push push_msg_to_mq trim_if_long block_pop_mq deliver after_send send_to send_message
    send_data_polling do_register set_local_peer break_on_error key_for_mq key_for_peer_id str_eq
    get_client cmap get lookup set_item modify new_cmap shard_index insert
crossing_overtakes = refl

-- A node's aggregator with one request: accepted, taken, and handed over when the timer runs out.
abbrev pub defaults : AggregatorOption
defaults = record {
  batch_size = 8;
  workers = 4;
  channel_buffer_size = 0;
  linger_time = 60_000;
  has_error_handler = false;
}

abbrev first : SignalReq
first = to_alice (str "s1")

abbrev one_link : Link env
one_link = record { sender = sender; world = world; flights = []; received = [] }

-- A queue in Redis with one batch, and another batch in flight.
abbrev waiting_link : Link env
waiting_link =
    run env near_addr (pushes (first ∷ []) ∷ [])
      (record one_link { flights = (to_alice (str "s0") ∷ []) ∷ [] })

waiting : mq env server_lists near_addr waiting_link.world ≡ map encode ((first ∷ []) ∷ [])
unfolding run step push_batch batch_process send_batch_req after_push push_msg_to_mq trim_if_long
    do_register set_local_peer break_on_error key_for_mq key_for_peer_id str_eq
waiting = refl

waiting-IsAt : IsAt env alice 0 (str "m1" ∷ []) waiting_link.world
unfolding run step push_batch
waiting-IsAt = IsAt-redis env alice 0 (str "m1" ∷ []) world _ alice-IsAt

in_turn_lem_example :
    let l' =
      run env near_addr (in_turn 1 (waiting_link.flights ++ (first ∷ []) ∷ [])) waiting_link in
    (get_client env alice l'.world ≡ some 0)
    × ((l'.world.heap 0).msg_queue ≡ str "m1" ∷ str "s0" ∷ str "s1" ∷ [])
    × (mq env server_lists near_addr l'.world ≡ [])
    × (concat l'.flights ≡ [])
unfolding str_eq run step push_batch
in_turn_lem_example =
    in_turn_lem env server_lists server_pops encode near_addr alice 0 (str "m1" ∷ [])
      ((first ∷ []) ∷ []) waiting_link ((refl, refl), tt) waiting waiting-IsAt (omega arith)
