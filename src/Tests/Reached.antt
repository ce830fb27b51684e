-- ===== src/Tests/Reached.antt =====
-- A signal from carol at the third instance to alice, who polls at the second.
use mathlib.Core.List.{Mem}
use cbsignal_redis.Base.{
  ℕ, ◌≡◌, refl, ◌∙◌, Option, none, List, [], ◌∷◌, arith, str, str_eq, str_eq_refl, contains,
}
use cbsignal_redis.Dict.{lookup, insert}
use cbsignal_redis.Messages.{SignalReq}
use cbsignal_redis.Client.{send_data_polling, send_message}
use cbsignal_redis.FastMap.{FastMap}
use cbsignal_redis.FastMap.Cmap.{shard_index, new_cmap, modify, set_item, get}
use cbsignal_redis.FastMap.Cmap.Instance.{cmap}
use cbsignal_redis.Redis.{
  key_for_peer_id, key_for_mq, break_on_error, set_local_peer, push_msg_to_mq, block_pop_mq,
}
use cbsignal_redis.World.{World}
use cbsignal_redis.Hub.{get_client, do_register, send_to, after_send, deliver}
use cbsignal_redis.Hub.Registry.{get_client-do_register, do_register-IsSound, IsSound}
use cbsignal_redis.Handler.{key_for_filter, target_of, filter_get, handle_signal}
use cbsignal_redis.Nodes.Aggregator.{
  start_worker, batch_process as process_batch, on_request, on_linger, fired, sent,
}
use cbsignal_redis.Nodes.Aggregator.Steps.{
  start, enqueue, Aggregator, receives, runs_out, lingers, here,
}
use cbsignal_redis.Nodes.Aggregator.Stop.{Steps, none_more, one_more}
use cbsignal_redis.Nodes.Node.{
  node_option, new_node, trim_if_long, after_push, send_batch_req, batch_process,
}
use cbsignal_redis.Directory.{instance_at, enter, enter_all, joins, step as enter_one, run as enrol}
use cbsignal_redis.Directory.Signals.{IsSent}
use cbsignal_redis.Tests.Peers.{
  caching, server_keys, addr_of, peer_of, fresh_start, nobody, fresh_start-Agrees, moves,
  run-Misses, moved, from_carol, signal,
}
use cbsignal_redis.Delivery.Reached.{registered_peer-reached, Delivers}
use cbsignal_redis.Delivery.{
  push_batch, started, take_batch, deliver_next, step, run, Event, Link, pushes, takes, delivers,
}
use cbsignal_redis.Delivery.Client.{IsAt}
use cbsignal_redis.Tests.Instances.{alice, server_lists, encode, others, server_pops}
use cbsignal_redis.Tests.Links.{defaults}

abbrev for_alice : SignalReq
for_alice = record { to_peer_id = alice; payload = signal }

-- The aggregator takes a request up, its timer runs out, and it hands the batch over.
abbrev taking : SignalReq → Aggregator
taking item = record (enqueue item start) {
  event_queue = [];
  worker = on_request (node_option defaults) item sent (enqueue item start).worker;
}

abbrev timed_out : SignalReq → Aggregator
timed_out item = record (taking item) { worker = record (taking item).worker { timer = fired } }

abbrev handed : SignalReq → Aggregator
handed item = record (timed_out item) {
  worker = on_linger (node_option defaults) sent (timed_out item).worker;
}

handed-Steps : (item : SignalReq) → Steps (node_option defaults) (enqueue item start) (handed item)
unfolding start enqueue start_worker on_request
handed-Steps item =
    one_more
      (one_more (one_more none_more (receives (enqueue item start) item [] sent refl refl))
        (runs_out (taking item) refl))
      (lingers (timed_out item) sent refl refl)

abbrev to_the_end : SignalReq → List Event
to_the_end item = pushes (item ∷ []) ∷ takes ∷ delivers 0 ∷ []

abbrev second : World caching
second = instance_at caching 1 moved

start_at-IsSound :
    IsSound caching (instance_at caching 1 (enrol caching (joins 0 0 ∷ []) fresh_start))
unfolding enrol enter_one get_client
start_at-IsSound = record {
  own_id = λ id p h.
      let nobody_yet : ◌≡◌ {A = Option ℕ}
          (FastMap.get caching.fast_map id (FastMap.empty caching.fast_map)) none =
        FastMap.get-empty caching.fast_map id in
      cc;
  fits = λ p. omega arith;
}

second-IsAt : IsAt caching alice 0 (str "m1" ∷ []) second
unfolding enrol enter_one
second-IsAt =
    let before = instance_at caching 1 (enrol caching (joins 0 0 ∷ []) fresh_start) in
    record {
      sound = do_register-IsSound caching 0 before start_at-IsSound;
      here = get_client-do_register caching 0 alice before ∙ rw (str_eq_refl alice) refl;
      polling = unfold do_register in refl;
      holds = unfold do_register in refl;
    }

abbrev delivered : Link caching
delivered = run caching (addr_of 1) (to_the_end for_alice) (record {
  sender = (instance_at caching 2 moved).redis;
  world = second;
  flights = [];
  received = [];
})

for_alice-Delivers :
    Delivers caching server_lists encode
      (addr_of 1)
      alice
      0
      (str "m1" ∷ [])
      (handed for_alice)
      (to_the_end for_alice)
      delivered
      second
unfolding run step push_batch take_batch deliver_next started batch_process send_batch_req
    after_push push_msg_to_mq trim_if_long block_pop_mq deliver after_send send_to send_message
    send_data_polling do_register set_local_peer break_on_error key_for_mq key_for_peer_id str_eq
    get_client cmap get lookup set_item modify new_cmap shard_index insert start on_request
    on_linger start_worker enqueue process_batch enrol enter_one
for_alice-Delivers = record {
  handed = refl;
  idle = refl;
  none_queued = refl;
  none_before = refl;
  at = second-IsAt;
  carried = ((refl, refl), tt);
  space = omega arith;
  few = omega arith;
  drained = refl;
  ended = refl;
}

registered_peer-reached_example :
    IsSent caching from_carol
      (addr_of 1)
      signal
      (new_node (addr_of 1))
      (handle_signal caching others from_carol 0 (instance_at caching 2 moved))
    × Mem signal (delivered.world.heap 0).msg_queue
unfolding enter_all enter str_eq enrol enter_one do_register set_local_peer break_on_error
    filter_get contains key_for_filter target_of lookup new_node start
registered_peer-reached_example =
    registered_peer-reached caching server_keys server_lists server_pops encode addr_of peer_of
      others from_carol 0 signal (new_node (addr_of 1)) defaults start (handed for_alice)
      fresh_start nobody moves 2 1 0 (str "m1" ∷ []) (to_the_end for_alice) fresh_start-Agrees
      (run-Misses moves 2) refl refl
      (record {
        fresh = refl;
        far = refl;
        known = refl;
        living = refl;
        alive = refl;
        room = omega arith;
        marshal = refl;
      })
      here refl (handed-Steps for_alice) for_alice-Delivers
