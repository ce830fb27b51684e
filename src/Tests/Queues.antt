-- ===== src/Tests/Queues.antt =====
-- The aggregator, the nodes' queues and the break of a lost Redis at work.
use cbsignal_redis.Base.{
  ◌<◌, ◌≡◌, refl, ◌≢◌, true, false, List, [], ◌∷◌, ◌++◌, map, arith, drop, concat, str,
}
use cbsignal_redis.Errors.{redis_not_alive, library, ok, err}
use cbsignal_redis.Messages.{SignalReq}
use cbsignal_redis.Nodes.Aggregator.{
  start_worker, on_request, AggregatorOption, Worker, armed, running, blocked, sent, failed,
}
use cbsignal_redis.Nodes.Aggregator.Loop.{IsReady}
use cbsignal_redis.Nodes.Aggregator.Steps.{
  start, enqueue, in_hand, none_lost, never_blocked, Aggregator, Reach, enqueues, receives, here,
  next,
}
use cbsignal_redis.Nodes.Aggregator.Stop.{
  close_quit, look, handed_over-SafeStop, second_stop-panics, overtaken, SafeStop-misses, SafeStop,
  panics, closed, none_more,
}
use cbsignal_redis.Nodes.Aggregator.Sharing.{filled_batch, handed_to_handlers, handler_overwritten}
use cbsignal_redis.Nodes.Node.{new_node, send_batch_req}
use cbsignal_redis.Nodes.Node.Trim.{queue_of, trimmed, send_batch_req_trims}
use cbsignal_redis.Nodes.Node.Heartbeat.{three_in_a_row, heartbeat, fails, dead_iff_three}
use cbsignal_redis.Redis.{break_on_error, del_local_peer, RedisState}
use cbsignal_redis.Redis.Breaker.{handle, run, break_shields, sets, dels, expires}
use cbsignal_redis.Redis.Concurrent.{
  command, wake_all, reached-recovers, overlapping_breaks, Calls, Reach as Reached, Steps as Leads,
  passes, started, next as goes, none_more,
}
use cbsignal_redis.Tests.Instances.{
  alice, bob, far_addr, server, lost_server, no_cache, server_lists, encode, codec, db, redis_with,
}

abbrev pairs : AggregatorOption
pairs = record {
  batch_size = 2;
  workers = 1;
  channel_buffer_size = 12;
  linger_time = 70;
  has_error_handler = true;
}

abbrev hello : SignalReq
hello = record { to_peer_id = bob; payload = str "hello" }

abbrev again : SignalReq
again = record { to_peer_id = bob; payload = str "again" }

-- A request in the queue, and then with the worker.
abbrev queued : Aggregator
queued = enqueue hello start

abbrev received : Aggregator
received = record queued { event_queue = []; worker = on_request pairs hello sent start_worker }

queued_reached : Reach pairs queued
unfolding start
queued_reached = next here (enqueues start hello (omega arith))

received_reached : Reach pairs received
unfolding start enqueue start_worker
received_reached = next queued_reached (receives queued hello [] sent refl refl)

none_lost_example : in_hand received.worker ++ received.event_queue ≡ received.accepted
none_lost_example = none_lost pairs (omega arith) received_reached

-- SafeStop sees the empty queue and closes the channel; another request comes in before the worker
-- ends.
abbrev stopping : Aggregator
stopping = record received { quit = true }

abbrev overtaken_stop : Aggregator
overtaken_stop = overtaken pairs again stopping

received_stops : look received ≡ closed stopping
unfolding look close_quit enqueue start
received_stops = refl

received_runs : received.worker.phase ≡ running
unfolding on_request start_worker
received_runs = refl

SafeStop-misses_example :
    SafeStop pairs received stopping overtaken_stop
    × (overtaken_stop.event_queue ≡ again ∷ [])
    × (overtaken_stop.accepted ≡ received.accepted ++ again ∷ [])
SafeStop-misses_example =
    SafeStop-misses pairs received stopping again (omega arith) received_stops received_runs

handed_over-SafeStop_example :
    (first : List SignalReq) × (concat overtaken_stop.worker.batches ≡ stopping.accepted ++ first)
    × (overtaken_stop.accepted ≡ stopping.accepted ++ (first ++ overtaken_stop.event_queue))
handed_over-SafeStop_example =
    handed_over-SafeStop pairs (omega arith) received_reached
      (SafeStop-misses pairs received stopping again (omega arith) received_stops received_runs).0

second_stop-panics_example :
    (close_quit stopping ≡ panics) × (stopping.event_queue ≡ [] → look stopping ≡ panics)
second_stop-panics_example =
    second_stop-panics pairs received stopping stopping received_stops none_more

never_blocked_example : received.worker.phase ≢ blocked
never_blocked_example = never_blocked pairs (omega arith) received_reached

-- A worker with one request in its batch of two.
abbrev half_full : Worker
half_full = record {
  array = hello ∷ [];
  len = 1;
  timer = armed;
  phase = running;
  handlers = [];
  batches = [];
}

half_full-IsReady : IsReady pairs half_full
half_full-IsReady = record {
  active = refl;
  within = omega arith;
  short = omega arith;
  timed = omega arith;
  sized = tt;
}

handler_overwritten_example :
    let w' = on_request pairs again failed half_full in
    (handed_to_handlers w' ≡ filled_batch half_full again ∷ [])
    × (handed_to_handlers (on_request pairs hello sent w')
        ≡ (hello ∷ drop 1 (filled_batch half_full again)) ∷ [])
handler_overwritten_example =
    handler_overwritten pairs half_full again hello (omega arith) refl half_full-IsReady refl

send_batch_req_trims_example :
    let (r, s') = send_batch_req codec server no_cache far_addr (hello ∷ []) (redis_with db) in
    (r ≡ ok tt)
    × (queue_of codec server no_cache server_lists far_addr s'
        ≡ trimmed codec server no_cache server_lists (
            queue_of codec server no_cache server_lists far_addr (redis_with db)
            ++ encode (hello ∷ []) ∷ []))
send_batch_req_trims_example =
    send_batch_req_trims codec server no_cache server_lists far_addr (encode (hello ∷ []))
      (hello ∷ []) (redis_with db) refl

abbrev lost : RedisState lost_server no_cache
lost = record { self_addr = alice; is_alive = true; breaks = 0; cache = tt; db = tt }

dead_iff_three_example :
    (heartbeat lost_server no_cache (lost ∷ lost ∷ lost ∷ []) (new_node far_addr)).is_dead
    ≡ three_in_a_row (map (fails lost_server no_cache far_addr) (lost ∷ lost ∷ lost ∷ []))
dead_iff_three_example = dead_iff_three lost_server no_cache far_addr (lost ∷ lost ∷ lost ∷ [])

break_shields_example :
    let s' = (handle lost_server no_cache (dels alice) lost).1 in
    run lost_server no_cache (sets bob ∷ expires alice ∷ []) s'
    ≡ (err redis_not_alive ∷ err redis_not_alive ∷ [], s')
unfolding del_local_peer break_on_error
break_shields_example =
    break_shields lost_server no_cache (dels alice) (sets bob ∷ expires alice ∷ []) lost library tt
      refl refl

-- Two calls pass the test, Redis refuses both, and both take a break.
abbrev one_waits : Calls lost_server no_cache
one_waits = record { redis = lost; passed = sets alice ∷ []; answered = [] }

one_waits-Reach : Reached lost_server no_cache one_waits
one_waits-Reach = goes (started lost refl refl) (passes _ (sets alice) refl)

reached-recovers_example :
    (one_waits.redis.is_alive ≡ false → 0 < one_waits.redis.breaks)
    × ((wake_all lost_server no_cache 0 lost).is_alive ≡ true)
    × ((wake_all lost_server no_cache 0 lost).breaks ≡ 0)
reached-recovers_example = reached-recovers lost_server no_cache one_waits-Reach

overlapping_breaks_example :
    (last : Calls lost_server no_cache) × Leads lost_server no_cache one_waits last
    × (last.redis.is_alive ≡ true)
    × (last.redis.breaks ≡ 1)
unfolding command
overlapping_breaks_example =
    overlapping_breaks lost_server no_cache one_waits (dels alice) (sets bob) library library tt tt
      refl refl refl
