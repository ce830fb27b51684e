-- ===== src/Delivery/Signal.antt =====
-- handler/signal.go and nodes/aggregator.go: a signal handler at one instance, and the aggregator of
-- its node for another.
use cbsignal_redis.Base.{
  ℕ, ◌+◌, ◌<◌, ◌≡◌, refl, ◌∙◌, true, false, none, some, map, length, Bytes, str_eq,
}
use cbsignal_redis.Dict.{lookup}
use cbsignal_redis.Errors.{ok}
use cbsignal_redis.Redis.{get_remote_peer_addr}
use cbsignal_redis.Nodes.Aggregator.{AggregatorOption}
use cbsignal_redis.Nodes.Aggregator.Steps.{enqueue, Aggregator, Reach, enqueues, next}
use cbsignal_redis.Nodes.Node.{max_pipe_len, node_option, Node}
use cbsignal_redis.World.{Env, World}
use cbsignal_redis.Hub.{get_client}
use cbsignal_redis.Handler.{target_of, filter_get, handle_signal, SignalMsg, Others}
use cbsignal_redis.Handler.Routing.{resp_of, pair_key, handle_signal-remote}

-- A signal that the filter lets through, to a peer that is not here and that Redis places at another
-- instance, if the signal can be encoded and the node of that instance is known and alive, with an
-- aggregator in a state that it reaches and with room in its queue: the aggregator, with this request
-- and the sender's id in it, is in a state that it reaches, and the node's queue is the aggregator's.
pub signal_accepted :
    (E : Env) (O : Others) (msg : SignalMsg) (cli : ℕ) (w : World E) (addr b : Bytes) (node : Node)
    (option : AggregatorOption) (a : Aggregator)
    → (filter_get E (pair_key E O msg cli w) w).0 ≡ false
    → get_client E (target_of msg) w ≡ none
    → (get_remote_peer_addr E.cmdable E.big_cache (target_of msg) w.redis).0 ≡ ok addr
    → str_eq addr w.node_hub.self_addr ≡ false
    → lookup addr w.node_hub.nodes ≡ some node
    → node.is_dead ≡ false
    → node.is_alive ≡ true
    → E.codec.marshal_resp (record (resp_of msg) { from_peer_id = (w.heap cli).peer_id }) ≡ ok b
    → Reach (node_option option) a
    → a.event_queue ≡ node.event_queue
    → length a.event_queue < max_pipe_len + 10
    → let a' = enqueue (record { to_peer_id = target_of msg; payload = b }) a in
      Reach (node_option option) a'
      × (lookup addr (handle_signal E O msg cli w).node_hub.nodes
          ≡ some (record node { event_queue = a'.event_queue }))
unfolding enqueue
signal_accepted E O msg cli w addr b node option a fresh missing found far known live alive marshal
      reached same room =
    let (queued, heap, map) =
      handle_signal-remote E O msg cli w addr b node fresh missing found far known live alive
        (rw (← same) room) marshal in
    (
      next reached (enqueues a (record { to_peer_id = target_of msg; payload = b }) room),
      queued ∙ rw same refl,
    )
