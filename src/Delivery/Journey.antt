-- ===== src/Delivery/Journey.antt =====
-- handler/signal.go, nodes and hub/hub.go together: a signal on its way from its handler at one instance
-- to the queue of a polling client at another.
use mathlib.Core.List.{
  Mem, Mem-prop, not-mem-nil, mem-cons, mem-cons_self, mem-append_left, mem-append_right,
}
use mathlib.Core.List.Permᴰ
use mathlib.Core.Logic.Or
use cbsignal_redis.Base.{
  ℕ, ◌+◌, ◌≤◌, ◌<◌, ◌≡◌, true, false, none, some, List, [], ◌∷◌, length, concat, All, Bytes, str_eq,
  str_eq_refl,
}
use cbsignal_redis.Dict.{lookup}
use cbsignal_redis.Errors.{ok}
use cbsignal_redis.Client.{polling_queue_size}
use cbsignal_redis.Messages.{SignalReq}
use cbsignal_redis.Redis.{get_remote_peer_addr, RedisState}
use cbsignal_redis.Nodes.Aggregator.{AggregatorOption}
use cbsignal_redis.Nodes.Aggregator.Steps.{
  enqueue, Aggregator, Step, Reach, enqueues, receives, runs_out, lingers, closes, quits,
}
use cbsignal_redis.Nodes.Aggregator.Stop.{Steps-Reach, Steps, none_more, one_more}
use cbsignal_redis.Nodes.Node.{mq_max_len, max_pipe_len, node_option, Node}
use cbsignal_redis.Nodes.Node.Trim.{AnsweringLists}
use cbsignal_redis.World.{Env, World}
use cbsignal_redis.Handler.{target_of, filter_get, handle_signal, SignalMsg, Others}
use cbsignal_redis.Handler.Routing.{resp_of, pair_key}
use cbsignal_redis.Hub.{get_client}
use cbsignal_redis.Delivery.{payloads, pushed, run, Event}
use cbsignal_redis.Delivery.Client.{IsAt}
use cbsignal_redis.Delivery.Queue.{mq, Carries, PoppingLists}
use cbsignal_redis.Delivery.Accepted.{accepted_arrive}
use cbsignal_redis.Delivery.Signal.{signal_accepted}

-- What has been accepted stays accepted.
Step-accepted :
    {option : AggregatorOption} {a b : Aggregator} (item : SignalReq)
    → Step option a b
    → Mem item a.accepted
    → Mem item b.accepted
unfolding enqueue
Step-accepted item (enqueues a other room) m = mem-append_left (other ∷ []) m
Step-accepted item (receives a other rest outcome active e) m = m
Step-accepted item (runs_out a e) m = m
Step-accepted item (lingers a outcome active e) m = m
Step-accepted item (closes a) m = m
Step-accepted item (quits a outcome active e) m = m

Steps-accepted :
    {option : AggregatorOption} {a b : Aggregator} (item : SignalReq)
    → Steps option a b
    → Mem item a.accepted
    → Mem item b.accepted
Steps-accepted item none_more m = m
Steps-accepted item (one_more ss s) m = Step-accepted item s (Steps-accepted item ss m)

payloads-mem :
    (item : SignalReq) (items : List SignalReq)
    → Mem item items
    → Mem item.payload (payloads item.to_peer_id items)
payloads-mem item [] m = absurd (not-mem-nil m)
payloads-mem item (x ∷ items) m =
    Or.elim Mem-prop (mem-cons.0 m) (λ e. rw (← e, str_eq_refl item.to_peer_id) mem-cons_self)
      (λ later. mem-append_right _ (payloads-mem item items later))

-- A signal that the filter lets through, to a peer that is not here and that Redis places at another
-- instance, if it can be encoded and that instance's node is known and alive, with an aggregator in a
-- state that it reaches and with room in its queue: the signal goes into the node's queue, and when the
-- aggregator, whatever else it accepts, has handed all it has accepted over in batches, the receiver
-- has taken and delivered them in any order of steps until Redis holds nothing and every flight has
-- ended, then the encoded signal is in the queue of the polling client that is the peer there. At first
-- the receiver's queue in Redis is empty; the batches can be encoded and decoded, are at most 1000, and
-- the client has room for all that is accepted for it.
pub signal_arrives :
    (E : Env) (O : Others) (msg : SignalMsg) (cli : ℕ) (from : World E) (addr b : Bytes)
    (node : Node) (option : AggregatorOption) (a a' : Aggregator) (lists : AnsweringLists E.cmdable)
    (pops : PoppingLists E.cmdable lists) (encode : List SignalReq → Bytes) (p : ℕ)
    (old : List Bytes) (s : RedisState E.cmdable E.big_cache) (w : World E) (es : List Event)
    → (filter_get E (pair_key E O msg cli from) from).0 ≡ false
    → get_client E (target_of msg) from ≡ none
    → (get_remote_peer_addr E.cmdable E.big_cache (target_of msg) from.redis).0 ≡ ok addr
    → str_eq addr from.node_hub.self_addr ≡ false
    → lookup addr from.node_hub.nodes ≡ some node
    → node.is_dead ≡ false
    → node.is_alive ≡ true
    → E.codec.marshal_resp (record (resp_of msg) { from_peer_id = (from.heap cli).peer_id }) ≡ ok b
    → Reach (node_option option) a
    → a.event_queue ≡ node.event_queue
    → length a.event_queue < max_pipe_len + 10
    → let accepting = enqueue (record { to_peer_id = target_of msg; payload = b }) a in
      Steps (node_option option) accepting a'
      → a'.worker.batches ≡ pushed es
      → a'.worker.len ≡ 0
      → a'.event_queue ≡ []
      → mq E lists addr w ≡ []
      → IsAt E (target_of msg) p old w
      → All (Carries E encode) (pushed es)
      → length old + length (payloads (target_of msg) a'.accepted) ≤ polling_queue_size
      → length (pushed es) ≤ mq_max_len
      → let l = run E addr es (record { sender = s; world = w; flights = []; received = [] }) in
        mq E lists addr l.world ≡ []
        → concat l.flights ≡ []
        → (lookup addr (handle_signal E O msg cli from).node_hub.nodes
            ≡ some (record node { event_queue = accepting.event_queue }))
          × Mem b (l.world.heap p).msg_queue
signal_arrives E O msg cli from addr b node option a a' lists pops encode p old s w es fresh missing
      found far known live alive marshal reached same room steps handed idle none_queued empty at
      carried space few drained ended =
    let item : SignalReq = record { to_peer_id = target_of msg; payload = b } in
    let (reached', queued) =
      signal_accepted E O msg cli from addr b node option a fresh missing found far known live alive
        marshal reached same room in
    let (order, holds) =
      accepted_arrive E lists pops encode addr (target_of msg) p old s w es option a' empty at
        carried space few (Steps-Reach steps reached') handed idle none_queued drained ended in
    let accepted : Mem item a'.accepted =
      Steps-accepted item steps (unfold enqueue in mem-append_right a.accepted mem-cons_self) in
    let l = run E addr es (record { sender = s; world = w; flights = []; received = [] }) in
    let received : Mem item l.received = Permᴰ.mem (Permᴰ.symm order) accepted in
    (queued, rw holds (mem-append_right old (payloads-mem item l.received received)))
