-- ===== src/Delivery/Reached.antt =====
-- The directory and the delivery together: a signal to a peer that has registered at another instance.
use mathlib.Core.List.{Mem}
use cbsignal_redis.Base.{
  ℕ, ◌+◌, ◌≤◌, ◌≡◌, refl, ◌∙◌, false, none, some, List, [], length, concat, All, Bytes,
}
use cbsignal_redis.Client.{polling_queue_size}
use cbsignal_redis.Messages.{SignalReq}
use cbsignal_redis.Nodes.Aggregator.{AggregatorOption}
use cbsignal_redis.Nodes.Aggregator.Steps.{enqueue, Aggregator, Reach}
use cbsignal_redis.Nodes.Aggregator.Stop.{Steps}
use cbsignal_redis.Nodes.Node.{mq_max_len, node_option, Node}
use cbsignal_redis.Nodes.Node.Trim.{AnsweringLists}
use cbsignal_redis.World.{Env, World}
use cbsignal_redis.Hub.{get_client}
use cbsignal_redis.Handler.{target_of, handle_signal, SignalMsg, Others}
use cbsignal_redis.Directory.{
  instance_at, enter_all, Cluster, Directory, run as enrol, Event as Entry,
}
use cbsignal_redis.Directory.Keys.{AnsweringKeys}
use cbsignal_redis.Directory.Agreement.{Agrees}
use cbsignal_redis.Directory.Lookup.{Misses, run-refines_directory}
use cbsignal_redis.Directory.Signals.{IsSent, is_some-none, signal_follows_directory, CanSend}
use cbsignal_redis.Delivery.{payloads, pushed, run, Event, Link}
use cbsignal_redis.Delivery.Client.{IsAt}
use cbsignal_redis.Delivery.Queue.{mq, Carries, PoppingLists}
use cbsignal_redis.Delivery.Journey.{signal_arrives}

-- What a node's aggregator has accepted goes into the Redis of `sender` in the batches that `es` pushes,
-- and from there to the peer `id`, the polling client at `p` of the world `w` at `addr`: at first Redis
-- holds nothing for `addr`, at the end too, and every flight has ended. The batches can be encoded and
-- are at most 1000, and the client has room for all that is accepted for it.
pub record Delivers (E : Env) (lists : AnsweringLists E.cmdable) (encode : List SignalReq → Bytes)
    (addr id : Bytes) (p : ℕ) (old : List Bytes) (a : Aggregator) (es : List Event) (l : Link E)
    (w : World E) : Type 0 where
  pub handed : a.worker.batches ≡ pushed es
  pub idle : a.worker.len ≡ 0
  pub none_queued : a.event_queue ≡ []
  pub none_before : mq E lists addr w ≡ []
  pub at : IsAt E id p old w
  pub carried : All (Carries E encode) (pushed es)
  pub space : length old + length (payloads id a.accepted) ≤ polling_queue_size
  pub few : length (pushed es) ≤ mq_max_len
  pub drained : mq E lists addr l.world ≡ []
  pub ended : concat l.flights ≡ []

-- Instances over a Redis that answers register and deregister peers in any order, from a state that
-- agrees with a directory. Then the instance `r`, which does not have a peer and whose cache does not
-- know it, handles a signal to it that can be sent to the instance `i`, which has the peer's entry in the
-- directory. When the aggregator of `i`'s node at `r`, whatever else it accepts, has handed all over in
-- batches, and `i` has taken and delivered them in any order of steps until nothing is left, all as
-- `Delivers` has it, then the signal was put into that node's queue, and the encoded signal is in the
-- queue of the polling client that is the peer at `i`.
pub registered_peer-reached :
    (E : Env) (keys : AnsweringKeys E.cmdable) (lists : AnsweringLists E.cmdable)
    (pops : PoppingLists E.cmdable lists) (encode : List SignalReq → Bytes) (addr : ℕ → Bytes)
    (name : ℕ → ℕ → Bytes) (O : Others) (msg : SignalMsg) (cli : ℕ) (b : Bytes) (node : Node)
    (option : AggregatorOption) (a a' : Aggregator) (c : Cluster E) (d : Directory)
    (entries : List Entry) (r i p : ℕ) (old : List Bytes) (es : List Event)
    → Agrees E keys addr name c d
    → let c' = enrol E entries c in
      let d' = enter_all addr name entries d in
      let from = instance_at E r c' in
      let w = instance_at E i c' in
      let l =
        run E
          (addr i)
          es
          (record { sender = from.redis; world = w; flights = []; received = [] }) in
      Misses E r (target_of msg) c'
      → d'.has_peer r (target_of msg) ≡ false
      → d'.owner (target_of msg) ≡ some (addr i)
      → CanSend E O msg cli (addr i) b node from
      → Reach (node_option option) a
      → a.event_queue ≡ node.event_queue
      → Steps
          (node_option option)
          (enqueue (record { to_peer_id = target_of msg; payload = b }) a)
          a'
      → Delivers E lists encode (addr i) (target_of msg) p old a' es l w
      → IsSent E msg (addr i) b node (handle_signal E O msg cli from)
        × Mem b (l.world.heap p).msg_queue
registered_peer-reached E keys lists pops encode addr name O msg cli b node option a a' c d entries
      r i p old es v miss absent owned s reached same steps g =
    let (peers, told) = run-refines_directory E keys addr name c d entries v in
    let from = instance_at E r (enrol E entries c) in
    let w = instance_at E i (enrol E entries c) in
    let missing : get_client E (target_of msg) from ≡ none =
      unfold get_client in is_some-none _ (peers r (target_of msg) ∙ absent) in
    let found = told r (target_of msg) miss ∙ rw owned refl in
    let (_, arrived) =
      signal_arrives E O msg cli from (addr i) b node option a a' lists pops encode p old from.redis
        w es s.fresh missing found s.far s.known s.living s.alive s.marshal reached same
        (rw same s.room) steps g.handed g.idle g.none_queued g.none_before g.at g.carried g.space
        g.few g.drained g.ended in
    (
      (signal_follows_directory E keys addr name O msg cli (addr i) b node c d entries r v miss
          absent owned s).0,
      arrived,
    )
