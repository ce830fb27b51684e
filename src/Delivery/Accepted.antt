-- ===== src/Delivery/Accepted.antt =====
-- From the queue of a node's aggregator at one instance to the client at another.
use mathlib.Core.List.{append-nil, Permᴰ}
use cbsignal_redis.Base.{
  ℕ, ◌+◌, ◌≤◌, ◌≡◌, refl, sym, ◌∙◌, some, List, [], ◌∷◌, ◌++◌, map, arith, length, concat, All,
  Bytes,
}
use cbsignal_redis.Messages.{SignalReq}
use cbsignal_redis.Client.{polling_queue_size}
use cbsignal_redis.Nodes.Aggregator.{AggregatorOption, Phase, Worker, running, blocked, finished}
use cbsignal_redis.Nodes.Aggregator.Loop.{taken}
use cbsignal_redis.Nodes.Aggregator.Steps.{in_hand, none_lost, Aggregator, Reach}
use cbsignal_redis.Nodes.Node.{mq_max_len, node_option}
use cbsignal_redis.Nodes.Node.Trim.{AnsweringLists}
use cbsignal_redis.Redis.{RedisState}
use cbsignal_redis.World.{Env, World}
use cbsignal_redis.Hub.{get_client}
use cbsignal_redis.Delivery.{payloads, pushed, run, Event}
use cbsignal_redis.Delivery.Client.{IsAt}
use cbsignal_redis.Delivery.Queue.{mq, Carries, PoppingLists}
use cbsignal_redis.Delivery.Arrival.{run-Inv, idle_link-Inv}

-- Two instances share a Redis that answers, and a receiver's queue there is empty. The sender pushes
-- any batches that the encoding carries, at most 1000, while the receiver takes and delivers batches
-- in any order of steps. Then what was delivered, what is in flight and what waits in Redis are
-- together the items pushed, each as often; and a polling client whose queue has room for all that is
-- sent to it is still registered and has got the payloads for it that were delivered, and no other,
-- in the order of delivery.
pub batches_arrive :
    (E : Env) (lists : AnsweringLists E.cmdable) (pops : PoppingLists E.cmdable lists)
    (encode : List SignalReq → Bytes) (addr to : Bytes) (p : ℕ) (old : List Bytes)
    (s : RedisState E.cmdable E.big_cache) (w : World E) (es : List Event)
    → mq E lists addr w ≡ []
    → IsAt E to p old w
    → All (Carries E encode) (pushed es)
    → length old + length (payloads to (concat (pushed es))) ≤ polling_queue_size
    → length (pushed es) ≤ mq_max_len
    → let l = run E addr es (record { sender = s; world = w; flights = []; received = [] }) in
      ((pending : List (List SignalReq)) × (mq E lists addr l.world ≡ map encode pending)
        × Permᴰ (l.received ++ concat l.flights ++ concat pending) (concat (pushed es)))
      × (get_client E to l.world ≡ some p)
      × ((l.world.heap p).msg_queue ≡ old ++ payloads to l.received)
batches_arrive E lists pops encode addr to p old s w es empty at c room few =
    let v =
      run-Inv E lists pops encode addr to p old es [] _
        (idle_link-Inv E lists pops encode addr to p old s w empty at) c (room, few) in
    ((v.pending, v.queued, v.accounted), v.served.here, v.served.holds)

map-empty : {A : Type 0} (f : A → Bytes) (l : List A) → map f l ≡ [] → l ≡ []
map-empty f [] h = refl
map-empty f (x ∷ l) h = cc

-- The batches of a worker that has nothing in hand are all it has taken.
batches-of_idle : (w : Worker) → w.len ≡ 0 → in_hand w ≡ concat w.batches
batches-of_idle w h = go w.phase
  where
    go :
        (phase : Phase)
        → (elim phase [ finished ↦ concat w.batches | _ ↦ taken w ]) ≡ concat w.batches
    go running = rw h (append-nil (concat w.batches))
    go blocked = rw h (append-nil (concat w.batches))
    go finished = refl

-- As above, when the batches pushed are those that a node's aggregator has handed over, its worker
-- has nothing left, Redis holds nothing and every flight has ended: what was delivered is what the
-- aggregator accepted, each request as often, and the client has got the payloads for it.
pub accepted_arrive :
    (E : Env) (lists : AnsweringLists E.cmdable) (pops : PoppingLists E.cmdable lists)
    (encode : List SignalReq → Bytes) (addr to : Bytes) (p : ℕ) (old : List Bytes)
    (s : RedisState E.cmdable E.big_cache) (w : World E) (es : List Event)
    (option : AggregatorOption) (a : Aggregator)
    → mq E lists addr w ≡ []
    → IsAt E to p old w
    → All (Carries E encode) (pushed es)
    → length old + length (payloads to a.accepted) ≤ polling_queue_size
    → length (pushed es) ≤ mq_max_len
    → Reach (node_option option) a
    → a.worker.batches ≡ pushed es
    → a.worker.len ≡ 0
    → a.event_queue ≡ []
    → let l = run E addr es (record { sender = s; world = w; flights = []; received = [] }) in
      mq E lists addr l.world ≡ []
      → concat l.flights ≡ []
      → Permᴰ l.received a.accepted × ((l.world.heap p).msg_queue ≡ old ++ payloads to l.received)
accepted_arrive E lists pops encode addr to p old s w es option a empty at c room few r handed idle
      none_queued drained ended =
    let all : concat (pushed es) ≡ a.accepted =
      rw (← handed, ← batches-of_idle a.worker idle)
        (rw (none_queued, append-nil) at (none_lost (node_option option) (omega arith) r)) in
    let ((pending, queued, same), registered, holds) =
      batches_arrive E lists pops encode addr to p old s w es empty at c (rw all room) few in
    let none_pending = map-empty encode pending (sym queued ∙ drained) in
    (rw (← all) (rw (ended, none_pending, append-nil, append-nil) at same), holds)
