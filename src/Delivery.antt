-- ===== src/Delivery.antt =====
-- nodes/node.go, redis/redis.go and hub/hub.go together: one instance pushes batches of signals into the
-- queue of another, which takes them out and hands them to its clients. hub.go's Init runs 18 loops of
-- Consume, and each batch gets a goroutine of its own; so a batch in flight is the list of its items
-- still to be delivered, and any flight may make the next delivery.
pub mod Client
pub mod Queue
pub mod Reached
pub mod Payloads
pub mod Arrival
pub mod Accepted
pub mod Drain
pub mod Signal
pub mod Journey
use cbsignal_redis.Base.{
  ℕ, zero, suc, Option, none, some, List, [], ◌∷◌, ◌++◌, if◌then◌else◌, Bytes, str_eq,
}
use cbsignal_redis.Errors.{Result, ok, err}
use cbsignal_redis.Messages.{SignalReq}
use cbsignal_redis.Redis.{block_pop_mq, RedisState}
use cbsignal_redis.Nodes.Node.{batch_process}
use cbsignal_redis.World.{Env, World}
use cbsignal_redis.Hub.{mq_block_duration, deliver}

-- The payloads for one peer, in order.
abbrev pub payloads : Bytes → List SignalReq → List Bytes
payloads to [] = []
payloads to (item ∷ items) =
    (if str_eq item.to_peer_id to then item.payload ∷ [] else []) ++ payloads to items

-- The next item of the n-th flight, and the flights after its delivery.
abbrev pub next_item : ℕ → List (List SignalReq) → Option (SignalReq × List (List SignalReq))
next_item n [] = none
next_item zero ([] ∷ flights) = none
next_item zero ((item ∷ items) ∷ flights) = some (item, items ∷ flights)
next_item (suc n) (flight ∷ flights) = elim (next_item n flights) [
  | none ↦ none
  | some (item, rest) ↦ some (item, flight ∷ rest)
]

-- What can happen: the sender hands a batch to its batch processor, a Consume takes a batch from the
-- queue, and the goroutine of the n-th batch taken delivers its next item.
pub data Event : Type 0 where
  pushes : List SignalReq → Event
  takes : Event
  delivers : ℕ → Event

-- The batches that the sender hands over.
abbrev pub pushed : List Event → List (List SignalReq)
pushed [] = []
pushed (pushes items ∷ es) = items ∷ pushed es
pushed (takes ∷ es) = pushed es
pushed (delivers n ∷ es) = pushed es

module _ (E : Env) where
  -- The sender's view of Redis, the receiver, whose `redis` holds the state of the server that both
  -- use, the batches in flight and, for the theorems, all items delivered so far.
  pub record Link : Type 0 where
    pub sender : RedisState E.cmdable E.big_cache
    pub world : World E
    pub flights : List (List SignalReq)
    pub received : List SignalReq

  unfoldable pub push_batch : Bytes → List SignalReq → Link → Link
  push_batch addr items l =
      let (r, s) =
        batch_process E.codec E.cmdable E.big_cache addr items
          (record l.sender { db = l.world.redis.db }) in
      record l { sender = s; world = record l.world { redis = record l.world.redis { db = s.db } } }

  -- The flight of a batch; one that cannot be decoded ends at once.
  unfoldable pub started : Result Bytes → List (List SignalReq)
  started (err e) = []
  started (ok raw) = elim (E.unmarshal_batch raw) [ err e ↦ [] | ok req ↦ req.items ∷ [] ]

  -- One round of Consume's loop.
  unfoldable pub take_batch : Bytes → Link → Link
  take_batch addr l =
      let (r, s) = block_pop_mq E.cmdable E.big_cache mq_block_duration addr l.world.redis in
      record l { world = record l.world { redis = s }; flights = l.flights ++ started r }

  -- One round of sendMessageToLocalPeer's loop in the n-th flight.
  unfoldable pub deliver_next : ℕ → Link → Link
  deliver_next n l = elim (next_item n l.flights) [
    | none ↦ l
    | some (item, flights) ↦ record l {
      world = deliver E item l.world;
      flights = flights;
      received = l.received ++ item ∷ [];
    }
  ]

  unfoldable pub step : Bytes → Event → Link → Link
  step addr (pushes items) l = push_batch addr items l
  step addr takes l = take_batch addr l
  step addr (delivers n) l = deliver_next n l

  unfoldable pub run : Bytes → List Event → Link → Link
  run addr [] l = l
  run addr (e ∷ es) l = run addr es (step addr e l)
