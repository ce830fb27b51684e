-- ===== src/World.antt =====
-- The state of one instance of the service, and the libraries that it calls. The package variables
-- of hub/hub.go, client/client.go, nodes/nodehub.go, handler/handler.go and redis/redis.go stand
-- together, since a request goes through all of them. A *client.Client is a number, an address in
-- `heap`; the map of clients holds such numbers, so a client is shared by all that name it.
use cbsignal_redis.Base.{ℕ, Bool, Option, List, Bytes}
use cbsignal_redis.Errors.{Result}
use cbsignal_redis.FastMap.{FastMap}
use cbsignal_redis.Redis.{Cmdable, BigCache, RedisState}
use cbsignal_redis.Client.{Client, Network}
use cbsignal_redis.Messages.{SignalBatchReq}
use cbsignal_redis.Nodes.Node.{Codec}
use cbsignal_redis.Nodes.NodeHub.{NodeHub}

-- The cache of pairs of peers whose signals are dropped (handler.go's `filter`). `seen` is Get, of
-- which the handlers read whether there is an entry.
pub record Filter : Type 1 where
  pub Seen : Type 0
  pub seen : Bytes → Seen → Bool × Seen
  pub put : Bytes → Seen → Seen

pub record Env : Type 1 where
  pub fast_map : FastMap ℕ
  pub cmdable : Cmdable
  pub big_cache : BigCache
  pub network : Network
  pub filter : Filter
  pub codec : Codec
  -- proto.Unmarshal of a SignalBatchReq
  pub unmarshal_batch : Bytes → Result SignalBatchReq
  -- sonic.Marshal of a SignalVerResp with its action and version
  pub marshal_ver : Bytes → ℕ → Result Bytes
  -- sync.Pool's choice at its n-th Get: one of the addresses put back and those that stay, or none,
  -- which may also be its answer when there are some
  pub pool_get : ℕ → List ℕ → Option (ℕ × List ℕ)

module _ (E : Env) where
  pub record World : Type 0 where
    -- h.Clients
    pub clients : E.fast_map.Map
    pub heap : ℕ → Client
    -- clientPool: the clients put back, and the first address never used
    pub pool : List ℕ
    pub next : ℕ
    -- the calls of clientPool.Get so far
    pub gets : ℕ
    -- time.Now().Unix()
    pub now : ℕ
    pub redis : RedisState E.cmdable E.big_cache
    pub net : E.network.Net
    pub seen_pairs : E.filter.Seen
    pub node_hub : NodeHub
