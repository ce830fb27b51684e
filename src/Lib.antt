-- ===== src/Lib.antt =====
-- cbsignal_redis: a signalling service for WebRTC peers, whose instances share a Redis. A peer connects
-- to one instance, over a websocket or by polling, and sends signals to other peers. A signal to a peer
-- of the same instance goes to that peer's client; a signal to a peer of another instance goes, in
-- batches, to that instance's queue in Redis, from which the other instance delivers it.
--
-- Files and the code they model:
--   Base          shared names, Boolean tests, lists over native numbers, Go's int64 and strings
--   Dict          finite maps as association lists, which stand for Go's maps
--   Errors        (value, error) results
--   FastMap       util/fastmap/fastmap.go; FastMap/Cmap: util/fastmap/cmap/cmap.go, the map in 32
--                 shards (Laws, Refine, Count, Iter, Each), which fills the interface in Cmap/Instance;
--                 FastMap/Smap: util/fastmap/smap/smap.go over the skip-list library
--   RateLimit     util/ratelimit/ratelimit.go; Refill and Limit: what TakeAvailable grants; Quantum:
--                 the search of NewBucketWithRateAndClock
--   Messages      the messages of protobuf/message.proto
--   Redis         redis/redis.go; Breaker: the pause after a failed write; Concurrent:
--                 calls that overlap; Open: the connection's options
--   Nodes         Nodes/Aggregator: nodes/aggregator.go (Loop, Steps, Stop, Sharing);
--                 Nodes/Node: nodes/node.go (Heartbeat, Trim); Nodes/NodeHub: nodes/nodehub.go
--   Client        client/client.go
--   World         the state of one instance, and the libraries it calls
--   Hub           hub/hub.go; Registry: who is registered; Kept: what no message can break
--   Handler       handler/handler.go, signal.go, rejected.go, heartbeat.go, exception.go (Sending,
--                 Routing, Rejecting, Sound, Collision); Handler/Stats: handler/stats.go
--   Delivery      nodes/node.go, redis/redis.go and hub/hub.go together: from a node's aggregator at
--                 one instance through Redis to a client at another (Signal, Client, Queue, Payloads,
--                 Arrival, Accepted, Drain, Journey), from the peer's registration on in Reached
--   Directory     hub/hub.go and redis/redis.go together: the addresses of the peers as the instances
--                 enter them in Redis and look them up (Keys, Agreement, Lookup), and
--                 where handler/signal.go sends a signal by that (Signals, Stale)
--   Main          main.go: the checks (Token); Main/Config: the settings, main's start and
--                 util/other.go's GetVersionNum (Startup, Numbers); Main/Dispatch: commonHandler;
--                 Main/Http: postHandler and pollingHandler (Answers, Sound); Main/Websocket:
--                 wsHandler (Refused), its reader in Reader and what that makes of a message in
--                 Payload; Main/Sweep: checkConns and keepAlive; Main/Reports: the answers of
--                 handler/stats.go;
--                 Main/Launch: init, main's listeners and patterns, util/ip.go and util/system.go (Listen)
--   Log           util/log/log.go: what the logger is made of
--   System        the steps of one instance from its start on, who holds a client (Safe, Pool, Steps),
--                 and what a client that is given back too late (Reuse) or twice (Race) does
--   Tests         concrete runs, with stand-ins for the libraries
--
-- State is passed explicitly: an operation takes a state and returns its result and the next state. A
-- *client.Client is an address in the world's heap, since the map, the handlers and the readers share
-- it. The aggregator, whose queue, worker, timer and callers interleave, is a step relation, and its
-- results hold in every state that it reaches; so is an instance as a whole, whose requests, readings,
-- sweeps and deliveries come in any order. A handler runs alone between its start and its answer, but
-- what others do to a node's queue and to the map of nodes meanwhile is a parameter (Handler.Others). Of
-- the batches that an instance takes out of Redis, any may be the next to deliver an item. A call of the
-- hub or of redis.go is one step, although other goroutines may come between its parts: that is modelled
-- for the tests of IsAlive in Redis/Concurrent and for DoUnregister in System/Race.
--
-- Redis, the memory cache, the network, the encodings, the HMAC, the filter's cache, the pool of clients,
-- the configuration and the skip list are parameters. What is relied on of them is a named hypothesis:
-- AnsweringLists, PoppingLists and AnsweringKeys for the commands of Redis, KeepingCache for bigcache,
-- PickingPool for sync.Pool, the laws of StringMap for the skip list.
--
-- int64 arithmetic of the rate limiter is written with its wrap-around. Only the search for a quantum
-- runs on fuel; 400 rounds are enough for it, since the quantum then has passed its bound of 2 ^ 50.
--
-- Not modelled: util/ecache, util/cpu and util/gopool, which are copies of libraries (the first is the
-- filter's cache, the second measures the CPU usage, nothing calls the third); the functions of util/log
-- that only call zap; viper's watch of its file, signals, resource limits and the shutdown of main.go;
-- the connections of go-redis and the start of bigcache; JSON and protobuf encoding.
pub mod Base
pub mod Dict
pub mod Errors
pub mod FastMap
pub mod RateLimit
pub mod Messages
pub mod Redis
pub mod Nodes
pub mod Client
pub mod World
pub mod Hub
pub mod Handler
pub mod Delivery
pub mod Directory
pub mod Log
pub mod Main
pub mod System
pub mod Tests
