-- ===== src/Redis/Open.antt =====
-- redis/redis.go: how the connection to Redis is opened, once. NewClusterClient, NewClient and the
-- cache's start are the libraries'; what they are given is modelled.
use cbsignal_redis.Base.{ℕ, ◌≡◌, refl, Option, none, some, List, ◌++◌, map, Bytes, str}
use cbsignal_redis.Base.Int.{ℤ}

pub record Addr : Type 0 where
  pub host : Bytes
  pub port : Bytes

unfoldable pub addr_string : Addr → Bytes
addr_string a = a.host ++ str ":" ++ a.port

-- Timeouts in milliseconds.
pub data Options : Type 0 where
  cluster_options : List Bytes → Bytes → Options
  options : Bytes → Bytes → ℤ → ℕ → ℕ → ℕ → Options

-- SelfAddr and RedisCli, when `once` has run.
pub record Opened : Type 0 where
  pub self_addr : Bytes
  pub redis_cli : Options

-- once.Do
abbrev pub once : Opened → Option Opened → Option Opened
once new none = some new
once new (some old) = some old

unfoldable pub init_redis_cluster : Bytes → List Addr → Bytes → Option Opened → Option Opened
unfolding addr_string
init_redis_cluster self_addr redis_addrs password = once (record {
  self_addr = self_addr;
  redis_cli = cluster_options (map addr_string redis_addrs) password;
})

unfoldable pub init_redis_client : Bytes → Bytes → Bytes → ℤ → Option Opened → Option Opened
init_redis_client self_addr redis_addr password db =
    once (record { self_addr = self_addr; redis_cli = options redis_addr password db 100 500 500 })

-- The second call of either opens nothing.
init_again :
    (self_addr self_addr' password password' redis_addr : Bytes) (addrs : List Addr) (db : ℤ)
    (o : Option Opened)
    → (init_redis_client self_addr redis_addr password db
          (init_redis_cluster self_addr' addrs password' o)
        ≡ init_redis_cluster self_addr' addrs password' o)
      × (init_redis_cluster self_addr' addrs password'
            (init_redis_client self_addr redis_addr password db o)
          ≡ init_redis_client self_addr redis_addr password db o)
unfolding init_redis_cluster init_redis_client
init_again self_addr self_addr' password password' redis_addr addrs db none = (refl, refl)
init_again self_addr self_addr' password password' redis_addr addrs db (some o) = (refl, refl)
