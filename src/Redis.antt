-- ===== src/Redis.antt =====
-- redis/redis.go: the keys and calls of the shared Redis, the cache of peer addresses in front of it,
-- and the break that a failed write takes. go-redis and bigcache are parameters. How the connection is
-- opened is in Redis/Open.
pub mod Breaker
pub mod Concurrent
pub mod Open
use cbsignal_redis.Base.{
  ℕ, suc, ◌-◌, Bool, true, false, not, Option, none, some, List, ◌++◌, if◌then◌else◌, Bytes, str,
}
use cbsignal_redis.Base.Int.{sub_ℕ, ℤ, pos, negsuc}
use cbsignal_redis.Errors.{Result, redis_not_alive, ok, err}

-- The commands of redis.Cmdable that the program uses, on the state `Db` of the server. Durations are
-- in seconds. `get_int` is Get(…).Int64().
pub record Cmdable : Type 1 where
  pub Db : Type 0
  pub get : Bytes → Db → Result Bytes × Db
  pub get_int : Bytes → Db → Result ℕ × Db
  pub set : Bytes → Bytes → ℕ → Db → Result (Unit {0}) × Db
  pub set_int : Bytes → ℕ → ℕ → Db → Result (Unit {0}) × Db
  pub del : Bytes → Db → Result (Unit {0}) × Db
  pub expire : Bytes → ℕ → Db → Result (Unit {0}) × Db
  pub rpush : Bytes → Bytes → Db → Result ℕ × Db
  pub llen : Bytes → Db → Result ℕ × Db
  pub ltrim : Bytes → ℤ → ℤ → Db → Result (Unit {0}) × Db
  pub lrange : Bytes → ℤ → ℤ → Db → Result (List Bytes) × Db
  pub blpop : ℕ → Bytes → Db → Result Bytes × Db

-- What the program uses of *bigcache.BigCache.
pub record BigCache : Type 1 where
  pub Cache : Type 0
  pub cache_get : Bytes → Cache → Option Bytes
  pub cache_set : Bytes → Bytes → Cache → Cache

abbrev pub peer_expire_duration : ℕ
peer_expire_duration = 600

abbrev pub client_alive_expire_duration : ℕ
client_alive_expire_duration = 20

unfoldable pub key_for_peer_id : Bytes → Bytes
key_for_peer_id peer_id = str "signal:peerId:" ++ peer_id

unfoldable pub key_for_mq : Bytes → Bytes
key_for_mq addr = str "signal:mq:" ++ addr

unfoldable pub key_for_stats : Bytes → Bytes
key_for_stats addr = str "signal:stats:count:" ++ addr

module _ (C : Cmdable) (B : BigCache) where
  open C use {Db, get, get_int, set, set_int, del, expire, rpush, llen, ltrim, lrange, blpop}
  open B use {Cache, cache_get, cache_set}

  -- The package's variables; `breaks` counts the goroutines of takeABreak that still sleep.
  pub record RedisState : Type 0 where
    pub self_addr : Bytes
    pub is_alive : Bool
    pub breaks : ℕ
    pub cache : Cache
    pub db : Db

  -- A command on the server.
  abbrev pub call {ℓ} : {A : Type ℓ} → (Db → Result A × Db) → RedisState → Result A × RedisState
  call f s = let (r, db') = f s.db in (r, record s { db = db' })

  unfoldable pub take_a_break : RedisState → RedisState
  take_a_break s = record s { is_alive = false; breaks = suc s.breaks }

  -- The end of a break's sleep.
  unfoldable pub wake : RedisState → RedisState
  wake s = record s { is_alive = true; breaks = s.breaks - 1 }

  remember : Bytes → Result Bytes → RedisState → RedisState
  remember peer_id (ok addr) s = record s { cache = cache_set peer_id addr s.cache }
  remember peer_id (err e) s = s

  unfoldable pub get_remote_peer_addr : Bytes → RedisState → Result Bytes × RedisState
  unfolding remember
  get_remote_peer_addr peer_id s = elim (cache_get peer_id s.cache) [
    | none ↦ let (r, s') = call (get (key_for_peer_id peer_id)) s in (r, remember peer_id r s')
    | some v ↦ (ok v, s)
  ]

  -- A write that failed is followed by a break.
  unfoldable pub break_on_error : Result (Unit {0}) × RedisState → Result (Unit {0}) × RedisState
  unfolding take_a_break
  break_on_error (ok u, s) = (ok u, s)
  break_on_error (err e, s) = (err e, take_a_break s)

  -- The calls below run alone; Redis/Concurrent has what comes between their steps.
  unfoldable pub set_local_peer : Bytes → RedisState → Result (Unit {0}) × RedisState
  unfolding break_on_error
  set_local_peer peer_id s =
      if not s.is_alive
      then (err redis_not_alive, s)
      else break_on_error (call (set (key_for_peer_id peer_id) s.self_addr peer_expire_duration) s)

  unfoldable pub del_local_peer : Bytes → RedisState → Result (Unit {0}) × RedisState
  unfolding break_on_error
  del_local_peer peer_id s =
      if not s.is_alive
      then (err redis_not_alive, s)
      else break_on_error (call (del (key_for_peer_id peer_id)) s)

  unfoldable pub update_local_peer_expiration : Bytes → RedisState → Result (Unit {0}) × RedisState
  update_local_peer_expiration peer_id s =
      if not s.is_alive
      then (err redis_not_alive, s)
      else call (expire (key_for_peer_id peer_id) peer_expire_duration) s

  unfoldable pub push_msg_to_mq : Bytes → Bytes → RedisState → Result ℕ × RedisState
  push_msg_to_mq addr msg = call (rpush (key_for_mq addr) msg)

  unfoldable pub get_len_mq : Bytes → RedisState → Result ℕ × RedisState
  get_len_mq addr = call (llen (key_for_mq addr))

  unfoldable pub clear_mq : Bytes → RedisState → Result (Unit {0}) × RedisState
  clear_mq addr = call (ltrim (key_for_mq addr) (pos 1) (pos 0))

  unfoldable pub block_pop_mq : ℕ → Bytes → RedisState → Result Bytes × RedisState
  block_pop_mq timeout addr = call (blpop timeout (key_for_mq addr))

  -- LTRIM from -len to -1.
  unfoldable pub trim_mq : Bytes → ℕ → RedisState → Result (Unit {0}) × RedisState
  trim_mq addr len = call (ltrim (key_for_mq addr) (sub_ℕ 0 len) (negsuc 0))

  -- Exec's error is the first of its commands'.
  abbrev executed : Result (List Bytes) → Result (Unit {0}) → Result (List Bytes)
  executed (err e) trimmed = err e
  executed (ok items) (err e) = err e
  executed (ok items) (ok u) = ok items

  unfoldable pub pop_range_mq : Bytes → ℕ → RedisState → Result (List Bytes) × RedisState
  pop_range_mq addr len s =
      let key = key_for_mq addr in
      let (items, s') = call (lrange key (pos 0) (sub_ℕ len 1)) s in
      let (trimmed, s'') = call (ltrim key (pos len) (negsuc 0)) s' in (executed items trimmed, s'')

  unfoldable pub update_client_count : ℕ → RedisState → Result (Unit {0}) × RedisState
  update_client_count count s =
      call (set_int (key_for_stats s.self_addr) count client_alive_expire_duration) s

  unfoldable pub get_node_client_count : Bytes → RedisState → Result ℕ × RedisState
  get_node_client_count addr = call (get_int (key_for_stats addr))
