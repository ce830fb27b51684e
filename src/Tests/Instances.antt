-- ===== src/Tests/Instances.antt =====
-- Concrete libraries for the tests: a Redis server that answers and one that is lost, a cache that is
-- always empty, and encodings that join the fields of a message.
use cbsignal_redis.Base.{
  ℕ, zero, suc, ◌-◌, ◌<◌, ◌≡◌, refl, ◌∙◌, inl, inr, true, none, some, List, [], ◌∷◌, ◌++◌, arith,
  if◌then◌else◌, Bool-cases, length, take, drop, Bytes, str, str_eq, str_eq_refl, eq_iff, contains,
}
use cbsignal_redis.Base.Int.{sub_ℕ, ℤ, pos, negsuc}
use cbsignal_redis.Errors.{redis_nil, library, ok, err}
use cbsignal_redis.FastMap.{FastMap}
use cbsignal_redis.FastMap.Cmap.Instance.{cmap}
use cbsignal_redis.Redis.{key_for_peer_id, Cmdable, BigCache, RedisState}
use cbsignal_redis.Messages.{SignalReq}
use cbsignal_redis.Client.{Client}
use cbsignal_redis.Nodes.Node.{new_node, Codec}
use cbsignal_redis.Nodes.Node.Trim.{AnsweringLists}
use cbsignal_redis.World.{Env, World}
use cbsignal_redis.Hub.{get_client, do_register}
use cbsignal_redis.Hub.Registry.{get_client-do_register, do_register-IsSound, IsSound}
use cbsignal_redis.Delivery.Queue.{PoppingLists}
use cbsignal_redis.Handler.{Others}

abbrev pub alice : Bytes
alice = str "alice-1"

abbrev pub bob : Bytes
bob = str "bob-123"

abbrev pub far_addr : Bytes
far_addr = str "10.0.0.2:80"

-- The lists of the server; LTRIM with the ranges that the program uses.
abbrev pub trim_list : ℤ → ℤ → List Bytes → List Bytes
trim_list (pos n) (pos to) l = []
trim_list (pos n) (negsuc to) l = drop n l
trim_list (negsuc n) to l = drop (length l - suc n) l

-- LRANGE from the first element on.
abbrev pub range_list : ℤ → ℤ → List Bytes → List Bytes
range_list from (pos to) l = take (suc to) l
range_list from (negsuc to) l = take (length l - to) l

abbrev pub server : Cmdable
server = record {
  Db = Bytes → List Bytes;
  get = λ k db. ((elim (db k) [ [] ↦ err redis_nil | v ∷ l ↦ ok v ]), db);
  get_int = λ k db. (ok (length (db k)), db);
  set = λ k v ttl db. (ok tt, λ j. if str_eq k j then v ∷ [] else db j);
  set_int = λ k v ttl db. (ok tt, db);
  del = λ k db. (ok tt, λ j. if str_eq k j then [] else db j);
  expire = λ k ttl db. (ok tt, db);
  rpush = λ k v db. (ok (suc (length (db k))), λ j. if str_eq k j then db j ++ v ∷ [] else db j);
  llen = λ k db. (ok (length (db k)), db);
  ltrim = λ k from to db. (ok tt, λ j. if str_eq k j then trim_list from to (db j) else db j);
  lrange = λ k from to db. (ok (range_list from to (db k)), db);
  blpop = λ timeout k db. (elim (db k) [
    | [] ↦ (err redis_nil, db)
    | v ∷ l ↦ (ok v, λ j. if str_eq k j then l else db j)
  ]);
}

abbrev pub lost_server : Cmdable
lost_server = record {
  Db = Unit;
  get = λ k db. (err library, db);
  get_int = λ k db. (err library, db);
  set = λ k v ttl db. (err library, db);
  set_int = λ k v ttl db. (err library, db);
  del = λ k db. (err library, db);
  expire = λ k ttl db. (err library, db);
  rpush = λ k v db. (err library, db);
  llen = λ k db. (err library, db);
  ltrim = λ k from to db. (err library, db);
  lrange = λ k from to db. (err library, db);
  blpop = λ timeout k db. (err library, db);
}

abbrev pub no_cache : BigCache
no_cache = record { Cache = Unit; cache_get = λ k c. none; cache_set = λ k v c. c }

pub trim_last :
    (n : ℕ) (l : List Bytes) → 0 < n → trim_list (sub_ℕ 0 n) (negsuc 0) l ≡ drop (length l - n) l
trim_last zero l h = absurd (omega arith)
trim_last (suc n) l h = let below : sub_ℕ 0 (suc n) ≡ negsuc n = ground arith in rw below refl

-- The server answers as AnsweringLists says.
abbrev pub server_lists : AnsweringLists server
server_lists = record {
  list_at = λ k db. db k;
  rpush_answers = λ k v db. refl;
  rpush_appends = λ k v db. rw (str_eq_refl k) refl;
  llen_answers = λ k db. refl;
  llen_keeps = λ k j db. refl;
  ltrim_answers = λ k from to db. refl;
  ltrim_last = λ k n db h. rw (str_eq_refl k) (trim_last n (db k) h);
  ltrim_none = λ k db. rw (str_eq_refl k) refl;
}

-- The items of a batch with their fields run together; of a batch with one item for a peer whose id
-- has seven bytes, the item can be read back.
abbrev pub encode : List SignalReq → Bytes
encode [] = []
encode (item ∷ items) = item.to_peer_id ++ item.payload ++ encode items

abbrev pub codec : Codec
codec = record {
  marshal_resp = λ r. ok (r.action ++ r.from_peer_id ++ r.from);
  marshal_batch = λ b. ok (encode b.items);
}

abbrev pub env_over : Cmdable → Env
env_over cmdable = record {
  fast_map = cmap ℕ;
  cmdable = cmdable;
  big_cache = no_cache;
  network = record {
    Net = List (ℕ × Bytes);
    write_close = λ c code reason net. (c, reason) ∷ net;
    write_server_message = λ c b net. (ok tt, (c, b) ∷ net);
    close_conn = λ c net. net;
  };
  filter = record { Seen = List Bytes; seen = λ k s. (contains k s, s); put = λ k s. k ∷ s };
  codec = codec;
  unmarshal_batch =
      λ b. ok (record { items = record { to_peer_id = take 7 b; payload = drop 7 b } ∷ [] });
  marshal_ver = λ action n. ok action;
  pool_get = λ n pool. (elim pool [ [] ↦ none | p ∷ rest ↦ some (p, rest) ]);
}

abbrev pub env : Env
env = env_over server

abbrev pub others : Others
others = record { hub_then = λ n. n; queue_then = λ q. q }

-- Redis knows that bob is at far_addr.
abbrev pub db : Bytes → List Bytes
db k = if str_eq k (key_for_peer_id bob) then far_addr ∷ [] else []

abbrev pub redis_with : (Bytes → List Bytes) → RedisState server no_cache
redis_with d = record {
  self_addr = str "10.0.0.1:80";
  is_alive = true;
  breaks = 0;
  cache = tt;
  db = d;
}

-- One polling client, alice, with a message in its queue; every other address is like it.
abbrev pub alice_client : Client
alice_client = record {
  conn = 0;
  peer_id = alice;
  timestamp = 100;
  is_polling = true;
  msg_queue = str "m1" ∷ [];
}

abbrev pub empty_world : World env
empty_world = record {
  clients = FastMap.empty env.fast_map;
  heap = λ q. alice_client;
  pool = [];
  next = 1;
  gets = 0;
  now = 100;
  redis = redis_with db;
  net = [];
  seen_pairs = [];
  node_hub = record { nodes = (far_addr, new_node far_addr) ∷ []; self_addr = str "10.0.0.1:80" };
}

abbrev pub world : World env
world = do_register env 0 empty_world

pub nobody_here : (id : Bytes) → get_client env id empty_world ≡ none
unfolding get_client
nobody_here id = FastMap.get-empty env.fast_map id

pub alice_here : get_client env alice world ≡ some 0
alice_here = get_client-do_register env 0 alice empty_world ∙ rw (str_eq_refl alice) refl

empty_world-IsSound : IsSound env empty_world
empty_world-IsSound = record {
  own_id = λ id p h. let none_here = nobody_here id in cc;
  fits = λ p. omega arith;
}

pub world-IsSound : IsSound env world
world-IsSound = do_register-IsSound env 0 empty_world empty_world-IsSound

-- Its lists answer pops as PoppingLists says.
abbrev pub server_pops : PoppingLists server server_lists
server_pops = record {
  blpop_first = λ n k v rest db h. rw h (refl, rw (str_eq_refl k) refl);
  blpop_empty = λ n k db h. rw h (refl, h);
  del_keeps = λ k j db apart. elim (Bool-cases (str_eq k j)) [
    | inl same ↦ absurd (apart ((eq_iff k j).0 same))
    | inr other ↦ rw other refl
  ];
}
