-- ===== src/Directory.antt =====
-- hub/hub.go and redis/redis.go together: the instances that share one Redis, in which each enters its
-- peers under its own address, so that the others find them. Between two calls no key expires.
pub mod Agreement
pub mod Keys
pub mod Lookup
pub mod Signals
pub mod Stale
use cbsignal_redis.Base.{
  ℕ, Bool, true, false, ◌&&◌, not, Option, none, some, List, [], ◌∷◌, ◌==◌, if◌then◌else◌, Bytes,
  str_eq,
}
use cbsignal_redis.Redis.{update_local_peer_expiration}
use cbsignal_redis.World.{Env, World}
use cbsignal_redis.Hub.{do_register, do_unregister}

-- The client at an address of an instance registers; an instance unregisters an id, or renews its
-- entry in Redis, as a heartbeat does.
pub data Event : Type 0 where
  joins : ℕ → ℕ → Event
  leaves renews : ℕ → Bytes → Event

module _ (E : Env) where
  -- The server's state, and the instances by number; that of the `db` fields of the instances does not
  -- count.
  pub record Cluster : Type 0 where
    pub db : E.cmdable.Db
    pub instances : ℕ → World E

  -- An instance with the state of the server.
  abbrev pub instance_at : ℕ → Cluster → World E
  instance_at i c = record (c.instances i) { redis = record (c.instances i).redis { db = c.db } }

  abbrev pub put_instance : ℕ → World E → Cluster → Cluster
  put_instance i w c = record {
    db = w.redis.db;
    instances = λ k. if i == k then w else c.instances k;
  }

  unfoldable pub step : Event → Cluster → Cluster
  step (joins i p) c = put_instance i (do_register E p (instance_at i c)) c
  step (leaves i id) c = put_instance i (do_unregister E id (instance_at i c)).1 c
  step (renews i id) c =
      let w = instance_at i c in
      put_instance i
        (record w { redis = (update_local_peer_expiration E.cmdable E.big_cache id w.redis).1 }) c

  unfoldable pub run : List Event → Cluster → Cluster
  run [] c = c
  run (e ∷ es) c = run es (step e c)

-- What the instances tell one another, without Redis, maps and clients: the address at which a peer is
-- found, and whether an instance has it.
pub record Directory : Type 0 where
  pub owner : Bytes → Option Bytes
  pub has_peer : ℕ → Bytes → Bool

-- `addr i` is the address of an instance, and `name i p` the id of its client at `p`. Whoever unregisters
-- a peer that it has takes it out of the directory.
module _ (addr : ℕ → Bytes) (name : ℕ → ℕ → Bytes) where
  unfoldable pub enter : Event → Directory → Directory
  enter (joins i p) d = record {
    owner = λ j. if str_eq (name i p) j then some (addr i) else d.owner j;
    has_peer = λ k j. if (i == k) && str_eq (name i p) j then true else d.has_peer k j;
  }
  enter (leaves i id) d =
      if not (str_eq id []) && d.has_peer i id
      then record {
        owner = λ j. if str_eq id j then none else d.owner j;
        has_peer = λ k j. if (i == k) && str_eq id j then false else d.has_peer k j;
      }
      else d
  enter (renews i id) d = d

  unfoldable pub enter_all : List Event → Directory → Directory
  enter_all [] d = d
  enter_all (e ∷ es) d = enter_all es (enter e d)
