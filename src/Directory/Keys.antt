-- ===== src/Directory/Keys.antt =====
-- redis.go: what the writes of a peer's entry do to the strings in a Redis that answers.
use cbsignal_redis.Base.{ℕ, ◌≡◌, refl, ◌∙◌, true, Option, none, some, if◌then◌else◌, Bytes, str_eq}
use cbsignal_redis.Errors.{Result, redis_nil, ok, err}
use cbsignal_redis.Redis.{
  key_for_peer_id, break_on_error, set_local_peer, del_local_peer, update_local_peer_expiration,
  Cmdable, BigCache, RedisState,
}

-- What GET answers.
abbrev pub found : Option Bytes → Result Bytes
found none = err redis_nil
found (some v) = ok v

-- GET, SET, DEL and EXPIRE on a server that answers, as Redis documents them; `value` is the string at a key.
pub record AnsweringKeys (C : Cmdable) : Type 0 where
  pub value : Bytes → C.Db → Option Bytes
  pub get_answers : (k : Bytes) (db : C.Db) → (C.get k db).0 ≡ found (value k db)
  pub get_keeps : (k j : Bytes) (db : C.Db) → value j (C.get k db).1 ≡ value j db
  pub set_answers : (k v : Bytes) (ttl : ℕ) (db : C.Db) → (C.set k v ttl db).0 ≡ ok tt
  pub set_stores :
      (k v : Bytes) (ttl : ℕ) (j : Bytes) (db : C.Db)
      → value j (C.set k v ttl db).1 ≡ (if str_eq k j then some v else value j db)
  pub expire_keeps :
      (k : Bytes) (ttl : ℕ) (j : Bytes) (db : C.Db) → value j (C.expire k ttl db).1 ≡ value j db
  pub del_answers : (k : Bytes) (db : C.Db) → (C.del k db).0 ≡ ok tt
  pub del_removes :
      (k j : Bytes) (db : C.Db) → value j (C.del k db).1 ≡ (if str_eq k j then none else value j db)

key_eq : (a b : Bytes) → str_eq (key_for_peer_id a) (key_for_peer_id b) ≡ str_eq a b
unfolding key_for_peer_id str_eq
key_eq a b = refl

module _ (C : Cmdable) (B : BigCache) (keys : AnsweringKeys C) where
  -- A write that Redis answers: no break, and the instance keeps its address.
  pub record Written (s s' : RedisState C B) (after : Bytes → Option Bytes) : Type 0 where
    pub values : (j : Bytes) → keys.value (key_for_peer_id j) s'.db ≡ after j
    pub alive : s'.is_alive ≡ true
    pub same : s'.self_addr ≡ s.self_addr

  pub set_local_peer-Written :
      (id : Bytes) (s : RedisState C B)
      → s.is_alive ≡ true
      → Written s
          (set_local_peer C B id s).1
          (λ j. if str_eq id j then some s.self_addr else keys.value (key_for_peer_id j) s.db)
  unfolding set_local_peer break_on_error
  set_local_peer-Written id s alive =
      rw (alive, keys.set_answers)
        (record {
          values = λ j.
              keys.set_stores (key_for_peer_id id) s.self_addr 600 (key_for_peer_id j) s.db
              ∙ rw (key_eq id j) refl;
          alive = refl;
          same = refl;
        })

  pub del_local_peer-Written :
      (id : Bytes) (s : RedisState C B)
      → s.is_alive ≡ true
      → Written s
          (del_local_peer C B id s).1
          (λ j. if str_eq id j then none else keys.value (key_for_peer_id j) s.db)
  unfolding del_local_peer break_on_error
  del_local_peer-Written id s alive =
      rw (alive, keys.del_answers)
        (record {
          values = λ j.
              keys.del_removes (key_for_peer_id id) (key_for_peer_id j) s.db
              ∙ rw (key_eq id j) refl;
          alive = refl;
          same = refl;
        })

  pub renewed-Written :
      (id : Bytes) (s : RedisState C B)
      → s.is_alive ≡ true
      → Written s
          (update_local_peer_expiration C B id s).1
          (λ j. keys.value (key_for_peer_id j) s.db)
  unfolding update_local_peer_expiration
  renewed-Written id s alive = rw alive (record {
    values = λ j. keys.expire_keeps (key_for_peer_id id) 600 (key_for_peer_id j) s.db;
    alive = refl;
    same = refl;
  })
