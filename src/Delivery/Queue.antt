-- ===== src/Delivery/Queue.antt =====
-- redis.go, hub.go: the queues of instances in Redis, as a receiver's pops and deliveries change them.
use mathlib.Core.List.{append-nil}
use cbsignal_redis.Base.{
  ℕ, ◌<◌, ◌≡◌, refl, ◌∙◌, ◌≢◌, inl, inr, Bool, true, false, not, none, some, List, [], ◌∷◌, ◌++◌,
  arith, ltb, if◌then◌else◌, Bool-cases, Option-cases, length, length-append, Bytes, str_eq,
}
use cbsignal_redis.Errors.{Result, redis_nil, redis_not_alive, ok, err}
use cbsignal_redis.Messages.{SignalReq}
use cbsignal_redis.Redis.{
  key_for_peer_id, key_for_mq, call, take_a_break, break_on_error, del_local_peer, block_pop_mq,
  Cmdable, RedisState,
}
use cbsignal_redis.Redis.Breaker.{keys_apart}
use cbsignal_redis.Client.{Sent}
use cbsignal_redis.Nodes.Node.{mq_max_len, send_batch_req, batch_process}
use cbsignal_redis.Nodes.Node.Trim.{after_push_lem, AnsweringLists}
use cbsignal_redis.World.{Env, World}
use cbsignal_redis.Hub.{
  mq_block_duration, get_client, do_unregister, send_to, close, drop_client, after_send, deliver,
}
use cbsignal_redis.Delivery.{push_batch, started, take_batch, Link}
use cbsignal_redis.Delivery.{push_batch, started, take_batch, Link}

-- BLPOP on a server that answers, as Redis documents it: the first element, or a failure when there is
-- none; and DEL, which keeps the lists at other keys.
pub record PoppingLists (C : Cmdable) (lists : AnsweringLists C) : Type 0 where
  pub blpop_first :
      (n : ℕ) (k v : Bytes) (rest : List Bytes) (db : C.Db)
      → lists.list_at k db ≡ v ∷ rest
      → ((C.blpop n k db).0 ≡ ok v) × (lists.list_at k (C.blpop n k db).1 ≡ rest)
  pub blpop_empty :
      (n : ℕ) (k : Bytes) (db : C.Db)
      → lists.list_at k db ≡ []
      → ((C.blpop n k db).0 ≡ err redis_nil) × (lists.list_at k (C.blpop n k db).1 ≡ [])
  pub del_keeps :
      (k j : Bytes) (db : C.Db) → k ≢ j → lists.list_at j (C.del k db).1 ≡ lists.list_at j db

module _ (E : Env) where
  -- The queue of an instance in Redis.
  abbrev pub mq : AnsweringLists E.cmdable → Bytes → World E → List Bytes
  mq lists addr w = lists.list_at (key_for_mq addr) w.redis.db

  -- A batch that the encoding carries from one instance to the other.
  abbrev pub Carries : (List SignalReq → Bytes) → List SignalReq → Type 0
  Carries encode items =
      (E.codec.marshal_batch (record { items = items }) ≡ ok (encode items))
      × (E.unmarshal_batch (encode items) ≡ ok (record { items = items }))

module _ (E : Env) (lists : AnsweringLists E.cmdable) (pops : PoppingLists E.cmdable lists) where
  mq-del :
      (addr id : Bytes) (s : RedisState E.cmdable E.big_cache)
      → lists.list_at (key_for_mq addr) (del_local_peer E.cmdable E.big_cache id s).1.db
        ≡ lists.list_at (key_for_mq addr) s.db
  unfolding del_local_peer
  mq-del addr id s = go s.is_alive
    where
      broken :
          (r : Result (Unit {0}) × RedisState E.cmdable E.big_cache)
          → (break_on_error E.cmdable E.big_cache r).1.db ≡ r.1.db
      broken (ok u, s') = unfold break_on_error in refl
      broken (err e, s') = unfold break_on_error take_a_break in refl

      kept :
          lists.list_at
            (key_for_mq addr)
            (break_on_error E.cmdable E.big_cache
              (call E.cmdable E.big_cache (E.cmdable.del (key_for_peer_id id)) s)).1.db
          ≡ lists.list_at (key_for_mq addr) s.db
      kept =
          rw (broken (call E.cmdable E.big_cache (E.cmdable.del (key_for_peer_id id)) s))
            (pops.del_keeps (key_for_peer_id id) (key_for_mq addr) s.db (keys_apart id addr).0)

      go :
          (live : Bool)
          → lists.list_at
              (key_for_mq addr)
              (if not live
                then (err redis_not_alive, s)
                else break_on_error E.cmdable E.big_cache
                    (call E.cmdable E.big_cache (E.cmdable.del (key_for_peer_id id)) s)).1.db
            ≡ lists.list_at (key_for_mq addr) s.db
      go true = kept
      go false = refl

  mq-do_unregister :
      (addr id : Bytes) (w : World E) → mq E lists addr (do_unregister E id w).1 ≡ mq E lists addr w
  unfolding do_unregister
  mq-do_unregister addr id w = elim (Bool-cases (str_eq id [])) [
    | inl empty ↦ rw empty refl
    | inr filled ↦ elim (Bool-cases (E.fast_map.has id w.clients)) [
      | inl here ↦ rw (filled, here) (mq-del addr id w.redis)
      | inr missing ↦ rw (filled, missing) refl
    ]
  ]

  mq-drop_client :
      (addr id : Bytes) (p : ℕ) (w : World E)
      → mq E lists addr (drop_client E id p w).1 ≡ mq E lists addr w
  unfolding drop_client close
  mq-drop_client addr id p w = go (do_unregister E id w).0
    where
      go :
          (done : Bool)
          → mq E lists addr
              (if done then close E p (do_unregister E id w).1 else (do_unregister E id w).1)
            ≡ mq E lists addr w
      go true = mq-do_unregister addr id w
      go false = mq-do_unregister addr id w

  mq-after_send :
      (addr : Bytes) (p : ℕ) (r : Sent × World E)
      → mq E lists addr (after_send E p r) ≡ mq E lists addr r.1
  unfolding after_send
  mq-after_send addr p ((none, fatal), w) = refl
  mq-after_send addr p ((some e, fatal), w) = mq-drop_client addr (w.heap p).peer_id p w

  -- A delivery changes no queue in Redis.
  pub mq-deliver :
      (addr : Bytes) (item : SignalReq) (w : World E)
      → mq E lists addr (deliver E item w) ≡ mq E lists addr w
  unfolding deliver send_to
  mq-deliver addr item w = elim (Option-cases (get_client E item.to_peer_id w)) [
    | inl missing ↦ rw (missing, deliver) refl
    | inr (p, here) ↦ rw (here, deliver) (mq-after_send addr p (send_to E p item.payload w))
  ]

  module _ (encode : List SignalReq → Bytes) where
    -- A batch is put at the end of a queue that is not about to be trimmed.
    pub mq-push_batch :
        (addr : Bytes) (item : SignalReq) (items : List SignalReq) (l : Link E)
        → Carries E encode (item ∷ items)
        → length (mq E lists addr l.world) < mq_max_len
        → mq E lists addr (push_batch E addr (item ∷ items) l).world
          ≡ mq E lists addr l.world ++ encode (item ∷ items) ∷ []
    unfolding push_batch batch_process send_batch_req
    mq-push_batch addr item items l (encoded, decoded) room =
        let raw = encode (item ∷ items) in
        let s = record l.sender { db = l.world.redis.db } in
        let long : ltb mq_max_len (length (mq E lists addr l.world ++ raw ∷ [])) ≡ false =
          ground (arith, length-append (mq E lists addr l.world) (raw ∷ [])) in
        let (_, grown) = after_push_lem E.codec E.cmdable E.big_cache lists addr raw s in
        rw (encoded, batch_process, send_batch_req) (grown ∙ rw long refl)

    -- A Consume takes the first batch out of the queue.
    pub take_batch_lem :
        (addr : Bytes) (b : List SignalReq) (rest : List Bytes) (l : Link E)
        → Carries E encode b
        → mq E lists addr l.world ≡ encode b ∷ rest
        → let l' = take_batch E addr l in
          (l'.flights ≡ l.flights ++ b ∷ []) × (mq E lists addr l'.world ≡ rest)
    unfolding take_batch block_pop_mq started
    take_batch_lem addr b rest l (encoded, decoded) h =
        let (answer, left) =
          pops.blpop_first mq_block_duration (key_for_mq addr) (encode b) rest l.world.redis.db h in
        (rw (answer, started, decoded) refl, left)

  pub take_batch-empty :
      (addr : Bytes) (l : Link E)
      → mq E lists addr l.world ≡ []
      → let l' = take_batch E addr l in (l'.flights ≡ l.flights) × (mq E lists addr l'.world ≡ [])
  unfolding take_batch block_pop_mq started
  take_batch-empty addr l h =
      let (answer, left) =
        pops.blpop_empty mq_block_duration (key_for_mq addr) l.world.redis.db h in
      (rw (answer, started) (append-nil l.flights), left)
