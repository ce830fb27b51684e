-- ===== src/System/Pool.antt =====
-- client.go: a new client gets an address that nobody holds.
use cbsignal_redis.Base.{
  ℕ, ◌<◌, ◌≡◌, refl, sym, ◌∙◌, ◌≢◌, ◌⊎◌, inl, inr, Bool, true, false, Option, none, some, List, [],
  arith, if◌then◌else◌, Bytes, str_eq,
}
use cbsignal_redis.Client.{new_websocket_peer_client, new_polling_peer_client, Client}
use cbsignal_redis.World.{Env, World}
use cbsignal_redis.Hub.{store, get_client, do_register, allocate_from, allocate}
use cbsignal_redis.Hub.Registry.{get_client-do_register}
use cbsignal_redis.Main.Http.{join_polling}
use cbsignal_redis.Main.Http.Sound.{register-IsSound}
use cbsignal_redis.Main.Websocket.{join_ws}
use cbsignal_redis.System.Safe.{times, PickingPool, IsSafe}

module _ (E : Env) (pools : PickingPool E) where
  -- An address that is neither registered nor in the pool.
  record IsUnheld (p : ℕ) (w : World E) : Type 0 where
    pub safe : IsSafe E w
    pub unregistered : (id : Bytes) → get_client E id w ≢ some p
    pub below : p < w.next
    pub unpooled : times p w.pool ≡ 0

  allocate_from-IsUnheld :
      (choice : Option (ℕ × List ℕ)) (w : World E)
      → E.pool_get w.gets w.pool ≡ choice
      → IsSafe E w
      → let (p, w') = allocate_from E choice w in IsUnheld p w'
  unfolding allocate_from get_client
  allocate_from-IsUnheld none w h v = record {
    safe = record {
      sound = record { own_id = v.sound.own_id; fits = v.sound.fits };
      registered_below = λ id p here. omega (arith, v.registered_below id p here);
      pooled_below = λ q pooled. omega (arith, v.pooled_below q pooled);
      once = v.once;
      apart = v.apart;
    };
    unregistered = λ id here. omega (arith, v.registered_below id w.next here);
    below = omega arith;
    unpooled = grind (arith, v.pooled_below w.next);
  }
  allocate_from-IsUnheld (some (p, rest)) w h v =
      let picked = pools.picks w.gets w.pool rest p h in
      record {
        safe = record {
          sound = record { own_id = v.sound.own_id; fits = v.sound.fits };
          registered_below = v.registered_below;
          pooled_below = λ q pooled. v.pooled_below q (omega (arith, picked q, pooled));
          once = λ q. omega (arith, picked q, v.once q);
          apart = λ id q here. omega (arith, picked q, v.apart id q here);
        };
        unregistered = λ id here. grind (arith, picked p, v.apart id p here);
        below = grind (arith, picked p, v.pooled_below p);
        unpooled = grind (arith, picked p, v.once p);
      }

  allocate-IsUnheld : (w : World E) → IsSafe E w → let (p, w') = allocate E w in IsUnheld p w'
  unfolding allocate
  allocate-IsUnheld w v = allocate_from-IsUnheld (E.pool_get w.gets w.pool) w refl v

  -- A client with an empty queue that is put there and registered.
  register-IsSafe :
      (p : ℕ) (c : Client) (w : World E)
      → c.msg_queue ≡ []
      → IsUnheld p w
      → IsSafe E (do_register E p (store E p c w))
  register-IsSafe p c w empty u = record {
    sound = register-IsSound E p c w empty u.unregistered u.safe.sound;
    registered_below = λ id q here. elim (registered id q here) [
      | inl new ↦ unfold do_register in rw (← new) u.below
      | inr before ↦ unfold do_register in u.safe.registered_below id q before
    ];
    pooled_below =
        λ q pooled. unfold do_register in u.safe.pooled_below q (unfold do_register in pooled);
    once = λ q. unfold do_register in u.safe.once q;
    apart = λ id q here. elim (registered id q here) [
      | inl new ↦ unfold do_register in rw (← new) u.unpooled
      | inr before ↦ unfold do_register in u.safe.apart id q before
    ];
  }
    where
      registered :
          (id : Bytes) (q : ℕ)
          → get_client E id (do_register E p (store E p c w)) ≡ some q
          → (p ≡ q) ⊎ (get_client E id w ≡ some q)
      registered id q here =
          go (str_eq ((store E p c w).heap p).peer_id id)
            (sym (get_client-do_register E p id (store E p c w)) ∙ here)
        where
          go :
              (mine : Bool)
              → (if mine then some p else get_client E id (store E p c w)) ≡ some q
              → (p ≡ q) ⊎ (get_client E id w ≡ some q)
          go true e = inl cc
          go false e = inr (unfold get_client in e)

  pub join_polling-IsSafe :
      (id : Bytes) (w : World E) → IsSafe E w → IsSafe E (join_polling E id w).1
  unfolding join_polling new_polling_peer_client
  join_polling-IsSafe id w v =
      let (p, w') = allocate E w in
      register-IsSafe p (new_polling_peer_client id w.now) w' refl (allocate-IsUnheld w v)

  pub join_ws-IsSafe :
      (id : Bytes) (conn : ℕ) (w : World E) → IsSafe E w → IsSafe E (join_ws E id conn w).1
  unfolding join_ws new_websocket_peer_client
  join_ws-IsSafe id conn w v =
      let (p, w') = allocate E w in
      register-IsSafe p (new_websocket_peer_client id conn w.now) w' refl (allocate-IsUnheld w v)
