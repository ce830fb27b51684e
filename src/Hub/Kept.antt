-- ===== src/Hub/Kept.antt =====
-- Properties of an instance that hold whatever is sent to its clients.
use cbsignal_redis.Base.{ℕ, ◌≤◌, ◌≡◌, arith, length, Bytes}
use cbsignal_redis.Client.{Client}
use cbsignal_redis.World.{Env, World}
use cbsignal_redis.Hub.{store, get_client, send_to}
use cbsignal_redis.Hub.Registry.{send_to-IsSound, IsSound}

module _ (E : Env) where
  -- A property that a send keeps, an update of a client that leaves its id and lets its queue shrink,
  -- and a change of anything but the clients, their registrations and the pool.
  pub record IsKept (P : World E → Type 0) : Type 0 where
    pub sends : (p : ℕ) (b : Bytes) (w : World E) → P w → P (send_to E p b w).1
    pub updates :
        (p : ℕ) (c : Client) (w : World E)
        → c.peer_id ≡ (w.heap p).peer_id
        → length c.msg_queue ≤ length (w.heap p).msg_queue
        → P w
        → P (store E p c w)
    pub elsewhere :
        (w w' : World E)
        → w'.clients ≡ w.clients
        → w'.heap ≡ w.heap
        → w'.pool ≡ w.pool
        → w'.next ≡ w.next
        → P w
        → P w'

  pub IsSound-IsKept : IsKept (IsSound E)
  unfolding get_client
  IsSound-IsKept = record {
    sends = send_to-IsSound E;
    updates = λ p c w same short v. record {
      own_id = λ id q h. ground (arith, same, v.own_id id q h);
      fits = λ q. ground (arith, short, v.fits q, v.fits p);
    };
    elsewhere = λ w w' same_map same_heap same_pool same_next v. record {
      own_id = λ id p h. rw same_heap (v.own_id id p (rw (← same_map) h));
      fits = λ p. rw same_heap (v.fits p);
    };
  }
