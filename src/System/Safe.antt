-- ===== src/System/Safe.antt =====
-- client.go, hub.go: who holds a client, the map of clients or the pool.
use cbsignal_redis.Base.{
  ℕ, ◌+◌, ◌≤◌, ◌<◌, ◌≡◌, refl, sym, ◌∙◌, ◌≢◌, inl, inr, Bool, true, false, ◌&&◌, not, none, some,
  List, [], ◌∷◌, arith, ◌==◌, if◌then◌else◌, Bool-cases, Option-cases, Bytes, str_eq, str_eq_refl,
}
use cbsignal_redis.Dict.{is_some}
use cbsignal_redis.World.{Env, World}
use cbsignal_redis.Hub.{store, get_client, do_unregister, send_to, close, drop_client}
use cbsignal_redis.Hub.Registry.{do_unregister_lem, do_unregister-IsSound, close-IsSound, IsSound}
use cbsignal_redis.Hub.Kept.{IsSound-IsKept, IsKept}

abbrev pub times : ℕ → List ℕ → ℕ
times q [] = 0
times q (x ∷ l) = (if x == q then 1 else 0) + times q l

-- sync.Pool's Get gives what was put, each as often as it was put, at most.
pub record PickingPool (E : Env) : Type 0 where
  pub picks :
      (n : ℕ) (pool rest : List ℕ) (p : ℕ)
      → E.pool_get n pool ≡ some (p, rest)
      → (q : ℕ) → (if p == q then 1 else 0) + times q rest ≤ times q pool

module _ (E : Env) where
  pub record IsSafe (w : World E) : Type 0 where
    pub sound : IsSound E w
    pub registered_below : (id : Bytes) (p : ℕ) → get_client E id w ≡ some p → p < w.next
    pub pooled_below : (q : ℕ) → 0 < times q w.pool → q < w.next
    pub once : (q : ℕ) → times q w.pool ≤ 1
    pub apart : (id : Bytes) (p : ℕ) → get_client E id w ≡ some p → times p w.pool ≡ 0

  -- Nobody but the client at `p` is registered as `id`.
  abbrev pub IsOwner : Bytes → ℕ → World E → Type 0
  IsOwner id p w = (q : ℕ) → get_client E id w ≡ some q → q ≡ p

  -- The registrations and the pool stay as they are, and the world stays sound.
  same_pool :
      (w w' : World E)
      → w'.clients ≡ w.clients
      → w'.pool ≡ w.pool
      → w'.next ≡ w.next
      → IsSound E w'
      → IsSafe w
      → IsSafe w'
  unfolding get_client
  same_pool w w' same_map same_pooled same_next sound v = record {
    sound = sound;
    registered_below = λ id p h. rw same_next (v.registered_below id p (rw (← same_map) h));
    pooled_below = λ q h. rw same_next (v.pooled_below q (rw same_pooled at h));
    once = λ q. rw same_pooled (v.once q);
    apart = λ id p h. rw same_pooled (v.apart id p (rw (← same_map) h));
  }

  pub IsSafe-IsKept : IsKept E IsSafe
  unfolding send_to
  IsSafe-IsKept =
      let k = IsSound-IsKept E in
      record {
        sends = λ p b w v. same_pool w (send_to E p b w).1 refl refl refl (k.sends p b w v.sound) v;
        updates = λ p c w same short v.
            same_pool w (store E p c w) refl refl refl (k.updates p c w same short v.sound) v;
        elsewhere = λ w w' same_map same_heap same_pooled same_next v.
            same_pool w w' same_map same_pooled same_next
              (k.elsewhere w w' same_map same_heap same_pooled same_next v.sound) v;
      }

  rest-do_unregister :
      (id : Bytes) (w : World E)
      → let w' = (do_unregister E id w).1 in (w'.pool ≡ w.pool) × (w'.next ≡ w.next)
  unfolding do_unregister
  rest-do_unregister id w = elim (Bool-cases (str_eq id [])) [
    | inl empty ↦ rw empty (refl, refl)
    | inr filled ↦ elim (Bool-cases (E.fast_map.has id w.clients)) [
      | inl here ↦ rw (filled, here) (refl, refl)
      | inr missing ↦ rw (filled, missing) (refl, refl)
    ]
  ]

  -- The registrations that an unregistration leaves.
  left_over :
      (id j : Bytes) (q : ℕ) (w : World E)
      → get_client E j (do_unregister E id w).1 ≡ some q
      → (((do_unregister E id w).0 && str_eq id j) ≡ false) × (get_client E j w ≡ some q)
  left_over id j q w h =
      let (done, freed, same) = do_unregister_lem E id w in
      go ((do_unregister E id w).0 && str_eq id j) (sym (freed j) ∙ h)
    where
      go :
          (taken : Bool)
          → (if taken then none else get_client E j w) ≡ some q
          → (taken ≡ false) × (get_client E j w ≡ some q)
      go true e = cc
      go false e = (refl, e)

  -- An id that is unregistered was registered.
  was_here :
      (id : Bytes) (w : World E)
      → (do_unregister E id w).0 ≡ true
      → is_some (get_client E id w) ≡ true
  was_here id w h =
      let (done, freed, same) = do_unregister_lem E id w in
      and_right (not (str_eq id [])) (sym done ∙ h)
    where
      and_right : (a : Bool) {b : Bool} → (a && b) ≡ true → b ≡ true
      and_right true e = e
      and_right false e = cc

  do_unregister-IsSafe : (id : Bytes) (w : World E) → IsSafe w → IsSafe (do_unregister E id w).1
  do_unregister-IsSafe id w v =
      let (same_pooled, same_next) = rest-do_unregister id w in
      record {
        sound = do_unregister-IsSound E id w v.sound;
        registered_below = λ j q h. rw same_next (v.registered_below j q (left_over id j q w h).1);
        pooled_below = λ q h. rw same_next (v.pooled_below q (rw same_pooled at h));
        once = λ q. rw same_pooled (v.once q);
        apart = λ j q h. rw same_pooled (v.apart j q (left_over id j q w h).1);
      }

  -- A client that is registered no longer, under the one id that it had, goes to the pool.
  close-IsSafe :
      (p : ℕ) (w : World E)
      → IsSafe w
      → p < w.next
      → times p w.pool ≡ 0
      → ((j : Bytes) → get_client E j w ≢ some p)
      → IsSafe (close E p w)
  unfolding close get_client
  close-IsSafe p w v below unpooled free = record {
    sound = unfold close in close-IsSound E p w v.sound;
    registered_below = v.registered_below;
    pooled_below = λ q h. grind (arith, below, v.pooled_below q);
    once = λ q. grind (arith, unpooled, v.once q);
    apart = λ j q h. grind (arith, v.apart j q h, free j);
  }

  -- A client that is dropped by the id that it alone is registered under goes to the pool safely.
  pub drop_client-IsSafe :
      (id : Bytes) (p : ℕ) (w : World E)
      → IsOwner id p w
      → IsSafe w
      → IsSafe (drop_client E id p w).1
  unfolding drop_client
  drop_client-IsSafe id p w own v = go (do_unregister E id w).0 refl
    where
      w' : World E
      w' = (do_unregister E id w).1

      v' : IsSafe w'
      v' = do_unregister-IsSafe id w v

      -- The client was registered as `id`, and so under no other id.
      dropped : (do_unregister E id w).0 ≡ true → IsSafe (close E p w')
      dropped done = elim (Option-cases (get_client E id w)) [
        | inl missing ↦ let e : false ≡ true = rw missing at (was_here id w done) in cc
        | inr (q, found) ↦
            let here : get_client E id w ≡ some p = rw (own q found) at found in
            let (same_pooled, same_next) = rest-do_unregister id w in
            close-IsSafe p w' v' (rw same_next (v.registered_below id p here))
              (rw same_pooled (v.apart id p here))
              (λ j h.
                let (kept, before) = left_over id j p w h in
                let same : id ≡ j = sym (v.sound.own_id id p here) ∙ v.sound.own_id j p before in
                let e : true ≡ false = sym (str_eq_refl j) ∙ rw (done, same) at kept in cc)
      ]

      go :
          (done : Bool)
          → (do_unregister E id w).0 ≡ done
          → IsSafe (if done then close E p w' else w')
      go true e = dropped e
      go false e = v'
