-- ===== src/Main/Http/Sound.antt =====
-- main.go: what POSTs and polls do to the registrations and the queues.
use cbsignal_redis.Base.{
  ℕ, ◌≡◌, refl, sym, ap, ◌∙◌, ◌≢◌, inl, inr, Option, none, some, List, [], arith, Bool-cases, Bytes,
  str_eq, eq_iff,
}
use cbsignal_redis.Errors.{Result}
use cbsignal_redis.Client.{new_polling_peer_client, Client}
use cbsignal_redis.World.{Env, World}
use cbsignal_redis.Hub.{store, get_client, do_register, allocate_from, allocate}
use cbsignal_redis.Hub.Kept.{IsSound-IsKept}
use cbsignal_redis.Hub.Registry.{get_client-do_register, IsSound}
use cbsignal_redis.Handler.{SignalMsg, Others}
use cbsignal_redis.Main.{Settings, Server}
use cbsignal_redis.Main.Http.{join_polling, polling_handler, post_handler, Request}
use cbsignal_redis.Main.Http.Kept.{polling_handler-keeps, post_handler-keeps}

module _ (E : Env) where
  -- The address that a new client gets names no registered client.
  abbrev pub IsFree : World E → Type 0
  IsFree w = (id : Bytes) → get_client E id w ≢ some (allocate E w).0

  allocate_from_keeps :
      (choice : Option (ℕ × List ℕ)) (w : World E)
      → let w' = (allocate_from E choice w).1 in (w'.heap ≡ w.heap) × (w'.clients ≡ w.clients)
  unfolding allocate_from
  allocate_from_keeps none w = (refl, refl)
  allocate_from_keeps (some (p, rest)) w = (refl, refl)

  allocate_keeps :
      (w : World E) → let w' = (allocate E w).1 in (w'.heap ≡ w.heap) × (w'.clients ≡ w.clients)
  unfolding allocate
  allocate_keeps w = allocate_from_keeps (E.pool_get w.gets w.pool) w

  -- A client with an empty queue, put at a free address and registered.
  pub register-IsSound :
      (p : ℕ) (c : Client) (w : World E)
      → c.msg_queue ≡ []
      → ((id : Bytes) → get_client E id w ≢ some p)
      → IsSound E w
      → IsSound E (do_register E p (store E p c w))
  unfolding get_client
  register-IsSound p c w empty free v = record {
    own_id = λ id q h. own id q h;
    fits = λ q. unfold do_register in ground (arith, v.fits q, empty);
  }
    where
      own :
          (id : Bytes) (q : ℕ)
          → get_client E id (do_register E p (store E p c w)) ≡ some q
          → ((do_register E p (store E p c w)).heap q).peer_id ≡ id
      own id q h =
          let at_p : (store E p c w).heap p ≡ c = ground arith in
          let registered = get_client-do_register E p id (store E p c w) in
          elim (Bool-cases (str_eq c.peer_id id)) [
            | inl same ↦
                let is_p : some p ≡ some q = sym (registered ∙ rw (at_p, same) refl) ∙ h in
                unfold do_register in ground (arith, is_p, (eq_iff c.peer_id id).0 same)
            | inr other ↦
                let before : get_client E id w ≡ some q =
                  sym (registered ∙ rw (at_p, other) refl) ∙ h in
                unfold do_register in ground (arith, before, free id, v.own_id id q before)
          ]

  join_polling-IsSound :
      (id : Bytes) (w : World E) → IsFree w → IsSound E w → IsSound E (join_polling E id w).1
  unfolding join_polling get_client new_polling_peer_client
  join_polling-IsSound id w free v =
      let (p, w') = allocate E w in
      let (same_heap, same_map) = allocate_keeps w in
      let v' : IsSound E w' = record {
        own_id = λ j q h. rw same_heap (v.own_id j q (ap (E.fast_map.get j) (sym same_map) ∙ h));
        fits = λ q. rw same_heap (v.fits q);
      } in
      register-IsSound p (new_polling_peer_client id w.now) w' refl
        (λ j h. free j (ap (E.fast_map.get j) (sym same_map) ∙ h)) v'

  -- In a sound world, if the pool holds no registered client, a poll keeps every client registered
  -- under its own id only and no polling queue over 30 messages, whatever it is answered.
  polling_handler-IsSound :
      (hmac_hex : Bytes → Bytes → Bytes) (settings : Settings) (r : Request) (s : Server E)
      → IsFree s.world
      → IsSound E s.world
      → IsSound E (polling_handler E hmac_hex settings r s).1.world
  polling_handler-IsSound hmac_hex settings r s free v =
      polling_handler-keeps E (IsSound E) (IsSound-IsKept E) hmac_hex settings r s v
        (join_polling-IsSound r.id s.world free v)

  -- In a sound world, if the pool holds no registered client, a POST keeps every client registered
  -- under its own id only and no polling queue over 30 messages, whatever messages it brings.
  post_handler-IsSound :
      (O : Others) (unmarshal : Bytes → Result (List SignalMsg)) (hmac_hex : Bytes → Bytes → Bytes)
      (settings : Settings) (r : Request) (s : Server E)
      → IsFree s.world
      → IsSound E s.world
      → IsSound E (post_handler E O unmarshal hmac_hex settings r s).1.world
  post_handler-IsSound O unmarshal hmac_hex settings r s free v =
      post_handler-keeps E (IsSound E) (IsSound-IsKept E) O unmarshal hmac_hex settings r s v
        (join_polling-IsSound r.id s.world free v)
