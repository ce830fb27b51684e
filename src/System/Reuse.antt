-- ===== src/System/Reuse.antt =====
-- main.go, client.go: a goroutine that drops its client by an id that another client has taken since.
use cbsignal_redis.Base.{
  ℕ, suc, ◌≡◌, refl, ◌∙◌, ◌≢◌, inl, inr, Bool, true, false, some, List, [], ◌∷◌, arith,
  if◌then◌else◌, Bool-cases, Bytes, str_eq, str_eq_refl,
}
use cbsignal_redis.Client.{new_websocket_peer_client}
use cbsignal_redis.World.{Env, World}
use cbsignal_redis.Hub.{
  store, get_client, do_register, do_unregister, close, drop_client, allocate_from, allocate,
}
use cbsignal_redis.Hub.Registry.{get_client-do_register, drop_client_lem}
use cbsignal_redis.Main.Websocket.{join_ws, leave}

module _ (E : Env) where
  gets-do_unregister : (id : Bytes) (w : World E) → (do_unregister E id w).1.gets ≡ w.gets
  unfolding do_unregister
  gets-do_unregister id w = elim (Bool-cases (str_eq id [])) [
    | inl empty ↦ rw empty refl
    | inr filled ↦ elim (Bool-cases (E.fast_map.has id w.clients)) [
      | inl here ↦ rw (filled, here) refl
      | inr missing ↦ rw (filled, missing) refl
    ]
  ]

  gets-drop_client : (id : Bytes) (p : ℕ) (w : World E) → (drop_client E id p w).1.gets ≡ w.gets
  unfolding drop_client close
  gets-drop_client id p w = go (do_unregister E id w).0
    where
      go :
          (done : Bool)
          → (if done then close E p (do_unregister E id w).1 else (do_unregister E id w).1).gets
            ≡ w.gets
      go true = gets-do_unregister id w
      go false = gets-do_unregister id w

  -- A new websocket client at the address that the pool gives out.
  pub join_ws_at :
      (id : Bytes) (conn p : ℕ) (rest : List ℕ) (w : World E)
      → E.pool_get w.gets w.pool ≡ some (p, rest)
      → let (r, w') = join_ws E id conn w in
        (r ≡ p)
        × ((j : Bytes) → get_client E j w' ≡ (if str_eq id j then some p else get_client E j w))
        × ((w'.heap p).peer_id ≡ id)
        × ((w'.heap p).conn ≡ conn)
  unfolding join_ws allocate allocate_from
  join_ws_at id conn p rest w chosen =
      let w' : World E = record w { pool = rest; gets = suc w.gets } in
      let c = new_websocket_peer_client id conn w.now in
      let own : (store E p c w').heap p ≡ c = ground arith in
      let own_id : ((store E p c w').heap p).peer_id ≡ id =
        unfold new_websocket_peer_client in rw own refl in
      rw (chosen, join_ws, allocate, allocate_from)
        (
          refl,
          λ j.
              get_client-do_register E p j (store E p c w') ∙ rw own_id (unfold get_client in refl),
          unfold do_register new_websocket_peer_client in ground arith,
          unfold do_register new_websocket_peer_client in ground arith,
        )

  -- The end of a reader whose client has been dropped before and now serves another peer, `other`, while
  -- the reader's id is registered anew: the client goes to the pool although it is registered. If the
  -- pool gives it out next, to a peer `third`, then the ids `other` and `third` are both registered for
  -- one client, with the id and the connection of `third`: what is sent to `other` goes there.
  pub stale_leave-shares :
      (id other third : Bytes) (p q conn : ℕ) (rest : List ℕ) (w : World E)
      → id ≢ []
      → get_client E id w ≡ some q
      → get_client E other w ≡ some p
      → str_eq id other ≡ false
      → E.pool_get w.gets (p ∷ w.pool) ≡ some (p, rest)
      → let (r, w') = join_ws E third conn (leave E id p w) in
        (get_client E other w' ≡ some p)
        × (get_client E third w' ≡ some p)
        × ((w'.heap p).peer_id ≡ third)
        × ((w'.heap p).conn ≡ conn)
  unfolding leave
  stale_leave-shares id other third p q conn rest w filled here there apart chosen =
      let (freed, pooled) = drop_client_lem E id p q w filled here in
      let w' = (drop_client E id p w).1 in
      let next : E.pool_get w'.gets w'.pool ≡ some (p, rest) =
        rw (gets-drop_client id p w, pooled) chosen in
      let (at, registered, own, over) = join_ws_at third conn p rest w' next in
      (
        registered other ∙ elim (Bool-cases (str_eq third other)) [
          | inl same ↦ rw same refl
          | inr unlike ↦ rw (unlike, freed other, apart) there
        ],
        registered third ∙ rw (str_eq_refl third) refl,
        own,
        over,
      )
