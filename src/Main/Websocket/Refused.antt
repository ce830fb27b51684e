-- ===== src/Main/Websocket/Refused.antt =====
-- main.go: wsHandler when commonCheck refuses a connection.
use cbsignal_redis.Base.{
  ℕ, ◌≡◌, refl, inl, inr, true, false, ◌&&◌, ◌||◌, not, Option, none, some, List, [], arith, ltb,
  Bool-cases, length, Bytes, str, str_eq, str_eq_refl,
}
use cbsignal_redis.Client.{new_websocket_peer_client}
use cbsignal_redis.World.{Env, World}
use cbsignal_redis.Dict.{is_some}
use cbsignal_redis.Hub.{store, get_client, do_register, allocate_from, allocate}
use cbsignal_redis.Hub.Registry.{get_client-do_register}
use cbsignal_redis.Main.{signed, check_token, is_authorized, common_check, Settings, Server}
use cbsignal_redis.Main.Http.{in_world}
use cbsignal_redis.Main.Http.Answers.{Kept, common_check-Kept}
use cbsignal_redis.Main.Websocket.{
  write_custom_status_code, join_ws, connect, check_joined, after_connect, ws_handler,
}

module _ (E : Env) where
  now-allocate_from :
      (choice : Option (ℕ × List ℕ)) (w : World E) → (allocate_from E choice w).1.now ≡ w.now
  unfolding allocate_from
  now-allocate_from none w = refl
  now-allocate_from (some (p, rest)) w = refl

  now-allocate : (w : World E) → (allocate E w).1.now ≡ w.now
  unfolding allocate
  now-allocate w = now-allocate_from (E.pool_get w.gets w.pool) w

  -- The new client is registered under its id, over a websocket.
  join_ws_lem :
      (id : Bytes) (conn : ℕ) (w : World E)
      → let (p, w') = join_ws E id conn w in
        (get_client E id w' ≡ some p) × ((w'.heap p).is_polling ≡ false) × (w'.now ≡ w.now)
  unfolding join_ws
  join_ws_lem id conn w =
      let (p, w') = allocate E w in
      let c = new_websocket_peer_client id conn w.now in
      let own : ((store E p c w').heap p) ≡ c = ground arith in
      let own_id : ((store E p c w').heap p).peer_id ≡ id =
        unfold new_websocket_peer_client in rw own refl in
      let registered = get_client-do_register E p id (store E p c w') in
      (
        unfold new_websocket_peer_client in ground (arith, registered, own_id, str_eq_refl id),
        unfold do_register new_websocket_peer_client in ground arith,
        unfold do_register in now-allocate w,
      )

  module _ (hmac_hex : Bytes → Bytes → Bytes) (settings : Settings) (id token : Bytes) where
    ws_handler_checked :
        (conn : ℕ) (s : Server E)
        → is_authorized hmac_hex settings s.world.now id token ≡ true
        → ws_handler E hmac_hex settings id token conn s
          ≡ after_connect E settings conn (connect E id conn (get_client E id s.world) s.world) s
    unfolding ws_handler is_authorized
    ws_handler_checked conn s authorized = elim (Bool-cases (str_eq id [] || ltb (length id) 6)) [
      | inl bad ↦ let e : false ≡ true = rw bad at authorized in cc
      | inr good ↦
          elim (Bool-cases (
            settings.security_enabled
            && not (check_token hmac_hex settings s.world.now id token))) [
              | inl forged ↦ let e : false ≡ true = rw (good, forged) at authorized in cc
              | inr signed ↦ rw (good, signed) refl
            ]
    ]

    refused_new :
        (conn : ℕ) (s t : Server E)
        → is_authorized hmac_hex settings s.world.now id token ≡ true
        → get_client E id s.world ≡ none
        → common_check E settings (in_world E s (join_ws E id conn s.world).1) ≡ some (false, t)
        → ws_handler E hmac_hex settings id token conn s
          ≡ (none, in_world E t (write_custom_status_code E conn 5000 (str "check failed") t.world))
    unfolding connect after_connect check_joined
    refused_new conn s t authorized missing refused =
        rw
          (
            ws_handler_checked conn s authorized,
            missing,
            connect,
            after_connect,
            refused,
            check_joined,
          )
          refl

    refused_twice :
        (conn p : ℕ) (s : Server E)
        → is_authorized hmac_hex settings s.world.now id token ≡ true
        → get_client E id s.world ≡ some p
        → (s.world.heap p).is_polling ≡ false
        → ws_handler E hmac_hex settings id token conn s ≡ (
          none,
          in_world E s (write_custom_status_code E conn 4000 (str "ws already exist") s.world),
        )
    unfolding connect after_connect
    refused_twice conn p s authorized here ws =
        rw (ws_handler_checked conn s authorized, here, connect, ws) refl

  -- A connection that commonCheck refuses, for whichever of its reasons, stays registered although it
  -- gets no reader: a new id is registered before the check, no reader is started, and a second
  -- connection with the same id is refused because of the first.
  pub ws_handler-registers_refused :
      (hmac_hex : Bytes → Bytes → Bytes) (settings : Settings) (id token : Bytes) (conn conn' : ℕ)
      (s t : Server E)
      → is_authorized hmac_hex settings s.world.now id token ≡ true
      → get_client E id s.world ≡ none
      → common_check E settings (in_world E s (join_ws E id conn s.world).1) ≡ some (false, t)
      → let (reader, s') = ws_handler E hmac_hex settings id token conn s in
        (reader ≡ none)
        × (is_some (get_client E id s'.world) ≡ true)
        × (ws_handler E hmac_hex settings id token conn' s' ≡ (
          none,
          in_world E s' (write_custom_status_code E conn' 4000 (str "ws already exist") s'.world),
        ))
  unfolding write_custom_status_code Kept
  ws_handler-registers_refused hmac_hex settings id token conn conn' s t authorized missing
        refused =
      let (here, ws, same_now) = join_ws_lem id conn s.world in
      let (p, w) = join_ws E id conn s.world in
      let same : t.world ≡ w = rw refused at (common_check-Kept E settings (in_world E s w)) in
      let w' = write_custom_status_code E conn 5000 (str "check failed") t.world in
      let here' : get_client E id w' ≡ some p = unfold get_client in rw same here in
      rw (refused_new hmac_hex settings id token conn s t authorized missing refused) (
        refl,
        rw here' refl,
        refused_twice hmac_hex settings id token conn' p (in_world E t w')
            (rw (same, same_now) authorized) here' (rw same ws),
      )
