-- ===== src/Main/Websocket/Kept.antt =====
-- main.go: what wsHandler and the reader of a connection keep.
use cbsignal_redis.Base.{
  ℕ, refl, inl, inr, Bool, true, false, ◌&&◌, ◌||◌, not, Option, none, some, List, [], ◌∷◌, arith,
  ltb, Bool-cases, length, Bytes, str, str_eq,
}
use cbsignal_redis.Errors.{Result, ok, err}
use cbsignal_redis.Client.{update_ts, Client}
use cbsignal_redis.World.{Env, World}
use cbsignal_redis.Hub.{store, get_client}
use cbsignal_redis.Hub.Kept.{IsKept}
use cbsignal_redis.Handler.{touch}
use cbsignal_redis.Main.{signed, check_token, common_check, Settings, Server}
use cbsignal_redis.Main.Http.{in_world}
use cbsignal_redis.Main.Http.Answers.{Kept, common_check-Kept}
use cbsignal_redis.Main.Websocket.{
  write_custom_status_code, drain_ws, switch_to_ws, join_ws, connect, send_version, check_joined,
  after_connect, ws_handler, on_ping,
}

module _ (E : Env) (P : World E → Type 0) (kept : IsKept E P) where
  drain_ws-keeps : (p : ℕ) (msgs : List Bytes) (w : World E) → P w → P (drain_ws E p msgs w)
  unfolding drain_ws
  drain_ws-keeps p [] w v = v
  drain_ws-keeps p (msg ∷ msgs) w v =
      drain_ws-keeps p msgs _ (kept.elsewhere w _ refl refl refl refl v)

  switch_to_ws-keeps : (p conn : ℕ) (w : World E) → P w → P (switch_to_ws E p conn w)
  unfolding switch_to_ws touch update_ts
  switch_to_ws-keeps p conn w v =
      let c : Client = record (w.heap p) { is_polling = false; conn = conn } in
      let switched = kept.updates p c w refl (omega arith) v in
      let w' = drain_ws E p (w.heap p).msg_queue (store E p c w) in
      let drained = drain_ws-keeps p (w.heap p).msg_queue (store E p c w) switched in
      let emptied =
        kept.updates p (record (w'.heap p) { msg_queue = [] }) w' refl (omega arith) drained in
      kept.updates p _ _ refl (omega arith) emptied

  refused-keeps :
      (conn code : ℕ) (reason : Bytes) (w : World E)
      → P w
      → P (write_custom_status_code E conn code reason w)
  unfolding write_custom_status_code
  refused-keeps conn code reason w v = kept.elsewhere w _ refl refl refl refl v

  connect-keeps :
      (id : Bytes) (conn : ℕ) (o : Option ℕ) (w : World E)
      → P w
      → P (join_ws E id conn w).1
      → P (connect E id conn o w).1
  unfolding connect
  connect-keeps id conn none w v joined = joined
  connect-keeps id conn (some p) w v joined = elim (Bool-cases (w.heap p).is_polling) [
    | inl polling ↦ simp polling (switch_to_ws-keeps p conn w v)
    | inr ws ↦ simp ws (refused-keeps conn 4000 (str "ws already exist") w v)
  ]

  send_version-keeps : (p : ℕ) (r : Result Bytes) (w : World E) → P w → P (send_version E p r w)
  unfolding send_version
  send_version-keeps p (err e) w v = v
  send_version-keeps p (ok b) w v = kept.sends p b w v

  check_joined-keeps :
      (version conn p : ℕ) (r : Option (Bool × Server E)) (s : Server E)
      → Kept E s r
      → P s.world
      → P (check_joined E version conn p r s).1.world
  unfolding check_joined Kept
  check_joined-keeps version conn p none s same v = v
  check_joined-keeps version conn p (some (false, s')) s same v =
      refused-keeps conn 5000 (str "check failed") s'.world (rw same v)
  check_joined-keeps version conn p (some (true, s')) s same v =
      send_version-keeps p (E.marshal_ver (str "ver") version) s'.world (rw same v)

  after_connect-keeps :
      (settings : Settings) (conn : ℕ) (r : Option ℕ × World E) (s : Server E)
      → P r.1
      → P (after_connect E settings conn r s).1.world
  unfolding after_connect
  after_connect-keeps settings conn (none, w) s v = v
  after_connect-keeps settings conn (some p, w) s v =
      check_joined-keeps settings.version_num conn p (common_check E settings (in_world E s w))
        (in_world E s w) (common_check-Kept E settings (in_world E s w)) v

  -- What a new connection keeps, if a new websocket client keeps it.
  pub ws_handler-keeps :
      (hmac_hex : Bytes → Bytes → Bytes) (settings : Settings) (id token : Bytes) (conn : ℕ)
      (s : Server E)
      → P s.world
      → P (join_ws E id conn s.world).1
      → P (ws_handler E hmac_hex settings id token conn s).1.world
  unfolding ws_handler
  ws_handler-keeps hmac_hex settings id token conn s v joined =
      elim (Bool-cases (str_eq id [] || ltb (length id) 6)) [
        | inl bad ↦ rw bad (refused-keeps conn 4000 (str "id is not valid") s.world v)
        | inr good ↦
            elim (Bool-cases (
              settings.security_enabled
              && not (check_token hmac_hex settings s.world.now id token))) [
                | inl forged ↦
                    rw (good, forged) (refused-keeps conn 4000 (str "token is not valid") s.world v)
                | inr signed ↦
                    rw (good, signed)
                      (after_connect-keeps settings conn _ s
                        (connect-keeps id conn (get_client E id s.world) s.world v joined))
              ]
      ]

  pub on_ping-keeps : (p : ℕ) (w : World E) → P w → P (on_ping E p w)
  unfolding on_ping touch update_ts
  on_ping-keeps p w v =
      kept.elsewhere _ _ refl refl refl refl (kept.updates p _ w refl (omega arith) v)
