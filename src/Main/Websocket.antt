-- ===== src/Main/Websocket.antt =====
-- main.go: wsHandler up to the start of its reader, and what the reader does with control frames and at
-- its end. The upgrade and the reading of frames are the websocket library's.
pub mod Kept
pub mod Payload
pub mod Reader
pub mod Refused
use cbsignal_redis.Base.{
  ℕ, ◌≡◌, refl, ◌≢◌, Bool, true, false, ◌&&◌, ◌||◌, not, Option, none, some, List, [], ◌∷◌, ltb,
  if◌then◌else◌, length, Bytes, str, str_eq, str_eq_refl,
}
use cbsignal_redis.Errors.{Result, ok, err}
use cbsignal_redis.Redis.{update_local_peer_expiration}
use cbsignal_redis.Client.{new_websocket_peer_client, send_data_ws}
use cbsignal_redis.World.{Env, World}
use cbsignal_redis.Hub.{store, get_client, do_register, send_to, drop_client, allocate}
use cbsignal_redis.Hub.Registry.{drop_client_lem}
use cbsignal_redis.Handler.{touch}
use cbsignal_redis.Main.{check_token, common_check, Settings, Server}
use cbsignal_redis.Main.Http.{in_world}

module _ (E : Env) where
  -- util.WriteCustomStatusCode
  unfoldable pub write_custom_status_code : ℕ → ℕ → Bytes → World E → World E
  write_custom_status_code conn code reason w = record w {
    net = E.network.write_close conn code reason w.net;
  }

  -- The loop that sends what a polling client's queue holds over its new connection; errors are not
  -- looked at.
  unfoldable pub drain_ws : ℕ → List Bytes → World E → World E
  drain_ws p [] w = w
  drain_ws p (msg ∷ msgs) w =
      let (sent, net') = send_data_ws E.network msg (w.heap p) w.net in
      drain_ws p msgs (record w { net = net' })

  -- "switch from polling to ws"
  unfoldable pub switch_to_ws : ℕ → ℕ → World E → World E
  switch_to_ws p conn w =
      let msgs = (w.heap p).msg_queue in
      let w' =
        drain_ws p msgs (store E p (record (w.heap p) { is_polling = false; conn = conn }) w) in
      touch E p (store E p (record (w'.heap p) { msg_queue = [] }) w')

  unfoldable pub join_ws : Bytes → ℕ → World E → ℕ × World E
  join_ws id conn w =
      let (p, w') = allocate E w in
      (p, do_register E p (store E p (new_websocket_peer_client id conn w.now) w'))

  -- The client of the new connection, if there is not one over a websocket already.
  unfoldable pub connect : Bytes → ℕ → Option ℕ → World E → Option ℕ × World E
  connect id conn (some p) w =
      if (w.heap p).is_polling
      then (some p, switch_to_ws p conn w)
      else (none, write_custom_status_code conn 4000 (str "ws already exist") w)
  connect id conn none w = let (p, w') = join_ws id conn w in (some p, w')

  -- c.SendMsgVersion
  unfoldable pub send_version : ℕ → Result Bytes → World E → World E
  send_version p (err e) w = w
  send_version p (ok b) w = (send_to E p b w).1

  -- commonCheck comes after the registration. The result is the client that a reader is started for.
  unfoldable pub check_joined :
      ℕ → ℕ → ℕ → Option (Bool × Server E) → Server E → Option ℕ × Server E
  check_joined version conn p none s = (none, s)
  check_joined version conn p (some (false, s')) s =
      (none, in_world E s' (write_custom_status_code conn 5000 (str "check failed") s'.world))
  check_joined version conn p (some (true, s')) s =
      (some p, in_world E s' (send_version p (E.marshal_ver (str "ver") version) s'.world))

  unfoldable pub after_connect : Settings → ℕ → Option ℕ × World E → Server E → Option ℕ × Server E
  after_connect settings conn (none, w) s = (none, in_world E s w)
  after_connect settings conn (some p, w) s =
      check_joined settings.version_num conn p (common_check E settings (in_world E s w))
        (in_world E s w)

  unfoldable pub ws_handler :
      (Bytes → Bytes → Bytes) → Settings → Bytes → Bytes → ℕ → Server E → Option ℕ × Server E
  ws_handler hmac_hex settings id token conn s =
      let w = s.world in
      if str_eq id [] || ltb (length id) 6
      then (none, in_world E s (write_custom_status_code conn 4000 (str "id is not valid") w))
      else if settings.security_enabled && not (check_token hmac_hex settings w.now id token)
      then (none, in_world E s (write_custom_status_code conn 4000 (str "token is not valid") w))
      else after_connect settings conn (connect id conn (get_client E id w) w) s

  -- The reader on a ping, and at its end.
  unfoldable pub on_ping : ℕ → World E → World E
  on_ping p w =
      let w' = touch E p w in
      record w' {
        redis = (update_local_peer_expiration E.cmdable E.big_cache (w'.heap p).peer_id w'.redis).1;
      }

  unfoldable pub leave : Bytes → ℕ → World E → World E
  leave id p w = (drop_client E id p w).1

  -- The end of a reader unregisters the id whichever client holds it: when the id has been registered
  -- anew for another client, that client is registered no longer, and the reader's own client goes to
  -- the pool.
  leave-unregisters_newer :
      (id : Bytes) (p q : ℕ) (w : World E)
      → id ≢ []
      → get_client E id w ≡ some q
      → (get_client E id (leave id p w) ≡ none) × ((leave id p w).pool ≡ p ∷ w.pool)
  unfolding leave
  leave-unregisters_newer id p q w filled here =
      let (freed, pooled) = drop_client_lem E id p q w filled here in
      (rw (freed id, str_eq_refl id) refl, pooled)
