-- ===== src/Handler.antt =====
-- handler/handler.go, signal.go, rejected.go, heartbeat.go, exception.go: what a message from a client
-- does. JSON decoding and the filter are parameters, and so is what other goroutines do to a node's
-- queue and to the map of nodes while the handler runs. Log lines and the pool of handlers are left out.
pub mod Routing
pub mod Rejecting
pub mod Sending
pub mod Sound
pub mod Collision
pub mod Stats
use cbsignal_redis.Base.{
  ℕ, Bool, true, false, Option, none, some, List, [], ◌∷◌, ◌++◌, if◌then◌else◌, Bytes, str, str_eq,
}
use cbsignal_redis.Errors.{Result, ok, err}
use cbsignal_redis.Messages.{SignalReq}
use cbsignal_redis.Redis.{get_remote_peer_addr, update_local_peer_expiration}
use cbsignal_redis.Client.{update_ts, Sent}
use cbsignal_redis.Nodes.Node.{send_msg_signal, Node, SignalResp}
use cbsignal_redis.Nodes.NodeHub.{add, get, NodeHub}
use cbsignal_redis.World.{Env, World}
use cbsignal_redis.Hub.{store, get_client, send_json_to_client}

-- `reply_data` is the message's `data` as JSON.
pub record SignalMsg : Type 0 where
  pub action : Bytes
  pub to_peer_id : Bytes
  pub to : Bytes
  pub reply_data : Option Bytes
  pub reason : Bytes

-- The handlers, each with the address of its client.
pub data Handler : Type 0 where
  signal_handler reject_handler exception_handler : SignalMsg → ℕ → Handler
  heartbeat_handler : ℕ → Handler

unfoldable pub key_for_filter : Bytes → Bytes → Bytes
key_for_filter from to = from ++ to

unfoldable pub new_handler_msg : SignalMsg → ℕ → Handler
new_handler_msg signal cli =
    if str_eq signal.action (str "signal")
    then signal_handler signal cli
    else if str_eq signal.action (str "ping")
    then heartbeat_handler cli
    else if str_eq signal.action (str "reject")
    then reject_handler signal cli
    else exception_handler signal cli

-- NewHandler; `unmarshal` is sonic.Unmarshal.
unfoldable pub new_handler : (Bytes → Result SignalMsg) → Bytes → ℕ → Result Handler
new_handler unmarshal message cli = elim (unmarshal message) [
  | err e ↦ err e
  | ok signal ↦ ok (new_handler_msg signal cli)
]

-- The loop of NewPostHandler; NewHandlerMsg gives no error.
unfoldable pub new_handlers : List SignalMsg → ℕ → List Handler
new_handlers [] cli = []
new_handlers (signal ∷ signals) cli = new_handler_msg signal cli ∷ new_handlers signals cli

unfoldable pub new_post_handler :
    (Bytes → Result (List SignalMsg)) → Bytes → ℕ → Result (List Handler)
new_post_handler unmarshal message cli = elim (unmarshal message) [
  | err e ↦ err e
  | ok signals ↦ ok (new_handlers signals cli)
]

unfoldable pub target_of : SignalMsg → Bytes
target_of msg = if str_eq msg.to_peer_id [] then msg.to else msg.to_peer_id

-- A response of which the fields not given are empty.
abbrev pub empty_resp : Bytes → SignalResp
empty_resp action = record {
  action = action;
  from_peer_id = [];
  from = [];
  reply_data = none;
  reason = [];
}

-- The sender's id goes to a polling client as `from`, to a websocket client as `from_peer_id`.
unfoldable pub addressed : Bool → Bytes → SignalResp → SignalResp
addressed is_polling id resp =
    if is_polling then record resp { from = id } else record resp { from_peer_id = id }

-- What other goroutines may do before Get holds the lock, and before TryEnqueue's second try.
pub record Others : Type 0 where
  pub hub_then : NodeHub → NodeHub
  pub queue_then : List SignalReq → List SignalReq

module _ (E : Env) where
  -- filter.Get
  unfoldable pub filter_get : Bytes → World E → Bool × World E
  filter_get key w =
      let (hit, s) = E.filter.seen key w.seen_pairs in (hit, record w { seen_pairs = s })

  unfoldable pub filter_put : Bytes → World E → World E
  filter_put key w = record w { seen_pairs = E.filter.put key w.seen_pairs }

  unfoldable pub handle_peer_not_found : Bytes → Bytes → ℕ → World E → World E
  handle_peer_not_found key to_peer_id cli w =
      let w' = filter_put key w in
      (send_json_to_client E cli
        (addressed (w'.heap cli).is_polling to_peer_id (empty_resp (str "signal"))) w').1

  -- cli.UpdateTs()
  unfoldable pub touch : ℕ → World E → World E
  touch cli w = store E cli (update_ts w.now (w.heap cli)) w

  -- A signal that could not be sent, and not for a fatal error, is answered with "not found".
  unfoldable pub after_signal : Bytes → Bytes → ℕ → Sent × World E → World E
  after_signal key to_peer_id cli ((none, fatal), w) = w
  after_signal key to_peer_id cli ((some e, true), w) = w
  after_signal key to_peer_id cli ((some e, false), w) = handle_peer_not_found key to_peer_id cli w

module _ (E : Env) (O : Others) where
  -- GetNode(addr)
  unfoldable pub get_node : Bytes → World E → Option Node × NodeHub
  get_node addr w = get addr w.node_hub (O.hub_then w.node_hub)

  -- node.SendMsgSignal on a node of the map.
  unfoldable pub send_remote :
      Bytes → Node → NodeHub → SignalResp → Bytes → World E → Result (Unit {0}) × World E
  send_remote addr node n resp to_peer_id w =
      let (r, node') =
        send_msg_signal E.codec resp to_peer_id (O.queue_then node.event_queue) node in
      (r, record w { node_hub = add addr node' n })

  unfoldable pub signal_node :
      Bytes → SignalResp → Bytes → Bytes → ℕ → Option Node × NodeHub → World E → World E
  signal_node addr resp key to_peer_id cli (none, n) w =
      handle_peer_not_found E key to_peer_id cli (record w { node_hub = n })
  signal_node addr resp key to_peer_id cli (some node, n) w =
      (send_remote addr node n resp to_peer_id w).1

  unfoldable pub signal_remote : SignalResp → Bytes → Bytes → ℕ → Result Bytes → World E → World E
  signal_remote resp key to_peer_id cli (err e) w = handle_peer_not_found E key to_peer_id cli w
  signal_remote resp key to_peer_id cli (ok addr) w =
      if str_eq addr w.node_hub.self_addr
      then handle_peer_not_found E key to_peer_id cli w
      else signal_node addr resp key to_peer_id cli (get_node addr w) w

  -- SignalHandler.Handle behind the filter.
  unfoldable pub signal_target : SignalResp → Bytes → Bytes → ℕ → Option ℕ → World E → World E
  signal_target resp key to_peer_id cli (some target) w = after_signal E key to_peer_id cli (
      send_json_to_client E target (addressed (w.heap target).is_polling (w.heap cli).peer_id resp)
        w)
  signal_target resp key to_peer_id cli none w =
      let (r, s) = get_remote_peer_addr E.cmdable E.big_cache to_peer_id w.redis in
      signal_remote (record resp { from_peer_id = (w.heap cli).peer_id }) key to_peer_id cli r
        (record w { redis = s })

  unfoldable pub handle_signal : SignalMsg → ℕ → World E → World E
  handle_signal msg cli w =
      let to_peer_id = target_of msg in
      let key = key_for_filter (w.heap cli).peer_id to_peer_id in
      let (hit, w') = filter_get E key w in
      if hit
      then w'
      else signal_target (record (empty_resp (str "signal")) { reply_data = msg.reply_data }) key
          to_peer_id cli (get_client E to_peer_id w') w'

  unfoldable pub after_reject : Bytes → Result (Unit {0}) × World E → World E
  after_reject key (err e, w) = w
  after_reject key (ok u, w) = filter_put E key w

  unfoldable pub reject_node :
      Bytes → SignalResp → Bytes → Bytes → Option Node × NodeHub → World E → World E
  reject_node addr resp key to_peer_id (none, n) w = record w { node_hub = n }
  reject_node addr resp key to_peer_id (some node, n) w =
      after_reject key (send_remote addr node n resp to_peer_id w)

  unfoldable pub reject_remote : SignalResp → Bytes → Bytes → Result Bytes → World E → World E
  reject_remote resp key to_peer_id (err e) w = w
  reject_remote resp key to_peer_id (ok addr) w =
      if str_eq addr w.node_hub.self_addr
      then w
      else reject_node addr resp key to_peer_id (get_node addr w) w

  -- RejectHandler.Handle behind the filter.
  unfoldable pub reject_target : SignalResp → Bytes → Bytes → ℕ → Option ℕ → World E → World E
  reject_target resp key to_peer_id cli (some target) w =
      filter_put E key
        (send_json_to_client E target
          (addressed (w.heap target).is_polling (w.heap cli).peer_id resp) w).1
  reject_target resp key to_peer_id cli none w =
      let (r, s) = get_remote_peer_addr E.cmdable E.big_cache to_peer_id w.redis in
      reject_remote (record resp { from_peer_id = (w.heap cli).peer_id }) key to_peer_id r
        (record w { redis = s })

  unfoldable pub handle_reject : SignalMsg → ℕ → World E → World E
  handle_reject msg cli w =
      let to_peer_id = target_of msg in
      let key = key_for_filter (w.heap cli).peer_id to_peer_id in
      let (hit, w') = filter_get E key w in
      if hit
      then w'
      else reject_target (record (empty_resp (str "reject")) { reason = msg.reason }) key to_peer_id
          cli (get_client E to_peer_id w') w'

  unfoldable pub handle_heartbeat : ℕ → World E → World E
  handle_heartbeat cli w =
      let w' = (send_json_to_client E cli (empty_resp (str "pong")) (touch E cli w)).1 in
      record w' {
        redis =
            (update_local_peer_expiration E.cmdable E.big_cache (w'.heap cli).peer_id w'.redis).1;
      }

  -- Handler.Handle
  unfoldable pub handle : Handler → World E → World E
  handle (signal_handler msg cli) w = handle_signal msg cli w
  handle (heartbeat_handler cli) w = handle_heartbeat cli w
  handle (reject_handler msg cli) w = handle_reject msg cli w
  handle (exception_handler msg cli) w = touch E cli w

  -- The loop over the handlers of a POST.
  unfoldable pub handle_all : List Handler → World E → World E
  handle_all [] w = w
  handle_all (h ∷ hs) w = handle_all hs (handle h w)
