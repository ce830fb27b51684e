-- ===== src/Client.antt =====
-- client/client.go: a connected peer, over a websocket or by polling. The websocket library is a
-- parameter that works on the state of the network. A channel is the list of what it buffers.
use cbsignal_redis.Base.{
  ℕ, ◌-◌, ◌*◌, Bool, true, false, Option, none, some, List, [], ◌∷◌, ◌++◌, ltb, leb, if◌then◌else◌,
  length, Bytes,
}
use cbsignal_redis.Errors.{GoError, Result, queue_full, ok, err}

abbrev pub polling_queue_size : ℕ
polling_queue_size = 30

abbrev pub ws_expire_limit : ℕ
ws_expire_limit = 11 * 60

abbrev pub polling_expire_limit : ℕ
polling_expire_limit = 3 * 60

-- `conn` names the connection of a websocket client; that of a polling client is nil and not read.
-- Times are seconds since 1970.
pub record Client : Type 0 where
  pub conn : ℕ
  pub peer_id : Bytes
  pub timestamp : ℕ
  pub is_polling : Bool
  pub msg_queue : List Bytes

-- wsutil.WriteServerMessage of a text frame, net.Conn.Close, and the writes of a close frame with its
-- code and reason.
pub record Network : Type 1 where
  pub Net : Type 0
  pub write_close : ℕ → ℕ → Bytes → Net → Net
  pub write_server_message : ℕ → Bytes → Net → Result (Unit {0}) × Net
  pub close_conn : ℕ → Net → Net

unfoldable pub new_websocket_peer_client : Bytes → ℕ → ℕ → Client
new_websocket_peer_client peer_id conn now = record {
  conn = conn;
  peer_id = peer_id;
  timestamp = now;
  is_polling = false;
  msg_queue = [];
}

unfoldable pub new_polling_peer_client : Bytes → ℕ → Client
new_polling_peer_client peer_id now = record {
  conn = 0;
  peer_id = peer_id;
  timestamp = now;
  is_polling = true;
  msg_queue = [];
}

unfoldable pub update_ts : ℕ → Client → Client
update_ts now c = record c { timestamp = now }

-- `now - c.Timestamp > limit`; a difference below zero is not above the limit, nor is 0.
unfoldable pub is_expired : ℕ → Client → Bool
is_expired now c =
    if c.is_polling
    then ltb polling_expire_limit (now - c.timestamp)
    else ltb ws_expire_limit (now - c.timestamp)

-- `(error, bool)`: the error, and whether it is fatal.
abbrev pub Sent : Type 0
Sent = Option GoError × Bool

unfoldable pub send_data_polling : Bytes → Client → Sent × Client
send_data_polling msg c =
    if leb polling_queue_size (length c.msg_queue)
    then ((some queue_full, false), c)
    else ((none, false), record c { msg_queue = c.msg_queue ++ msg ∷ [] })

module _ (N : Network) where
  open N use {Net, write_server_message, close_conn}

  unfoldable pub sent_ws : Result (Unit {0}) × Net → Sent × Net
  sent_ws (ok u, net) = ((none, false), net)
  sent_ws (err e, net) = ((some e, true), net)

  unfoldable pub send_data_ws : Bytes → Client → Net → Sent × Net
  send_data_ws msg c net = sent_ws (write_server_message c.conn msg net)

  unfoldable pub send_message : Bytes → Client → Net → Sent × Client × Net
  send_message msg c net =
      if c.is_polling
      then (let (sent, c') = send_data_polling msg c in (sent, c', net))
      else (let (sent, net') = send_data_ws msg c net in (sent, c, net'))

  -- What Close does to the connection; the pool takes the client back in hub/hub.go's model.
  unfoldable pub close_client : Client → Net → Net
  close_client c net = if c.is_polling then net else close_conn c.conn net
