-- ===== src/Handler/Sending.antt =====
-- What the handlers' sends to a client and to a node do.
use cbsignal_redis.Base.{
  ℕ, ◌+◌, ◌<◌, ◌≡◌, refl, Bool, true, false, none, some, List, [], ◌∷◌, ◌++◌, arith, ltb, leb,
  length, Bytes,
}
use cbsignal_redis.Dict.{lookup}
use cbsignal_redis.Errors.{Result, ok, err}
use cbsignal_redis.Client.{
  polling_queue_size, send_data_polling, send_data_ws, send_message, Client, Network,
}
use cbsignal_redis.Messages.{SignalReq}
use cbsignal_redis.Nodes.Aggregator.{try_send, try_enqueue}
use cbsignal_redis.Nodes.Node.{max_pipe_len, send_msg_signal, Node, SignalResp, Codec}
use cbsignal_redis.Nodes.NodeHub.{get}
use cbsignal_redis.World.{Env, World}
use cbsignal_redis.Hub.{store, send_to, marshalled, send_json_to_client}
use cbsignal_redis.Handler.{addressed, filter_put, handle_peer_not_found, get_node, Others}

module _ (E : Env) where
  send_message_id :
      (b : Bytes) (c : Client) (net : Network.Net E.network)
      → (send_message E.network b c net).1.peer_id ≡ c.peer_id
  unfolding send_message send_data_polling send_data_ws
  send_message_id b c net = ground arith

  send_to_keeps :
      (p q : ℕ) (b : Bytes) (w : World E)
      → let w' = (send_to E p b w).1 in
        (w'.seen_pairs ≡ w.seen_pairs) × ((w'.heap q).peer_id ≡ (w.heap q).peer_id)
  unfolding send_to
  send_to_keeps p q b w = (refl, ground (arith, send_message_id b (w.heap p) w.net))

  -- A send keeps the filter, and every client's id.
  pub sent_keeps :
      (p q : ℕ) (resp : SignalResp) (w : World E)
      → let w' = (send_json_to_client E p resp w).1 in
        (w'.seen_pairs ≡ w.seen_pairs) × ((w'.heap q).peer_id ≡ (w.heap q).peer_id)
  unfolding send_json_to_client marshalled
  sent_keeps p q resp w = go (E.codec.marshal_resp resp)
    where
      go :
          (r : Result Bytes)
          → let w' = (marshalled E p r w).1 in
            (w'.seen_pairs ≡ w.seen_pairs) × ((w'.heap q).peer_id ≡ (w.heap q).peer_id)
      go (err e) = (refl, refl)
      go (ok b) = send_to_keeps p q b w

  pub not_found_filters :
      (key to : Bytes) (cli q : ℕ) (w : World E)
      → let w' = handle_peer_not_found E key to cli w in
        (w'.seen_pairs ≡ E.filter.put key w.seen_pairs) × ((w'.heap q).peer_id ≡ (w.heap q).peer_id)
  unfolding handle_peer_not_found filter_put
  not_found_filters key to cli q w = sent_keeps cli q _ (filter_put E key w)

  pub send_message_room :
      (b : Bytes) (c : Client) (net : Network.Net E.network)
      → c.is_polling ≡ true
      → length c.msg_queue < polling_queue_size
      → send_message E.network b c net
        ≡ ((none, false), record c { msg_queue = c.msg_queue ++ b ∷ [] }, net)
  unfolding send_message send_data_polling
  send_message_room b c net polling room =
      let free : leb polling_queue_size (length c.msg_queue) ≡ false = ground arith in
      simp (polling, free) refl

  pub send_json_room :
      (q : ℕ) (b : Bytes) (resp : SignalResp) (w : World E)
      → E.codec.marshal_resp resp ≡ ok b
      → (w.heap q).is_polling ≡ true
      → length (w.heap q).msg_queue < polling_queue_size
      → send_json_to_client E q resp w ≡ (
        (none, false),
        store E q (record (w.heap q) { msg_queue = (w.heap q).msg_queue ++ b ∷ [] }) w,
      )
  unfolding send_json_to_client send_to marshalled
  send_json_room q b resp w marshal polling room =
      rw (marshal, marshalled, send_message_room b (w.heap q) w.net polling room) refl

  pub addressed_polling :
      (is_polling : Bool) (id : Bytes) (resp : SignalResp)
      → is_polling ≡ true
      → addressed is_polling id resp ≡ record resp { from = id }
  unfolding addressed
  addressed_polling is_polling id resp h = rw h refl

pub get_node_live :
    {E : Env} (O : Others) (addr : Bytes) (node : Node) (w : World E)
    → lookup addr w.node_hub.nodes ≡ some node
    → node.is_dead ≡ false
    → get_node E O addr w ≡ (some node, w.node_hub)
unfolding get_node get
get_node_live O addr node w known live = rw (known, get) (simp live refl)

pub send_msg_room :
    (codec : Codec) (resp : SignalResp) (to b : Bytes) (queue' : List SignalReq) (node : Node)
    → node.is_alive ≡ true
    → length node.event_queue < max_pipe_len + 10
    → codec.marshal_resp resp ≡ ok b
    → send_msg_signal codec resp to queue' node ≡ (
      ok tt,
      record node {
        event_queue = node.event_queue ++ record { to_peer_id = to; payload = b } ∷ [];
      },
    )
unfolding send_msg_signal try_enqueue try_send
send_msg_room codec resp to b queue' node alive room marshal =
    let free : ltb (length node.event_queue) (max_pipe_len + 10) ≡ true = ground arith in
    simp (alive, marshal, free) refl
