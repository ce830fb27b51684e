-- ===== src/Handler/Routing.antt =====
-- handler/signal.go, rejected.go: where a signal goes, and which later signals are dropped.
use cbsignal_redis.Base.{
  ℕ, ◌+◌, ◌<◌, ◌≡◌, refl, true, false, none, some, [], ◌∷◌, ◌++◌, arith, length, Bytes, str, str_eq,
  str_eq_refl,
}
use cbsignal_redis.Dict.{lookup, lookup-insert}
use cbsignal_redis.Errors.{Result, ok}
use cbsignal_redis.Client.{polling_queue_size}
use cbsignal_redis.Nodes.Node.{max_pipe_len, Node, SignalResp}
use cbsignal_redis.Nodes.NodeHub.{add}
use cbsignal_redis.World.{Env, World}
use cbsignal_redis.Redis.{get_remote_peer_addr}
use cbsignal_redis.Hub.{get_client}
use cbsignal_redis.Handler.{
  key_for_filter, target_of, empty_resp, filter_get, after_signal, send_remote, signal_node,
  signal_remote, signal_target, handle_signal, SignalMsg, Others,
}
use cbsignal_redis.Handler.Sending.{send_json_room, addressed_polling, get_node_live, send_msg_room}

-- The response that carries a signal.
abbrev pub resp_of : SignalMsg → SignalResp
resp_of msg = record (empty_resp (str "signal")) { reply_data = msg.reply_data }

module _ (E : Env) (O : Others) (msg : SignalMsg) (cli : ℕ) where
  abbrev pub pair_key : World E → Bytes
  pair_key w = key_for_filter (w.heap cli).peer_id (target_of msg)

  fresh_signal :
      (w : World E)
      → (filter_get E (pair_key w) w).0 ≡ false
      → handle_signal E O msg cli w
        ≡ signal_target E O
            (resp_of msg)
            (pair_key w)
            (target_of msg)
            cli
            (get_client E (target_of msg) w)
            (filter_get E (pair_key w) w).1
  unfolding handle_signal filter_get get_client
  fresh_signal w fresh = rw fresh refl

  pub filtered_signal :
      (w : World E)
      → (filter_get E (pair_key w) w).0 ≡ true
      → handle_signal E O msg cli w ≡ (filter_get E (pair_key w) w).1
  unfolding handle_signal
  filtered_signal w hit = rw hit refl

  -- What SignalHandler does for a peer that is not here, when Redis has given its answer.
  pub fresh_remote :
      (w : World E) (r : Result Bytes)
      → (filter_get E (pair_key w) w).0 ≡ false
      → get_client E (target_of msg) w ≡ none
      → (get_remote_peer_addr E.cmdable E.big_cache (target_of msg) w.redis).0 ≡ r
      → handle_signal E O msg cli w
        ≡ signal_remote E O
            (record (resp_of msg) { from_peer_id = (w.heap cli).peer_id })
            (pair_key w)
            (target_of msg)
            cli
            r
            (record (filter_get E (pair_key w) w).1 {
              redis = (get_remote_peer_addr E.cmdable E.big_cache (target_of msg) w.redis).1;
            })
  unfolding signal_target filter_get
  fresh_remote w r fresh missing answer =
      rw (fresh_signal w fresh, missing, signal_target, answer) refl

module _ (E : Env) (O : Others) (msg : SignalMsg) (cli : ℕ) (w : World E) where
  -- A signal that the filter lets through, to a polling client of this instance with room in its
  -- queue, is put at the queue's end with the sender's id in `from`, if it can be encoded; no
  -- registration changes.
  pub handle_signal-polling :
      (q : ℕ) (b : Bytes)
      → (filter_get E (pair_key E O msg cli w) w).0 ≡ false
      → get_client E (target_of msg) w ≡ some q
      → (w.heap q).is_polling ≡ true
      → length (w.heap q).msg_queue < polling_queue_size
      → E.codec.marshal_resp (record (resp_of msg) { from = (w.heap cli).peer_id }) ≡ ok b
      → let w' = handle_signal E O msg cli w in
        ((w'.heap q).msg_queue ≡ (w.heap q).msg_queue ++ b ∷ []) × (w'.clients ≡ w.clients)
  unfolding signal_target after_signal filter_get
  handle_signal-polling q b fresh here polling room marshal =
      let looked : World E = (filter_get E (pair_key E O msg cli w) w).1 in
      rw
        (
          fresh_signal E O msg cli w fresh,
          here,
          signal_target,
          addressed_polling E (w.heap q).is_polling (w.heap cli).peer_id (resp_of msg) polling,
          send_json_room E q b (record (resp_of msg) { from = (w.heap cli).peer_id }) looked marshal
              polling room,
          after_signal,
        )
        (ground arith, refl)

  -- A signal that the filter lets through, to a peer that is not here and that Redis places at another
  -- instance, goes to the end of the queue of that instance's node with the sender's id in
  -- `from_peer_id`, if the node is known, alive and has room and the signal can be encoded; no client
  -- and no registration here changes.
  pub handle_signal-remote :
      (addr b : Bytes) (node : Node)
      → (filter_get E (pair_key E O msg cli w) w).0 ≡ false
      → get_client E (target_of msg) w ≡ none
      → (get_remote_peer_addr E.cmdable E.big_cache (target_of msg) w.redis).0 ≡ ok addr
      → str_eq addr w.node_hub.self_addr ≡ false
      → lookup addr w.node_hub.nodes ≡ some node
      → node.is_dead ≡ false
      → node.is_alive ≡ true
      → length node.event_queue < max_pipe_len + 10
      → E.codec.marshal_resp (record (resp_of msg) { from_peer_id = (w.heap cli).peer_id }) ≡ ok b
      → let w' = handle_signal E O msg cli w in
        (lookup addr w'.node_hub.nodes
          ≡ some (record node {
            event_queue =
                node.event_queue ++ record { to_peer_id = target_of msg; payload = b } ∷ [];
          }))
        × (w'.heap ≡ w.heap)
        × (w'.clients ≡ w.clients)
  unfolding signal_remote signal_node send_remote filter_get add
  handle_signal-remote addr b node fresh missing found far known live alive room marshal =
      let asked : World E = record (filter_get E (pair_key E O msg cli w) w).1 {
        redis = (get_remote_peer_addr E.cmdable E.big_cache (target_of msg) w.redis).1;
      } in
      let resp = record (resp_of msg) { from_peer_id = (w.heap cli).peer_id } in
      let signalled = fresh_remote E O msg cli w (ok addr) fresh missing found in
      rw
        (
          signalled,
          signal_remote,
          far,
          get_node_live O addr node asked known live,
          signal_node,
          send_msg_room E.codec resp (target_of msg) b (O.queue_then node.event_queue) node alive
              room marshal,
        )
        (rw (lookup-insert addr addr _ asked.node_hub.nodes, str_eq_refl addr) refl, refl, refl)
