-- ===== src/Handler/Sound.antt =====
-- handler/*.go: what no message from a client can break.
use cbsignal_redis.Base.{
  ℕ, ◌≡◌, refl, inl, inr, true, false, Option, none, some, List, [], ◌∷◌, arith, Bool-cases, Bytes,
  str, str_eq,
}
use cbsignal_redis.Errors.{Result, ok, err}
use cbsignal_redis.Client.{update_ts, Sent}
use cbsignal_redis.Nodes.Node.{Node, SignalResp}
use cbsignal_redis.Nodes.NodeHub.{NodeHub}
use cbsignal_redis.World.{Env, World}
use cbsignal_redis.Hub.{get_client, send_to, marshalled, send_json_to_client}
use cbsignal_redis.Hub.Registry.{IsSound}
use cbsignal_redis.Hub.Kept.{IsSound-IsKept, IsKept}
use cbsignal_redis.Handler.{
  key_for_filter, target_of, empty_resp, filter_get, filter_put, handle_peer_not_found, touch,
  after_signal, get_node, send_remote, signal_node, signal_remote, signal_target, handle_signal,
  after_reject, reject_node, reject_remote, reject_target, handle_reject, handle_heartbeat, handle,
  handle_all, SignalMsg, Handler, Others, signal_handler, reject_handler, exception_handler,
  heartbeat_handler,
}

module _ (E : Env) (P : World E → Type 0) (kept : IsKept E P) (O : Others) where
  send_json_to_client-keeps :
      (p : ℕ) (resp : SignalResp) (w : World E) → P w → P (send_json_to_client E p resp w).1
  unfolding send_json_to_client marshalled
  send_json_to_client-keeps p resp w v = go (E.codec.marshal_resp resp)
    where
      go : (r : Result Bytes) → P (marshalled E p r w).1
      go (err e) = v
      go (ok b) = kept.sends p b w v

  touch-keeps : (p : ℕ) (w : World E) → P w → P (touch E p w)
  unfolding touch update_ts
  touch-keeps p w v = kept.updates p (update_ts w.now (w.heap p)) w refl (omega arith) v

  filter_put-keeps : (k : Bytes) (w : World E) → P w → P (filter_put E k w)
  unfolding filter_put
  filter_put-keeps k w v = kept.elsewhere w (filter_put E k w) refl refl refl refl v

  not_found-keeps :
      (key to : Bytes) (cli : ℕ) (w : World E) → P w → P (handle_peer_not_found E key to cli w)
  unfolding handle_peer_not_found
  not_found-keeps key to cli w v =
      send_json_to_client-keeps cli _ (filter_put E key w) (filter_put-keeps key w v)

  after_signal-keeps :
      (key to : Bytes) (cli : ℕ) (r : Sent × World E) → P r.1 → P (after_signal E key to cli r)
  unfolding after_signal
  after_signal-keeps key to cli ((none, fatal), w) v = v
  after_signal-keeps key to cli ((some e, true), w) v = v
  after_signal-keeps key to cli ((some e, false), w) v = not_found-keeps key to cli w v

  signal_node-keeps :
      (addr : Bytes) (resp : SignalResp) (key to : Bytes) (cli : ℕ) (r : Option Node × NodeHub)
      (w : World E)
      → P w
      → P (signal_node E O addr resp key to cli r w)
  unfolding signal_node send_remote
  signal_node-keeps addr resp key to cli (none, n) w v =
      not_found-keeps key to cli (record w { node_hub = n })
        (kept.elsewhere w _ refl refl refl refl v)
  signal_node-keeps addr resp key to cli (some node, n) w v =
      kept.elsewhere w _ refl refl refl refl v

  signal_remote-keeps :
      (resp : SignalResp) (key to : Bytes) (cli : ℕ) (r : Result Bytes) (w : World E)
      → P w
      → P (signal_remote E O resp key to cli r w)
  unfolding signal_remote
  signal_remote-keeps resp key to cli (err e) w v = not_found-keeps key to cli w v
  signal_remote-keeps resp key to cli (ok addr) w v =
      elim (Bool-cases (str_eq addr w.node_hub.self_addr)) [
        | inl self ↦ rw self (not_found-keeps key to cli w v)
        | inr far ↦ rw far (signal_node-keeps addr resp key to cli (get_node E O addr w) w v)
      ]

  signal_target-keeps :
      (resp : SignalResp) (key to : Bytes) (cli : ℕ) (t : Option ℕ) (w : World E)
      → P w
      → P (signal_target E O resp key to cli t w)
  unfolding signal_target
  signal_target-keeps resp key to cli (some q) w v =
      after_signal-keeps key to cli _ (send_json_to_client-keeps q _ w v)
  signal_target-keeps resp key to cli none w v =
      signal_remote-keeps _ key to cli _ _ (kept.elsewhere w _ refl refl refl refl v)

  handle_signal-keeps :
      (msg : SignalMsg) (cli : ℕ) (w : World E) → P w → P (handle_signal E O msg cli w)
  unfolding handle_signal
  handle_signal-keeps msg cli w v =
      let key = key_for_filter (w.heap cli).peer_id (target_of msg) in
      let v' : P (filter_get E key w).1 =
        unfold filter_get in kept.elsewhere w (filter_get E key w).1 refl refl refl refl v in
      elim (Bool-cases (filter_get E key w).0) [
        | inl hit ↦ rw hit v'
        | inr fresh ↦ rw fresh (signal_target-keeps _ key (target_of msg) cli _ _ v')
      ]

  after_reject-keeps :
      (key : Bytes) (r : Result (Unit {0}) × World E) → P r.1 → P (after_reject E O key r)
  unfolding after_reject
  after_reject-keeps key (err e, w) v = v
  after_reject-keeps key (ok u, w) v = filter_put-keeps key w v

  reject_node-keeps :
      (addr : Bytes) (resp : SignalResp) (key to : Bytes) (r : Option Node × NodeHub) (w : World E)
      → P w
      → P (reject_node E O addr resp key to r w)
  unfolding reject_node
  reject_node-keeps addr resp key to (none, n) w v = kept.elsewhere w _ refl refl refl refl v
  reject_node-keeps addr resp key to (some node, n) w v =
      after_reject-keeps key (send_remote E O addr node n resp to w)
        (unfold send_remote in kept.elsewhere w _ refl refl refl refl v)

  reject_remote-keeps :
      (resp : SignalResp) (key to : Bytes) (r : Result Bytes) (w : World E)
      → P w
      → P (reject_remote E O resp key to r w)
  unfolding reject_remote
  reject_remote-keeps resp key to (err e) w v = v
  reject_remote-keeps resp key to (ok addr) w v =
      elim (Bool-cases (str_eq addr w.node_hub.self_addr)) [
        | inl self ↦ rw self v
        | inr far ↦ rw far (reject_node-keeps addr resp key to (get_node E O addr w) w v)
      ]

  reject_target-keeps :
      (resp : SignalResp) (key to : Bytes) (cli : ℕ) (t : Option ℕ) (w : World E)
      → P w
      → P (reject_target E O resp key to cli t w)
  unfolding reject_target
  reject_target-keeps resp key to cli (some q) w v =
      filter_put-keeps key _ (send_json_to_client-keeps q _ w v)
  reject_target-keeps resp key to cli none w v =
      reject_remote-keeps _ key to _ _ (kept.elsewhere w _ refl refl refl refl v)

  handle_reject-keeps :
      (msg : SignalMsg) (cli : ℕ) (w : World E) → P w → P (handle_reject E O msg cli w)
  unfolding handle_reject
  handle_reject-keeps msg cli w v =
      let key = key_for_filter (w.heap cli).peer_id (target_of msg) in
      let v' : P (filter_get E key w).1 =
        unfold filter_get in kept.elsewhere w (filter_get E key w).1 refl refl refl refl v in
      elim (Bool-cases (filter_get E key w).0) [
        | inl hit ↦ rw hit v'
        | inr fresh ↦ rw fresh (reject_target-keeps _ key (target_of msg) cli _ _ v')
      ]

  handle_heartbeat-keeps : (cli : ℕ) (w : World E) → P w → P (handle_heartbeat E O cli w)
  unfolding handle_heartbeat
  handle_heartbeat-keeps cli w v = kept.elsewhere _ _ refl refl refl refl (
      send_json_to_client-keeps cli (empty_resp (str "pong")) (touch E cli w) (touch-keeps cli w v))

  pub handle-keeps : (h : Handler) (w : World E) → P w → P (handle E O h w)
  unfolding handle
  handle-keeps (signal_handler msg cli) w v = handle_signal-keeps msg cli w v
  handle-keeps (heartbeat_handler cli) w v = handle_heartbeat-keeps cli w v
  handle-keeps (reject_handler msg cli) w v = handle_reject-keeps msg cli w v
  handle-keeps (exception_handler msg cli) w v = touch-keeps cli w v

  pub handle_all-keeps : (hs : List Handler) (w : World E) → P w → P (handle_all E O hs w)
  unfolding handle_all
  handle_all-keeps [] w v = v
  handle_all-keeps (h ∷ hs) w v = handle_all-keeps hs (handle E O h w) (handle-keeps h w v)

-- The registration of an id, whatever is sent to clients.
registered-IsKept : (E : Env) (id : Bytes) (r : Option ℕ) → IsKept E (λ w. get_client E id w ≡ r)
unfolding get_client send_to
registered-IsKept E id r = record {
  sends = λ p b w v. v;
  updates = λ p c w same short v. v;
  elsewhere = λ w w' same_map same_heap same_pool same_next v. rw same_map v;
}

-- Whatever messages a client sends, their handlers leave every registration as it is: who was
-- registered still is, for the same client, and nobody else is; and if every client was
-- registered under its own id only, and no polling queue was over 30 messages, so it still is.
pub handle_all-IsSound :
    (E : Env) (O : Others) (hs : List Handler) (w : World E)
    → IsSound E w
    → let w' = handle_all E O hs w in
      ((id : Bytes) → get_client E id w' ≡ get_client E id w) × IsSound E w'
handle_all-IsSound E O hs w v = (
  λ id.
      handle_all-keeps E (λ u. get_client E id u ≡ get_client E id w)
        (registered-IsKept E id (get_client E id w)) O hs w refl,
  handle_all-keeps E (IsSound E) (IsSound-IsKept E) O hs w v,
)
