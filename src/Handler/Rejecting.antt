-- ===== src/Handler/Rejecting.antt =====
-- handler/rejected.go: what a rejection does, and what it makes of the pair's later messages.
use cbsignal_redis.Base.{
  ℕ, ◌<◌, ◌≡◌, refl, true, false, some, [], ◌∷◌, ◌++◌, arith, length, Bytes, str,
}
use cbsignal_redis.Errors.{ok}
use cbsignal_redis.Client.{polling_queue_size}
use cbsignal_redis.World.{Env, World}
use cbsignal_redis.Hub.{get_client, send_json_to_client}
use cbsignal_redis.Nodes.Node.{SignalResp}
use cbsignal_redis.Handler.{
  target_of, empty_resp, addressed, filter_get, filter_put, handle_signal, reject_target,
  handle_reject, SignalMsg, Others,
}
use cbsignal_redis.Handler.Routing.{pair_key, filtered_signal}
use cbsignal_redis.Handler.Sending.{sent_keeps, send_json_room, addressed_polling}

-- The response that carries a rejection.
abbrev pub rejection_of : SignalMsg → SignalResp
rejection_of msg = record (empty_resp (str "reject")) { reason = msg.reason }

module _ (E : Env) (O : Others) where
  filtered_reject :
      (msg : SignalMsg) (cli : ℕ) (w : World E)
      → (filter_get E (pair_key E O msg cli w) w).0 ≡ true
      → handle_reject E O msg cli w ≡ (filter_get E (pair_key E O msg cli w) w).1
  unfolding handle_reject filter_get
  filtered_reject msg cli w hit = rw hit refl

  fresh_reject :
      (msg : SignalMsg) (cli q : ℕ) (w : World E)
      → (filter_get E (pair_key E O msg cli w) w).0 ≡ false
      → get_client E (target_of msg) w ≡ some q
      → let looked = (filter_get E (pair_key E O msg cli w) w).1 in
        handle_reject E O msg cli w
        ≡ filter_put E
            (pair_key E O msg cli w)
            (send_json_to_client E q
              (addressed (w.heap q).is_polling (w.heap cli).peer_id (rejection_of msg))
              looked).1
  unfolding handle_reject filter_get reject_target get_client
  fresh_reject msg cli q w fresh here = rw (fresh, here) refl

  -- Where the filter sees the pair, a signal and a rejection do no more than look.
  pair_filtered :
      (later : SignalMsg) (cli : ℕ) (key : Bytes) (w : World E)
      → pair_key E O later cli w ≡ key
      → (E.filter.seen key w.seen_pairs).0 ≡ true
      → (handle_signal E O later cli w ≡ (filter_get E (pair_key E O later cli w) w).1)
        × (handle_reject E O later cli w ≡ (filter_get E (pair_key E O later cli w) w).1)
  unfolding filter_get
  pair_filtered later cli key w same hit =
      let seen : (E.filter.seen (pair_key E O later cli w) w.seen_pairs).0 ≡ true = rw same hit in
      (filtered_signal E O later cli w seen, filtered_reject later cli w seen)

  later_key :
      (msg later : SignalMsg) (cli q : ℕ) (resp : SignalResp) (looked : World E)
      → target_of later ≡ target_of msg
      → let w' =
          filter_put E (pair_key E O msg cli looked) (send_json_to_client E q resp looked).1 in
        pair_key E O later cli w' ≡ pair_key E O msg cli looked
  unfolding filter_put
  later_key msg later cli q resp looked to = rw ((sent_keeps E q cli resp looked).1, to) refl

  -- A rejection that the filter lets through, to a polling client of this instance with room in its
  -- queue, is put at the queue's end with the sender's id in `from`, if it can be encoded; and then
  -- every signal and every rejection from the same client to the same peer has no effect but the
  -- filter's own look, given that the filter sees what was put last.
  pub handle_reject-once :
      ((k : Bytes) (s : E.filter.Seen) → (E.filter.seen k (E.filter.put k s)).0 ≡ true)
      → (msg : SignalMsg) (cli q : ℕ) (b : Bytes) (w : World E)
      → (filter_get E (pair_key E O msg cli w) w).0 ≡ false
      → get_client E (target_of msg) w ≡ some q
      → (w.heap q).is_polling ≡ true
      → length (w.heap q).msg_queue < polling_queue_size
      → E.codec.marshal_resp (record (rejection_of msg) { from = (w.heap cli).peer_id }) ≡ ok b
      → let w' = handle_reject E O msg cli w in
        ((w'.heap q).msg_queue ≡ (w.heap q).msg_queue ++ b ∷ [])
        × ((later : SignalMsg)
            → target_of later ≡ target_of msg
            → (handle_signal E O later cli w' ≡ (filter_get E (pair_key E O later cli w') w').1)
              × (handle_reject E O later cli w' ≡ (filter_get E (pair_key E O later cli w') w').1))
  unfolding filter_get filter_put
  handle_reject-once seen-put msg cli q b w fresh here polling room marshal =
      let looked : World E = (filter_get E (pair_key E O msg cli w) w).1 in
      let resp = addressed (w.heap q).is_polling (w.heap cli).peer_id (rejection_of msg) in
      let sent : World E = (send_json_to_client E q resp looked).1 in
      rw (fresh_reject msg cli q w fresh here) (
        rw
            (
              addressed_polling E (w.heap q).is_polling (w.heap cli).peer_id (rejection_of msg)
                  polling,
              send_json_room E q b (record (rejection_of msg) { from = (w.heap cli).peer_id })
                  looked marshal polling room,
            )
            (ground arith),
        λ later to.
            pair_filtered later cli (pair_key E O msg cli w)
              (filter_put E (pair_key E O msg cli w) sent)
              (later_key msg later cli q resp looked to)
              (seen-put (pair_key E O msg cli w) sent.seen_pairs),
      )
