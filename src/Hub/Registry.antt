-- ===== src/Hub/Registry.antt =====
-- hub.go: who is registered, and what a message from another instance does.
use cbsignal_redis.Base.{
  ℕ, ◌+◌, ◌≤◌, ◌≡◌, refl, ap, ◌∙◌, ◌≢◌, inl, inr, Bool, true, false, ◌&&◌, not, Option, none, some,
  List, [], ◌∷◌, arith, if◌then◌else◌, Bool-cases, Option-cases, length, length-append, Bytes,
  str_eq, eq_iff,
}
use cbsignal_redis.Dict.{is_some}
use cbsignal_redis.Errors.{queue_full}
use cbsignal_redis.Client.{
  polling_queue_size, Sent, send_data_polling, send_data_ws, send_message, Client, Network,
}
use cbsignal_redis.Messages.{SignalReq}
use cbsignal_redis.World.{Env, World}
use cbsignal_redis.Hub.{
  store, get_client_count, get_client, do_register, do_unregister, send_to, close, drop_client,
  after_send, deliver, deliver_all,
}

module _ (E : Env) where
  -- A registration is seen under the client's id and changes no other id and no client.
  pub get_client-do_register :
      (p : ℕ) (j : Bytes) (w : World E)
      → get_client E j (do_register E p w)
        ≡ (if str_eq (w.heap p).peer_id j then some p else get_client E j w)
  unfolding get_client do_register
  get_client-do_register p j w = E.fast_map.get-set (w.heap p).peer_id j p w.clients

  has_client :
      (id : Bytes) (w : World E) → E.fast_map.has id w.clients ≡ is_some (get_client E id w)
  unfolding get_client
  has_client id w = E.fast_map.has-get id w.clients

  -- DoUnregister answers true exactly for an id that is not empty and is registered; then that id,
  -- and no other, is registered no longer. The clients themselves stay as they are.
  pub do_unregister_lem :
      (id : Bytes) (w : World E)
      → let (done, w') = do_unregister E id w in
        (done ≡ (not (str_eq id []) && is_some (get_client E id w)))
        × ((j : Bytes)
            → get_client E j w' ≡ (if done && str_eq id j then none else get_client E j w))
        × ((q : ℕ) → w'.heap q ≡ w.heap q)
  unfolding do_unregister
  do_unregister_lem id w = elim (Bool-cases (str_eq id [])) [
    | inl empty ↦ rw empty (refl, λ j. refl, λ q. refl)
    | inr filled ↦ elim (Bool-cases (E.fast_map.has id w.clients)) [
      | inl here ↦
          rw (filled, ← has_client id w, here)
            (refl, λ j. unfold get_client in E.fast_map.get-remove id j w.clients, λ q. refl)
      | inr missing ↦ rw (filled, ← has_client id w, missing) (refl, λ j. refl, λ q. refl)
    ]
  ]

  -- The number of clients that the service reports falls by one exactly when DoUnregister says so.
  count-do_unregister :
      (id : Bytes) (w : World E)
      → let (done, w') = do_unregister E id w in
        get_client_count E w' + (if done then 1 else 0) ≡ get_client_count E w
  unfolding do_unregister get_client_count
  count-do_unregister id w = elim (Bool-cases (str_eq id [])) [
    | inl empty ↦ rw empty (omega arith)
    | inr filled ↦ elim (Bool-cases (E.fast_map.has id w.clients)) [
      | inl here ↦ rw (filled, here) (rw here at (E.fast_map.count-remove id w.clients))
      | inr missing ↦ rw (filled, missing) (omega arith)
    ]
  ]

  -- Every client is registered under its own id, and no polling queue is over its size.
  pub record IsSound (w : World E) : Type 0 where
    pub own_id : (id : Bytes) (p : ℕ) → get_client E id w ≡ some p → (w.heap p).peer_id ≡ id
    pub fits : (p : ℕ) → length (w.heap p).msg_queue ≤ polling_queue_size

  pub send_message_keeps :
      (b : Bytes) (c : Client) (net : Network.Net E.network)
      → length c.msg_queue ≤ polling_queue_size
      → let r = send_message E.network b c net in
        (r.1.peer_id ≡ c.peer_id) × (length r.1.msg_queue ≤ polling_queue_size)
  unfolding send_message send_data_polling send_data_ws
  send_message_keeps b c net h = ground (arith, length-append c.msg_queue (b ∷ []))

  -- A send changes the client it goes to, and no other; it changes no registration.
  pub send_to-IsSound : (p : ℕ) (b : Bytes) (w : World E) → IsSound w → IsSound (send_to E p b w).1
  unfolding send_to get_client
  send_to-IsSound p b w v = record {
    own_id =
        λ id q h. ground (arith, send_message_keeps b (w.heap p) w.net (v.fits p), v.own_id id q h);
    fits = λ q. ground (arith, send_message_keeps b (w.heap p) w.net (v.fits p), v.fits q);
  }

  -- A registration keeps a world sound.
  pub do_register-IsSound : (p : ℕ) (w : World E) → IsSound w → IsSound (do_register E p w)
  do_register-IsSound p w v = record {
    own_id = λ id q h.
        unfold do_register in
        ground
          (arith, get_client-do_register p id w, eq_iff (w.heap p).peer_id id, v.own_id id q, h);
    fits = unfold do_register in v.fits;
  }

  pub do_unregister-IsSound :
      (id : Bytes) (w : World E) → IsSound w → IsSound (do_unregister E id w).1
  do_unregister-IsSound id w v =
      let (_, others, same) = do_unregister_lem id w in
      record {
        own_id = λ j q h.
            rw (same q)
              (v.own_id j q (kept (do_unregister E id w).0 (str_eq id j) (rw (others j) at h)));
        fits = λ q. rw (same q) (v.fits q);
      }
    where
      kept :
          (done match : Bool) {o : Option ℕ} {q : ℕ}
          → (if done && match then none else o) ≡ some q
          → o ≡ some q
      kept false m h = h
      kept true false h = h
      kept true true h = cc

  pub close-IsSound : (p : ℕ) (w : World E) → IsSound w → IsSound (close E p w)
  unfolding close get_client
  close-IsSound p w v = record { own_id = v.own_id; fits = v.fits }

  pub drop_client-IsSound :
      (id : Bytes) (p : ℕ) (w : World E) → IsSound w → IsSound (drop_client E id p w).1
  unfolding drop_client
  drop_client-IsSound id p w v = go (do_unregister E id w).0 (do_unregister-IsSound id w v)
    where
      go :
          (done : Bool)
          → IsSound (do_unregister E id w).1
          → IsSound (if done then close E p (do_unregister E id w).1 else (do_unregister E id w).1)
      go true v' = close-IsSound p (do_unregister E id w).1 v'
      go false v' = v'

  after_send-IsSound : (p : ℕ) (r : Sent × World E) → IsSound r.1 → IsSound (after_send E p r)
  unfolding after_send
  after_send-IsSound p ((none, fatal), w) v = v
  after_send-IsSound p ((some e, fatal), w) v = drop_client-IsSound (w.heap p).peer_id p w v

  pub deliver-IsSound : (item : SignalReq) (w : World E) → IsSound w → IsSound (deliver E item w)
  unfolding deliver
  deliver-IsSound item w v = elim (Option-cases (get_client E item.to_peer_id w)) [
    | inl missing ↦ rw (missing, deliver) v
    | inr (p, here) ↦
        rw (here, deliver)
          (after_send-IsSound p (send_to E p item.payload w) (send_to-IsSound p item.payload w v))
  ]

  -- However many messages other instances send, every client stays registered under its own id only,
  -- and no polling queue grows beyond 30 messages.
  deliver_all-IsSound :
      (items : List SignalReq) (w : World E) → IsSound w → IsSound (deliver_all E items w)
  unfolding deliver_all
  deliver_all-IsSound [] w v = v
  deliver_all-IsSound (item ∷ items) w v =
      deliver_all-IsSound items (deliver E item w) (deliver-IsSound item w v)

  pool-do_unregister : (id : Bytes) (w : World E) → (do_unregister E id w).1.pool ≡ w.pool
  unfolding do_unregister
  pool-do_unregister id w = elim (Bool-cases (str_eq id [])) [
    | inl empty ↦ rw empty
    | inr filled ↦ elim (Bool-cases (E.fast_map.has id w.clients)) [
      | inl here ↦ rw (filled, here)
      | inr missing ↦ rw (filled, missing)
    ]
  ]

  pub registered_id : (id : Bytes) → id ≢ [] → str_eq id [] ≡ false
  unfolding str_eq
  registered_id [] h = absurd (h refl)
  registered_id (x ∷ id) h = refl

  pub drop_client_lem :
      (id : Bytes) (p q : ℕ) (w : World E)
      → id ≢ []
      → get_client E id w ≡ some q
      → let w' = (drop_client E id p w).1 in
        ((j : Bytes) → get_client E j w' ≡ (if str_eq id j then none else get_client E j w))
        × (w'.pool ≡ p ∷ w.pool)
  unfolding drop_client close get_client
  drop_client_lem id p q w filled here =
      let (done, others, same) = do_unregister_lem id w in
      let yes_done : (do_unregister E id w).0 ≡ true =
        done ∙ ground (arith, registered_id id filled, here) in
      rw yes_done (
        (λ j. unfold get_client in ground (arith, others j, yes_done)),
        ap (◌∷◌ p) (pool-do_unregister id w),
      )

  send_message_full :
      (b : Bytes) (c : Client) (net : Network.Net E.network)
      → c.is_polling ≡ true
      → polling_queue_size ≤ length c.msg_queue
      → send_message E.network b c net ≡ ((some queue_full, false), c, net)
  unfolding send_message send_data_polling
  send_message_full b c net polling full = ground arith

  send_to_full :
      (p : ℕ) (b : Bytes) (w : World E)
      → (w.heap p).is_polling ≡ true
      → polling_queue_size ≤ length (w.heap p).msg_queue
      → send_to E p b w
        ≡ ((some queue_full, false), record (store E p (w.heap p) w) { net = w.net })
  unfolding send_to
  send_to_full p b w polling full = rw (send_message_full b (w.heap p) w.net polling full)

  -- A message for a client whose polling queue is full drops the client: it is registered no longer,
  -- its address goes back to the pool, and no other registration changes.
  pub deliver_to_full :
      (item : SignalReq) (p : ℕ) (w : World E)
      → IsSound w
      → item.to_peer_id ≢ []
      → get_client E item.to_peer_id w ≡ some p
      → (w.heap p).is_polling ≡ true
      → polling_queue_size ≤ length (w.heap p).msg_queue
      → let w' = deliver E item w in
        ((j : Bytes)
          → get_client E j w' ≡ (if str_eq item.to_peer_id j then none else get_client E j w))
        × (w'.pool ≡ p ∷ w.pool)
  unfolding deliver after_send get_client
  deliver_to_full item p w v filled here polling full =
      let w' : World E = record (store E p (w.heap p) w) { net = w.net } in
      let own : (w'.heap p).peer_id ≡ item.to_peer_id =
        ground (arith, v.own_id item.to_peer_id p here) in
      rw (here, deliver, send_to_full p item.payload w polling full, after_send, own)
        (drop_client_lem item.to_peer_id p p w' filled here)
