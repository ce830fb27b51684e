-- ===== src/Delivery/Client.antt =====
-- hub.go: what the deliveries of any batches do to one polling client with room in its queue.
use mathlib.Core.List.{append-nil}
use cbsignal_redis.Base.{
  ℕ, ◌≤◌, ◌<◌, ◌≡◌, refl, sym, ◌∙◌, ◌≢◌, inl, inr, Bool, true, false, ◌&&◌, none, some, List, [],
  ◌∷◌, ◌++◌, arith, if◌then◌else◌, Bool-cases, Option-cases, length, length-append, Bytes, str_eq,
  str_eq_refl, eq_iff,
}
use cbsignal_redis.Client.{polling_queue_size, Sent}
use cbsignal_redis.Messages.{SignalReq}
use cbsignal_redis.World.{Env, World}
use cbsignal_redis.Hub.{
  store, get_client, do_unregister, send_to, close, drop_client, after_send, deliver,
}
use cbsignal_redis.Hub.Registry.{do_unregister_lem, send_message_keeps, deliver-IsSound, IsSound}
use cbsignal_redis.Delivery.{payloads}
use cbsignal_redis.Redis.{RedisState}
use cbsignal_redis.Hub.Kept.{IsSound-IsKept}
use cbsignal_redis.Handler.Sending.{send_message_room}

module _ (E : Env) where
  -- In a sound world, the client at `p` is registered as `to`, polls, and has `queue` to fetch.
  pub record IsAt (to : Bytes) (p : ℕ) (queue : List Bytes) (w : World E) : Type 0 where
    pub sound : IsSound E w
    pub here : get_client E to w ≡ some p
    pub polling : (w.heap p).is_polling ≡ true
    pub holds : (w.heap p).msg_queue ≡ queue

  -- It still is when only the state of Redis changes.
  pub IsAt-redis :
      (to : Bytes) (p : ℕ) (queue : List Bytes) (w : World E) (s : RedisState E.cmdable E.big_cache)
      → IsAt to p queue w
      → IsAt to p queue (record w { redis = s })
  IsAt-redis to p queue w s at = record {
    sound = (IsSound-IsKept E).elsewhere w (record w { redis = s }) refl refl refl refl at.sound;
    here = unfold get_client in at.here;
    polling = at.polling;
    holds = at.holds;
  }

  -- A delivery to the client itself.
  deliver_here :
      (item : SignalReq) (p : ℕ) (w : World E)
      → get_client E item.to_peer_id w ≡ some p
      → (w.heap p).is_polling ≡ true
      → length (w.heap p).msg_queue < polling_queue_size
      → deliver E item w
        ≡ record (store E p
            (record (w.heap p) { msg_queue = (w.heap p).msg_queue ++ item.payload ∷ [] })
            w) { net = w.net }
  unfolding deliver after_send send_to
  deliver_here item p w here polling room =
      rw (here, deliver, send_message_room E item.payload (w.heap p) w.net polling room, after_send)
        refl

  -- A client that is dropped leaves the registrations of other ids and every client as they are.
  drop_client_others :
      (id to : Bytes) (p q : ℕ) (w : World E)
      → str_eq id to ≡ false
      → let w' = (drop_client E id q w).1 in
        (get_client E to w' ≡ get_client E to w) × (w'.heap p ≡ w.heap p)
  unfolding drop_client close get_client
  drop_client_others id to p q w other =
      let (done, freed, same) = do_unregister_lem E id w in
      go (do_unregister E id w).0 (freed to) (same p)
    where
      go :
          (done : Bool)
          → get_client E to (do_unregister E id w).1
            ≡ (if (do_unregister E id w).0 && str_eq id to then none else get_client E to w)
          → (do_unregister E id w).1.heap p ≡ w.heap p
          → let w' =
              if done then close E q (do_unregister E id w).1 else (do_unregister E id w).1 in
            (get_client E to w' ≡ get_client E to w) × (w'.heap p ≡ w.heap p)
      go true freed same = (ground (arith, freed, other), same)
      go false freed same = (ground (arith, freed, other), same)

  after_send_others :
      (to : Bytes) (p q : ℕ) (r : Sent × World E)
      → str_eq (r.1.heap q).peer_id to ≡ false
      → let w' = after_send E q r in
        (get_client E to w' ≡ get_client E to r.1) × (w'.heap p ≡ r.1.heap p)
  unfolding after_send
  after_send_others to p q ((none, fatal), w) other = (refl, refl)
  after_send_others to p q ((some e, fatal), w) other =
      drop_client_others (w.heap q).peer_id to p q w other

  send_to_others :
      (b to : Bytes) (p q : ℕ) (w : World E)
      → IsSound E w
      → p ≢ q
      → let w' = (send_to E q b w).1 in
        (get_client E to w' ≡ get_client E to w)
        × (w'.heap p ≡ w.heap p)
        × ((w'.heap q).peer_id ≡ (w.heap q).peer_id)
  unfolding send_to get_client
  send_to_others b to p q w v apart =
      ground (arith, send_message_keeps E b (w.heap q) w.net (v.fits q))

  -- A delivery to another client.
  deliver_others :
      (item : SignalReq) (to : Bytes) (p : ℕ) (w : World E)
      → IsSound E w
      → get_client E to w ≡ some p
      → str_eq item.to_peer_id to ≡ false
      → let w' = deliver E item w in
        (get_client E to w' ≡ get_client E to w) × (w'.heap p ≡ w.heap p)
  unfolding deliver
  deliver_others item to p w v here other = elim (Option-cases (get_client E item.to_peer_id w)) [
    | inl missing ↦ rw (missing, deliver) (refl, refl)
    | inr (q, there) ↦
        let id : (w.heap q).peer_id ≡ item.to_peer_id = v.own_id item.to_peer_id q there in
        let apart : p ≢ q = λ e.
          let same : item.to_peer_id ≡ to = sym id ∙ rw (← e) (v.own_id to p here) in
          let yes : true ≡ false = sym (str_eq_refl to) ∙ rw same at other in cc in
        let (kept, still, own) = send_to_others item.payload to p q w v apart in
        let (kept', still') =
          after_send_others to p q (send_to E q item.payload w) (rw (own, id) other) in
        rw (there, deliver) (kept' ∙ kept, still' ∙ still)
  ]

  -- What a delivery adds to the queue of the client of `to`.
  pub deliver-IsAt :
      (item : SignalReq) (to : Bytes) (p : ℕ) (queue : List Bytes) (w : World E)
      → IsAt to p queue w
      → length (queue ++ payloads to (item ∷ [])) ≤ polling_queue_size
      → IsAt to p (queue ++ payloads to (item ∷ [])) (deliver E item w)
  deliver-IsAt item to p queue w at room = elim (Bool-cases (str_eq item.to_peer_id to)) [
    | inl mine ↦
        let to_here : get_client E item.to_peer_id w ≡ some p =
          rw ((eq_iff item.to_peer_id to).0 mine) at.here in
        let free : length (w.heap p).msg_queue < polling_queue_size =
          rw at.holds
            (let r = rw (mine, length-append queue (item.payload ∷ [])) at room in omega arith) in
        let delivered = deliver_here item p w to_here at.polling free in
        record {
          sound = deliver-IsSound E item w at.sound;
          here = unfold get_client in rw delivered at.here;
          polling = rw delivered (ground (arith, at.polling));
          holds = rw (delivered, mine) (ground (arith, at.holds));
        }
    | inr other ↦
        let (kept, still) = deliver_others item to p w at.sound at.here other in
        record {
          sound = deliver-IsSound E item w at.sound;
          here = kept ∙ at.here;
          polling = rw still at.polling;
          holds = rw (other, append-nil queue, still) at.holds;
        }
  ]
