-- ===== src/System/Steps.antt =====
-- main.go: the steps of one instance, and what every state that they reach keeps. Requests are served one
-- after the other here; a reader, a poll that waits and a sweep hold on to their client between steps.
use cbsignal_redis.Base.{
  ℕ, ◌≡◌, refl, ap, inl, inr, none, some, List, [], ◌∷◌, arith, Bool-cases, Option-cases, length,
  Bytes,
}
use cbsignal_redis.Errors.{Result}
use cbsignal_redis.Client.{is_expired, Sent}
use cbsignal_redis.Messages.{SignalReq}
use cbsignal_redis.World.{Env, World}
use cbsignal_redis.Hub.{get_client, send_to, after_send, deliver}
use cbsignal_redis.Handler.{SignalMsg, Others}
use cbsignal_redis.Main.{Settings, Server}
use cbsignal_redis.Main.Http.{in_world, after_wait, Wakeup, timed_out, received, gone}
use cbsignal_redis.Main.Sweep.{check_conn}
use cbsignal_redis.Main.Websocket.{leave}
use cbsignal_redis.Main.Websocket.Reader.{read_round, Reading}
use cbsignal_redis.Main.Websocket.Reader.Kept.{read_round-keeps}
use cbsignal_redis.Main.Dispatch.{common_handler, HttpRequest}
use cbsignal_redis.Main.Dispatch.Kept.{common_handler-keeps}
use cbsignal_redis.System.Safe.{IsOwner, IsSafe-IsKept, drop_client-IsSafe, PickingPool, IsSafe}
use cbsignal_redis.System.Pool.{join_polling-IsSafe, join_ws-IsSafe}

module _ (E : Env) (hmac_hex : Bytes → Bytes → Bytes) (unmarshal : Bytes → Result SignalMsg)
    (unmarshal_all : Bytes → Result (List SignalMsg))
    (handle_control : ℕ → Bytes → E.network.Net → E.network.Net) where
  -- A step. Where a goroutine drops the client that it holds by an id, nobody else may be registered
  -- under that id: a goroutine that comes late can find another client there.
  pub data Step : Server E → Server E → Type 0 where
    serves :
        (O : Others) (settings : Settings) (h : HttpRequest) (s : Server E)
        → Step s (common_handler E O unmarshal_all hmac_hex settings h s).1
    reads :
        (O : Others) (p conn : ℕ) (r : Reading) (s : Server E)
        → Step s (in_world E s (read_round E O unmarshal handle_control p conn r s.world).1)
    wakes_up :
        (id : Bytes) (p : ℕ) (wakeup : Wakeup) (s : Server E)
        → IsOwner E id p s.world
        → Step s (in_world E s (after_wait E id p wakeup s.world).1)
    leaves :
        (id : Bytes) (p : ℕ) (s : Server E)
        → IsOwner E id p s.world
        → Step s (in_world E s (leave E id p s.world))
    receives : (item : SignalReq) (s : Server E) → Step s (in_world E s (deliver E item s.world))
    sweeps :
        (now p : ℕ) (s : Server E)
        → IsOwner E (s.world.heap p).peer_id p s.world
        → Step s (in_world E s (check_conn E now p s.world))
    -- the clock, Redis, the network, the filter, the nodes and the limiter
    elapses :
        (s s' : Server E)
        → s'.world.clients ≡ s.world.clients
        → s'.world.heap ≡ s.world.heap
        → s'.world.pool ≡ s.world.pool
        → s'.world.next ≡ s.world.next
        → Step s s'

  -- An instance that has just started: nobody is registered and no client has been given back.
  pub record IsFresh (w : World E) : Type 0 where
    pub no_clients : w.clients ≡ E.fast_map.empty
    pub no_pool : w.pool ≡ []
    pub no_messages : (p : ℕ) → (w.heap p).msg_queue ≡ []

  pub data Reach : Server E → Type 0 where
    started : {s : Server E} → IsFresh s.world → Reach s
    goes : {s s' : Server E} → Reach s → Step s s' → Reach s'

  fresh-IsSafe : (w : World E) → IsFresh w → IsSafe E w
  fresh-IsSafe w f = record {
    sound = record {
      own_id = λ id p h. let none_here = nobody id in cc;
      fits = λ p. rw (f.no_messages p) (omega arith);
    };
    registered_below = λ id p h. let none_here = nobody id in cc;
    pooled_below = λ q. rw f.no_pool (λ h. omega arith);
    once = λ q. rw f.no_pool (omega arith);
    apart = λ id p h. rw f.no_pool refl;
  }
    where
      nobody : (id : Bytes) → get_client E id w ≡ none
      nobody id = unfold get_client in rw f.no_clients (E.fast_map.get-empty id)

  after_send-IsSafe :
      (p : ℕ) (r : Sent × World E)
      → IsOwner E (r.1.heap p).peer_id p r.1
      → IsSafe E r.1
      → IsSafe E (after_send E p r)
  unfolding after_send
  after_send-IsSafe p ((none, fatal), w) own v = v
  after_send-IsSafe p ((some e, fatal), w) own v = drop_client-IsSafe E (w.heap p).peer_id p w own v

  deliver-IsSafe : (item : SignalReq) (w : World E) → IsSafe E w → IsSafe E (deliver E item w)
  unfolding deliver
  deliver-IsSafe item w v = elim (Option-cases (get_client E item.to_peer_id w)) [
    | inl missing ↦ rw (missing, deliver) v
    | inr (p, found) ↦
        let sent = send_to E p item.payload w in
        let v' = (IsSafe-IsKept E).sends p item.payload w v in
        let own : IsOwner E (sent.1.heap p).peer_id p sent.1 = λ q h.
          let still : get_client E item.to_peer_id sent.1 ≡ some p =
            unfold send_to get_client in found in
          let id = v'.sound.own_id item.to_peer_id p still in
          let there : get_client E item.to_peer_id sent.1 ≡ some q = rw id at h in cc in
        rw (found, deliver) (after_send-IsSafe p sent own v')
  ]

  wake-IsSafe :
      (id : Bytes) (p : ℕ) (wakeup : Wakeup) (w : World E)
      → IsOwner E id p w
      → IsSafe E w
      → IsSafe E (after_wait E id p wakeup w).1
  unfolding after_wait
  wake-IsSafe id p timed_out w own v = v
  wake-IsSafe id p received w own v = go (w.heap p).msg_queue refl
    where
      go :
          (msgs : List Bytes)
          → (w.heap p).msg_queue ≡ msgs
          → IsSafe E (after_wait E id p received w).1
      go [] e = rw (e, after_wait) v
      go (msg ∷ msgs) e =
          rw (e, after_wait)
            ((IsSafe-IsKept E).updates p (record (w.heap p) { msg_queue = msgs }) w refl
              (omega (arith, ap length e)) v)
  wake-IsSafe id p gone w own v = elim (Bool-cases (w.heap p).is_polling) [
    | inl polling ↦ rw polling (drop_client-IsSafe E id p w own v)
    | inr ws ↦ rw ws v
  ]

  check_conn-IsSafe :
      (now p : ℕ) (w : World E)
      → IsOwner E (w.heap p).peer_id p w
      → IsSafe E w
      → IsSafe E (check_conn E now p w)
  unfolding check_conn
  check_conn-IsSafe now p w own v = elim (Bool-cases (is_expired now (w.heap p))) [
    | inl old ↦ rw old (drop_client-IsSafe E (w.heap p).peer_id p w own v)
    | inr live ↦ rw live v
  ]

  module _ (pools : PickingPool E) where
    Step-IsSafe : {s s' : Server E} → Step s s' → IsSafe E s.world → IsSafe E s'.world
    Step-IsSafe (serves O settings h s) v =
        common_handler-keeps E (IsSafe E) (IsSafe-IsKept E) O unmarshal_all hmac_hex settings h s v
          (λ conn. join_ws-IsSafe E pools h.request.id conn s.world v)
          (join_polling-IsSafe E pools h.request.id s.world v)
    Step-IsSafe (reads O p conn r s) v =
        read_round-keeps E (IsSafe E) (IsSafe-IsKept E) O unmarshal handle_control p conn r s.world
          v
    Step-IsSafe (wakes_up id p wakeup s own) v = wake-IsSafe id p wakeup s.world own v
    Step-IsSafe (leaves id p s own) v = unfold leave in drop_client-IsSafe E id p s.world own v
    Step-IsSafe (receives item s) v = deliver-IsSafe item s.world v
    Step-IsSafe (sweeps now p s own) v = check_conn-IsSafe now p s.world own v
    Step-IsSafe (elapses s s' same_map same_heap same_pool same_next) v =
        (IsSafe-IsKept E).elsewhere s.world s'.world same_map same_heap same_pool same_next v

    -- In every state that an instance reaches, if its pool gives out what was put into it and no
    -- goroutine drops its client by an id that another client has taken: every client is registered
    -- under its own id only, no polling queue is over 30 messages, and no registered client is in the
    -- pool, nor any client in it twice; so a new client never takes the place of a registered one.
    pub reached-IsSafe : {s : Server E} → Reach s → IsSafe E s.world
    reached-IsSafe (started f) = fresh-IsSafe _ f
    reached-IsSafe (goes r step) = Step-IsSafe step (reached-IsSafe r)
