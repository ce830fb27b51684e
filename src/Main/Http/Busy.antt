-- ===== src/Main/Http/Busy.antt =====
-- main.go: a client for which messages wait whenever it polls.
use cbsignal_redis.Base.{
  ℕ, ◌+◌, ◌<◌, ◌≡◌, refl, ap, ◌∙◌, ◌≢◌, true, false, none, some, List, [], ◌∷◌, arith, ◌==◌, ==_iff,
  Bytes, str_eq_refl,
}
use cbsignal_redis.Client.{polling_expire_limit, is_expired}
use cbsignal_redis.World.{Env, World}
use cbsignal_redis.Hub.{store, get_client, send_to, drop_client}
use cbsignal_redis.Hub.Registry.{drop_client_lem}
use cbsignal_redis.Main.{Server}
use cbsignal_redis.Main.Http.{array_of, in_world, poll_client, Polled, body, answered}
use cbsignal_redis.Main.Http.Answers.{serve_queue}
use cbsignal_redis.Main.Sweep.{check_conn}
use cbsignal_redis.Handler.Sending.{send_message_room}

module _ (E : Env) where
  -- At the time of a round a message is put into the queue of the client at `p`, which then polls, with
  -- a request that is permitted.
  abbrev pub busy_round : Bytes → ℕ → ℕ × Bytes → Server E → Polled × Server E
  busy_round id p (now, b) s =
      let w = (send_to E p b (record s.world { now = now })).1 in
      poll_client E id (get_client E id w) (in_world E s w)

  abbrev pub busy_rounds : Bytes → ℕ → List (ℕ × Bytes) → Server E → Server E
  busy_rounds id p [] s = s
  busy_rounds id p (r ∷ rounds) s = busy_rounds id p rounds (busy_round id p r s).1

  -- The client at `p` is registered as `id` and polls, its queue is empty, and `seen` is when it was
  -- heard of.
  pub record IsUpToDate (id : Bytes) (p seen : ℕ) (w : World E) : Type 0 where
    pub here : get_client E id w ≡ some p
    pub own_id : (w.heap p).peer_id ≡ id
    pub polling : (w.heap p).is_polling ≡ true
    pub fetched : (w.heap p).msg_queue ≡ []
    pub heard : (w.heap p).timestamp ≡ seen

  sent_one :
      (id : Bytes) (p seen now : ℕ) (b : Bytes) (w : World E)
      → IsUpToDate id p seen w
      → send_to E p b (record w { now = now }) ≡ (
        (none, false),
        store E p (record (w.heap p) { msg_queue = b ∷ [] }) (record w { now = now }),
      )
  unfolding send_to
  sent_one id p seen now b w v =
      rw (send_message_room E b (w.heap p) w.net v.polling (rw v.fetched (omega arith)), v.fetched)
        refl

  busy_round_lem :
      (id : Bytes) (p seen now : ℕ) (b : Bytes) (s : Server E)
      → IsUpToDate id p seen s.world
      → let (polled, s') = busy_round id p (now, b) s in
        (polled ≡ answered (body (array_of (b ∷ []))))
        × IsUpToDate id p seen s'.world
        × (s'.world.now ≡ now)
  unfolding get_client
  busy_round_lem id p seen now b s v =
      let sent = sent_one id p seen now b s.world v in
      let own : (p == p) ≡ true = (==_iff p p).1 refl in
      let w : World E =
        store E p (record (s.world.heap p) { msg_queue = b ∷ [] }) (record s.world { now = now }) in
      let served =
        serve_queue E id p b [] (in_world E s w) v.here (rw own v.polling) (rw own refl) in
      rw (sent, served)
        (
          refl,
          record {
            here = v.here;
            own_id = rw own v.own_id;
            polling = rw own v.polling;
            fetched = rw own refl;
            heard = rw own v.heard;
          },
          refl,
        )

  -- A registered polling client for which a message waits at each of its polls is not taken for heard of
  -- by them: after any number of such polls it is still registered, but however recent the last one is,
  -- the sweep drops it as soon as the time at which it was heard of before them is more than 180
  -- seconds ago.
  pub busy_rounds-dropped :
      (id : Bytes) (p seen now : ℕ) (rounds : List (ℕ × Bytes)) (s : Server E)
      → id ≢ []
      → IsUpToDate id p seen s.world
      → seen + polling_expire_limit < now
      → let w = (busy_rounds id p rounds s).world in
        (get_client E id w ≡ some p) × (get_client E id (check_conn E now p w) ≡ none)
  unfolding check_conn is_expired
  busy_rounds-dropped id p seen now [] s named v late =
      let old : is_expired now (s.world.heap p) ≡ true = ground (arith, v.polling, v.heard) in
      let gone = (drop_client_lem E id p p s.world named v.here).0 id in
      (
        v.here,
        rw (old, ap (λ k. (drop_client E k p s.world).1) v.own_id)
            (gone ∙ rw (str_eq_refl id) refl),
      )
  busy_rounds-dropped id p seen now ((time, b) ∷ rounds) s named v late =
      busy_rounds-dropped id p seen now rounds (busy_round id p (time, b) s).1 named
        (busy_round_lem id p seen time b s v).1 late
