-- ===== src/Main/Http.antt =====
-- main.go: postHandler and pollingHandler. A handler runs alone until it answers or waits; headers and
-- log lines are left out. JSON decoding is a parameter.
pub mod Answers
pub mod Kept
pub mod Sound
pub mod Busy
use cbsignal_redis.Base.{
  ℕ, ◌-◌, Bool, true, false, Option, none, some, List, [], ◌∷◌, ◌++◌, if◌then◌else◌, length, take,
  Bytes,
}
use cbsignal_redis.Errors.{Result, ok, err}
use cbsignal_redis.Client.{new_polling_peer_client}
use cbsignal_redis.World.{Env, World}
use cbsignal_redis.Hub.{store, get_client, do_register, drop_client, allocate}
use cbsignal_redis.Handler.{new_post_handler, touch, handle_all, SignalMsg, Handler, Others}
use cbsignal_redis.Main.{is_authorized, common_check, Settings, Server}

-- A status without a body, a body with status 200, or the end of a handler that panicked.
pub data Response : Type 0 where
  status : ℕ → Response
  body : Bytes → Response
  aborted : Response

-- What a handler reads of a request: its query and its body.
pub record Request : Type 0 where
  pub id : Bytes
  pub hello : Bool
  pub token : Bytes
  pub read_all : Result Bytes

-- A poll is answered at once, or waits for the queue of its client.
pub data Polled : Type 0 where
  answered : Response → Polled
  waiting : ℕ → Polled

-- What ends the wait: 120 seconds, a message, or the end of the client's connection.
pub data Wakeup : Type 0 where
  timed_out received gone : Wakeup

-- The loop of pollingHandler over the messages, and the array around them: the last comma is cut off.
unfoldable pub write_messages : List Bytes → Bytes
write_messages [] = []
write_messages (msg ∷ msgs) = msg ++ 44 ∷ write_messages msgs

unfoldable pub array_of : List Bytes → Bytes
array_of msgs = let buf = 91 ∷ write_messages msgs in take (length buf - 1) buf ++ 93 ∷ []

module _ (E : Env) where
  abbrev pub in_world : Server E → World E → Server E
  in_world s w = record s { world = w }

  -- NewPollingPeerClient and DoRegister
  unfoldable pub join_polling : Bytes → World E → ℕ × World E
  join_polling id w =
      let (p, w') = allocate E w in
      (p, do_register E p (store E p (new_polling_peer_client id w.now) w'))

  -- util.WriteVersion
  unfoldable pub version_answer : Result Bytes → Response
  version_answer (ok b) = body b
  version_answer (err e) = body []

  -- The guards at the head of a handler: commonCheck, then the id and the token.
  unfoldable pub guarded :
      Bool
      → (Server E → Polled × Server E)
      → Option (Bool × Server E)
      → Server E
      → Polled × Server E
  guarded authorized serve none s = (answered aborted, s)
  guarded authorized serve (some (false, s')) s = (answered (status 503), s')
  guarded authorized serve (some (true, s')) s =
      if authorized then serve s' else (answered (status 401), s')

  unfoldable pub poll_queue : ℕ → List Bytes → Server E → Polled × Server E
  poll_queue p [] s = (waiting p, in_world s (touch E p s.world))
  poll_queue p (msg ∷ msgs) s =
      let w = s.world in
      (
        answered (body (array_of (msg ∷ msgs))),
        in_world s (store E p (record (w.heap p) { msg_queue = [] }) w),
      )

  unfoldable pub poll_client : Bytes → Option ℕ → Server E → Polled × Server E
  poll_client id (some p) s =
      if (s.world.heap p).is_polling
      then poll_queue p (s.world.heap p).msg_queue s
      else (answered (status 409), s)
  poll_client id none s =
      let (p, w) = join_polling id s.world in poll_queue p (w.heap p).msg_queue (in_world s w)

  module _ (hmac_hex : Bytes → Bytes → Bytes) (settings : Settings) where
    unfoldable pub polling_handler : Request → Server E → Polled × Server E
    polling_handler r s =
        guarded (is_authorized hmac_hex settings s.world.now r.id r.token)
          (λ s'. poll_client r.id (get_client E r.id s'.world) s') (common_check E settings s) s

  -- The select of pollingHandler; `received` comes when the queue holds a message.
  unfoldable pub after_wait : Bytes → ℕ → Wakeup → World E → Response × World E
  after_wait id p timed_out w = (body [], w)
  after_wait id p received w = elim (w.heap p).msg_queue [
    | [] ↦ (body [], w)
    | msg ∷ msgs ↦
        (body (91 ∷ msg ++ 93 ∷ []), store E p (record (w.heap p) { msg_queue = msgs }) w)
  ]
  after_wait id p gone w = (body [], if (w.heap p).is_polling then (drop_client E id p w).1 else w)

module _ (E : Env) (O : Others) (unmarshal : Bytes → Result (List SignalMsg)) where
  unfoldable pub run_handlers : Result (List Handler) → Server E → Polled × Server E
  run_handlers (err e) s = (answered (body []), s)
  run_handlers (ok hdrs) s = (answered (body []), in_world E s (handle_all E O hdrs s.world))

  unfoldable pub post_body : ℕ → Result Bytes → Server E → Polled × Server E
  post_body p (err e) s = (answered (status 400), s)
  post_body p (ok b) s = run_handlers (new_post_handler unmarshal b p) s

  unfoldable pub post_client : Settings → Request → Option ℕ → Server E → Polled × Server E
  post_client settings r (some p) s =
      if (s.world.heap p).is_polling then post_body p r.read_all s else (answered (status 409), s)
  post_client settings r none s =
      let (p, w) = join_polling E r.id s.world in
      if r.hello
      then (answered (version_answer E (E.marshal_ver [] settings.version_num)), in_world E s w)
      else post_body p r.read_all (in_world E s w)

  module _ (hmac_hex : Bytes → Bytes → Bytes) (settings : Settings) where
    unfoldable pub post_handler : Request → Server E → Polled × Server E
    post_handler r s =
        guarded E (is_authorized hmac_hex settings s.world.now r.id r.token)
          (λ s'. post_client settings r (get_client E r.id s'.world) s') (common_check E settings s)
          s
