-- ===== src/Main/Websocket/Reader.antt =====
-- main.go: the goroutine that reads a websocket connection. wsutil.ReadClientMessage and its answers to
-- control frames are the websocket library's; no call in the model panics.
pub mod Kept
use cbsignal_redis.Base.{ℕ, Bool, true, false, ◌||◌, not, List, [], ◌∷◌, ltb, Bytes}
use cbsignal_redis.Errors.{Result, ok, err}
use cbsignal_redis.World.{Env, World}
use cbsignal_redis.Handler.{new_handler, handle, SignalMsg, Handler, Others}
use cbsignal_redis.Main.Websocket.{on_ping}
use cbsignal_redis.Main.Websocket.Payload.{clean}

abbrev pub reject_msg_cpu_threshold : ℕ
reject_msg_cpu_threshold = 770

-- A message: close, another control frame with its opcode and payload, or data.
pub data Message : Type 0 where
  closes : Message
  control data_message : Bytes → Message

-- What one call of ReadClientMessage gives: an error, or messages, with the CPU usage loaded then.
pub data Reading : Type 0 where
  broken : Reading
  messages : ℕ → List Message → Reading

-- `handle_control` is wsutil.HandleClientControlMessage; `unmarshal` is sonic.Unmarshal.
module _ (E : Env) (O : Others) (unmarshal : Bytes → Result SignalMsg)
    (handle_control : ℕ → Bytes → E.network.Net → E.network.Net) where
  unfoldable pub on_control : ℕ → ℕ → Bytes → World E → World E
  on_control p conn payload w =
      let w' = on_ping E p w in record w' { net = handle_control conn payload w'.net }

  unfoldable pub handled : Result Handler → World E → World E
  handled (err e) w = w
  handled (ok hdr) w = handle E O hdr w

  -- The loop over the messages of one call, and whether the goroutine returns from it.
  unfoldable pub read_messages : ℕ → ℕ → ℕ → List Message → World E → Bool × World E
  read_messages cpu p conn [] w = (false, w)
  read_messages cpu p conn (closes ∷ ms) w =
      (true, record w { net = E.network.close_conn conn w.net })
  read_messages cpu p conn (control payload ∷ ms) w =
      read_messages cpu p conn ms (on_control p conn payload w)
  read_messages cpu p conn (data_message payload ∷ ms) w =
      elim (ltb reject_msg_cpu_threshold cpu || not w.redis.is_alive) [
        | true ↦ (false, w)
        | false ↦ read_messages cpu p conn ms (handled (new_handler unmarshal (clean payload) p) w)
      ]

  -- One round of the goroutine's loop.
  unfoldable pub read_round : ℕ → ℕ → Reading → World E → Bool × World E
  read_round p conn broken w = (true, w)
  read_round p conn (messages cpu ms) w = read_messages cpu p conn ms w
