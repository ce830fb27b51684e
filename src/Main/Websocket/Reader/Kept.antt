-- ===== src/Main/Websocket/Reader/Kept.antt =====
-- main.go: what the messages of a connection keep, and what an overloaded reader does with them.
use cbsignal_redis.Base.{ℕ, refl, inl, inr, ◌||◌, not, List, [], ◌∷◌, ltb, Bool-cases, Bytes}
use cbsignal_redis.Errors.{Result, ok, err}
use cbsignal_redis.World.{Env, World}
use cbsignal_redis.Hub.Kept.{IsKept}
use cbsignal_redis.Handler.{new_handler, SignalMsg, Handler, Others}
use cbsignal_redis.Handler.Sound.{handle-keeps}
use cbsignal_redis.Main.Websocket.{on_ping}
use cbsignal_redis.Main.Websocket.Kept.{on_ping-keeps}
use cbsignal_redis.Main.Websocket.Payload.{clean}
use cbsignal_redis.Main.Websocket.Reader.{
  reject_msg_cpu_threshold, on_control, handled, read_messages, read_round, Message, Reading,
  closes, control, data_message, broken, messages,
}

module _ (E : Env) (P : World E → Type 0) (kept : IsKept E P) (O : Others)
    (unmarshal : Bytes → Result SignalMsg)
    (handle_control : ℕ → Bytes → E.network.Net → E.network.Net) where
  handled-keeps :
      (r : Result Handler) (w : World E) → P w → P (handled E O unmarshal handle_control r w)
  unfolding handled
  handled-keeps (err e) w v = v
  handled-keeps (ok hdr) w v = handle-keeps E P kept O hdr w v

  read_messages-keeps :
      (cpu p conn : ℕ) (ms : List Message) (w : World E)
      → P w
      → P (read_messages E O unmarshal handle_control cpu p conn ms w).1
  unfolding read_messages on_control
  read_messages-keeps cpu p conn [] w v = v
  read_messages-keeps cpu p conn (closes ∷ ms) w v = kept.elsewhere w _ refl refl refl refl v
  read_messages-keeps cpu p conn (control payload ∷ ms) w v =
      read_messages-keeps cpu p conn ms _
        (kept.elsewhere (on_ping E p w) _ refl refl refl refl (on_ping-keeps E P kept p w v))
  read_messages-keeps cpu p conn (data_message payload ∷ ms) w v =
      elim (Bool-cases (ltb reject_msg_cpu_threshold cpu || not w.redis.is_alive)) [
        | inl busy ↦ rw (busy, read_messages) v
        | inr calm ↦
            rw (calm, read_messages)
              (read_messages-keeps cpu p conn ms _
                (handled-keeps (new_handler unmarshal (clean payload) p) w v))
      ]

  pub read_round-keeps :
      (p conn : ℕ) (r : Reading) (w : World E)
      → P w
      → P (read_round E O unmarshal handle_control p conn r w).1
  unfolding read_round
  read_round-keeps p conn broken w v = v
  read_round-keeps p conn (messages cpu ms) w v = read_messages-keeps cpu p conn ms w v
