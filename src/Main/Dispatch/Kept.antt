-- ===== src/Main/Dispatch/Kept.antt =====
-- main.go: what a request keeps, whichever handler serves it.
use cbsignal_redis.Base.{ℕ, inl, inr, Option, none, some, List, Bool-cases, Bytes, str, str_eq}
use cbsignal_redis.Errors.{Result}
use cbsignal_redis.World.{Env, World}
use cbsignal_redis.Hub.Kept.{IsKept}
use cbsignal_redis.Handler.{SignalMsg, Others}
use cbsignal_redis.Main.{Settings, Server}
use cbsignal_redis.Main.Http.{join_polling, Request}
use cbsignal_redis.Main.Http.Kept.{polling_handler-keeps, post_handler-keeps}
use cbsignal_redis.Main.Websocket.{join_ws}
use cbsignal_redis.Main.Websocket.Kept.{ws_handler-keeps}
use cbsignal_redis.Main.Dispatch.{serve_ws, common_handler, HttpRequest}

module _ (E : Env) (P : World E → Type 0) (kept : IsKept E P) (O : Others)
    (unmarshal : Bytes → Result (List SignalMsg)) (hmac_hex : Bytes → Bytes → Bytes)
    (settings : Settings) where
  serve_ws-keeps :
      (r : Request) (upgraded : Option ℕ) (s : Server E)
      → P s.world
      → ((conn : ℕ) → P (join_ws E r.id conn s.world).1)
      → P (serve_ws E O unmarshal hmac_hex settings r upgraded s).1.world
  unfolding serve_ws
  serve_ws-keeps r none s v joined = v
  serve_ws-keeps r (some conn) s v joined =
      ws_handler-keeps E P kept hmac_hex settings r.id r.token conn s v (joined conn)

  -- What a request keeps, if a new client of either kind keeps it.
  pub common_handler-keeps :
      (h : HttpRequest) (s : Server E)
      → P s.world
      → ((conn : ℕ) → P (join_ws E h.request.id conn s.world).1)
      → P (join_polling E h.request.id s.world).1
      → P (common_handler E O unmarshal hmac_hex settings h s).1.world
  unfolding common_handler
  common_handler-keeps h s v joined_ws joined =
      elim (Bool-cases (str_eq h.upgrade (str "websocket"))) [
        | inl ws ↦ simp ws (serve_ws-keeps h.request h.upgraded s v joined_ws)
        | inr plain ↦ elim (Bool-cases (str_eq h.method (str "GET"))) [
          | inl poll ↦
              simp (plain, poll)
                (polling_handler-keeps E P kept hmac_hex settings h.request s v joined)
          | inr other ↦ elim (Bool-cases (str_eq h.method (str "POST"))) [
            | inl post ↦
                simp (plain, other, post)
                  (post_handler-keeps E P kept O unmarshal hmac_hex settings h.request s v joined)
            | inr neither ↦ simp (plain, other, neither) v
          ]
        ]
      ]
