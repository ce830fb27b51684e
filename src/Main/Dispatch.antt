-- ===== src/Main/Dispatch.antt =====
-- main.go: commonHandler. The upgrade of a connection is the websocket library's: it gives the connection's
-- number, or none when it fails. Headers of the answers are left out.
pub mod Kept
use cbsignal_redis.Base.{ℕ, Option, none, some, List, if◌then◌else◌, Bytes, str, str_eq}
use cbsignal_redis.Errors.{Result}
use cbsignal_redis.World.{Env}
use cbsignal_redis.Handler.{SignalMsg, Others}
use cbsignal_redis.Main.{Settings, Server}
use cbsignal_redis.Main.Http.{polling_handler, post_handler, Request, Polled}
use cbsignal_redis.Main.Websocket.{ws_handler}

-- What commonHandler reads of a request, and the connection that an upgrade of it gives.
pub record HttpRequest : Type 0 where
  pub upgrade : Bytes
  pub method : Bytes
  pub upgraded : Option ℕ
  pub request : Request

-- A reader for a client, or none, of a websocket connection; the answer to a POST or a poll; nothing.
pub data Served : Type 0 where
  reader_of : Option ℕ → Served
  served : Polled → Served
  unserved : Served

module _ (E : Env) (O : Others) (unmarshal : Bytes → Result (List SignalMsg))
    (hmac_hex : Bytes → Bytes → Bytes) (settings : Settings) where
  unfoldable pub serve_ws : Request → Option ℕ → Server E → Served × Server E
  serve_ws r none s = (unserved, s)
  serve_ws r (some conn) s =
      let (reader, s') = ws_handler E hmac_hex settings r.id r.token conn s in
      (reader_of reader, s')

  unfoldable pub common_handler : HttpRequest → Server E → Served × Server E
  common_handler h s =
      if str_eq h.upgrade (str "websocket")
      then serve_ws h.request h.upgraded s
      else if str_eq h.method (str "GET")
      then (let (a, s') = polling_handler E hmac_hex settings h.request s in (served a, s'))
      else if str_eq h.method (str "POST")
      then (let (a, s') = post_handler E O unmarshal hmac_hex settings h.request s in
          (served a, s'))
      else (unserved, s)
