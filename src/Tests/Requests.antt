-- ===== src/Tests/Requests.antt =====
-- Requests to the service, and its sweep.
use cbsignal_redis.Base.{
  ℕ, ◌≡◌, refl, sym, ◌∙◌, inl, inr, true, false, ◌&&◌, Option, none, some, List, [], ◌∷◌, ◌++◌,
  arith, ◌==◌, if◌then◌else◌, Bool-cases, All, Bytes, str, str_eq,
}
use cbsignal_redis.Base.Int.{◌+ℤ◌, ◌-ℤ◌, ◌*ℤ◌, quot, wrap64, pos}
use cbsignal_redis.Dict.{is_some}
use cbsignal_redis.Errors.{Result, ok}
use cbsignal_redis.RateLimit.{
  new_bucket_with_quantum, time_sub, div64, current_tick, adjust_available_tokens, grant_available,
  take_available,
}
use cbsignal_redis.Redis.{break_on_error, set_local_peer}
use cbsignal_redis.Client.{is_expired}
use cbsignal_redis.World.{World}
use cbsignal_redis.Hub.{get_client, do_register, allocate_from, allocate}
use cbsignal_redis.Hub.Registry.{get_client-do_register}
use cbsignal_redis.Handler.{SignalMsg}
use cbsignal_redis.Main.{
  cons_head, split, digits_value, unsigned, signed, parse_int, real_sign, in_window, check_sign,
  check_parts, check_token, is_authorized, check_limit, take_one, common_check, Settings, Server,
}
use cbsignal_redis.Main.Token.{check_token_sound, check_token_complete, IsToken}
use cbsignal_redis.Main.Http.{in_world, polling_handler, post_handler, Request, body, answered}
use cbsignal_redis.Main.Http.Sound.{IsFree}
use cbsignal_redis.Main.Http.Answers.{is_refusal, handlers-refused, polling_handler-drains}
use cbsignal_redis.Main.Http.Busy.{busy_rounds, busy_rounds-dropped}
use cbsignal_redis.Main.Sweep.{listed, check_conn, check_conns, check_conns_lem}
use cbsignal_redis.Main.Websocket.Refused.{ws_handler-registers_refused}
use cbsignal_redis.Main.Websocket.{write_custom_status_code, join_ws, ws_handler}
use cbsignal_redis.Tests.Instances.{
  alice, env, others, alice_client, empty_world, world, nobody_here, alice_here, world-IsSound,
}
use cbsignal_redis.Tests.Service.{to_bob, to_alice, alice_named}

-- A stand-in for the HMAC: the text and the key.
abbrev pub hmac_hex : Bytes → Bytes → Bytes
hmac_hex key text = text ++ key

abbrev pub settings : Settings
settings = record {
  limit_enabled = true;
  security_enabled = true;
  max_time_stamp_age = pos 10;
  security_token = str "secret12";
  version_num = 46;
  cpu_usage = 100;
}

abbrev token : Bytes
token = str "103alice" ++ 45 ∷ str "103"

abbrev pub carol : Bytes
carol = str "carol12"

abbrev carol_token : Bytes
carol_token = str "103carol-103"

check_token_sound_example : IsToken hmac_hex settings 100 alice token
unfolding check_token split cons_head check_parts parse_int unsigned digits_value signed check_sign
    in_window real_sign str_eq wrap64 ◌-ℤ◌ ◌+ℤ◌
check_token_sound_example = check_token_sound hmac_hex settings 100 alice token refl

check_token_complete_example : check_token hmac_hex settings 100 alice token ≡ true
unfolding parse_int unsigned digits_value signed in_window real_sign wrap64 ◌-ℤ◌ ◌+ℤ◌
check_token_complete_example =
    check_token_complete hmac_hex settings 100 alice (str "103") (pos 103) plain_sign plain_time
      refl refl
  where
    plain_sign : All (λ x. (x == 45) ≡ false) (str "103alice")
    plain_sign = ground arith

    plain_time : All (λ x. (x == 45) ≡ false) (str "103")
    plain_time = ground arith

abbrev no_messages : Bytes → Result (List SignalMsg)
no_messages b = ok []

abbrev pub service : Server env
service = record {
  world = world;
  limiter = some (new_bucket_with_quantum (pos 1000000000) (pos 5) (pos 5) (pos 0));
  nanos = pos 10;
}

abbrev request : Bytes → Request
request t = record { id = alice; hello = false; token = t; read_all = ok [] }

handlers-refused_example :
    let (a, s') =
      post_handler env others no_messages hmac_hex settings (request (str "x")) service in
    let (b, t') = polling_handler env hmac_hex settings (request (str "x")) service in
    ((is_refusal a ≡ true) × (s'.world ≡ world)) × ((is_refusal b ≡ true) × (t'.world ≡ world))
unfolding is_authorized check_token split cons_head check_parts parse_int unsigned digits_value
    signed check_sign in_window real_sign str_eq wrap64 ◌-ℤ◌ ◌+ℤ◌ common_check take_one check_limit
    take_available current_tick adjust_available_tokens grant_available new_bucket_with_quantum
    time_sub div64 quot ◌*ℤ◌ do_register set_local_peer break_on_error
handlers-refused_example =
    handlers-refused env others no_messages hmac_hex settings (request (str "x")) service refl

polling_handler-drains_example :
    let (polled, s') = polling_handler env hmac_hex settings (request token) service in
    (polled ≡ answered (body (str "[m1]")))
    × ((s'.world.heap 0).msg_queue ≡ [])
    × (s'.world.clients ≡ world.clients)
unfolding is_authorized check_token split cons_head check_parts parse_int unsigned digits_value
    signed check_sign in_window real_sign str_eq wrap64 ◌-ℤ◌ ◌+ℤ◌ common_check take_one check_limit
    take_available current_tick adjust_available_tokens grant_available new_bucket_with_quantum
    time_sub div64 quot ◌*ℤ◌ do_register set_local_peer break_on_error
polling_handler-drains_example =
    polling_handler-drains env hmac_hex settings (request token) service 0 (str "m1") [] refl refl
      alice_here refl refl

-- Alice has fetched her messages; she was heard of at 100, and polls at 150 and at 280.
abbrev fetched_world : World env
fetched_world = record world { heap = λ q. record alice_client { msg_queue = [] } }

abbrev often : List (ℕ × Bytes)
often = (150, str "m2") ∷ (280, str "m3") ∷ []

busy_rounds-dropped_example :
    let w = (busy_rounds env alice 0 often (record service { world = fetched_world })).world in
    (get_client env alice w ≡ some 0) × (get_client env alice (check_conn env 290 0 w) ≡ none)
busy_rounds-dropped_example =
    busy_rounds-dropped env alice 0 100 290 often (record service { world = fetched_world })
      alice_named
      (record {
        here = unfold get_client in alice_here;
        own_id = refl;
        polling = refl;
        fetched = refl;
        heard = refl;
      })
      (omega arith)

-- The service after carol has been registered.
abbrev busy_service : Server env
busy_service = record service { world = (join_ws env carol 7 empty_world).1 }

ws_handler-registers_refused_example :
    let busy = record settings { cpu_usage = 800 } in
    let s : Server env = record service { world = empty_world } in
    let (reader, s') = ws_handler env hmac_hex busy carol carol_token 7 s in
    (reader ≡ none)
    × (is_some (get_client env carol s'.world) ≡ true)
    × (ws_handler env hmac_hex busy carol carol_token 8 s' ≡ (
      none,
      in_world env s' (write_custom_status_code env 8 4000 (str "ws already exist") s'.world),
    ))
unfolding is_authorized check_token split cons_head check_parts parse_int unsigned digits_value
    signed check_sign in_window real_sign str_eq wrap64 ◌-ℤ◌ ◌+ℤ◌ common_check
ws_handler-registers_refused_example =
    ws_handler-registers_refused env hmac_hex (record settings { cpu_usage = 800 }) carol
      carol_token 7 8 (record service { world = empty_world }) busy_service refl (nobody_here carol)
      refl

check_conns_lem_example :
    get_client env alice (check_conns env 500 (0 ∷ []) world)
    ≡ (if is_expired 500 (world.heap 0) && listed 0 (0 ∷ []) then none else some 0)
unfolding do_register
check_conns_lem_example =
    check_conns_lem env 500 (0 ∷ []) alice 0 world world-IsSound (alice_here, tt) alice_named
      alice_here

-- The next new client gets address 1, and alice is at 0.
world-IsFree : IsFree env world
unfolding allocate allocate_from do_register
world-IsFree id h = elim (Bool-cases (str_eq alice id)) [
  | inl same ↦
      let at_zero : ◌≡◌ {A = Option ℕ} (some 0) (some 1) =
        sym (get_client-do_register env 0 id empty_world ∙ rw same refl) ∙ h in
      ground arith
  | inr other ↦
      let absent : ◌≡◌ {A = Option ℕ} none (some 1) =
        sym (get_client-do_register env 0 id empty_world ∙ rw (other, nobody_here id) refl) ∙ h in
      cc
]

abbrev pub carol_joins : Request
carol_joins = record { id = carol; hello = false; token = carol_token; read_all = ok [] }

abbrev pub two_signals : Bytes → Result (List SignalMsg)
two_signals b = ok (to_bob ∷ to_alice ∷ [])
