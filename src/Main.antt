-- ===== src/Main.antt =====
-- main.go: the settings, and the checks that a request passes before it is served. The HMAC is a
-- parameter. The flags, the configuration file, the listeners and the shutdown are not modelled.
pub mod Token
pub mod Http
pub mod Websocket
pub mod Sweep
pub mod Numbers
pub mod Startup
pub mod Launch
pub mod Config
pub mod Dispatch
pub mod Reports
use cbsignal_redis.Base.{
  ℕ, ◌+◌, ◌-◌, ◌*◌, ◌^◌, Bool, true, false, ◌&&◌, ◌||◌, not, Option, none, some, List, [], ◌∷◌,
  ◌++◌, ltb, leb, ◌==◌, if◌then◌else◌, length, take, Bytes, str_eq,
}
use cbsignal_redis.Base.Int.{sub_ℕ, ◌+ℤ◌, ◌-ℤ◌, ltb_ℤ, wrap64, ℤ, pos}
use cbsignal_redis.RateLimit.{is_zero, take_available, Bucket}
use cbsignal_redis.World.{Env, World}

abbrev pub reject_join_cpu_threshold : ℕ
reject_join_cpu_threshold = 720

-- The package variables that setupConfigFromViper and init set, and handler.G_CPU.
pub record Settings : Type 0 where
  pub limit_enabled : Bool
  pub security_enabled : Bool
  pub max_time_stamp_age : ℤ
  pub security_token : Bytes
  pub version_num : ℕ
  pub cpu_usage : ℕ

-- strings.Split at one byte.
unfoldable pub cons_head : ℕ → List Bytes → List Bytes
cons_head x [] = (x ∷ []) ∷ []
cons_head x (part ∷ parts) = (x ∷ part) ∷ parts

unfoldable pub split : ℕ → Bytes → List Bytes
split sep [] = [] ∷ []
split sep (x ∷ s) = let parts = split sep s in if x == sep then [] ∷ parts else cons_head x parts

-- strconv.ParseInt(s, 10, 64)
unfoldable pub digits_value : ℕ → Bytes → Option ℕ
digits_value n [] = some n
digits_value n (b ∷ s) = if leb 48 b && leb b 57 then digits_value (n * 10 + (b - 48)) s else none

unfoldable pub unsigned : Bytes → Option ℕ
unsigned [] = none
unsigned (b ∷ s) = digits_value 0 (b ∷ s)

unfoldable pub signed : Bool → Option ℕ → Option ℤ
signed minus none = none
signed false (some n) = if ltb n (2 ^ 63) then some (pos n) else none
signed true (some n) = if leb n (2 ^ 63) then some (sub_ℕ 0 n) else none

unfoldable pub parse_int : Bytes → Option ℤ
parse_int [] = none
parse_int (b ∷ s) =
    if b == 43
    then signed false (unsigned s)
    else if b == 45
    then signed true (unsigned s)
    else signed false (unsigned (b ∷ s))

-- `hmac_hex key message` is the HMAC with MD5 in hexadecimal digits.
module _ (hmac_hex : Bytes → Bytes → Bytes) where
  unfoldable pub real_sign : Settings → Bytes → Bytes → Bytes
  real_sign settings ts_str id = take 8 (hmac_hex settings.security_token (ts_str ++ id))

  unfoldable pub in_window : Settings → ℕ → ℤ → Bool
  in_window settings now ts = not (
      ltb_ℤ ts (wrap64 (pos now -ℤ settings.max_time_stamp_age))
      || ltb_ℤ (wrap64 (pos now +ℤ settings.max_time_stamp_age)) ts)

  unfoldable pub check_sign : Settings → ℕ → Bytes → Bytes → Bytes → Option ℤ → Bool
  check_sign settings now id sign ts_str none = false
  check_sign settings now id sign ts_str (some ts) =
      if in_window settings now ts then str_eq sign (real_sign settings ts_str id) else false

  unfoldable pub check_parts : Settings → ℕ → Bytes → List Bytes → Bool
  check_parts settings now id [] = false
  check_parts settings now id (sign ∷ []) = false
  check_parts settings now id (sign ∷ ts_str ∷ rest) =
      check_sign settings now id sign ts_str (parse_int ts_str)

  unfoldable pub check_token : Settings → ℕ → Bytes → Bytes → Bool
  check_token settings now id query_token = check_parts settings now id (split 45 query_token)

  -- The tests of an id and its token that the three handlers make; the code answers 401 for both.
  unfoldable pub is_authorized : Settings → ℕ → Bytes → Bytes → Bool
  is_authorized settings now id token =
      not (str_eq id [] || ltb (length id) 6)
      && not (settings.security_enabled && not (check_token settings now id token))

module _ (E : Env) where
  -- The world, the limiter, which is nil unless `main` has made it, and the time that the limiter
  -- reads, in nanoseconds.
  pub record Server : Type 0 where
    pub world : World E
    pub limiter : Option Bucket
    pub nanos : ℤ

  unfoldable pub check_limit : Server → Option (ℤ × Bucket) → Option (Bool × Server)
  check_limit s none = none
  check_limit s (some (taken, bucket)) =
      some (not (is_zero taken), record s { limiter = some bucket })

  -- `limiter.TakeAvailable(1)`; a nil limiter panics.
  unfoldable pub take_one : ℤ → Option Bucket → Option (ℤ × Bucket)
  take_one nanos none = none
  take_one nanos (some bucket) = take_available bucket nanos (pos 1)

  -- commonCheck; none if the limiter panics.
  unfoldable pub common_check : Settings → Server → Option (Bool × Server)
  common_check settings s =
      if ltb reject_join_cpu_threshold settings.cpu_usage
      then some (false, s)
      else if not s.world.redis.is_alive
      then some (false, s)
      else if settings.limit_enabled
      then check_limit s (take_one s.nanos s.limiter)
      else some (true, s)
