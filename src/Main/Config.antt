-- ===== src/Main/Config.antt =====
-- main.go: the settings that are read at the start and again whenever the configuration changes, what main
-- makes and checks of them, and the service's own address and version. viper is a parameter, and so is
-- the address of the machine; the other entries of the configuration are read in Main/Launch.
use cbsignal_redis.Base.{
  ℕ, ◌-◌, ◌^◌, Bool, true, false, ◌||◌, Option, none, some, List, [], ◌∷◌, ◌++◌, ltb, leb, ◌==◌,
  if◌then◌else◌, length, Bytes, str, str_eq,
}
use cbsignal_redis.Base.Int.{sub_ℕ, ◌+ℤ◌, ◌*ℤ◌, wrap64, ℤ, pos, negsuc}
use cbsignal_redis.RateLimit.{new_bucket_with_quantum, is_zero, Bucket}
use cbsignal_redis.Handler.Stats.{SignalInfo}
use cbsignal_redis.Main.{split, unsigned, Settings}

-- viper's getters, which give a zero value for what is not set.
pub record Viper : Type 0 where
  pub get_bool : Bytes → Bool
  pub get_int64 : Bytes → ℤ
  pub get_string : Bytes → Bytes

-- The package variables that setupConfigFromViper sets; `settings` holds those that requests read.
pub record Config : Type 0 where
  pub settings : Settings
  pub limit_rate : ℤ
  pub stats_enabled : Bool
  pub stats_token : Bytes

unfoldable pub setup_config_from_viper : Viper → Config → Config
setup_config_from_viper v config = record {
  settings = record config.settings {
    limit_enabled = v.get_bool (str "ratelimit.enable");
    security_enabled = v.get_bool (str "security.enable");
    max_time_stamp_age = v.get_int64 (str "security.maxTimeStampAge");
    security_token = v.get_string (str "security.token");
  };
  limit_rate = v.get_int64 (str "ratelimit.max_rate");
  stats_enabled = v.get_bool (str "stats.enable");
  stats_token = v.get_string (str "stats.token");
}

-- The limiter that main makes; nanoseconds. NewBucketWithQuantum only prints a line where the rate is
-- not above 0.
unfoldable pub init_limiter : Config → ℤ → Option Bucket
init_limiter config now =
    if config.settings.limit_enabled
    then some (new_bucket_with_quantum (pos 1_000_000_000) config.limit_rate config.limit_rate now)
    else none

-- main's tests of the security settings; false where it panics.
unfoldable pub check_security : Settings → Bool
check_security settings =
    if settings.security_enabled
    then if is_zero settings.max_time_stamp_age || str_eq settings.security_token []
      then false
      else leb (length settings.security_token) 8
    else true

-- The limiter that main starts the service with, if it does not panic.
unfoldable pub start_limiter : Config → ℤ → Option (Option Bucket)
start_limiter config now =
    if check_security config.settings then some (init_limiter config now) else none

-- What main gives StatsHandler.
unfoldable pub start_info : Bytes → Config → SignalInfo
start_info version config = record {
  version = version;
  current_connections = 0;
  total_connections = 0;
  num_instance = 0;
  rate_limit = if config.settings.limit_enabled then config.limit_rate else pos 0;
  security_enabled = config.settings.security_enabled;
  num_goroutine = 0;
  num_per_map = [];
  cpu_usage = 0;
  redis_connected = false;
  internal_ip = [];
  cert_infos = [];
}

pub record PortTls : Type 0 where
  pub port : Bytes
  pub cert : Bytes
  pub key : Bytes

-- fmt.Sprintf's "%s" of a portTLS
unfoldable pub show_port_tls : PortTls → Bytes
show_port_tls p = str "{" ++ p.port ++ str " " ++ p.cert ++ str " " ++ p.key ++ str "}"

-- The start's choice of selfAddr.
unfoldable pub self_addr_of : Bytes → List Bytes → List PortTls → Bytes
self_addr_of ip (port ∷ ports) tls = ip ++ str ":" ++ port
self_addr_of ip [] (p ∷ tls) = ip ++ str ":" ++ show_port_tls p
self_addr_of ip [] [] = ip

-- The value of strconv.Atoi(s), also where there is an error with it.
unfoldable pub atoi_of : Bool → Option ℕ → ℤ
atoi_of minus none = pos 0
atoi_of false (some n) = if ltb n (2 ^ 63) then pos n else pos (2 ^ 63 - 1)
atoi_of true (some n) = if leb n (2 ^ 63) then sub_ℕ 0 n else negsuc (2 ^ 63 - 1)

unfoldable pub atoi : Bytes → ℤ
atoi [] = pos 0
atoi (b ∷ s) =
    if b == 43
    then atoi_of false (unsigned s)
    else if b == 45
    then atoi_of true (unsigned s)
    else atoi_of false (unsigned (b ∷ s))

-- GetVersionNum; none where it panics.
unfoldable pub version_num_of : List Bytes → Option ℤ
version_num_of [] = none
version_num_of (major ∷ []) = none
version_num_of (major ∷ minor ∷ rest) = some (wrap64 (atoi major *ℤ pos 10 +ℤ atoi minor))

unfoldable pub get_version_num : Bytes → Option ℤ
get_version_num ver = version_num_of (split 46 ver)
