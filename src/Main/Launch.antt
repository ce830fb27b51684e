-- ===== src/Main/Launch.antt =====
-- main.go, util/ip.go: what the package's init makes of the configuration. Its entries and the
-- interfaces of the machine are parameters; viper's watch of the file is left out.
pub mod Listen
use cbsignal_redis.Base.{
  ◌≡◌, refl, ◌≢◌, inl, inr, Bool, true, false, ◌&&◌, not, Option, none, some, List, [], ◌∷◌, ◌++◌,
  map, arith, if◌then◌else◌, Bool-cases, Option-cases, Bytes, str,
}
use cbsignal_redis.Base.Fallible.{◌>>=◌, >>=-eq-some}
use cbsignal_redis.Base.Int.{ℤ}
use cbsignal_redis.Errors.{Result, ok, err}
use cbsignal_redis.Log.{init_logger, Logger}
use cbsignal_redis.Redis.Open.{
  addr_string, init_redis_cluster, init_redis_client, Addr, Options, Opened, cluster_options,
  options,
}
use cbsignal_redis.Main.Config.{
  setup_config_from_viper, self_addr_of, get_version_num, Viper, Config, PortTls,
}

-- One of net.InterfaceAddrs: whether it is an IP network, its IP's IsLoopback and To4, and its text.
pub record InterfaceAddr : Type 0 where
  pub is_ip_net : Bool
  pub is_loopback : Bool
  pub is_v4 : Bool
  pub text : Bytes

-- The loop of GetInternalIP; none where it panics behind it.
unfoldable pub first_internal : List InterfaceAddr → Option Bytes
first_internal [] = none
first_internal (a ∷ addrs) =
    let rest = first_internal addrs in
    if a.is_ip_net && not a.is_loopback && a.is_v4 then some a.text else rest

unfoldable pub get_internal_ip : Result (List InterfaceAddr) → Option Bytes
get_internal_ip (err e) = some []
get_internal_ip (ok addrs) = first_internal addrs

-- The entries of the configuration that init reads besides; none for lists that cannot be decoded.
pub record Entries : Type 0 where
  pub viper : Viper
  pub port_entry : List Bytes
  pub tls_entry : Option (List PortTls)
  pub cluster_entry : Option (List Addr)
  -- viper.GetInt
  pub get_int : Bytes → ℤ

unfoldable pub redis_addr : Viper → Addr
redis_addr v = record {
  host = v.get_string (str "redis.host");
  port = v.get_string (str "redis.port");
}

unfoldable pub cluster_addrs : Viper → List Addr → List Addr
unfolding redis_addr
cluster_addrs v [] = redis_addr v ∷ []
cluster_addrs v (a ∷ addrs) = a ∷ addrs

-- The choice of a Redis in init; none where it panics.
unfoldable pub open_redis : Bytes → Entries → Option Opened
unfolding redis_addr cluster_addrs
open_redis self_addr entries =
    let password = entries.viper.get_string (str "redis.password") in
    if entries.viper.get_bool (str "redis.is_cluster")
    then (elim entries.cluster_entry [
      | none ↦ none
      | some addrs ↦ init_redis_cluster self_addr (cluster_addrs entries.viper addrs) password none
    ])
    else init_redis_client self_addr (addr_string (redis_addr entries.viper)) password
        (entries.get_int (str "redis.dbname")) none

unfoldable pub logger_of : Entries → Logger
logger_of entries =
    let v = entries.viper in
    init_logger (v.get_string (str "log.writers")) (v.get_string (str "log.logger_level"))
      (v.get_bool (str "log.log_format_text"))
      (v.get_string (str "log.logger_dir") ++ str "/signalhub.log")
      (entries.get_int (str "log.log_rotate_size")) (entries.get_int (str "log.log_backup_count"))
      (entries.get_int (str "log.log_max_age"))

-- What init leaves behind.
pub record Launched : Type 0 where
  pub version_num : ℤ
  pub logger : Logger
  pub tls_ports : List PortTls
  pub launched_addr : Bytes
  pub redis : Opened
  pub config : Config

abbrev only_if : Bool → Launched → Option Launched
only_if true l = some l
only_if false l = none

-- init; none where it panics or exits. `answers` is whether Redis answers the PING.
unfoldable pub launch :
    Bytes → Entries → Result (List InterfaceAddr) → Bool → Config → Option Launched
unfolding logger_of open_redis get_internal_ip
launch version entries addrs answers config = do
  version_num ← get_version_num version
  tls ← entries.tls_entry
  ip ← get_internal_ip addrs
  let self_addr = self_addr_of ip entries.port_entry tls
  opened ← open_redis self_addr entries
  only_if answers (record {
    version_num = version_num;
    logger = logger_of entries;
    tls_ports = tls;
    launched_addr = self_addr;
    redis = opened;
    config = setup_config_from_viper entries.viper config;
  })

only_if_lem : (b : Bool) (l l' : Launched) → only_if b l ≡ some l' → l ≡ l'
only_if_lem true l l' h = cc
only_if_lem false l l' h = cc

-- The addresses of the servers.
abbrev pub servers : Options → List Bytes
servers (cluster_options addrs password) = addrs
servers (options addr password db size wait read) = addr ∷ []

cluster_addrs-some : (v : Viper) (addrs : List Addr) → map addr_string (cluster_addrs v addrs) ≢ []
unfolding cluster_addrs
cluster_addrs-some v [] h = cc
cluster_addrs-some v (a ∷ addrs) h = cc

open_redis_lem :
    (self_addr : Bytes) (entries : Entries) (o : Opened)
    → open_redis self_addr entries ≡ some o
    → (o.self_addr ≡ self_addr) × (servers o.redis_cli ≢ [])
unfolding open_redis init_redis_cluster init_redis_client
open_redis_lem self_addr entries o h =
    elim (Bool-cases (entries.viper.get_bool (str "redis.is_cluster"))) [
      | inl cluster ↦ elim (Option-cases entries.cluster_entry) [
        | inl nothing ↦ absurd (ground (arith, h))
        | inr (addrs, listed) ↦
            let made = rw (cluster, listed) at h in
            let same : record {
              self_addr = self_addr;
              redis_cli =
                  cluster_options (map addr_string (cluster_addrs entries.viper addrs))
                    (entries.viper.get_string (str "redis.password"));
            }
                ≡ o =
              cc in
            rw (← same) (refl, cluster_addrs-some entries.viper addrs)
      ]
      | inr single ↦ let made = rw single at h in ground (arith, made)
    ]

-- After init, the address under which the service enters its peers in Redis is the one by which it
-- knows itself, and the Redis it has opened has at least one server.
launch_lem :
    (version : Bytes) (entries : Entries) (addrs : Result (List InterfaceAddr)) (answers : Bool)
    (config : Config) (l : Launched)
    → launch version entries addrs answers config ≡ some l
    → (l.redis.self_addr ≡ l.launched_addr) × (servers l.redis.redis_cli ≢ [])
unfolding launch
launch_lem version entries addrs answers config l h =
    let (n, _, h1) = >>=-eq-some (get_version_num version) _ h in
    let (tls, _, h2) = >>=-eq-some entries.tls_entry _ h1 in
    let (ip, _, h3) = >>=-eq-some (get_internal_ip addrs) _ h2 in
    let self_addr = self_addr_of ip entries.port_entry tls in
    let (opened, made, h4) = >>=-eq-some (open_redis self_addr entries) _ h3 in
    let (own, some_server) = open_redis_lem self_addr entries opened made in
    let same = only_if_lem answers _ l h4 in rw (← same) (own, some_server)
