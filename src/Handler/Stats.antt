-- ===== src/Handler/Stats.antt =====
-- handler/stats.go: what the service tells of itself. Floating point, the number of goroutines, the
-- internal address and JSON encoding are parameters; of the headers nothing is modelled.
use cbsignal_redis.Base.{
  ℕ, ◌+◌, ◌/◌, Bool, true, List, [], ◌++◌, leb, if◌then◌else◌, Bytes, str, str_eq,
}
use cbsignal_redis.Base.Int.{ℤ}
use cbsignal_redis.Base.Decimal.{decimal}
use cbsignal_redis.Errors.{Result, ok, err}
use cbsignal_redis.World.{Env, World}
use cbsignal_redis.Hub.{get_client_count, get_client_num_per_map}
use cbsignal_redis.Nodes.NodeHub.{total_num_client, num_node}

abbrev pub health_check_cpu_limit : ℕ
health_check_cpu_limit = 60

-- A status and a body.
pub record Answer : Type 0 where
  pub code : ℕ
  pub content : Bytes

pub record CertInfo : Type 0 where
  pub name : Bytes
  pub expire_at : ℕ

pub record SignalInfo : Type 0 where
  pub version : Bytes
  pub current_connections : ℕ
  pub total_connections : ℕ
  pub num_instance : ℕ
  pub rate_limit : ℤ
  pub security_enabled : Bool
  pub num_goroutine : ℕ
  pub num_per_map : List ℕ
  pub cpu_usage : ℕ
  pub redis_connected : Bool
  pub internal_ip : Bytes
  pub cert_infos : List CertInfo

-- `token` is the request's.
unfoldable pub check_stats_token : Bytes → Bytes → Bool
check_stats_token stats_token token =
    if str_eq stats_token [] then true else str_eq token stats_token

unfoldable pub health_check : ℕ → Answer
health_check g_cpu =
    let cpu_usage = g_cpu / 10 in
    if leb health_check_cpu_limit cpu_usage
    then record { code = 503; content = str "service overloaded, cpu " ++ decimal cpu_usage }
    else record { code = 200; content = str "service normal, cpu " ++ decimal cpu_usage }

-- The test at the head of the other handlers.
unfoldable pub allowed : Bytes → Bytes → Bytes → Answer
allowed stats_token token content =
    if check_stats_token stats_token token
    then record { code = 200; content = content }
    else record { code = 403; content = [] }

unfoldable pub version_handler : Bytes → Bytes → Bytes → Answer
version_handler version stats_token token = allowed stats_token token version

-- Go's float64, and its conversions from and to int64.
pub record Floats : Type 1 where
  pub Float : Type 0
  pub float64 : ℤ → Float
  pub int64 : Float → ℤ
  pub times : Float → Float → Float
  pub plus : Float → Float → Float
  pub minus : Float → Float → Float
  pub one : Float
  pub decay : Float

-- A round of cpuproc's loop: G_CPU from what it was and the usage that ReadStat gives.
unfoldable pub cpuproc_round : Floats → ℤ → ℤ → ℤ
cpuproc_round F prev_cpu usage =
    int64 (plus (times (float64 prev_cpu) decay) (times (float64 usage) (minus one decay)))
  where
    open F use {Float, float64, int64, times, plus, minus, one, decay}

module _ (E : Env) where
  unfoldable pub count_handler : Bytes → Bytes → World E → Answer
  count_handler stats_token token w =
      allowed stats_token token
        (if w.redis.is_alive then decimal (get_client_count E w) else str "0")

  unfoldable pub total_count_handler : Bytes → Bytes → World E → Answer
  total_count_handler stats_token token w =
      allowed stats_token token (decimal (get_client_count E w + total_num_client w.node_hub.nodes))

  -- What StatsHandler puts into its SignalInfo before it is encoded.
  unfoldable pub fill_info : List CertInfo → ℕ → ℕ → Bytes → SignalInfo → World E → SignalInfo
  fill_info certs num_goroutine g_cpu ip info w =
      let current = if w.redis.is_alive then get_client_count E w else 0 in
      record info {
        cert_infos = certs;
        num_goroutine = num_goroutine;
        num_per_map = get_client_num_per_map E w;
        redis_connected = w.redis.is_alive;
        current_connections = current;
        total_connections = current + total_num_client w.node_hub.nodes;
        num_instance = num_node w.node_hub.nodes + 1;
        cpu_usage = g_cpu / 10;
        internal_ip = ip;
      }

  unfoldable pub encoded_info : Result Bytes → Answer
  encoded_info (ok b) = record { code = 200; content = b }
  encoded_info (err e) = record { code = 500; content = [] }

  -- `marshal` is sonic's MarshalIndent.
  unfoldable pub stats_handler :
      (SignalInfo → Result Bytes)
      → List CertInfo
      → ℕ
      → ℕ
      → Bytes
      → SignalInfo
      → Bytes
      → Bytes
      → World E
      → Answer
  stats_handler marshal certs num_goroutine g_cpu ip info stats_token token w =
      if check_stats_token stats_token token
      then encoded_info (marshal (fill_info certs num_goroutine g_cpu ip info w))
      else record { code = 403; content = [] }
