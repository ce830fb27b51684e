-- ===== src/Main/Launch/Listen.antt =====
-- main.go, util/system.go: what main starts, in which order. The machine's files are parameters, and so
-- are PEM and X.509; signals, resource limits, log lines and the end of the service are left out.
use cbsignal_redis.Base.{
  ◌≤◌, ◌≡◌, inl, inr, Bool, true, ◌&&◌, not, Option, none, some, List, [], ◌∷◌, ◌++◌, map, arith,
  if◌then◌else◌, Bool-cases, length, All, All-append, Bytes, str, str_eq,
}
use cbsignal_redis.Handler.Stats.{CertInfo}
use cbsignal_redis.Main.Config.{check_security, Config, PortTls}

-- The files of the machine. `stat` gives none, or whether its error says that the file exists.
pub record Files : Type 0 where
  pub stat : Bytes → Option Bool
  pub read_file : Bytes → Option Bytes
  pub decode : Bytes → Option Bytes
  pub parse_certificate : Bytes → Option CertInfo

unfoldable pub exists : Files → Bytes → Bool
exists f path = elim (f.stat path) [ none ↦ true | some is_exist ↦ is_exist ]

-- What main does, in order, until it waits for an interrupt.
pub data Action : Type 0 where
  listens listens_tls : Bytes → Action
  makes_node_hub : Action
  handles : Bytes → Action

-- A listener with TLS is started for an entry with a port and both files.
unfoldable pub is_usable : Files → PortTls → Bool
unfolding exists
is_usable f p = not (str_eq p.port []) && exists f p.cert && exists f p.key

-- The certificate that /info shows for such an entry; none where main goes on with the next one.
unfoldable pub cert_info : Files → PortTls → Option CertInfo
cert_info f p = elim (f.read_file p.cert) [
  | none ↦ none
  | some pem ↦ elim (f.decode pem) [ none ↦ none | some block ↦ f.parse_certificate block ]
]

abbrev with_cert : Option CertInfo → List CertInfo → List CertInfo
with_cert none certs = certs
with_cert (some c) certs = c ∷ certs

-- The loop over signalPortsTLS: the listeners, and handler.Certs.
unfoldable pub start_tls : Files → List PortTls → List Action × List CertInfo
unfolding is_usable cert_info
start_tls f [] = ([], [])
start_tls f (p ∷ tls) =
    let (actions, certs) = start_tls f tls in
    if is_usable f p
    then (listens_tls p.port ∷ actions, with_cert (cert_info f p) certs)
    else (actions, certs)

-- The patterns that main registers.
unfoldable pub routes : Bool → List Bytes
routes stats_enabled =
    (str "/ws" ∷ str "/wss" ∷ str "/" ∷ [])
    ++ (if stats_enabled
        then str "/count" ∷ str "/total_count" ∷ str "/version" ∷ str "/info" ∷ []
        else [])
    ++ str "/health_check" ∷ []

-- main behind the limiter: none where it panics.
unfoldable pub main_actions :
    Files → List Bytes → List PortTls → Config → Option (List Action × List CertInfo)
unfolding start_tls routes
main_actions f ports tls config =
    let (listeners, certs) = start_tls f tls in
    if check_security config.settings
    then some (
      map listens ports ++ listeners ++ makes_node_hub ∷ map handles (routes config.stats_enabled),
      certs,
    )
    else none

-- A listener, and a step that has requests answered.
abbrev IsListener : Action → Type 0
IsListener (listens port) = Unit
IsListener (listens_tls port) = Unit
IsListener makes_node_hub = ⊥
IsListener (handles path) = ⊥

listeners-IsListener : (ports : List Bytes) → All IsListener (map listens ports)
listeners-IsListener [] = tt
listeners-IsListener (p ∷ ports) = (tt, listeners-IsListener ports)

start_tls-IsListener :
    (f : Files) (tls : List PortTls)
    → All IsListener (start_tls f tls).0 × (length (start_tls f tls).0 ≤ length tls)
unfolding start_tls
start_tls-IsListener f [] = (tt, omega arith)
start_tls-IsListener f (p ∷ tls) =
    let (listeners, few) = start_tls-IsListener f tls in
    elim (Bool-cases (is_usable f p)) [
      | inl good ↦ rw good ((tt, listeners), omega (arith, few))
      | inr bad ↦ rw bad (listeners, omega (arith, few))
    ]

-- A service that starts has all its listeners running before it has a map of nodes or any pattern: what
-- comes in until then is answered 404.
main_actions-listens_first :
    (f : Files) (ports : List Bytes) (tls : List PortTls) (config : Config) (actions : List Action)
    (certs : List CertInfo)
    → main_actions f ports tls config ≡ some (actions, certs)
    → (listeners : List Action) × All IsListener listeners
      × (actions ≡ listeners ++ (makes_node_hub ∷ map handles (routes config.stats_enabled)))
unfolding main_actions
main_actions-listens_first f ports tls config actions certs h =
    let listeners = map listens ports ++ (start_tls f tls).0 in
    let all =
      All-append IsListener (map listens ports) (start_tls f tls).0 (listeners-IsListener ports)
        (start_tls-IsListener f tls).0 in
    elim (Bool-cases (check_security config.settings)) [
      | inl sound ↦ let started = rw sound at h in (listeners, all, ground (arith, started))
      | inr refused ↦ absurd (ground (arith, h))
    ]
