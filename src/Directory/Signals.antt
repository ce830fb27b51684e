-- ===== src/Directory/Signals.antt =====
-- handler/signal.go over the directory: signals to the peers of other instances.
use cbsignal_redis.Base.{
  ℕ, ◌+◌, ◌<◌, ◌≡◌, refl, ◌∙◌, true, false, Option, none, some, List, [], ◌∷◌, ◌++◌, length, Bytes,
  str_eq,
}
use cbsignal_redis.Dict.{lookup, is_some}
use cbsignal_redis.Errors.{ok}
use cbsignal_redis.Nodes.Node.{max_pipe_len, Node}
use cbsignal_redis.World.{Env, World}
use cbsignal_redis.Hub.{get_client}
use cbsignal_redis.Handler.{target_of, filter_get, handle_signal, SignalMsg, Others}
use cbsignal_redis.Handler.Routing.{resp_of, pair_key, handle_signal-remote}
use cbsignal_redis.Directory.{instance_at, run, enter_all, Event, Cluster, Directory}
use cbsignal_redis.Directory.Agreement.{Agrees}
use cbsignal_redis.Directory.Lookup.{Misses, run-refines_directory}
use cbsignal_redis.Directory.Keys.{AnsweringKeys}

-- A signal that the filter lets through and that can be encoded, with the sender's id in it, and the
-- node of the address `a`, which is another instance's, known, alive and with room.
pub record CanSend (E : Env) (O : Others) (msg : SignalMsg) (cli : ℕ) (a b : Bytes) (node : Node)
    (w : World E) : Type 0 where
  pub fresh : (filter_get E (pair_key E O msg cli w) w).0 ≡ false
  pub far : str_eq a w.node_hub.self_addr ≡ false
  pub known : lookup a w.node_hub.nodes ≡ some node
  pub living : node.is_dead ≡ false
  pub alive : node.is_alive ≡ true
  pub room : length node.event_queue < max_pipe_len + 10
  pub marshal :
      E.codec.marshal_resp (record (resp_of msg) { from_peer_id = (w.heap cli).peer_id }) ≡ ok b

-- The signal, encoded as `b`, is the last in the queue of the node of `a`.
abbrev pub IsSent : (E : Env) → SignalMsg → Bytes → Bytes → Node → World E → Type 0
IsSent E msg a b node w =
    lookup a w.node_hub.nodes
    ≡ some (record node {
      event_queue = node.event_queue ++ record { to_peer_id = target_of msg; payload = b } ∷ [];
    })

pub is_some-none : {A : Type 0} (o : Option A) → is_some o ≡ false → o ≡ none
is_some-none none h = refl
is_some-none (some x) h = cc

-- Instances over a Redis that answers register and deregister peers in any order, from a state that
-- agrees with a directory. Then one of them, which does not have a peer and whose cache does not know
-- it, handles a signal to it that can be sent to the address of the peer's entry in the directory: the
-- signal goes to the end of the queue of that instance's node, and no client and no registration here
-- changes.
pub signal_follows_directory :
    (E : Env) (keys : AnsweringKeys E.cmdable) (addr : ℕ → Bytes) (name : ℕ → ℕ → Bytes)
    (O : Others) (msg : SignalMsg) (cli : ℕ) (a b : Bytes) (node : Node) (c : Cluster E)
    (d : Directory) (es : List Event) (r : ℕ)
    → Agrees E keys addr name c d
    → let c' = run E es c in
      let d' = enter_all addr name es d in
      let w = instance_at E r c' in
      Misses E r (target_of msg) c'
      → d'.has_peer r (target_of msg) ≡ false
      → d'.owner (target_of msg) ≡ some a
      → CanSend E O msg cli a b node w
      → let w' = handle_signal E O msg cli w in
        IsSent E msg a b node w' × (w'.heap ≡ w.heap) × (w'.clients ≡ w.clients)
unfolding get_client
signal_follows_directory E keys addr name O msg cli a b node c d es r v miss absent owned s =
    let (peers, told) = run-refines_directory E keys addr name c d es v in
    let w = instance_at E r (run E es c) in
    let missing : get_client E (target_of msg) w ≡ none =
      is_some-none _ (peers r (target_of msg) ∙ absent) in
    let found = told r (target_of msg) miss ∙ rw owned refl in
    handle_signal-remote E O msg cli w a b node s.fresh missing found s.far s.known s.living s.alive
      s.room s.marshal
