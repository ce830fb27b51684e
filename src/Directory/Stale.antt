-- ===== src/Directory/Stale.antt =====
-- redis.go and handler/signal.go: the address that an instance keeps in its cache when a peer has moved,
-- and where its signals then go.
use cbsignal_redis.Base.{
  ℕ, ◌≡◌, refl, ◌∙◌, inl, inr, true, false, none, some, List, [], ◌∷◌, ◌==◌, ==_iff, Bool-cases,
  Option-cases, Bytes, str_eq,
}
use cbsignal_redis.Errors.{Result, ok, err}
use cbsignal_redis.Redis.{
  key_for_peer_id, take_a_break, get_remote_peer_addr, break_on_error, set_local_peer,
  del_local_peer, update_local_peer_expiration, Cmdable, BigCache, RedisState,
}
use cbsignal_redis.World.{Env, World}
use cbsignal_redis.Hub.{get_client, do_register, do_unregister}
use cbsignal_redis.Directory.{
  instance_at, step, run, enter_all, Event, Cluster, Directory, joins, leaves, renews,
}
use cbsignal_redis.Directory.Agreement.{redis-Agrees, run-Agrees, Agrees}
use cbsignal_redis.Nodes.Node.{Node}
use cbsignal_redis.Handler.{target_of, handle_signal, SignalMsg, Others}
use cbsignal_redis.Handler.Routing.{handle_signal-remote}
use cbsignal_redis.Directory.Signals.{IsSent, is_some-none, CanSend}
use cbsignal_redis.Directory.Lookup.{LooksUp, Misses, look, lookup-Agrees}
use cbsignal_redis.Directory.Keys.{AnsweringKeys}

module _ (C : Cmdable) (B : BigCache) where
  break_on_error-cache :
      (r : Result (Unit {0}) × RedisState C B) → (break_on_error C B r).1.cache ≡ r.1.cache
  unfolding break_on_error take_a_break
  break_on_error-cache (ok u, s) = refl
  break_on_error-cache (err e, s) = refl

  set_local_peer-cache :
      (id : Bytes) (s : RedisState C B) → (set_local_peer C B id s).1.cache ≡ s.cache
  unfolding set_local_peer
  set_local_peer-cache id s = elim (Bool-cases s.is_alive) [
    | inl alive ↦ simp alive (break_on_error-cache _)
    | inr dead ↦ simp dead refl
  ]

  del_local_peer-cache :
      (id : Bytes) (s : RedisState C B) → (del_local_peer C B id s).1.cache ≡ s.cache
  unfolding del_local_peer
  del_local_peer-cache id s = elim (Bool-cases s.is_alive) [
    | inl alive ↦ simp alive (break_on_error-cache _)
    | inr dead ↦ simp dead refl
  ]

  update_expiration-cache :
      (id : Bytes) (s : RedisState C B) → (update_local_peer_expiration C B id s).1.cache ≡ s.cache
  unfolding update_local_peer_expiration
  update_expiration-cache id s = elim (Bool-cases s.is_alive) [
    | inl alive ↦ simp alive refl
    | inr dead ↦ simp dead refl
  ]

-- The cache as bigcache documents it: what is set is read back, until it expires or is pushed out.
pub record KeepingCache (B : BigCache) : Type 0 where
  pub get-set : (k v : Bytes) (c : B.Cache) → B.cache_get k (B.cache_set k v c) ≡ some v

module _ (E : Env) where
  do_unregister-cache :
      (id : Bytes) (w : World E) → (do_unregister E id w).1.redis.cache ≡ w.redis.cache
  unfolding do_unregister
  do_unregister-cache id w = elim (Bool-cases (str_eq id [])) [
    | inl empty ↦ rw empty refl
    | inr filled ↦ elim (Bool-cases (E.fast_map.has id w.clients)) [
      | inl here ↦ rw (filled, here) (del_local_peer-cache E.cmdable E.big_cache id w.redis)
      | inr missing ↦ rw (filled, missing) refl
    ]
  ]

  step-cache :
      (e : Event) (c : Cluster E) (r : ℕ)
      → ((step E e c).instances r).redis.cache ≡ (c.instances r).redis.cache
  unfolding step do_register
  step-cache (joins i p) c r = elim (Bool-cases (i == r)) [
    | inl same ↦
        let at : i ≡ r = (==_iff i r).0 same in
        let w = instance_at E i c in
        rw same (set_local_peer-cache E.cmdable E.big_cache (w.heap p).peer_id w.redis ∙ rw at refl)
    | inr other ↦ rw other refl
  ]
  step-cache (renews i id) c r = elim (Bool-cases (i == r)) [
    | inl same ↦
        let at : i ≡ r = (==_iff i r).0 same in
        rw same
          (update_expiration-cache E.cmdable E.big_cache id (instance_at E i c).redis ∙ rw at refl)
    | inr other ↦ rw other refl
  ]
  step-cache (leaves i id) c r = elim (Bool-cases (i == r)) [
    | inl same ↦
        let at : i ≡ r = (==_iff i r).0 same in
        rw same (do_unregister-cache id (instance_at E i c) ∙ rw at refl)
    | inr other ↦ rw other refl
  ]

  pub run-cache :
      (es : List Event) (c : Cluster E) (r : ℕ)
      → ((run E es c).instances r).redis.cache ≡ (c.instances r).redis.cache
  unfolding run
  run-cache [] c r = refl
  run-cache (e ∷ es) c r = run-cache es (step E e c) r ∙ step-cache e c r

  look-cache :
      (keeps : KeepingCache E.big_cache) (c : Cluster E) (r : ℕ) (id a : Bytes)
      → Misses E r id c
      → LooksUp E r id c (ok a)
      → E.big_cache.cache_get id ((look E r id c).instances r).redis.cache ≡ some a
  unfolding get_remote_peer_addr
  look-cache keeps c r id a miss told =
      let own : (r == r) ≡ true = (==_iff r r).1 refl in
      let answer : (E.cmdable.get (key_for_peer_id id) c.db).0 ≡ ok a =
        rw (miss, get_remote_peer_addr) at told in
      rw (own, miss, get_remote_peer_addr, answer) (keeps.get-set id a (c.instances r).redis.cache)

  look_again :
      (keeps : KeepingCache E.big_cache) (c : Cluster E) (r : ℕ) (id a : Bytes) (es : List Event)
      → Misses E r id c
      → LooksUp E r id c (ok a)
      → LooksUp E r id (run E es (look E r id c)) (ok a)
  unfolding get_remote_peer_addr
  look_again keeps c r id a es miss told =
      let c' = look E r id c in
      let hit : E.big_cache.cache_get id ((run E es c').instances r).redis.cache ≡ some a =
        rw (run-cache es c' r) (look-cache keeps c r id a miss told) in
      rw (hit, get_remote_peer_addr) refl

module _ (E : Env) (keys : AnsweringKeys E.cmdable) (addr : ℕ → Bytes) (name : ℕ → ℕ → Bytes) where
  look-Agrees :
      (c : Cluster E) (d : Directory) (r : ℕ) (id : Bytes)
      → Agrees E keys addr name c d
      → Misses E r id c
      → Agrees E keys addr name (look E r id c) d
  unfolding get_remote_peer_addr
  look-Agrees c d r id v miss =
      let at_key = λ (j : Bytes). keys.get_keeps (key_for_peer_id id) (key_for_peer_id j) c.db in
      let answer = keys.get_answers (key_for_peer_id id) c.db in
      elim (Option-cases (keys.value (key_for_peer_id id) c.db)) [
        | inl nothing ↦
            rw (miss, get_remote_peer_addr, answer, nothing)
              (redis-Agrees E keys addr name r _ c d v (v.alive r) refl at_key)
        | inr (a, there) ↦
            rw (miss, get_remote_peer_addr, answer, there)
              (redis-Agrees E keys addr name r _ c d v (v.alive r) refl at_key)
      ]

  -- Over a Redis that answers, in a state that agrees with a directory, an instance whose cache does
  -- not know a peer looks it up. Whatever registrations, deregistrations and renewals follow, if the
  -- cache keeps what it was given and the instance does not have the peer itself, a signal to it that
  -- can be sent to the address which the directory had then goes to that address's node, while Redis
  -- has what the directory says now.
  pub signal_goes_astray :
      (keeps : KeepingCache E.big_cache) (O : Others) (msg : SignalMsg) (cli : ℕ) (a b : Bytes)
      (node : Node) (c : Cluster E) (d : Directory) (es : List Event) (r : ℕ)
      → Agrees E keys addr name c d
      → Misses E r (target_of msg) c
      → d.owner (target_of msg) ≡ some a
      → let c' = run E es (look E r (target_of msg) c) in
        let d' = enter_all addr name es d in
        let w = instance_at E r c' in
        d'.has_peer r (target_of msg) ≡ false
        → CanSend E O msg cli a b node w
        → IsSent E msg a b node (handle_signal E O msg cli w)
          × (keys.value (key_for_peer_id (target_of msg)) c'.db ≡ d'.owner (target_of msg))
  unfolding get_client
  signal_goes_astray keeps O msg cli a b node c d es r v miss owned absent s =
      let id = target_of msg in
      let told : LooksUp E r id c (ok a) =
        lookup-Agrees E keys addr name c d r id v miss ∙ rw owned refl in
      let v' = run-Agrees E keys addr name es (look E r id c) d (look-Agrees c d r id v miss) in
      let w = instance_at E r (run E es (look E r id c)) in
      let missing : get_client E id w ≡ none = is_some-none _ (v'.peers r id ∙ absent) in
      let sent =
        handle_signal-remote E O msg cli w a b node s.fresh missing
          (look_again E keeps c r id a es miss told) s.far s.known s.living s.alive s.room
          s.marshal in
      (sent.0, v'.owners id)
