-- ===== src/Directory/Lookup.antt =====
-- redis.go: what GetRemotePeerAddr finds of the peers that instances have entered, and what the
-- deregistrations of other instances make of it.
use cbsignal_redis.Base.{
  ℕ, ◌≡◌, refl, sym, ◌∙◌, true, false, ◌&&◌, none, List, [], ◌∷◌, map, ◌==◌, if◌then◌else◌, Bytes,
  str_eq, str_eq_refl,
}
use cbsignal_redis.Dict.{is_some}
use cbsignal_redis.Errors.{Result, redis_nil, err}
use cbsignal_redis.Redis.{key_for_peer_id, get_remote_peer_addr}
use cbsignal_redis.World.{Env}
use cbsignal_redis.Hub.{get_client}
use cbsignal_redis.Directory.{
  instance_at, put_instance, run, enter, enter_all, Event, Cluster, Directory, leaves, renews,
}
use cbsignal_redis.Directory.Agreement.{run-Agrees, Agrees}
use cbsignal_redis.Directory.Keys.{found, AnsweringKeys}

-- What an instance is told of a peer that its cache does not know.
abbrev pub LooksUp : (E : Env) → ℕ → Bytes → Cluster E → Result Bytes → Type 0
LooksUp E r id c answer =
    (get_remote_peer_addr E.cmdable E.big_cache id (instance_at E r c).redis).0 ≡ answer

abbrev pub Misses : (E : Env) → ℕ → Bytes → Cluster E → Type 0
Misses E r id c = E.big_cache.cache_get id (c.instances r).redis.cache ≡ none

-- A lookup by an instance, and the cluster after it.
abbrev pub look : (E : Env) → ℕ → Bytes → Cluster E → Cluster E
look E r id c =
    let w = instance_at E r c in
    put_instance E r
      (record w { redis = (get_remote_peer_addr E.cmdable E.big_cache id w.redis).1 }) c

module _ (E : Env) (keys : AnsweringKeys E.cmdable) (addr : ℕ → Bytes) (name : ℕ → ℕ → Bytes) where
  pub lookup-Agrees :
      (c : Cluster E) (d : Directory) (r : ℕ) (id : Bytes)
      → Agrees E keys addr name c d
      → Misses E r id c
      → LooksUp E r id c (found (d.owner id))
  unfolding get_remote_peer_addr
  lookup-Agrees c d r id v miss =
      rw (miss, get_remote_peer_addr)
        (keys.get_answers (key_for_peer_id id) c.db ∙ rw (v.owners id) refl)

  -- Instances over a Redis that answers, in a state that agrees with a directory, register clients
  -- and deregister ids in any order. Then the same entries and removals have made the directory by
  -- which every instance has its peers, and in which each instance whose cache does not know a peer
  -- is told the peer's address, or that there is none.
  pub run-refines_directory :
      (c : Cluster E) (d : Directory) (es : List Event)
      → Agrees E keys addr name c d
      → let c' = run E es c in
        let d' = enter_all addr name es d in
        ((i : ℕ) (id : Bytes) → is_some (get_client E id (c'.instances i)) ≡ d'.has_peer i id)
        × ((r : ℕ) (id : Bytes) → Misses E r id c' → LooksUp E r id c' (found (d'.owner id)))
  run-refines_directory c d es v =
      let v' = run-Agrees E keys addr name es c d v in
      (v'.peers, λ r id miss. lookup-Agrees (run E es c) (enter_all addr name es d) r id v' miss)

  enter_renewals :
      (beats : List (ℕ × Bytes)) (d : Directory)
      → enter_all addr name (map (λ b. renews b.0 b.1) beats) d ≡ d
  unfolding enter_all enter
  enter_renewals [] d = refl
  enter_renewals (b ∷ beats) d = enter_renewals beats d

  -- When two instances have a peer, which has moved from one to the other, and one of them
  -- deregisters it, then after any number of renewals the other still has it, but an instance whose
  -- cache does not know it is told that there is no such peer.
  pub late_leave-hides :
      (c : Cluster E) (d : Directory) (i k : ℕ) (id : Bytes) (beats : List (ℕ × Bytes))
      → Agrees E keys addr name c d
      → (i == k) ≡ false
      → str_eq id [] ≡ false
      → is_some (get_client E id (c.instances i)) ≡ true
      → is_some (get_client E id (c.instances k)) ≡ true
      → let c' = run E (leaves i id ∷ map (λ b. renews b.0 b.1) beats) c in
        (is_some (get_client E id (c'.instances k)) ≡ true)
        × ((r : ℕ) → Misses E r id c' → LooksUp E r id c' (err redis_nil))
  late_leave-hides c d i k id beats v apart filled here there =
      let es = leaves i id ∷ map (λ b. renews b.0 b.1) beats in
      let (peers, told) = run-refines_directory c d es v in
      let at_i : d.has_peer i id ≡ true = sym (v.peers i id) ∙ here in
      let at_k : d.has_peer k id ≡ true = sym (v.peers k id) ∙ there in
      let left : enter_all addr name es d ≡ record {
        owner = λ j. if str_eq id j then none else d.owner j;
        has_peer = λ l j. if (i == l) && str_eq id j then false else d.has_peer l j;
      } =
        unfold enter_all in
        enter_renewals beats (enter addr name (leaves i id) d)
        ∙ unfold enter in rw (filled, at_i) refl in
      (
        peers k id ∙ rw left (rw apart at_k),
        λ r miss. told r id miss ∙ rw left (rw (str_eq_refl id) refl),
      )
