-- ===== src/Directory/Agreement.antt =====
-- hub/hub.go and redis.go: when a cluster agrees with a directory, and what each event makes of that.
use cbsignal_redis.Base.{
  ℕ, ◌≡◌, refl, ◌∙◌, inl, inr, true, false, ◌&&◌, not, none, List, [], ◌∷◌, arith, ◌==◌,
  if◌then◌else◌, ==_iff, Bool-cases, Bytes, str_eq,
}
use cbsignal_redis.Dict.{is_some}
use cbsignal_redis.Redis.{key_for_peer_id, del_local_peer, update_local_peer_expiration, RedisState}
use cbsignal_redis.World.{Env, World}
use cbsignal_redis.Hub.{get_client, do_register, do_unregister}
use cbsignal_redis.Hub.Registry.{get_client-do_register}
use cbsignal_redis.Directory.{
  instance_at, put_instance, step, run, enter, enter_all, Event, Cluster, Directory, joins, leaves,
  renews,
}
use cbsignal_redis.Directory.Keys.{
  set_local_peer-Written, del_local_peer-Written, renewed-Written, AnsweringKeys,
}

module _ (E : Env) (keys : AnsweringKeys E.cmdable) (addr : ℕ → Bytes) (name : ℕ → ℕ → Bytes) where
  -- Redis counts as alive everywhere, and holds the directory's addresses; every instance has the
  -- peers that the directory says.
  pub record Agrees (c : Cluster E) (d : Directory) : Type 0 where
    pub alive : (i : ℕ) → (c.instances i).redis.is_alive ≡ true
    pub own_addr : (i : ℕ) → (c.instances i).redis.self_addr ≡ addr i
    pub own_name : (i p : ℕ) → ((c.instances i).heap p).peer_id ≡ name i p
    pub owners : (j : Bytes) → keys.value (key_for_peer_id j) c.db ≡ d.owner j
    pub peers : (i : ℕ) (j : Bytes) → is_some (get_client E j (c.instances i)) ≡ d.has_peer i j

  -- Every instance of a cluster in which one has changed.
  put_instance-each :
      (P : ℕ → World E → Type 0) (i : ℕ) (w : World E) (c : Cluster E)
      → P i w
      → ((k : ℕ) → (i == k) ≡ false → P k (c.instances k))
      → (k : ℕ) → P k ((put_instance E i w c).instances k)
  put_instance-each P i w c own others k = elim (Bool-cases (i == k)) [
    | inl same ↦ rw same (rw ((==_iff i k).0 same) at own)
    | inr other ↦ rw other (others k other)
  ]

  joins-Agrees :
      (i p : ℕ) (c : Cluster E) (d : Directory)
      → Agrees c d
      → Agrees (step E (joins i p) c) (enter addr name (joins i p) d)
  unfolding step enter do_register get_client
  joins-Agrees i p c d v =
      let w = instance_at E i c in
      let id = ((c.instances i).heap p).peer_id in
      let wrote = set_local_peer-Written E.cmdable E.big_cache keys id w.redis (v.alive i) in
      let each = λ (P : ℕ → World E → Type 0). put_instance-each P i (do_register E p w) c in
      let here : (j : Bytes)
          → is_some (get_client E j (do_register E p w))
            ≡ (if (i == i) && str_eq (name i p) j then true else d.has_peer i j) =
        λ j. ground (arith, get_client-do_register E p j w, v.own_name i p, v.peers i j) in
      record {
        alive = each (λ k w'. w'.redis.is_alive ≡ true) wrote.alive (λ k other. v.alive k);
        own_addr =
            each (λ k w'. w'.redis.self_addr ≡ addr k) (wrote.same ∙ v.own_addr i)
              (λ k other. v.own_addr k);
        own_name = λ k q.
            each (λ k w'. (w'.heap q).peer_id ≡ name k q) (v.own_name i q)
              (λ k other. v.own_name k q) k;
        owners = λ j. wrote.values j ∙ rw (v.own_name i p, v.own_addr i, v.owners j) refl;
        peers = λ k j.
            each
              (λ k w'.
                is_some (get_client E j w')
                ≡ (if (i == k) && str_eq (name i p) j then true else d.has_peer k j))
              (here j) (λ k other. rw other (v.peers k j)) k;
      }

  -- DoUnregister of a peer that is here, and of any other id.
  do_unregister_cases :
      (id : Bytes) (w : World E)
      → (do_unregister E id w).1 ≡ (
          if not (str_eq id []) && is_some (get_client E id w)
          then record w {
            clients = E.fast_map.remove id w.clients;
            redis = (del_local_peer E.cmdable E.big_cache id w.redis).1;
          }
          else w)
  unfolding do_unregister get_client
  do_unregister_cases id w =
      rw (← E.fast_map.has-get id w.clients) (elim (Bool-cases (str_eq id [])) [
        | inl empty ↦ rw empty refl
        | inr filled ↦ elim (Bool-cases (E.fast_map.has id w.clients)) [
          | inl here ↦ rw (filled, here) refl
          | inr missing ↦ rw (filled, missing) refl
        ]
      ])

  leaves-gone :
      (i : ℕ) (id : Bytes) (c : Cluster E) (d : Directory)
      → Agrees c d
      → let w = instance_at E i c in
        Agrees
          (put_instance E i
            (record w {
              clients = E.fast_map.remove id w.clients;
              redis = (del_local_peer E.cmdable E.big_cache id w.redis).1;
            })
            c)
          (record {
            owner = λ j. if str_eq id j then none else d.owner j;
            has_peer = λ k j. if (i == k) && str_eq id j then false else d.has_peer k j;
          })
  unfolding get_client
  leaves-gone i id c d v =
      let w = instance_at E i c in
      let w' = record w {
        clients = E.fast_map.remove id w.clients;
        redis = (del_local_peer E.cmdable E.big_cache id w.redis).1;
      } in
      let wrote = del_local_peer-Written E.cmdable E.big_cache keys id w.redis (v.alive i) in
      let each = λ (P : ℕ → World E → Type 0). put_instance-each P i w' c in
      let gone : (j : Bytes)
          → is_some (get_client E j w')
            ≡ (if (i == i) && str_eq id j then false else d.has_peer i j) =
        λ j. ground (arith, E.fast_map.get-remove id j w.clients, v.peers i j) in
      record {
        alive = each (λ k u. u.redis.is_alive ≡ true) wrote.alive (λ k other. v.alive k);
        own_addr =
            each (λ k u. u.redis.self_addr ≡ addr k) (wrote.same ∙ v.own_addr i)
              (λ k other. v.own_addr k);
        own_name = λ k q.
            each (λ k u. (u.heap q).peer_id ≡ name k q) (v.own_name i q) (λ k other. v.own_name k q)
              k;
        owners = λ j. wrote.values j ∙ rw (v.owners j) refl;
        peers = λ k j.
            each
              (λ k u.
                is_some (get_client E j u)
                ≡ (if (i == k) && str_eq id j then false else d.has_peer k j))
              (gone j) (λ k other. rw other (v.peers k j)) k;
      }

  -- An instance of which only the state of Redis has changed, and no value there.
  pub redis-Agrees :
      (i : ℕ) (s : RedisState E.cmdable E.big_cache) (c : Cluster E) (d : Directory)
      → Agrees c d
      → s.is_alive ≡ true
      → s.self_addr ≡ (c.instances i).redis.self_addr
      → ((j : Bytes) → keys.value (key_for_peer_id j) s.db ≡ keys.value (key_for_peer_id j) c.db)
      → Agrees (put_instance E i (record (instance_at E i c) { redis = s }) c) d
  unfolding get_client
  redis-Agrees i s c d v alive same values =
      let w = record (instance_at E i c) { redis = s } in
      let each = λ (P : ℕ → World E → Type 0). put_instance-each P i w c in
      record {
        alive = each (λ k u. u.redis.is_alive ≡ true) alive (λ k other. v.alive k);
        own_addr =
            each (λ k u. u.redis.self_addr ≡ addr k) (same ∙ v.own_addr i)
              (λ k other. v.own_addr k);
        own_name = λ k q.
            each (λ k u. (u.heap q).peer_id ≡ name k q) (v.own_name i q) (λ k other. v.own_name k q)
              k;
        owners = λ j. values j ∙ v.owners j;
        peers = λ k j.
            each (λ k u. is_some (get_client E j u) ≡ d.has_peer k j) (v.peers i j)
              (λ k other. v.peers k j) k;
      }

  leaves-Agrees :
      (i : ℕ) (id : Bytes) (c : Cluster E) (d : Directory)
      → Agrees c d
      → Agrees (step E (leaves i id) c) (enter addr name (leaves i id) d)
  unfolding step enter
  leaves-Agrees i id c d v =
      let left = do_unregister_cases id (instance_at E i c) in
      let here : is_some (get_client E id (instance_at E i c)) ≡ d.has_peer i id =
        unfold get_client in v.peers i id in
      elim (Bool-cases (not (str_eq id []) && d.has_peer i id)) [
        | inl mine ↦ rw (left, here, mine) (leaves-gone i id c d v)
        | inr other ↦
            rw (left, here, other)
              (redis-Agrees i (instance_at E i c).redis c d v (v.alive i) refl (λ j. refl))
      ]

  renews-Agrees :
      (i : ℕ) (id : Bytes) (c : Cluster E) (d : Directory)
      → Agrees c d
      → Agrees (step E (renews i id) c) (enter addr name (renews i id) d)
  unfolding step enter
  renews-Agrees i id c d v =
      let s = (instance_at E i c).redis in
      let s' = (update_local_peer_expiration E.cmdable E.big_cache id s).1 in
      let wrote = renewed-Written E.cmdable E.big_cache keys id s (v.alive i) in
      redis-Agrees i s' c d v wrote.alive wrote.same wrote.values

  Step-Agrees :
      (e : Event) (c : Cluster E) (d : Directory)
      → Agrees c d
      → Agrees (step E e c) (enter addr name e d)
  Step-Agrees (joins i p) c d v = joins-Agrees i p c d v
  Step-Agrees (leaves i id) c d v = leaves-Agrees i id c d v
  Step-Agrees (renews i id) c d v = renews-Agrees i id c d v

  -- Whatever registrations and deregistrations the instances make, the addresses in Redis and the
  -- peers of each instance stay those of the directory.
  pub run-Agrees :
      (es : List Event) (c : Cluster E) (d : Directory)
      → Agrees c d
      → Agrees (run E es c) (enter_all addr name es d)
  unfolding run enter_all
  run-Agrees [] c d v = v
  run-Agrees (e ∷ es) c d v = run-Agrees es (step E e c) (enter addr name e d) (Step-Agrees e c d v)
