-- ===== src/Main/Sweep.antt =====
-- main.go: checkConns, which drops the clients that have not been heard of for too long, and keepAlive.
-- The clients of a shard are read at once, as GetChanByShard delivers them.
use cbsignal_redis.Base.{
  ℕ, ◌≡◌, refl, sym, ap, ◌∙◌, ◌≢◌, inl, inr, Bool, true, false, ◌&&◌, ◌||◌, not, Option, none, some,
  List, [], ◌∷◌, arith, ◌==◌, if◌then◌else◌, ==_iff, Bool-cases, Option-cases, All, Bytes, str_eq,
  eq_iff,
}
use cbsignal_redis.Client.{is_expired, Client}
use cbsignal_redis.Redis.{update_client_count}
use cbsignal_redis.World.{Env, World}
use cbsignal_redis.Hub.{get_client_count, get_client, do_unregister, close, drop_client}
use cbsignal_redis.Hub.Registry.{do_unregister_lem, drop_client-IsSound, drop_client_lem, IsSound}

-- Whether a client is in a list.
abbrev pub listed : ℕ → List ℕ → Bool
listed p [] = false
listed p (q ∷ l) = (q == p) || listed p l

module _ (E : Env) where
  -- The body of checkConns' loop over a shard's clients, and the loop; `now` is read before it.
  unfoldable pub check_conn : ℕ → ℕ → World E → World E
  check_conn now cli w =
      if is_expired now (w.heap cli) then (drop_client E (w.heap cli).peer_id cli w).1 else w

  unfoldable pub check_conns : ℕ → List ℕ → World E → World E
  check_conns now [] w = w
  check_conns now (cli ∷ shard) w = check_conns now shard (check_conn now cli w)

  unfoldable pub keep_alive : World E → World E
  keep_alive w =
      if w.redis.is_alive
      then record w {
        redis = (update_client_count E.cmdable E.big_cache (get_client_count E w) w.redis).1;
      }
      else w

  check_conn-IsSound : (now cli : ℕ) (w : World E) → IsSound E w → IsSound E (check_conn now cli w)
  unfolding check_conn
  check_conn-IsSound now cli w v = elim (Bool-cases (is_expired now (w.heap cli))) [
    | inl old ↦ rw old (drop_client-IsSound E (w.heap cli).peer_id cli w v)
    | inr live ↦ rw live v
  ]

  -- A sweep keeps every client that is left registered under its own id.
  check_conns-IsSound :
      (now : ℕ) (shard : List ℕ) (w : World E) → IsSound E w → IsSound E (check_conns now shard w)
  unfolding check_conns
  check_conns-IsSound now [] w v = v
  check_conns-IsSound now (cli ∷ shard) w v =
      check_conns-IsSound now shard (check_conn now cli w) (check_conn-IsSound now cli w v)

  named_match : (a id : Bytes) → id ≢ [] → (not (str_eq a []) && str_eq a id) ≡ str_eq a id
  unfolding str_eq
  named_match [] [] named = absurd (named refl)
  named_match [] (x ∷ id) named = refl
  named_match (x ∷ a) id named = refl

  closed_lem :
      (done : Bool) (j : Bytes) (p : ℕ) (w : World E)
      → let w' = if done then close E p w else w in
        (get_client E j w' ≡ get_client E j w) × ((q : ℕ) → w'.heap q ≡ w.heap q)
  unfolding close get_client
  closed_lem true j p w = (refl, λ q. refl)
  closed_lem false j p w = (refl, λ q. refl)

  drop_client_any :
      (id j : Bytes) (p : ℕ) (w : World E)
      → let w' = (drop_client E id p w).1 in
        (get_client E j w' ≡ (if not (str_eq id []) && str_eq id j then none else get_client E j w))
        × ((q : ℕ) → w'.heap q ≡ w.heap q)
  unfolding drop_client
  drop_client_any id j p w =
      let (done, others, same) = do_unregister_lem E id w in
      let (here, heap) = closed_lem (do_unregister E id w).0 j p (do_unregister E id w).1 in
      (
        here ∙ others j ∙ ground (arith, done, eq_iff id j, Option-cases (get_client E j w)),
        λ q. heap q ∙ same q,
      )

  check_conn_any :
      (now cli : ℕ) (id : Bytes) (w : World E)
      → id ≢ []
      → let w' = check_conn now cli w in
        (get_client E id w' ≡ (
          if is_expired now (w.heap cli) && str_eq (w.heap cli).peer_id id
          then none
          else get_client E id w))
        × ((q : ℕ) → w'.heap q ≡ w.heap q)
  unfolding check_conn
  check_conn_any now cli id w named = elim (Bool-cases (is_expired now (w.heap cli))) [
    | inl old ↦
        let (gone, same) = drop_client_any (w.heap cli).peer_id id cli w in
        rw old (gone ∙ rw (named_match (w.heap cli).peer_id id named) refl, same)
    | inr live ↦ rw live (refl, λ q. refl)
  ]

  -- In a sound world the sweep's look at a registered client takes the client's registration away
  -- exactly if the client has expired, and no other registration.
  check_conn_lem :
      (now cli : ℕ) (id : Bytes) (w : World E)
      → IsSound E w
      → id ≢ []
      → get_client E id w ≡ some cli
      → (j : Bytes)
      → get_client E j (check_conn now cli w)
        ≡ (if is_expired now (w.heap cli) && str_eq id j then none else get_client E j w)
  unfolding check_conn
  check_conn_lem now cli id w v named here j = elim (Bool-cases (is_expired now (w.heap cli))) [
    | inl old ↦
        let own : (w.heap cli).peer_id ≡ id = v.own_id id cli here in
        rw (old, ap (λ k. (drop_client E k cli w).1) own)
          ((drop_client_lem E id cli cli w named here).0 j)
    | inr live ↦ rw live refl
  ]

  -- Whether one of the clients has expired and has the id.
  abbrev overdue : ℕ → (ℕ → Client) → Bytes → List ℕ → Bool
  overdue now heap id [] = false
  overdue now heap id (cli ∷ shard) =
      is_expired now (heap cli) && str_eq (heap cli).peer_id id || overdue now heap id shard

  overdue-same :
      (now : ℕ) (heap heap' : ℕ → Client) (id : Bytes) (shard : List ℕ)
      → ((q : ℕ) → heap' q ≡ heap q)
      → overdue now heap' id shard ≡ overdue now heap id shard
  overdue-same now heap heap' id [] same = refl
  overdue-same now heap heap' id (cli ∷ shard) same =
      rw (same cli, overdue-same now heap heap' id shard same) refl

  check_conns_any :
      (now : ℕ) (id : Bytes) (shard : List ℕ) (w : World E)
      → id ≢ []
      → get_client E id (check_conns now shard w)
        ≡ (if overdue now w.heap id shard then none else get_client E id w)
  unfolding check_conns
  check_conns_any now id [] w named = refl
  check_conns_any now id (cli ∷ shard) w named =
      let (first, same) = check_conn_any now cli id w named in
      check_conns_any now id shard (check_conn now cli w) named
      ∙ rw (overdue-same now w.heap (check_conn now cli w).heap id shard same, first) (ground arith)

  same_client :
      (id : Bytes) (p cli : ℕ) (w : World E)
      → IsSound E w
      → get_client E id w ≡ some p
      → get_client E (w.heap cli).peer_id w ≡ some cli
      → str_eq (w.heap cli).peer_id id ≡ (cli == p)
  same_client id p cli w v here mine = elim (Bool-cases (cli == p)) [
    | inl same ↦
        let at : cli ≡ p = (==_iff cli p).0 same in
        rw same ((eq_iff (w.heap cli).peer_id id).1 (rw at (v.own_id id p here)))
    | inr other ↦ elim (Bool-cases (str_eq (w.heap cli).peer_id id)) [
      | inl match ↦
          let own : (w.heap cli).peer_id ≡ id = (eq_iff (w.heap cli).peer_id id).0 match in
          let again : ◌≡◌ {A = Option ℕ} (some cli) (some p) = sym mine ∙ rw own here in
          ground (arith, again, other)
      | inr apart ↦ rw (other, apart) refl
    ]
  ]

  overdue_registered :
      (now : ℕ) (id : Bytes) (p : ℕ) (shard : List ℕ) (w : World E)
      → IsSound E w
      → get_client E id w ≡ some p
      → All (λ cli. get_client E (w.heap cli).peer_id w ≡ some cli) shard
      → overdue now w.heap id shard ≡ (is_expired now (w.heap p) && listed p shard)
  overdue_registered now id p [] w v here all = ground arith
  overdue_registered now id p (cli ∷ shard) w v here (mine, all) =
      let rest = overdue_registered now id p shard w v here all in
      let own = same_client id p cli w v here mine in
      elim (Bool-cases (cli == p)) [
        | inl same ↦
            let at : cli ≡ p = (==_iff cli p).0 same in rw (own, same, at, rest) (ground arith)
        | inr other ↦ rw (own, other, rest) (ground arith)
      ]

  -- In a sound world the sweep over registered clients of a shard takes away the registration of each
  -- of them that has expired, and no other: a client registered under a non-empty id still is,
  -- unless it has expired and is one of them.
  pub check_conns_lem :
      (now : ℕ) (shard : List ℕ) (id : Bytes) (p : ℕ) (w : World E)
      → IsSound E w
      → All (λ cli. get_client E (w.heap cli).peer_id w ≡ some cli) shard
      → id ≢ []
      → get_client E id w ≡ some p
      → get_client E id (check_conns now shard w)
        ≡ (if is_expired now (w.heap p) && listed p shard then none else some p)
  check_conns_lem now shard id p w v all named here =
      check_conns_any now id shard w named
      ∙ rw (overdue_registered now id p shard w v here all, here) refl
