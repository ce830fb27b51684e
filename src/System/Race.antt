-- ===== src/System/Race.antt =====
-- hub.go, main.go, client.go: two goroutines that drop the same client, as the sweep and the end of its
-- reader may. The test and the removal of DoUnregister and the client's Close are three steps here.
use cbsignal_redis.Base.{
  ℕ, suc, ◌≡◌, refl, ap, ◌∙◌, ◌≢◌, inl, inr, Bool, true, false, ◌&&◌, not, none, some, List, [],
  ◌∷◌, if◌then◌else◌, Bool-cases, Bytes, str_eq, str_eq_refl,
}
use cbsignal_redis.World.{Env, World}
use cbsignal_redis.Redis.{del_local_peer}
use cbsignal_redis.Hub.{
  get_client, do_register, do_unregister, close, drop_client, allocate_from, allocate,
}
use cbsignal_redis.Hub.Registry.{registered_id}
use cbsignal_redis.Main.Websocket.{join_ws}
use cbsignal_redis.System.Reuse.{join_ws_at}

-- Where a goroutine stands in `if ok := DoUnregister(id); ok { c.Close() }`.
pub data Phase : Type 0 where
  tests removes closes ended : Phase

-- Both make the test before either removes the id.
abbrev pub both_test : List Bool
both_test = true ∷ false ∷ true ∷ false ∷ true ∷ false ∷ []

module _ (E : Env) (id : Bytes) (p : ℕ) where
  unfoldable pub drop_step : Phase → World E → Phase × World E
  drop_step tests w =
      (if not (str_eq id []) && E.fast_map.has id w.clients then removes else ended, w)
  drop_step removes w = (
    closes,
    record w {
      clients = E.fast_map.remove id w.clients;
      redis = (del_local_peer E.cmdable E.big_cache id w.redis).1;
    },
  )
  drop_step closes w = (ended, close E p w)
  drop_step ended w = (ended, w)

  -- The steps of two goroutines: true stands for one of the first.
  unfoldable pub interleave : List Bool → Phase → Phase → World E → World E
  interleave [] a b w = w
  interleave (first ∷ schedule) a b w =
      let (a', u) = drop_step a w in
      let (b', v) = drop_step b w in
      let by_first = interleave schedule a' b u in
      let by_second = interleave schedule a b' v in if first then by_first else by_second

  -- One that runs alone drops the client.
  alone :
      (b : Phase) (w : World E)
      → interleave (true ∷ true ∷ true ∷ []) tests b w ≡ (drop_client E id p w).1
  unfolding interleave drop_step drop_client do_unregister
  alone b w = elim (Bool-cases (str_eq id [])) [
    | inl empty ↦ simp empty refl
    | inr filled ↦ elim (Bool-cases (E.fast_map.has id w.clients)) [
      | inl here ↦ simp (filled, here) refl
      | inr missing ↦ simp (filled, missing) refl
    ]
  ]

  both_close :
      (w : World E)
      → id ≢ []
      → get_client E id w ≡ some p
      → let w' = interleave both_test tests tests w in
        (get_client E id w' ≡ none) × (w'.pool ≡ p ∷ p ∷ w.pool) × (w'.gets ≡ w.gets)
  unfolding interleave drop_step close get_client
  both_close w named here =
      let listed : E.fast_map.has id w.clients ≡ true =
        rw (E.fast_map.has-get id w.clients, here) refl in
      simp (registered_id E id named, listed)
        (
          E.fast_map.get-remove id id (E.fast_map.remove id w.clients) ∙ rw (str_eq_refl id) refl,
          refl,
          refl,
        )

-- What a new websocket client leaves of the pool.
pool-join_ws :
    (E : Env) (id : Bytes) (conn p : ℕ) (rest : List ℕ) (w : World E)
    → E.pool_get w.gets w.pool ≡ some (p, rest)
    → let w' = (join_ws E id conn w).1 in (w'.pool ≡ rest) × (w'.gets ≡ suc w.gets)
unfolding join_ws allocate allocate_from do_register
pool-join_ws E id conn p rest w chosen = rw (chosen, join_ws, allocate, allocate_from) (refl, refl)

-- Two goroutines drop the client of a registered id, and both make the test before either removes the id:
-- the id is unregistered, but the pool then holds the client twice. If it gives out what was put in last,
-- two new peers get that one client: both ids are registered for it, with the id and the connection of
-- the second.
pub double_drop-shares :
    (E : Env) (id one two : Bytes) (p conn conn' : ℕ) (w : World E)
    → id ≢ []
    → get_client E id w ≡ some p
    → E.pool_get w.gets (p ∷ p ∷ w.pool) ≡ some (p, p ∷ w.pool)
    → E.pool_get (suc w.gets) (p ∷ w.pool) ≡ some (p, w.pool)
    → let dropped = interleave E id p both_test tests tests w in
      let w' = (join_ws E two conn' (join_ws E one conn dropped).1).1 in
      (get_client E one w' ≡ some p)
      × (get_client E two w' ≡ some p)
      × ((w'.heap p).peer_id ≡ two)
      × ((w'.heap p).conn ≡ conn')
double_drop-shares E id one two p conn conn' w named here chosen chosen' =
    let dropped = interleave E id p both_test tests tests w in
    let (gone, pooled, gets) = both_close E id p w named here in
    let first : E.pool_get dropped.gets dropped.pool ≡ some (p, p ∷ w.pool) =
      rw (gets, pooled) chosen in
    let u = (join_ws E one conn dropped).1 in
    let (pooled', gets') = pool-join_ws E one conn p (p ∷ w.pool) dropped first in
    let (_, registered, _, _) = join_ws_at E one conn p (p ∷ w.pool) dropped first in
    let second : E.pool_get u.gets u.pool ≡ some (p, w.pool) =
      rw (gets' ∙ ap suc gets, pooled') chosen' in
    let (_, registered', own, over) = join_ws_at E two conn' p w.pool u second in
    (
      registered' one ∙ elim (Bool-cases (str_eq two one)) [
        | inl same ↦ rw same refl
        | inr unlike ↦ rw (unlike, registered one, str_eq_refl one) refl
      ],
      registered' two ∙ rw (str_eq_refl two) refl,
      own,
      over,
    )
