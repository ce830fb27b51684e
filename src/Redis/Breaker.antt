-- ===== src/Redis/Breaker.antt =====
-- redis.go: the calls that a break holds back, and the key spaces.
use cbsignal_redis.Base.{
  ℕ, ◌≡◌, refl, ap, ◌≢◌, Bool, true, false, not, List, [], ◌∷◌, map, arith, if◌then◌else◌, get_or,
  drop, Bytes,
}
use cbsignal_redis.Errors.{GoError, Result, redis_not_alive, ok, err}
use cbsignal_redis.Redis.{
  key_for_peer_id, key_for_mq, key_for_stats, take_a_break, break_on_error, set_local_peer,
  del_local_peer, update_local_peer_expiration, Cmdable, BigCache, RedisState,
}

apart_at : (n : ℕ) (s t : Bytes) → get_or s n 0 ≢ get_or t n 0 → s ≢ t
apart_at n s t h e = h (ap (λ (l : Bytes). get_or l n 0) e)

-- The peer keys, the queues and the counts never share a key, and no two peers or nodes do.
pub keys_apart :
    (a b : Bytes)
    → (key_for_peer_id a ≢ key_for_mq b)
      × (key_for_peer_id a ≢ key_for_stats b)
      × (key_for_mq a ≢ key_for_stats b)
      × (key_for_peer_id a ≡ key_for_peer_id b → a ≡ b)
      × (key_for_mq a ≡ key_for_mq b → a ≡ b)
      × (key_for_stats a ≡ key_for_stats b → a ≡ b)
unfolding key_for_peer_id key_for_mq key_for_stats
keys_apart a b = (
  apart_at 7 (key_for_peer_id a) (key_for_mq b) (omega arith),
  apart_at 7 (key_for_peer_id a) (key_for_stats b) (omega arith),
  apart_at 7 (key_for_mq a) (key_for_stats b) (omega arith),
  λ e. ap (drop 14) e,
  λ e. ap (drop 10) e,
  λ e. ap (drop 19) e,
)

-- The calls that test IsAlive.
pub data Write : Type 0 where
  sets dels expires : Bytes → Write

-- Those that take a break when Redis refuses them.
abbrev pub IsBreaker : Write → Type 0
IsBreaker (sets id) = Unit
IsBreaker (dels id) = Unit
IsBreaker (expires id) = ⊥

module _ (C : Cmdable) (B : BigCache) where
  -- A call that nothing interrupts.
  abbrev pub handle : Write → RedisState C B → Result (Unit {0}) × RedisState C B
  handle (sets id) s = set_local_peer C B id s
  handle (dels id) s = del_local_peer C B id s
  handle (expires id) s = update_local_peer_expiration C B id s

  -- Calls one after the other: their answers, and the state after them.
  abbrev pub run : List Write → RedisState C B → List (Result (Unit {0})) × RedisState C B
  run [] s = ([], s)
  run (w ∷ ws) s = let (r, s') = handle w s in let (rs, s'') = run ws s' in (r ∷ rs, s'')

  guarded_off :
      (live : Bool) (s : RedisState C B) (r : Result (Unit {0}) × RedisState C B)
      → live ≡ false
      → (if not live then (err redis_not_alive, s) else r) ≡ (err redis_not_alive, s)
  guarded_off true s r h = cc
  guarded_off false s r h = refl

  held_back :
      (w : Write) (s : RedisState C B) → s.is_alive ≡ false → handle w s ≡ (err redis_not_alive, s)
  unfolding set_local_peer del_local_peer update_local_peer_expiration
  held_back (sets id) s dead = guarded_off s.is_alive s _ dead
  held_back (dels id) s dead = guarded_off s.is_alive s _ dead
  held_back (expires id) s dead = guarded_off s.is_alive s _ dead

  runs_held_back :
      (ws : List Write) (s : RedisState C B)
      → s.is_alive ≡ false
      → run ws s ≡ (map (λ w. err redis_not_alive) ws, s)
  runs_held_back [] s dead = refl
  runs_held_back (w ∷ ws) s dead = rw (held_back w s dead, runs_held_back ws s dead) refl

  broken_is_dead :
      (r : Result (Unit {0}) × RedisState C B) (e : GoError)
      → (break_on_error C B r).0 ≡ err e
      → (break_on_error C B r).1.is_alive ≡ false
  unfolding break_on_error take_a_break
  broken_is_dead (ok u, s) e h = ground (arith, h)
  broken_is_dead (err x, s) e h = refl

  dead_after :
      (w : Write) (s : RedisState C B) (e : GoError)
      → IsBreaker w
      → s.is_alive ≡ true
      → (handle w s).0 ≡ err e
      → (handle w s).1.is_alive ≡ false
  unfolding set_local_peer del_local_peer
  dead_after (sets id) s e b alive refused = simp alive (broken_is_dead _ e (simp alive at refused))
  dead_after (dels id) s e b alive refused = simp alive (broken_is_dead _ e (simp alive at refused))
  dead_after (expires id) s e b alive refused = elim b [ ]

  -- After a SetLocalPeer or a DelLocalPeer that Redis refuses, and before a break ends, any calls of
  -- SetLocalPeer, DelLocalPeer and UpdateLocalPeerExpiration, one after the other, all answer that
  -- Redis is not alive, and leave the whole state as it is.
  pub break_shields :
      (w : Write) (ws : List Write) (s : RedisState C B) (e : GoError)
      → IsBreaker w
      → s.is_alive ≡ true
      → (handle w s).0 ≡ err e
      → let s' = (handle w s).1 in run ws s' ≡ (map (λ v. err redis_not_alive) ws, s')
  break_shields w ws s e b alive refused =
      runs_held_back ws (handle w s).1 (dead_after w s e b alive refused)
