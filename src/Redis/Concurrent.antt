-- ===== src/Redis/Concurrent.antt =====
-- redis.go: SetLocalPeer, DelLocalPeer and UpdateLocalPeerExpiration as goroutines run them: the test of
-- IsAlive, the command and what follows its answer are three steps, and others come between them.
use cbsignal_redis.Base.{
  ℕ, zero, suc, ◌<◌, ◌≡◌, refl, Bool, true, false, List, [], ◌∷◌, ◌++◌, arith, Bytes,
}
use cbsignal_redis.Errors.{GoError, Result, ok, err}
use cbsignal_redis.Redis.{
  peer_expire_duration, key_for_peer_id, call, take_a_break, wake, break_on_error, set_local_peer,
  del_local_peer, update_local_peer_expiration, Cmdable, BigCache, RedisState,
}
use cbsignal_redis.Redis.Breaker.{IsBreaker, handle, Write, sets, dels, expires}

module _ (C : Cmdable) (B : BigCache) where
  -- The command of a call that has passed the test.
  unfoldable pub command : Write → RedisState C B → Result (Unit {0}) × RedisState C B
  command (sets id) s = call C B (C.set (key_for_peer_id id) s.self_addr peer_expire_duration) s
  command (dels id) s = call C B (C.del (key_for_peer_id id)) s
  command (expires id) s = call C B (C.expire (key_for_peer_id id) peer_expire_duration) s

  -- What the call does with the answer.
  unfoldable pub settle : Write → Result (Unit {0}) → RedisState C B → RedisState C B
  settle (sets id) (err e) s = take_a_break C B s
  settle (dels id) (err e) s = take_a_break C B s
  settle (expires id) (err e) s = s
  settle w (ok u) s = s

  break_settles :
      (id : Bytes) (r : Result (Unit {0})) (s : RedisState C B)
      → (break_on_error C B (r, s) ≡ (r, settle (sets id) r s))
        × (break_on_error C B (r, s) ≡ (r, settle (dels id) r s))
  unfolding break_on_error settle
  break_settles id (ok u) s = (refl, refl)
  break_settles id (err e) s = (refl, refl)

  expire_settles :
      (id : Bytes) (r : Result (Unit {0})) (s : RedisState C B) → settle (expires id) r s ≡ s
  unfolding settle
  expire_settles id (ok u) s = refl
  expire_settles id (err e) s = refl

  -- A call that passes the test and that nothing interrupts is its three steps.
  handle_lem :
      (w : Write) (s : RedisState C B)
      → s.is_alive ≡ true
      → handle C B w s ≡ (let (r, s') = command w s in (r, settle w r s'))
  unfolding command set_local_peer del_local_peer update_local_peer_expiration
  handle_lem (sets id) s alive = simp alive (break_settles id _ _).0
  handle_lem (dels id) s alive = simp alive (break_settles id _ _).1
  handle_lem (expires id) s alive = simp (alive, expire_settles id) refl

  -- The calls that have passed the test and those that have their answer.
  pub record Calls : Type 0 where
    pub redis : RedisState C B
    pub passed : List Write
    pub answered : List (Write × Result (Unit {0}))

  pub data Step : Calls → Calls → Type 0 where
    passes :
        (c : Calls) (w : Write)
        → c.redis.is_alive ≡ true
        → Step c (record c { passed = w ∷ c.passed })
    asks :
        (c : Calls) (before after : List Write) (w : Write)
        → c.passed ≡ before ++ w ∷ after
        → Step c (record c {
          redis = (command w c.redis).1;
          passed = before ++ after;
          answered = (w, (command w c.redis).0) ∷ c.answered;
        })
    settles :
        (c : Calls) (before after : List (Write × Result (Unit {0}))) (w : Write)
        (r : Result (Unit {0}))
        → c.answered ≡ before ++ (w, r) ∷ after
        → Step c (record c { redis = settle w r c.redis; answered = before ++ after })
    -- a break's sleep ends
    wakes : (c : Calls) → 0 < c.redis.breaks → Step c (record c { redis = wake C B c.redis })
    -- others use the server and the cache
    elapses :
        (c : Calls) (s : RedisState C B)
        → s.is_alive ≡ c.redis.is_alive
        → s.breaks ≡ c.redis.breaks
        → Step c (record c { redis = s })

  -- From a start with no break and no call.
  pub data Reach : Calls → Type 0 where
    started :
        (s : RedisState C B)
        → s.is_alive ≡ true
        → s.breaks ≡ 0
        → Reach (record { redis = s; passed = []; answered = [] })
    next : {c c' : Calls} → Reach c → Step c c' → Reach c'

  abbrev IsAwaited : RedisState C B → Type 0
  IsAwaited s = s.is_alive ≡ false → 0 < s.breaks

  command-keeps :
      (w : Write) (s : RedisState C B)
      → ((command w s).1.is_alive ≡ s.is_alive) × ((command w s).1.breaks ≡ s.breaks)
  unfolding command
  command-keeps (sets id) s = (refl, refl)
  command-keeps (dels id) s = (refl, refl)
  command-keeps (expires id) s = (refl, refl)

  settle-IsAwaited :
      (w : Write) (r : Result (Unit {0})) (s : RedisState C B)
      → IsAwaited s
      → IsAwaited (settle w r s)
  unfolding settle take_a_break
  settle-IsAwaited (sets id) (err e) s v = λ dead. omega arith
  settle-IsAwaited (dels id) (err e) s v = λ dead. omega arith
  settle-IsAwaited (expires id) (err e) s v = v
  settle-IsAwaited (sets id) (ok u) s v = v
  settle-IsAwaited (dels id) (ok u) s v = v
  settle-IsAwaited (expires id) (ok u) s v = v

  Step-IsAwaited : {c c' : Calls} → Step c c' → IsAwaited c.redis → IsAwaited c'.redis
  unfolding wake
  Step-IsAwaited (passes c w alive) v = v
  Step-IsAwaited (asks c before after w e) v =
      let (alive, breaks) = command-keeps w c.redis in λ dead. rw breaks (v (rw alive at dead))
  Step-IsAwaited (settles c before after w r e) v = settle-IsAwaited w r c.redis v
  Step-IsAwaited (wakes c some_sleep) v = λ dead. cc
  Step-IsAwaited (elapses c s alive breaks) v = λ dead. rw breaks (v (rw alive at dead))

  Reach-IsAwaited : {c : Calls} → Reach c → IsAwaited c.redis
  Reach-IsAwaited (started s alive none_sleeps) = λ dead. cc
  Reach-IsAwaited (next r s) = Step-IsAwaited s (Reach-IsAwaited r)

  -- The ends of `n` breaks.
  abbrev pub wake_all : ℕ → RedisState C B → RedisState C B
  wake_all zero s = s
  wake_all (suc n) s = wake_all n (wake C B s)

  wake_all_lem :
      (n : ℕ) (s : RedisState C B)
      → s.breaks ≡ n
      → IsAwaited s
      → ((wake_all n s).is_alive ≡ true) × ((wake_all n s).breaks ≡ 0)
  unfolding wake
  wake_all_lem zero s h v = (live s.is_alive v, h)
    where
      live : (b : Bool) → (b ≡ false → 0 < s.breaks) → b ≡ true
      live true v = refl
      live false v = absurd (let awaited = v refl in omega arith)
  wake_all_lem (suc n) s h v = wake_all_lem n (wake C B s) (omega arith) (λ dead. cc)

  -- However the steps of concurrent calls and the ends of breaks interleave, from a start with Redis
  -- alive, no break and no call: while Redis counts as dead a break sleeps, and when all breaks that
  -- sleep have ended, Redis counts as alive and none sleeps.
  pub reached-recovers :
      {c : Calls}
      → Reach c
      → (c.redis.is_alive ≡ false → 0 < c.redis.breaks)
        × ((wake_all c.redis.breaks c.redis).is_alive ≡ true)
        × ((wake_all c.redis.breaks c.redis).breaks ≡ 0)
  reached-recovers {c} r =
      let v = Reach-IsAwaited r in
      let (alive, rested) = wake_all_lem c.redis.breaks c.redis refl v in (v, alive, rested)

  pub data Steps : Calls → Calls → Type 0 where
    none_more : {c : Calls} → Steps c c
    one_more : {c d e : Calls} → Steps c d → Step d e → Steps c e

  refused_breaks :
      (w : Write) (e : GoError) (s : RedisState C B)
      → IsBreaker w
      → settle w (err e) s ≡ take_a_break C B s
  unfolding settle
  refused_breaks (sets id) e s b = refl
  refused_breaks (dels id) e s b = refl
  refused_breaks (expires id) e s b = elim b [ ]

  -- Two calls of SetLocalPeer or DelLocalPeer that both make the test before Redis refuses either take a
  -- break each: there are steps after which the first of the breaks has ended and Redis counts as
  -- alive, while the other break still sleeps.
  pub overlapping_breaks :
      (c : Calls) (w w' : Write) (e e' : GoError)
      → IsBreaker w
      → IsBreaker w'
      → c.redis.is_alive ≡ true
      → (command w c.redis).0 ≡ err e
      → (command w' (command w c.redis).1).0 ≡ err e'
      → (last : Calls) × Steps c last
        × (last.redis.is_alive ≡ true)
        × (last.redis.breaks ≡ suc c.redis.breaks)
  overlapping_breaks c w w' e e' b b' alive refused refused' =
      let s = (command w c.redis).1 in
      let asked : Calls = record {
        redis = (command w' s).1;
        passed = c.passed;
        answered = (w', (command w' s).0) ∷ (w, (command w c.redis).0) ∷ c.answered;
      } in
      let settled : Calls = record {
        redis = settle w (err e) asked.redis;
        passed = c.passed;
        answered = (w', (command w' s).0) ∷ c.answered;
      } in
      let broken = settle w' (err e') settled.redis in
      let (_, same) = command-keeps w c.redis in
      let (_, same') = command-keeps w' s in
      let two : broken.breaks ≡ suc (suc c.redis.breaks) =
        unfold take_a_break in
        rw (refused_breaks w' e' settled.redis b', refused_breaks w e asked.redis b, same', same)
          refl in
      let before : Calls = record { redis = broken; passed = c.passed; answered = c.answered } in
      (
        record before { redis = wake C B broken },
        one_more
            (one_more
              (one_more
                (one_more
                  (one_more (one_more (one_more none_more (passes c w alive)) (passes _ w' alive))
                    (asks _ (w' ∷ []) c.passed w refl))
                  (asks _ [] c.passed w' refl))
                (settles asked ((w', (command w' s).0) ∷ []) c.answered w (err e)
                  (rw refused refl)))
              (settles settled [] c.answered w' (err e') (rw refused' refl)))
            (wakes before (omega arith)),
        unfold wake in refl,
        unfold wake in omega arith,
      )
