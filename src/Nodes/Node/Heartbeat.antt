-- ===== src/Nodes/Node/Heartbeat.antt =====
-- node.go: StartHeartbeat. Each round sees Redis in a state of its own, which other instances change.
use native.Mathlib.Decide.{ℕ_discrete}
use cbsignal_redis.Base.{
  ℕ, zero, suc, ◌≤◌, ◌≡◌, refl, ap, ◌∙◌, inl, inr, Bool, true, false, ◌&&◌, ◌||◌, List, [], ◌∷◌,
  ◌++◌, map, arith, if◌then◌else◌, Bool-cases, replicate, Bytes,
}
use cbsignal_redis.Errors.{Result, ok, err}
use cbsignal_redis.Redis.{get_node_client_count, Cmdable, BigCache, RedisState}
use cbsignal_redis.Nodes.Node.{new_node, ping_failed, ping_answered, ping, gives_up, die, Node}

-- Whether a list begins with `n` times true.
abbrev starts : ℕ → List Bool → Bool
starts zero l = true
starts (suc n) [] = false
starts (suc n) (b ∷ l) = b && starts n l

-- Whether three in a row are true.
abbrev pub three_in_a_row : List Bool → Bool
three_in_a_row [] = false
three_in_a_row (b ∷ l) = starts 3 (b ∷ l) || three_in_a_row l

short_streak : (n : ℕ) → n ≤ 2 → three_in_a_row (replicate n true ++ []) ≡ false
short_streak zero h = refl
short_streak (suc zero) h = refl
short_streak (suc (suc zero)) h = refl
short_streak (suc (suc (suc n))) h = absurd (omega arith)

streak_broken :
    (n : ℕ) (l : List Bool)
    → n ≤ 2
    → three_in_a_row (replicate n true ++ false ∷ l) ≡ three_in_a_row l
streak_broken zero l h = refl
streak_broken (suc zero) l h = refl
streak_broken (suc (suc zero)) l h = refl
streak_broken (suc (suc (suc n))) l h = absurd (omega arith)

streak_grows : (n : ℕ) (l : List Bool) → replicate n true ++ true ∷ l ≡ replicate (suc n) true ++ l
streak_grows zero l = refl
streak_grows (suc n) l = ap (◌∷◌ true) (streak_grows n l)

module _ (C : Cmdable) (B : BigCache) where
  -- The loop of StartHeartbeat, over the states in which its rounds find Redis, up to the test at the
  -- head of the round that follows them.
  unfoldable pub heartbeat : List (RedisState C B) → Node → Node
  heartbeat [] node = if gives_up C B node then die C B node else node
  heartbeat (s ∷ ss) node =
      let rest = heartbeat ss (ping C B node s).0 in
      if gives_up C B node then die C B node else rest

  abbrev is_err {ℓ} : {A : Type ℓ} → Result A → Bool
  is_err (ok a) = false
  is_err (err e) = true

  -- Whether the round that finds Redis in such a state fails.
  abbrev pub fails : Bytes → RedisState C B → Bool
  fails addr s = is_err (get_node_client_count C B addr s).0

  after_ping :
      (node : Node) (s : RedisState C B)
      → (ping C B node s).0.addr ≡ node.addr
        × ((ping C B node s).0.is_dead ≡ node.is_dead)
        × ((ping C B node s).0.ping_retrys
            ≡ (if fails node.addr s then suc node.ping_retrys else 0))
  unfolding ping ping_failed ping_answered
  after_ping node s = ground arith

  dead_when_given_up :
      (ss : List (RedisState C B)) (node : Node)
      → gives_up C B node ≡ true
      → (heartbeat ss node).is_dead ≡ true
  unfolding heartbeat
  dead_when_given_up [] node h = rw h
  dead_when_given_up (s ∷ ss) node h = rw h

  -- A node that has failed `n` times in a row so far.
  abbrev HasFailed : Bytes → ℕ → Node → Type 0
  HasFailed addr n node = (node.is_dead ≡ false) × (node.ping_retrys ≡ n) × (node.addr ≡ addr)

  module _ (addr : Bytes) where
    goes_on : (n : ℕ) (node : Node) → HasFailed addr n node → n ≤ 2 → gives_up C B node ≡ false
    unfolding gives_up
    goes_on n node h small = ground arith

    given_up : (node : Node) → HasFailed addr 3 node → gives_up C B node ≡ true
    unfolding gives_up
    given_up node h = ground arith

    fails_there :
        (n : ℕ) (node : Node) (s : RedisState C B)
        → HasFailed addr n node
        → fails node.addr s ≡ fails addr s
    fails_there n node s h = ap (λ (a : Bytes). fails a s) h.2

    failed_once_more :
        (n : ℕ) (node : Node) (s : RedisState C B)
        → HasFailed addr n node
        → fails addr s ≡ true
        → HasFailed addr (suc n) (ping C B node s).0
    failed_once_more n node s h f = ground (arith, after_ping node s, fails_there n node s h)

    recovered :
        (n : ℕ) (node : Node) (s : RedisState C B)
        → HasFailed addr n node
        → fails addr s ≡ false
        → HasFailed addr 0 (ping C B node s).0
    recovered n node s h f = ground (arith, after_ping node s, fails_there n node s h)

    -- Induction on the rounds left, after `n` failures in a row.
    dead_after_streak :
        (n : ℕ) (ss : List (RedisState C B)) (node : Node)
        → n ≤ 2
        → HasFailed addr n node
        → (heartbeat ss node).is_dead ≡ three_in_a_row (replicate n true ++ map (fails addr) ss)
    unfolding heartbeat
    dead_after_streak n [] node small h = rw (goes_on n node h small, short_streak n small) h.0
    dead_after_streak n (s ∷ ss) node small h = elim (Bool-cases (fails addr s)) [
      | inl failed ↦ elim (ℕ_discrete n 2) [
        | yes two ↦
            let third = failed_once_more 2 node s (h.0, h.1 ∙ two, h.2) failed in
            rw (goes_on n node h small, failed, two)
              (dead_when_given_up ss (ping C B node s).0 (given_up (ping C B node s).0 third))
        | no fewer ↦
            rw (goes_on n node h small, failed, streak_grows n (map (fails addr) ss))
              (dead_after_streak (suc n) ss (ping C B node s).0 (omega arith)
                (failed_once_more n node s h failed))
      ]
      | inr answered ↦
          rw (goes_on n node h small, answered, streak_broken n (map (fails addr) ss) small)
            (dead_after_streak 0 ss (ping C B node s).0 (omega arith)
              (recovered n node s h answered))
    ]

  -- The heartbeat of a new node marks it as dead exactly if three rounds in a row fail to read its
  -- count from Redis; a single answer starts the count of failures afresh.
  pub dead_iff_three :
      (addr : Bytes) (ss : List (RedisState C B))
      → (heartbeat ss (new_node addr)).is_dead ≡ three_in_a_row (map (fails addr) ss)
  unfolding new_node
  dead_iff_three addr ss =
      dead_after_streak addr 0 ss (new_node addr) (omega arith) (refl, refl, refl)
