-- ===== src/Main/Http/Answers.antt =====
-- main.go: what postHandler and pollingHandler answer, and what a refused request leaves as it was.
use mathlib.Core.List.{append_assoc}
use cbsignal_redis.Base.{
  ℕ, ◌-◌, ◌≡◌, refl, sym, ap, ◌∙◌, inl, inr, Bool, true, false, ◌&&◌, ◌||◌, Option, none, some,
  List, [], ◌∷◌, ◌++◌, arith, ltb, ◌==◌, Bool-cases, length, take, length-append, Bytes,
}
use cbsignal_redis.Base.Int.{ℤ}
use cbsignal_redis.Errors.{Result}
use cbsignal_redis.RateLimit.{Bucket}
use cbsignal_redis.World.{Env}
use cbsignal_redis.Hub.{store, get_client}
use cbsignal_redis.Handler.{SignalMsg, Others}
use cbsignal_redis.Main.{
  reject_join_cpu_threshold, is_authorized, check_limit, take_one, common_check, Settings, Server,
}
use cbsignal_redis.Main.Http.{
  write_messages, array_of, in_world, guarded, poll_queue, poll_client, polling_handler,
  post_handler, Request, Polled, status, body, aborted, answered, waiting,
}

-- Texts with a comma between them.
abbrev pub comma_separated : List Bytes → Bytes
comma_separated [] = []
comma_separated (msg ∷ []) = msg
comma_separated (msg ∷ next ∷ msgs) = msg ++ 44 ∷ comma_separated (next ∷ msgs)

write_messages_lem :
    (msg : Bytes) (msgs : List Bytes)
    → write_messages (msg ∷ msgs) ≡ comma_separated (msg ∷ msgs) ++ 44 ∷ []
unfolding write_messages
write_messages_lem msg [] = refl
write_messages_lem msg (next ∷ msgs) =
    ap (λ t. msg ++ 44 ∷ t) (write_messages_lem next msgs)
    ∙ sym (append_assoc msg (44 ∷ comma_separated (next ∷ msgs)) (44 ∷ []))

take_before : (xs : Bytes) (n : ℕ) → take (length xs) (xs ++ n ∷ []) ≡ xs
take_before [] n = refl
take_before (x ∷ xs) n = ap (◌∷◌ x) (take_before xs n)

take_all : (xs : Bytes) (n : ℕ) → take (length (xs ++ n ∷ []) - 1) (xs ++ n ∷ []) ≡ xs
take_all xs n =
    let less : length (xs ++ n ∷ []) - 1 ≡ length xs = ground (arith, length-append xs (n ∷ [])) in
    rw less (take_before xs n)

-- The body of a poll is a JSON array: the messages in the order of their sending, with commas between.
array_of_lem :
    (msg : Bytes) (msgs : List Bytes)
    → array_of (msg ∷ msgs) ≡ 91 ∷ comma_separated (msg ∷ msgs) ++ 93 ∷ []
unfolding array_of
array_of_lem msg msgs =
    rw (write_messages_lem msg msgs, take_all (91 ∷ comma_separated (msg ∷ msgs)) 44) refl

-- The answers of a request that is not served.
abbrev pub is_refusal : Polled → Bool
is_refusal (answered aborted) = true
is_refusal (answered (status code)) = code == 401 || code == 503
is_refusal (answered (body b)) = false
is_refusal (waiting p) = false

module _ (E : Env) where
  abbrev pub permits : Option (Bool × Server E) → Bool
  permits none = false
  permits (some (b, s')) = b

  unfoldable pub Kept : Server E → Option (Bool × Server E) → Type 0
  Kept s none = Unit
  Kept s (some (b, s')) = s'.world ≡ s.world

  check_limit-Kept : (s : Server E) (r : Option (ℤ × Bucket)) → Kept s (check_limit E s r)
  unfolding check_limit Kept
  check_limit-Kept s none = tt
  check_limit-Kept s (some (taken, bucket)) = refl

  pub common_check-Kept : (settings : Settings) (s : Server E) → Kept s (common_check E settings s)
  unfolding common_check
  common_check-Kept settings s =
      elim (Bool-cases (ltb reject_join_cpu_threshold settings.cpu_usage)) [
        | inl busy ↦ simp busy (unfold Kept in refl)
        | inr calm ↦ elim (Bool-cases s.world.redis.is_alive) [
          | inl alive ↦ elim (Bool-cases settings.limit_enabled) [
            | inl limited ↦
                simp (calm, alive, limited) (check_limit-Kept s (take_one E s.nanos s.limiter))
            | inr free ↦ simp (calm, alive, free) (unfold Kept in refl)
          ]
          | inr lost ↦ simp (calm, lost) (unfold Kept in refl)
        ]
      ]

  guarded_refused :
      (authorized : Bool) (serve : Server E → Polled × Server E) (r : Option (Bool × Server E))
      (s : Server E)
      → Kept s r
      → (permits r && authorized) ≡ false
      → let (a, s') = guarded E authorized serve r s in (is_refusal a ≡ true) × (s'.world ≡ s.world)
  unfolding guarded Kept
  guarded_refused authorized serve none s k h = (refl, refl)
  guarded_refused authorized serve (some (false, s')) s k h = (refl, k)
  guarded_refused false serve (some (true, s')) s k h = (refl, k)
  guarded_refused true serve (some (true, s')) s k h = cc

  -- A request that the load check or the check of its id and token refuses is answered with 401 or
  -- 503, or with nothing if the limiter panics, and changes nothing but the limiter.
  pub handlers-refused :
      (O : Others) (unmarshal : Bytes → Result (List SignalMsg)) (hmac_hex : Bytes → Bytes → Bytes)
      (settings : Settings) (r : Request) (s : Server E)
      → (permits (common_check E settings s)
          && is_authorized hmac_hex settings s.world.now r.id r.token)
        ≡ false
      → let (a, s') = post_handler E O unmarshal hmac_hex settings r s in
        let (b, t') = polling_handler E hmac_hex settings r s in
        ((is_refusal a ≡ true) × (s'.world ≡ s.world))
        × ((is_refusal b ≡ true) × (t'.world ≡ s.world))
  unfolding post_handler polling_handler
  handlers-refused O unmarshal hmac_hex settings r s h =
      let authorized = is_authorized hmac_hex settings s.world.now r.id r.token in
      let kept = common_check-Kept settings s in
      (
        guarded_refused authorized _ (common_check E settings s) s kept h,
        guarded_refused authorized _ (common_check E settings s) s kept h,
      )

  pub serve_queue :
      (id : Bytes) (p : ℕ) (msg : Bytes) (msgs : List Bytes) (s : Server E)
      → get_client E id s.world ≡ some p
      → (s.world.heap p).is_polling ≡ true
      → (s.world.heap p).msg_queue ≡ msg ∷ msgs
      → poll_client E id (get_client E id s.world) s ≡ (
        answered (body (array_of (msg ∷ msgs))),
        in_world E s (store E p (record (s.world.heap p) { msg_queue = [] }) s.world),
      )
  unfolding poll_client poll_queue
  serve_queue id p msg msgs s here polling queued =
      simp (here, poll_client, polling, queued, poll_queue) refl

  guarded_served :
      (authorized : Bool) (serve : Server E → Polled × Server E) (r : Option (Bool × Server E))
      (s : Server E)
      → Kept s r
      → permits r ≡ true
      → authorized ≡ true
      → (s' : Server E) × (s'.world ≡ s.world) × (guarded E authorized serve r s ≡ serve s')
  unfolding guarded Kept
  guarded_served authorized serve none s k h a = cc
  guarded_served authorized serve (some (false, s')) s k h a = cc
  guarded_served false serve (some (true, s')) s k h a = cc
  guarded_served true serve (some (true, s')) s k h a = (s', k, refl)

  -- A poll of a registered polling client for which messages wait is answered at once, by the array of
  -- all of them in the order of their sending; then the queue is empty, and no registration has changed.
  pub polling_handler-drains :
      (hmac_hex : Bytes → Bytes → Bytes) (settings : Settings) (r : Request) (s : Server E) (p : ℕ)
      (msg : Bytes) (msgs : List Bytes)
      → permits (common_check E settings s) ≡ true
      → is_authorized hmac_hex settings s.world.now r.id r.token ≡ true
      → get_client E r.id s.world ≡ some p
      → (s.world.heap p).is_polling ≡ true
      → (s.world.heap p).msg_queue ≡ msg ∷ msgs
      → let (polled, s') = polling_handler E hmac_hex settings r s in
        (polled ≡ answered (body (91 ∷ comma_separated (msg ∷ msgs) ++ 93 ∷ [])))
        × ((s'.world.heap p).msg_queue ≡ [])
        × (s'.world.clients ≡ s.world.clients)
  unfolding polling_handler
  polling_handler-drains hmac_hex settings r s p msg msgs calm authorized here polling queued =
      let (s', same, served) =
        guarded_served (is_authorized hmac_hex settings s.world.now r.id r.token)
          (λ s'. poll_client E r.id (get_client E r.id s'.world) s') (common_check E settings s) s
          (common_check-Kept settings s) calm authorized in
      let drained =
        serve_queue r.id p msg msgs s' (rw same here) (rw same polling) (rw same queued) in
      rw (served, drained, array_of_lem msg msgs) (refl, ground arith, ap (λ w. w.clients) same)
