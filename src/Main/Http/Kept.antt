-- ===== src/Main/Http/Kept.antt =====
-- main.go: what POSTs and polls keep.
use cbsignal_redis.Base.{
  ℕ, ◌≡◌, refl, inl, inr, Bool, true, false, Option, none, some, List, [], ◌∷◌, arith, Bool-cases,
  Bytes,
}
use cbsignal_redis.Errors.{Result, ok, err}
use cbsignal_redis.Client.{update_ts}
use cbsignal_redis.World.{Env, World}
use cbsignal_redis.Hub.{get_client}
use cbsignal_redis.Hub.Kept.{IsKept}
use cbsignal_redis.Handler.{new_post_handler, touch, SignalMsg, Handler, Others}
use cbsignal_redis.Handler.Sound.{handle_all-keeps}
use cbsignal_redis.Main.{common_check, Settings, Server}
use cbsignal_redis.Main.Http.{
  in_world, join_polling, guarded, poll_queue, poll_client, polling_handler, run_handlers,
  post_body, post_client, post_handler, Request, Polled,
}
use cbsignal_redis.Main.Http.Answers.{Kept, common_check-Kept}

module _ (E : Env) (P : World E → Type 0) (kept : IsKept E P) where
  poll_queue-keeps :
      (p : ℕ) (msgs : List Bytes) (s : Server E) → P s.world → P (poll_queue E p msgs s).1.world
  unfolding poll_queue touch update_ts
  poll_queue-keeps p [] s v = kept.updates p _ s.world refl (omega arith) v
  poll_queue-keeps p (msg ∷ msgs) s v = kept.updates p _ s.world refl (omega arith) v

  poll_client-keeps :
      (id : Bytes) (o : Option ℕ) (s : Server E)
      → P s.world
      → P (join_polling E id s.world).1
      → P (poll_client E id o s).1.world
  unfolding poll_client
  poll_client-keeps id none s v joined =
      let (p, w) = join_polling E id s.world in
      poll_queue-keeps p (w.heap p).msg_queue (in_world E s w) joined
  poll_client-keeps id (some p) s v joined = elim (Bool-cases (s.world.heap p).is_polling) [
    | inl polling ↦ simp polling (poll_queue-keeps p (s.world.heap p).msg_queue s v)
    | inr ws ↦ simp ws v
  ]

  guarded-keeps :
      (authorized : Bool) (serve : Server E → Polled × Server E) (r : Option (Bool × Server E))
      (s : Server E)
      → Kept E s r
      → P s.world
      → ((s' : Server E) → s'.world ≡ s.world → P (serve s').1.world)
      → P (guarded E authorized serve r s).1.world
  unfolding guarded Kept
  guarded-keeps authorized serve none s same v served = v
  guarded-keeps authorized serve (some (false, s')) s same v served = rw same v
  guarded-keeps true serve (some (true, s')) s same v served = served s' same
  guarded-keeps false serve (some (true, s')) s same v served = rw same v

  -- What a poll keeps, if a new polling client keeps it.
  pub polling_handler-keeps :
      (hmac_hex : Bytes → Bytes → Bytes) (settings : Settings) (r : Request) (s : Server E)
      → P s.world
      → P (join_polling E r.id s.world).1
      → P (polling_handler E hmac_hex settings r s).1.world
  unfolding polling_handler
  polling_handler-keeps hmac_hex settings r s v joined =
      guarded-keeps _ _ (common_check E settings s) s (common_check-Kept E settings s) v (λ s' same.
        poll_client-keeps r.id (get_client E r.id s'.world) s' (rw same v) (rw same joined))

  module _ (O : Others) (unmarshal : Bytes → Result (List SignalMsg)) where
    post_body-keeps :
        (p : ℕ) (read : Result Bytes) (s : Server E)
        → P s.world
        → P (post_body E O unmarshal p read s).1.world
    unfolding post_body
    post_body-keeps p (err e) s v = v
    post_body-keeps p (ok b) s v = go (new_post_handler unmarshal b p)
      where
        go : (hdrs : Result (List Handler)) → P (run_handlers E O unmarshal hdrs s).1.world
        go (err e) = unfold run_handlers in v
        go (ok hs) = unfold run_handlers in handle_all-keeps E P kept O hs s.world v

    post_client-keeps :
        (settings : Settings) (r : Request) (o : Option ℕ) (s : Server E)
        → P s.world
        → P (join_polling E r.id s.world).1
        → P (post_client E O unmarshal settings r o s).1.world
    unfolding post_client
    post_client-keeps settings r (some p) s v joined =
        elim (Bool-cases (s.world.heap p).is_polling) [
          | inl polling ↦ simp polling (post_body-keeps p r.read_all s v)
          | inr ws ↦ simp ws v
        ]
    post_client-keeps settings r none s v joined = elim (Bool-cases r.hello) [
      | inl hello ↦ simp hello joined
      | inr plain ↦
          simp plain
            (post_body-keeps _ r.read_all (in_world E s (join_polling E r.id s.world).1) joined)
    ]

    -- What a POST keeps, if a new polling client keeps it.
    pub post_handler-keeps :
        (hmac_hex : Bytes → Bytes → Bytes) (settings : Settings) (r : Request) (s : Server E)
        → P s.world
        → P (join_polling E r.id s.world).1
        → P (post_handler E O unmarshal hmac_hex settings r s).1.world
    unfolding post_handler
    post_handler-keeps hmac_hex settings r s v joined =
        guarded-keeps _ _ (common_check E settings s) s (common_check-Kept E settings s) v
          (λ s' same.
            post_client-keeps settings r (get_client E r.id s'.world) s' (rw same v)
              (rw same joined))
