-- ===== src/Handler/Collision.antt =====
-- handler/handler.go: keyForFilter joins two ids without a separator.
use mathlib.Core.List.{append_assoc}
use cbsignal_redis.Base.{ℕ, ◌≡◌, refl, sym, ap, ◌∙◌, true, false, none, ◌++◌, Bytes}
use cbsignal_redis.Errors.{GoError, err}
use cbsignal_redis.World.{Env, World}
use cbsignal_redis.Redis.{get_remote_peer_addr}
use cbsignal_redis.Hub.{get_client}
use cbsignal_redis.Handler.{
  key_for_filter, target_of, filter_get, handle_peer_not_found, signal_remote, handle_signal,
  SignalMsg, Others,
}
use cbsignal_redis.Handler.Routing.{pair_key, filtered_signal, fresh_remote}
use cbsignal_redis.Handler.Sending.{not_found_filters}

-- The ids of two pairs run together to the same text.
key_for_filter-ambiguous : (a b c : Bytes) → key_for_filter (a ++ b) c ≡ key_for_filter a (b ++ c)
unfolding key_for_filter
key_for_filter-ambiguous = append_assoc

-- A signal of the peer `a ++ b` that the filter lets through, to a peer `c` that is not here and for
-- which Redis gives an error, makes the filter drop the signals of another peer, `a`, to `b ++ c`: the
-- next one has no effect but the filter's own look, given that the filter sees what was put last.
pub handle_signal-collides :
    (E : Env) (O : Others) (msg msg' : SignalMsg) (cli cli' : ℕ) (a b c : Bytes) (w : World E)
    → ((k : Bytes) (s : E.filter.Seen) → (E.filter.seen k (E.filter.put k s)).0 ≡ true)
    → (w.heap cli).peer_id ≡ a ++ b
    → target_of msg ≡ c
    → (w.heap cli').peer_id ≡ a
    → target_of msg' ≡ b ++ c
    → (filter_get E (pair_key E O msg cli w) w).0 ≡ false
    → get_client E (target_of msg) w ≡ none
    → (e : GoError) → (get_remote_peer_addr E.cmdable E.big_cache (target_of msg) w.redis).0 ≡ err e
    → let w' = handle_signal E O msg cli w in
      handle_signal E O msg' cli' w' ≡ (filter_get E (pair_key E O msg' cli' w) w').1
unfolding signal_remote filter_get
handle_signal-collides E O msg msg' cli cli' a b c w seen-put from to from' to' fresh missing e
      unknown =
    let asked : World E = record (filter_get E (pair_key E O msg cli w) w).1 {
      redis = (get_remote_peer_addr E.cmdable E.big_cache (target_of msg) w.redis).1;
    } in
    let w' = handle_peer_not_found E (pair_key E O msg cli w) (target_of msg) cli asked in
    let (put, same) = not_found_filters E (pair_key E O msg cli w) (target_of msg) cli cli' asked in
    let key' : pair_key E O msg' cli' w' ≡ pair_key E O msg' cli' w = rw same refl in
    let joined : pair_key E O msg' cli' w ≡ pair_key E O msg cli w =
      rw (from, to, from', to') (sym (key_for_filter-ambiguous a b c)) in
    let hit : (E.filter.seen (pair_key E O msg' cli' w') w'.seen_pairs).0 ≡ true =
      rw (key', joined, put) (seen-put (pair_key E O msg cli w) asked.seen_pairs) in
    let first : handle_signal E O msg cli w ≡ w' =
      fresh_remote E O msg cli w (err e) fresh missing unknown in
    rw first (filtered_signal E O msg' cli' w' hit ∙ ap (λ k. (filter_get E k w').1) key')
