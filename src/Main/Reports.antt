-- ===== src/Main/Reports.antt =====
-- handler/stats.go: who gets an answer, and whether the answers agree.
use cbsignal_redis.Base.{
  ℕ, ◌+◌, ◌^◌, ◌<◌, ◌≡◌, refl, ap, ◌∙◌, ◌≢◌, ◌↔◌, ◌⊎◌, inl, inr, true, false, Option, some, List,
  [], ◌∷◌, arith, Bool-cases, set, Bytes, str, str_eq, eq_iff,
}
use cbsignal_redis.Base.Int.{ℤ, pos}
use cbsignal_redis.Errors.{Result}
use cbsignal_redis.World.{Env, World}
use cbsignal_redis.Hub.{get_client_count}
use cbsignal_redis.Nodes.NodeHub.{total_num_client}
use cbsignal_redis.Handler.Stats.{
  check_stats_token, allowed, version_handler, count_handler, total_count_handler, fill_info,
  stats_handler, Answer, CertInfo, SignalInfo,
}
use cbsignal_redis.Main.{digits_value, unsigned, signed, parse_int}
use cbsignal_redis.Main.Numbers.{parse_int-decimal}

-- The number that an answer says.
abbrev pub says : Answer → Option ℤ
says a = parse_int a.content

check_stats_token_iff :
    (stats_token token : Bytes)
    → (check_stats_token stats_token token ≡ true) ↔ ((stats_token ≡ []) ⊎ (token ≡ stats_token))
unfolding check_stats_token str_eq
check_stats_token_iff [] token = (λ h. inl refl, λ h. refl)
check_stats_token_iff (x ∷ s) token = (
  λ h. inr ((eq_iff token (x ∷ s)).0 h),
  λ e. elim e [ inl never ↦ cc | inr same ↦ (eq_iff token (x ∷ s)).1 same ],
)

zero_read : parse_int (str "0") ≡ some (pos 0)
unfolding parse_int signed unsigned digits_value
zero_read = refl

module _ (E : Env) where
  -- To a request that has the token, or if no token is set, /count and /total_count answer numbers that
  -- read back as the number of clients here, and here and at the other instances, as long as Redis is
  -- alive and they are int64; they are the ones that /info gives.
  counts_agree :
      (certs : List CertInfo) (num_goroutine g_cpu : ℕ) (ip : Bytes) (info : SignalInfo)
      (stats_token token : Bytes) (w : World E)
      → check_stats_token stats_token token ≡ true
      → w.redis.is_alive ≡ true
      → get_client_count E w + total_num_client w.node_hub.nodes < 2 ^ 63
      → let filled = fill_info E certs num_goroutine g_cpu ip info w in
        (says (count_handler E stats_token token w) ≡ some (pos filled.current_connections))
        × (says (total_count_handler E stats_token token w) ≡ some (pos filled.total_connections))
        × (filled.current_connections ≡ get_client_count E w)
  unfolding fill_info count_handler total_count_handler allowed
  counts_agree certs num_goroutine g_cpu ip info stats_token token w valid alive small =
      simp (valid, alive) (parse_int-decimal _ (omega arith), parse_int-decimal _ small, refl)

  -- While Redis counts as dead, /count answers 0 and /info counts only the clients of the other
  -- instances, but /total_count still counts the clients here.
  counts_differ :
      (certs : List CertInfo) (num_goroutine g_cpu : ℕ) (ip : Bytes) (info : SignalInfo)
      (stats_token token : Bytes) (w : World E)
      → check_stats_token stats_token token ≡ true
      → w.redis.is_alive ≡ false
      → get_client_count E w + total_num_client w.node_hub.nodes < 2 ^ 63
      → let filled = fill_info E certs num_goroutine g_cpu ip info w in
        (says (count_handler E stats_token token w) ≡ some (pos 0))
        × (says (total_count_handler E stats_token token w)
            ≡ some (pos (get_client_count E w + filled.total_connections)))
  unfolding fill_info count_handler total_count_handler allowed
  counts_differ certs num_goroutine g_cpu ip info stats_token token w valid dead small =
      simp (valid, dead)
        (
          zero_read,
          parse_int-decimal _ small ∙ ap (λ n. some (pos (get_client_count E w + n))) (omega arith),
        )

-- With a token set, a request that does not have it gets status 403 and nothing else from the four
-- handlers of the statistics.
stats-forbidden :
    (E : Env) (marshal : SignalInfo → Result Bytes) (certs : List CertInfo)
    (num_goroutine g_cpu : ℕ) (ip version : Bytes) (info : SignalInfo) (stats_token token : Bytes)
    (w : World E)
    → stats_token ≢ []
    → token ≢ stats_token
    → let refusal : Answer = record { code = 403; content = [] } in
      (count_handler E stats_token token w ≡ refusal)
      × (total_count_handler E stats_token token w ≡ refusal)
      × (version_handler version stats_token token ≡ refusal)
      × (stats_handler E marshal certs num_goroutine g_cpu ip info stats_token token w ≡ refusal)
unfolding count_handler total_count_handler version_handler stats_handler allowed
stats-forbidden E marshal certs num_goroutine g_cpu ip version info stats_token token w set wrong =
    elim (Bool-cases (check_stats_token stats_token token)) [
      | inl right ↦ elim ((check_stats_token_iff stats_token token).0 right) [
        | inl unset ↦ absurd (set unset)
        | inr same ↦ absurd (wrong same)
      ]
      | inr refused ↦ rw refused (refl, refl, refl, refl)
    ]
