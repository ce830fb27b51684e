-- ===== src/Main/Startup.antt =====
-- main.go, util/other.go: what a start ensures, and what a change of the configuration can undo.
use cbsignal_redis.Base.{
  ℕ, ◌+◌, ◌*◌, ◌^◌, ◌≤◌, ◌<◌, ◌≡◌, refl, sym, ap, ◌∙◌, ◌≢◌, true, false, Option, none, some, [],
  ◌∷◌, ◌++◌, arith, ◌==◌, length, All, Bytes, str, str_eq,
}
use cbsignal_redis.Base.Int.{◌+ℤ◌, ◌*ℤ◌, wrap64, ℤ, pos}
use cbsignal_redis.Base.Decimal.{digits, decimal}
use cbsignal_redis.Dict.{is_some}
use cbsignal_redis.RateLimit.{is_zero, Bucket}
use cbsignal_redis.World.{Env}
use cbsignal_redis.Main.{
  reject_join_cpu_threshold, digits_value, unsigned, check_limit, take_one, common_check, Server,
}
use cbsignal_redis.Main.Config.{
  setup_config_from_viper, init_limiter, check_security, start_limiter, atoi_of, atoi,
  version_num_of, get_version_num, Viper, Config,
}
use cbsignal_redis.Main.Numbers.{IsDigit, digits_value-digits, digits-IsDigit, digits-some}
use cbsignal_redis.Main.Token.{split_plain, split_sep}

filled : (s : Bytes) → str_eq s [] ≡ false → 0 < length s
unfolding str_eq
filled [] h = cc
filled (x ∷ s) h = omega arith

-- A service that has started with security on has a maximal age other than 0 and a token of one to
-- eight bytes, and it has a limiter exactly if the limit is on.
start_limiter_lem :
    (config : Config) (now : ℤ) (limiter : Option Bucket)
    → start_limiter config now ≡ some limiter
    → config.settings.security_enabled ≡ true
    → (is_some limiter ≡ config.settings.limit_enabled)
      × (is_zero config.settings.max_time_stamp_age ≡ false)
      × (0 < length config.settings.security_token)
      × (length config.settings.security_token ≤ 8)
unfolding start_limiter check_security init_limiter
start_limiter_lem config now limiter h on = ground (arith, filled config.settings.security_token)

-- When the limit was off at the start, a change of the configuration that turns it on leaves the service
-- without a limiter: then no check of a request returns, unless the CPU usage is too high or Redis is dead.
reload-stops :
    (E : Env) (v : Viper) (config : Config) (now : ℤ) (limiter : Option Bucket) (s : Server E)
    → start_limiter config now ≡ some limiter
    → config.settings.limit_enabled ≡ false
    → v.get_bool (str "ratelimit.enable") ≡ true
    → s.limiter ≡ limiter
    → config.settings.cpu_usage ≤ reject_join_cpu_threshold
    → s.world.redis.is_alive ≡ true
    → common_check E (setup_config_from_viper v config).settings s ≡ none
unfolding start_limiter check_security init_limiter common_check setup_config_from_viper take_one
    check_limit
reload-stops E v config now limiter s h off on same calm alive =
    let unlimited : limiter ≡ none = ground arith in ground arith

digit_apart : (sep : ℕ) (s : Bytes) → sep < 48 → All IsDigit s → All (λ x. (x == sep) ≡ false) s
digit_apart sep [] h d = tt
digit_apart sep (x ∷ s) h (d, ds) = (ground (arith, d), digit_apart sep s h ds)

decimal_plain : (n : ℕ) → All (λ x. (x == 46) ≡ false) (decimal n)
unfolding decimal
decimal_plain n = digit_apart 46 (digits n n) (omega arith) (digits-IsDigit n n (omega arith))

atoi-decimal : (n : ℕ) → n < 2 ^ 63 → atoi (decimal n) ≡ pos n
unfolding decimal atoi unsigned atoi_of
atoi-decimal n h =
    go (digits n n) (digits-some n n) (digits-IsDigit n n (omega arith))
      (digits_value-digits n n (omega arith))
  where
    go : (s : Bytes) → s ≢ [] → All IsDigit s → digits_value 0 s ≡ some n → atoi s ≡ pos n
    go [] some_digit d e = absurd (some_digit refl)
    go (b ∷ s) some_digit d e =
        let not_plus : (b == 43) ≡ false = ground (arith, d.0) in
        let not_minus : (b == 45) ≡ false = ground (arith, d.0) in
        rw (not_plus, atoi, not_minus, unsigned, e) (ground arith)

-- The number of a version with two parts.
get_version_num-decimal :
    (major minor : ℕ)
    → major < 2 ^ 63
    → minor < 2 ^ 63
    → get_version_num (decimal major ++ 46 ∷ decimal minor)
      ≡ some (wrap64 (pos major *ℤ pos 10 +ℤ pos minor))
unfolding get_version_num version_num_of
get_version_num-decimal major minor h h' =
    rw
      (
        split_sep 46 (decimal major) (decimal minor) (decimal_plain major),
        split_plain 46 (decimal minor) (decimal_plain minor),
        atoi-decimal major h,
        atoi-decimal minor h',
      )
      refl

weighted : (a b : ℕ) → pos a *ℤ pos 10 +ℤ pos b ≡ pos (a * 10 + b)
unfolding ◌*ℤ◌ ◌+ℤ◌
weighted a b = ground arith

-- Two versions have the same number when the minor part of one is ten higher and its major part is one
-- lower than the other's.
get_version_num-ambiguous :
    (major minor : ℕ)
    → minor < 2 ^ 62
    → major < 2 ^ 62
    → get_version_num (decimal major ++ 46 ∷ decimal (minor + 10))
      ≡ get_version_num (decimal (major + 1) ++ 46 ∷ decimal minor)
get_version_num-ambiguous major minor small small' =
    rw
      (
        get_version_num-decimal major (minor + 10) (omega arith) (omega arith),
        get_version_num-decimal (major + 1) minor (omega arith) (omega arith),
      )
      (ap (λ z. some (wrap64 z))
        (weighted major (minor + 10) ∙ ap pos (omega arith) ∙ sym (weighted (major + 1) minor)))
