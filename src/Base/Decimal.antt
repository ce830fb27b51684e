-- ===== src/Base/Decimal.antt =====
-- fmt.Sprintf("%d", …) of a number that is not negative.
use Prim.Native.Nat.{ℕ, zero, suc, ◌+◌, ◌/◌, ◌%◌}
use mathlib.Core.List.{[], ◌∷◌, ◌++◌}
use cbsignal_redis.Base.Tests.{ltb, if◌then◌else◌}
use cbsignal_redis.Base.Text.{Bytes}

-- The digits of a number; as many rounds as the number are enough, for each divides it by 10.
unfoldable pub digits : ℕ → ℕ → Bytes
digits zero n = (48 + n) ∷ []
digits (suc fuel) n =
    let rest = digits fuel (n / 10) in
    if ltb n 10 then (48 + n) ∷ [] else rest ++ (48 + n % 10) ∷ []

unfoldable pub decimal : ℕ → Bytes
unfolding digits
decimal n = digits n n
