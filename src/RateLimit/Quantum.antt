-- ===== src/RateLimit/Quantum.antt =====
-- ratelimit.go: the search for a quantum in NewBucketWithRateAndClock. The floating-point steps are
-- parameters: `interval`, the fill interval that fits a quantum, and `fits`, the test of the rate
-- that the two give.
use cbsignal_redis.Base.{
  ℕ, zero, suc, ◌+◌, ◌*◌, ◌/◌, ◌^◌, ◌<◌, ◌≡◌, refl, ◌≢◌, Bool, true, false, arith, ltb, ◌==◌,
  if◌then◌else◌,
}
use cbsignal_redis.Base.Int.{leb_ℤ, ℤ, pos}

-- nextQuantum, below the bound of the search, where `q * 11` stays in int64.
unfoldable pub next_quantum : ℕ → ℕ
next_quantum q = let q₁ = q * 11 / 10 in if q₁ == q then q₁ + 1 else q₁

pub data Search : Type 0 where
  found : ℕ → ℤ → Search
  panics : Search
  running : Search

-- Whether the loop's counter passes its bound within a number of rounds.
reaches : ℕ → ℕ → Bool
unfolding next_quantum
reaches zero q = false
reaches (suc n) q = let later = reaches n (next_quantum q) in if ltb q (2 ^ 50) then later else true

reaches_bound : reaches 400 1 ≡ true
unfolding reaches
reaches_bound = refl

module _ (interval : ℕ → ℤ) (fits : ℕ → ℤ → Bool) where
  -- The loop, with fuel: `running` is a loop that has not ended.
  unfoldable pub find_quantum : ℕ → ℕ → Search
  unfolding next_quantum
  find_quantum zero q = running
  find_quantum (suc fuel) q =
      let rest = find_quantum fuel (next_quantum q) in
      if ltb q (2 ^ 50)
      then (if leb_ℤ (interval q) (pos 0)
          then rest
          else if fits q (interval q)
          then found q (interval q)
          else rest)
      else panics

  find_quantum_ends_within : (n q : ℕ) → reaches n q ≡ true → find_quantum n q ≢ running
  unfolding find_quantum reaches
  find_quantum_ends_within zero q h = cc
  find_quantum_ends_within (suc n) q h = ground (arith, find_quantum_ends_within n (next_quantum q))

  -- From quantum 1 the search ends within 400 rounds, whatever the rate: it finds a quantum or
  -- panics.
  pub find_quantum_ends : find_quantum 400 1 ≢ running
  find_quantum_ends = find_quantum_ends_within 400 1 reaches_bound

  find_quantum_fits_from :
      (n q r : ℕ) (d : ℤ)
      → find_quantum n q ≡ found r d
      → (r < 2 ^ 50) × (interval r ≡ d) × (leb_ℤ d (pos 0) ≡ false) × (fits r d ≡ true)
  unfolding find_quantum
  find_quantum_fits_from zero q r d h = cc
  find_quantum_fits_from (suc n) q r d h =
      ground (arith, find_quantum_fits_from n (next_quantum q) r d)
