-- ===== src/Main/Numbers.antt =====
-- strconv.ParseInt on the digits that fmt.Sprintf("%d", …) writes.
use cbsignal_redis.Base.{
  ℕ, zero, suc, ◌+◌, ◌-◌, ◌*◌, ◌/◌, ◌%◌, ◌^◌, ◌≤◌, ◌<◌, ◌≡◌, refl, ap, ◌∙◌, ◌≢◌, inl, inr, false,
  ◌&&◌, Option, none, some, [], ◌∷◌, ◌++◌, arith, ltb, leb, ◌==◌, Bool-cases, All, All-snoc, Bytes,
}
use cbsignal_redis.Base.Int.{pos}
use cbsignal_redis.Base.Decimal.{digits, decimal}
use cbsignal_redis.Main.{digits_value, unsigned, signed, parse_int}

abbrev pub IsDigit : ℕ → Type 0
IsDigit b = (48 ≤ b) × (b ≤ 57)

digits_value-snoc :
    (s : Bytes) (b m v : ℕ)
    → IsDigit b
    → digits_value m s ≡ some v
    → digits_value m (s ++ b ∷ []) ≡ some (v * 10 + (b - 48))
unfolding digits_value
digits_value-snoc [] b m v d h = ground arith
digits_value-snoc (x ∷ s) b m v d h = elim (Bool-cases (leb 48 x && leb x 57)) [
  | inl digit ↦ rw digit (digits_value-snoc s b (m * 10 + (x - 48)) v d (rw digit at h))
  | inr other ↦ let e : ◌≡◌ {A = Option ℕ} none (some v) = rw other at h in cc
]

pub digits_value-digits : (fuel n : ℕ) → n ≤ fuel → digits_value 0 (digits fuel n) ≡ some n
unfolding digits
digits_value-digits zero n h = unfold digits_value in ground arith
digits_value-digits (suc fuel) n h = elim (Bool-cases (ltb n 10)) [
  | inl small ↦ rw small (unfold digits_value in ground arith)
  | inr large ↦
      let rest = digits_value-digits fuel (n / 10) (omega arith) in
      let last =
        digits_value-snoc (digits fuel (n / 10)) (48 + n % 10) 0 (n / 10) (omega arith, omega arith)
          rest in
      rw large (last ∙ ap some (omega arith))
]

-- Every byte is a digit.
pub digits-IsDigit : (fuel n : ℕ) → n ≤ fuel → All IsDigit (digits fuel n)
unfolding digits
digits-IsDigit zero n h = ((omega arith, omega arith), tt)
digits-IsDigit (suc fuel) n h = elim (Bool-cases (ltb n 10)) [
  | inl small ↦ let lt : n < 10 = ground arith in rw small ((omega arith, omega arith), tt)
  | inr large ↦ rw large (
      All-snoc IsDigit (digits fuel (n / 10)) (48 + n % 10)
        (digits-IsDigit fuel (n / 10) (omega arith)) (omega arith, omega arith))
]

pub digits-some : (fuel n : ℕ) → digits fuel n ≢ []
unfolding digits
digits-some zero n = λ e. cc
digits-some (suc fuel) n = elim (Bool-cases (ltb n 10)) [
  | inl small ↦ rw small (λ e. cc)
  | inr large ↦ rw large (snoc_some (digits fuel (n / 10)) (48 + n % 10))
]
  where
    snoc_some : (s : Bytes) (b : ℕ) → s ++ b ∷ [] ≢ []
    snoc_some [] b e = cc
    snoc_some (x ∷ s) b e = cc

-- ParseInt gives the number back from its digits, if it is an int64.
pub parse_int-decimal : (n : ℕ) → n < 2 ^ 63 → parse_int (decimal n) ≡ some (pos n)
unfolding decimal parse_int unsigned
parse_int-decimal n h =
    go (digits n n) (digits-some n n) (digits-IsDigit n n (omega arith))
      (digits_value-digits n n (omega arith))
  where
    go :
        (s : Bytes)
        → s ≢ []
        → All IsDigit s
        → digits_value 0 s ≡ some n
        → parse_int s ≡ some (pos n)
    go [] some_digit d e = absurd (some_digit refl)
    go (b ∷ s) some_digit d e =
        let not_plus : (b == 43) ≡ false = ground (arith, d.0) in
        let not_minus : (b == 45) ≡ false = ground (arith, d.0) in
        rw (not_plus, parse_int, not_minus, unsigned, e) (unfold signed in ground arith)
