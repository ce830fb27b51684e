-- ===== src/RateLimit/Limit.antt =====
-- ratelimit.go: what the bucket is for. Over any sequence of TakeAvailable calls the tokens granted
-- are at most a full bucket and the refill of the ticks that have passed.
use cbsignal_redis.Base.{
  ℕ, min, ◌+◌, ◌-◌, ◌*◌, ◌/◌, ◌^◌, ◌≤◌, ◌<◌, ◌≡◌, refl, Option, some, List, [], ◌∷◌, arith,
}
use cbsignal_redis.Base.Fallible.{◌>>=◌}
use cbsignal_redis.Base.Int.{pos_part, pos}
use cbsignal_redis.RateLimit.{new_bucket_with_quantum, take_available, Bucket}
use cbsignal_redis.RateLimit.Refill.{bucket_of, refilled, take_available_lem}

-- TakeAvailable, call after call; a call is the clock's reading and the count. The result is the sum
-- of the tokens granted.
unfoldable pub grants : Bucket → List (ℕ × ℕ) → Option (ℕ × Bucket)
grants tb [] = some (0, tb)
grants tb ((now, count) ∷ calls) = do
  (granted, tb') ← take_available tb (pos now) (pos count)
  (rest, tb'') ← grants tb' calls
  some (pos_part granted + rest, tb'')

-- The readings do not fall, from `prev` up to `finish`, and every call asks for a token.
abbrev pub InOrder : ℕ → ℕ → List (ℕ × ℕ) → Type 0
InOrder prev finish [] = prev ≤ finish
InOrder prev finish ((now, count) ∷ calls) = (prev ≤ now) × (0 < count) × InOrder now finish calls

InOrder-le : (prev finish : ℕ) (calls : List (ℕ × ℕ)) → InOrder prev finish calls → prev ≤ finish
InOrder-le prev finish [] h = h
InOrder-le prev finish ((now, count) ∷ calls) h = omega (arith, InOrder-le now finish calls h.2)

sum_bound :
    (g s t' t d e q : ℕ) → g ≤ t' → t' ≤ t + d * q → s ≤ t' - g + e * q → g + s ≤ t + (d + e) * q
sum_bound g s t' t d e q taken refill bound = omega arith

module _ (start fill limit q finish : ℕ) where
  abbrev total_ticks : ℕ
  total_ticks = (finish - start) / fill

  refilled_bounds :
      (tokens d : ℕ)
      → tokens ≤ limit
      → (refilled limit q tokens d ≤ limit) × (refilled limit q tokens d ≤ tokens + d * q)
  refilled_bounds tokens d h = ground arith

  ticks_mono : (a b : ℕ) → a ≤ b → 0 < fill → a / fill ≤ b / fill
  ticks_mono a b h positive = grind arith

  grants_bounded :
      (prev tokens last : ℕ) (calls : List (ℕ × ℕ))
      → 0 < fill
      → start ≤ prev
      → finish < 2 ^ 63
      → limit + total_ticks * q < 2 ^ 63
      → tokens ≤ limit
      → last ≤ (prev - start) / fill
      → InOrder prev finish calls
      → (s : ℕ) × (tb : Bucket) × (grants (bucket_of start fill limit q tokens last) calls
          ≡ some (s, tb))
        × (s ≤ tokens + (total_ticks - last) * q)
  unfolding grants
  grants_bounded prev tokens last [] positive order small room full ticks calls_in_order =
      (0, bucket_of start fill limit q tokens last, refl, omega arith)
  grants_bounded prev tokens last ((now, count) ∷ calls) positive order small room full ticks
        (le, asked, rest) =
      let tick = (now - start) / fill in
      let tokens' = refilled limit q tokens (tick - last) in
      let granted = min tokens' count in
      let within : now ≤ finish = InOrder-le now finish calls rest in
      let tick_le : tick ≤ total_ticks =
        ticks_mono (now - start) (finish - start) (omega arith) positive in
      let last_le : last ≤ tick =
        omega (arith, ticks_mono (prev - start) (now - start) (omega arith) positive) in
      let room' : tokens + (tick - last) * q < 2 ^ 63 = grind arith in
      let step =
        take_available_lem start fill limit q tokens last now count (omega arith) (omega arith)
          positive asked last_le room' in
      let bounds = refilled_bounds tokens (tick - last) full in
      let (s, tb, run, bound) =
        grants_bounded now (tokens' - granted) tick calls positive (omega arith) small room
          (omega arith) (omega arith) rest in
      let split : total_ticks - last ≡ tick - last + (total_ticks - tick) = omega arith in
      (
        granted + s,
        tb,
        rw (step, run),
        rw split (
            sum_bound granted s tokens' tokens (tick - last) (total_ticks - tick) q (omega arith)
              (omega arith) bound),
      )

-- A bucket made at `start` with a positive fill interval and asked in order of time up to `finish`
-- never panics, and grants in total at most its capacity and `quantum` tokens for each whole interval
-- between `start` and `finish`, where these numbers fit int64.
pub rate_limit :
    (start fill limit q finish : ℕ) (calls : List (ℕ × ℕ))
    → 0 < fill
    → finish < 2 ^ 63
    → limit + (finish - start) / fill * q < 2 ^ 63
    → InOrder start finish calls
    → (s : ℕ) × (tb : Bucket) × (grants
          (new_bucket_with_quantum (pos fill) (pos limit) (pos q) (pos start))
          calls
        ≡ some (s, tb))
      × (s ≤ limit + (finish - start) / fill * q)
unfolding new_bucket_with_quantum
rate_limit start fill limit q finish calls positive small room calls_in_order =
    let (s, tb, run, bound) =
      grants_bounded start fill limit q finish start limit 0 calls positive (omega arith) small room
        (omega arith) (omega arith) calls_in_order in
    let all_ticks : (finish - start) / fill - 0 ≡ (finish - start) / fill = omega arith in
    (s, tb, run, rw all_ticks at bound)
