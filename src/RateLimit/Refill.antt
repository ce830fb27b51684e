-- ===== src/RateLimit/Refill.antt =====
-- ratelimit.go on a bucket of naturals: where no intermediate result leaves int64, the wrapping
-- arithmetic is a refill by `quantum` per tick, cut off at the capacity.
use cbsignal_redis.Base.{
  ℕ, min, ◌+◌, ◌-◌, ◌*◌, ◌/◌, ◌^◌, ◌≤◌, ◌<◌, ◌≡◌, some, arith, leb, if◌then◌else◌,
}
use cbsignal_redis.Base.Int.{◌+ℤ◌, ◌-ℤ◌, ◌*ℤ◌, quot, wrap64, wrap64_of_IsInt64, pos}
use cbsignal_redis.RateLimit.{
  time_sub, div64, current_tick, adjust_available_tokens, grant_available, take_available, Bucket,
}

-- A bucket whose fields are not negative.
abbrev pub bucket_of : ℕ → ℕ → ℕ → ℕ → ℕ → ℕ → Bucket
bucket_of start fill limit q tokens last = record {
  start_time = pos start;
  capacity = pos limit;
  quantum = pos q;
  fill_interval = pos fill;
  available_tokens = pos tokens;
  latest_tick = pos last;
}

-- The tokens at a tick, by plain arithmetic.
abbrev pub refilled : ℕ → ℕ → ℕ → ℕ → ℕ
refilled limit q tokens ticks = if leb limit tokens then tokens else min limit (tokens + ticks * q)

wrap64-pos : (n : ℕ) → n < 2 ^ 63 → wrap64 (pos n) ≡ pos n
wrap64-pos n h = wrap64_of_IsInt64 (pos n) (omega arith)

pos-sub : (a b : ℕ) → b ≤ a → pos a -ℤ pos b ≡ pos (a - b)
unfolding ◌-ℤ◌
pos-sub a b h = ground arith

pos-add : (a b : ℕ) → pos a +ℤ pos b ≡ pos (a + b)
unfolding ◌+ℤ◌
pos-add a b = ground arith

pos-mul : (a b : ℕ) → pos a *ℤ pos b ≡ pos (a * b)
unfolding ◌*ℤ◌
pos-mul a b = ground arith

adjust_refills :
    (start fill limit q tokens last tick : ℕ)
    → last ≤ tick
    → tick < 2 ^ 63
    → tokens + (tick - last) * q < 2 ^ 63
    → adjust_available_tokens (bucket_of start fill limit q tokens last) (pos tick)
      ≡ bucket_of start fill limit q (refilled limit q tokens (tick - last)) tick
unfolding adjust_available_tokens
adjust_refills start fill limit q tokens last tick order small room =
    rw
      (
        pos-sub tick last order,
        wrap64-pos (tick - last) (omega arith),
        pos-mul (tick - last) q,
        wrap64-pos ((tick - last) * q) (omega arith),
        pos-add tokens ((tick - last) * q),
        wrap64-pos (tokens + (tick - last) * q) room,
      )
      (ground arith)

time_sub-pos : (a b : ℕ) → b ≤ a → a < 2 ^ 63 → time_sub (pos a) (pos b) ≡ pos (a - b)
unfolding time_sub
time_sub-pos a b h s = rw (pos-sub a b h) (ground arith)

quot-pos : (a b : ℕ) → quot (pos a) (pos b) ≡ pos (a / b)
unfolding quot
quot-pos a b = ground arith

div64-pos : (a b : ℕ) → a < 2 ^ 63 → 0 < b → div64 (pos a) (pos b) ≡ some (pos (a / b))
unfolding div64
div64-pos a b h positive = rw (quot-pos a b, wrap64-pos (a / b) (grind arith)) (ground arith)

current_tick_lem :
    (start fill limit q tokens last now : ℕ)
    → start ≤ now
    → now < 2 ^ 63
    → 0 < fill
    → current_tick (bucket_of start fill limit q tokens last) (pos now)
      ≡ some (pos ((now - start) / fill))
unfolding current_tick
current_tick_lem start fill limit q tokens last now order small positive =
    rw (time_sub-pos now start order small) (div64-pos (now - start) fill (omega arith) positive)

grant_available_lem :
    (start fill limit q tokens last count : ℕ)
    → tokens < 2 ^ 63
    → grant_available (bucket_of start fill limit q tokens last) (pos count)
      ≡ (pos (min tokens count), bucket_of start fill limit q (tokens - min tokens count) last)
unfolding grant_available
grant_available_lem start fill limit q tokens last count h = ground arith

-- For a count above 0, a positive fill interval, a time not before the start and a tick not before the
-- latest one, where no intermediate result leaves int64, takeAvailable refills the bucket up to the
-- current tick and takes what is asked for or, if there is less, what there is.
pub take_available_lem :
    (start fill limit q tokens last now count : ℕ)
    → start ≤ now
    → now < 2 ^ 63
    → 0 < fill
    → 0 < count
    → last ≤ (now - start) / fill
    → tokens + ((now - start) / fill - last) * q < 2 ^ 63
    → let tick = (now - start) / fill in
      let tokens' = refilled limit q tokens (tick - last) in
      take_available (bucket_of start fill limit q tokens last) (pos now) (pos count)
      ≡ some
          (pos (min tokens' count), bucket_of start fill limit q (tokens' - min tokens' count) tick)
unfolding take_available
take_available_lem start fill limit q tokens last now count order small positive asked later room =
    let tick = (now - start) / fill in
    let tokens' = refilled limit q tokens (tick - last) in
    let tick_small : tick < 2 ^ 63 = grind arith in
    rw
      (
        current_tick_lem start fill limit q tokens last now order small positive,
        adjust_refills start fill limit q tokens last tick later tick_small room,
        grant_available_lem start fill limit q tokens' tick count (ground arith),
      )
      (ground arith)
