-- ===== src/RateLimit.antt =====
-- util/ratelimit/ratelimit.go: the token bucket. Every int64 operation wraps (`wrap64`); a time is an
-- integer of nanoseconds, a difference of two saturates as Time.Sub does, and the clock's reading is
-- an argument. `none` is Go's panic at a division by zero. The constructor only prints a warning for
-- an argument that is not positive, so a bucket may hold one.
pub mod Refill
pub mod Limit
pub mod Quantum
use cbsignal_redis.Base.{◌-◌, ◌^◌, Bool, true, false, ◌&&◌, Option, none, some, ◌==◌, if◌then◌else◌}
use cbsignal_redis.Base.Fallible.{◌>>=◌}
use cbsignal_redis.Base.Int.{
  pos_part, neg_part, ◌+ℤ◌, ◌-ℤ◌, ◌*ℤ◌, quot, ltb_ℤ, leb_ℤ, wrap64, ℤ, pos, negsuc,
}

pub record Bucket : Type 0 where
  pub start_time : ℤ
  pub capacity : ℤ
  pub quantum : ℤ
  pub fill_interval : ℤ
  pub available_tokens : ℤ
  pub latest_tick : ℤ

-- NewBucketWithQuantumAndClock at the clock's reading `now`; the bucket is full.
unfoldable pub new_bucket_with_quantum : ℤ → ℤ → ℤ → ℤ → Bucket
new_bucket_with_quantum fill_interval capacity quantum now = record {
  start_time = now;
  capacity = capacity;
  quantum = quantum;
  fill_interval = fill_interval;
  available_tokens = capacity;
  latest_tick = pos 0;
}

unfoldable pub new_bucket : ℤ → ℤ → ℤ → Bucket
unfolding new_bucket_with_quantum
new_bucket fill_interval capacity now = new_bucket_with_quantum fill_interval capacity (pos 1) now

abbrev pub max_int64 : ℤ
max_int64 = pos (2 ^ 63 - 1)

abbrev pub min_int64 : ℤ
min_int64 = negsuc (2 ^ 63 - 1)

-- now.Sub(t)
unfoldable pub time_sub : ℤ → ℤ → ℤ
unfolding ◌-ℤ◌
time_sub now t =
    let d = now -ℤ t in
    if ltb_ℤ max_int64 d then max_int64 else if ltb_ℤ d min_int64 then min_int64 else d

abbrev pub is_zero : ℤ → Bool
is_zero z = pos_part z == 0 && neg_part z == 0

-- Go's `a / b`.
unfoldable pub div64 : ℤ → ℤ → Option ℤ
unfolding quot wrap64
div64 a b = if is_zero b then none else some (wrap64 (quot a b))

unfoldable pub current_tick : Bucket → ℤ → Option ℤ
unfolding time_sub div64
current_tick tb now = div64 (time_sub now tb.start_time) tb.fill_interval

unfoldable pub adjust_available_tokens : Bucket → ℤ → Bucket
unfolding ◌+ℤ◌ ◌-ℤ◌ ◌*ℤ◌ wrap64
adjust_available_tokens tb tick =
    if leb_ℤ tb.capacity tb.available_tokens
    then record tb { latest_tick = tick }
    else (let refill = wrap64 (wrap64 (tick -ℤ tb.latest_tick) *ℤ tb.quantum) in
        let tokens = wrap64 (tb.available_tokens +ℤ refill) in
        record tb {
          latest_tick = tick;
          available_tokens = if ltb_ℤ tb.capacity tokens then tb.capacity else tokens;
        })

-- The end of takeAvailable, on the adjusted bucket.
unfoldable pub grant_available : Bucket → ℤ → ℤ × Bucket
unfolding ◌-ℤ◌ wrap64
grant_available tb count =
    if leb_ℤ tb.available_tokens (pos 0)
    then (pos 0, tb)
    else (let granted = if ltb_ℤ tb.available_tokens count then tb.available_tokens else count in
        (granted, record tb { available_tokens = wrap64 (tb.available_tokens -ℤ granted) }))

unfoldable pub take_available : Bucket → ℤ → ℤ → Option (ℤ × Bucket)
take_available tb now count = if leb_ℤ count (pos 0) then some (pos 0, tb) else (do
  tick ← current_tick tb now
  some (grant_available (adjust_available_tokens tb tick) count))

unfoldable pub available : Bucket → ℤ → Option (ℤ × Bucket)
available tb now = do
  tick ← current_tick tb now
  let tb' = adjust_available_tokens tb tick
  some (tb'.available_tokens, tb')

-- The end of take, on the adjusted bucket, for a request that must wait until `end_tick`.
unfoldable pub commit_wait : Bucket → ℤ → ℤ → ℤ → ℤ → (ℤ × Bool) × Bucket
unfolding ◌+ℤ◌ ◌*ℤ◌ wrap64 time_sub
commit_wait tb now avail end_tick max_wait =
    let wait_time = time_sub (tb.start_time +ℤ wrap64 (end_tick *ℤ tb.fill_interval)) now in
    if ltb_ℤ max_wait wait_time
    then ((pos 0, false), tb)
    else ((wait_time, true), record tb { available_tokens = avail })

-- The part of take behind the adjustment: the wait and whether the tokens are taken.
unfoldable pub take_adjusted : Bucket → ℤ → ℤ → ℤ → ℤ → Option ((ℤ × Bool) × Bucket)
unfolding ◌+ℤ◌ ◌-ℤ◌ wrap64 div64 commit_wait
take_adjusted tb tick now count max_wait =
    let avail = wrap64 (tb.available_tokens -ℤ count) in
    if leb_ℤ (pos 0) avail
    then some ((pos 0, true), record tb { available_tokens = avail })
    else (do
      ticks ← div64 (wrap64 (wrap64 (wrap64 (pos 0 -ℤ avail) +ℤ tb.quantum) -ℤ pos 1)) tb.quantum
      some (commit_wait tb now avail (wrap64 (tick +ℤ ticks)) max_wait))

unfoldable pub take : Bucket → ℤ → ℤ → ℤ → Option ((ℤ × Bool) × Bucket)
take tb now count max_wait = if leb_ℤ count (pos 0) then some ((pos 0, true), tb) else (do
  tick ← current_tick tb now
  take_adjusted (adjust_available_tokens tb tick) tick now count max_wait)

-- Take, with `infinityDuration` for the longest wait.
unfoldable pub take_unbounded : Bucket → ℤ → ℤ → Option (ℤ × Bucket)
take_unbounded tb now count = do (wait, tb') ← take tb now count max_int64; some (wait.0, tb')

-- Wait and WaitMaxDuration: the time slept beside the result; a wait that is not positive is none.
abbrev slept : ℤ → ℤ
slept d = if ltb_ℤ (pos 0) d then d else pos 0

unfoldable pub wait : Bucket → ℤ → ℤ → Option (ℤ × Bucket)
wait tb now count = do (d, tb') ← take_unbounded tb now count; some (slept d, tb')

unfoldable pub wait_max_duration : Bucket → ℤ → ℤ → ℤ → Option ((ℤ × Bool) × Bucket)
wait_max_duration tb now count max_wait = do
  (r, tb') ← take tb now count max_wait
  some ((slept r.0, r.1), tb')
