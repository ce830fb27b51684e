-- ===== src/Nodes/Aggregator.antt =====
-- nodes/aggregator.go: an aggregator with one worker, as NewNode makes it (`option.Workers = 1`).
-- The event queue is a buffered channel. The worker's `batch` is a slice over an array that
-- `batch[0:0]` reuses, so the slice that a failed batch hands to the error handler's goroutine shares
-- that array. A timer's channel holds at most one value, and a receive from the channel of a stopped
-- timer blocks for good. Log lines and the wait group's count are left out.
pub mod Steps
pub mod Loop
pub mod Sharing
pub mod Stop
use cbsignal_redis.Base.{
  ℕ, suc, Bool, true, false, List, [], ◌∷◌, ◌++◌, map, ltb, leb, ◌==◌, if◌then◌else◌, length, take,
  drop,
}
use cbsignal_redis.Messages.{SignalReq}
use mathlib.Core.List.{foldl}

pub record AggregatorOption : Type 0 where
  pub batch_size : ℕ
  pub workers : ℕ
  pub channel_buffer_size : ℕ
  pub linger_time : ℕ
  -- ErrorHandler != nil
  pub has_error_handler : Bool

-- The defaults and the option functions of NewAggregator; durations in milliseconds.
unfoldable pub new_option : ℕ → List (AggregatorOption → AggregatorOption) → AggregatorOption
new_option num_cpu option_funcs =
    let option =
      foldl (λ o f. f o)
        (record {
          batch_size = 8;
          workers = num_cpu;
          channel_buffer_size = 0;
          linger_time = 60_000;
          has_error_handler = false;
        })
        option_funcs in
    if leb option.channel_buffer_size option.workers
    then record option { channel_buffer_size = option.workers }
    else option

pub data Timer : Type 0 where
  -- not running, with nothing in the channel; running; run out, with a value in the channel
  stopped armed fired : Timer

pub data Phase : Type 0 where
  -- in the select loop; in `<-lingerTimer.C` behind a timer that did not run; returned
  running blocked finished : Phase

-- A slice that a goroutine of the error handler holds: a prefix of the worker's array, or of an array
-- that the worker no longer has.
pub data Slice : Type 0 where
  shared : ℕ → Slice
  detached : List SignalReq → Slice

pub record Worker : Type 0 where
  pub array : List SignalReq
  pub len : ℕ
  pub timer : Timer
  pub phase : Phase
  pub handlers : List Slice
  -- what was passed to batchProcessor, call by call
  pub batches : List (List SignalReq)

-- What a call of batchProcessor does.
pub data Outcome : Type 0 where
  sent failed panicked : Outcome

unfoldable pub start_worker : Worker
start_worker = record {
  array = [];
  len = 0;
  timer = stopped;
  phase = running;
  handlers = [];
  batches = [];
}

abbrev pub batch : Worker → List SignalReq
batch w = take w.len w.array

-- `append(batch, req)`, into the array at the slice's end.
abbrev pub put : List SignalReq → ℕ → SignalReq → List SignalReq
put array n req = take n array ++ req ∷ drop (suc n) array

-- lingerTimer.Reset
abbrev pub reset : Timer → Timer
reset stopped = armed
reset armed = armed
reset fired = fired

-- The slice of a handler when its array is left behind.
abbrev pub detach : List SignalReq → Slice → Slice
detach array (shared n) = detached (take n array)
detach array (detached items) = detached items

-- What a handler's slice holds now.
abbrev pub read : Worker → Slice → List SignalReq
read w (shared n) = take n w.array
read w (detached items) = items

-- batchProcess on the whole batch. A panic unwinds `work`, whose deferred function calls it afresh.
unfoldable pub batch_process : AggregatorOption → Outcome → Worker → Worker
batch_process option sent w = record w { batches = w.batches ++ batch w ∷ [] }
batch_process option failed w = record w {
  batches = w.batches ++ batch w ∷ [];
  handlers = if option.has_error_handler then shared w.len ∷ w.handlers else w.handlers;
}
batch_process option panicked w = record {
  array = [];
  len = 0;
  timer = stopped;
  phase = running;
  handlers = map (detach w.array) w.handlers;
  batches = w.batches ++ batch w ∷ [];
}

-- `if !lingerTimer.Stop() { <-lingerTimer.C }` and `batch = batch[0:0]`.
unfoldable pub stop_and_clear : Worker → Worker
stop_and_clear w = elim w.timer [
  | stopped ↦ record w { phase = blocked }
  | armed ↦ record w { timer = stopped; len = 0 }
  | fired ↦ record w { timer = stopped; len = 0 }
]

-- After batchProcess the loop goes on, unless the call panicked.
abbrev pub go_on : Outcome → (Worker → Worker) → Worker → Worker
go_on sent f w = f w
go_on failed f w = f w
go_on panicked f w = w

-- `case req := <-agt.eventQueue`
unfoldable pub on_request : AggregatorOption → SignalReq → Outcome → Worker → Worker
on_request option req outcome w =
    let w' = record w { array = put w.array w.len req; len = suc w.len } in
    if ltb w'.len option.batch_size
    then (if w'.len == 1 then record w' { timer = reset w'.timer } else w')
    else go_on outcome stop_and_clear (batch_process option outcome w')

abbrev pub clear : Worker → Worker
clear w = record w { len = 0 }

-- `case <-lingerTimer.C`
unfoldable pub on_linger : AggregatorOption → Outcome → Worker → Worker
on_linger option outcome w =
    let w' = record w { timer = stopped } in
    if w'.len == 0 then w' else go_on outcome clear (batch_process option outcome w')

-- `work` returns, and its deferred call stops the timer.
abbrev pub finish : Worker → Worker
finish w = record w { phase = finished; timer = stopped }

-- `case <-agt.quit`
unfoldable pub on_quit : AggregatorOption → Outcome → Worker → Worker
on_quit option outcome w =
    if w.len == 0 then finish w else go_on outcome finish (batch_process option outcome w)

-- A non-blocking send to the buffered channel: whether it went in, and the channel after.
unfoldable pub try_send : ℕ → SignalReq → List SignalReq → Bool × List SignalReq
try_send size item queue =
    if ltb (length queue) size then (true, queue ++ item ∷ []) else (false, queue)

-- TryEnqueue: a second try after the scheduler has run others, who leave `queue'` in the channel.
unfoldable pub try_enqueue : ℕ → SignalReq → List SignalReq → List SignalReq → Bool × List SignalReq
unfolding try_send
try_enqueue size item queue queue' =
    let (accepted, after) = try_send size item queue in
    if accepted then (true, after) else try_send size item queue'
