-- ===== src/Nodes/Aggregator/Sharing.antt =====
-- aggregator.go: the worker's timer with batches of one, and the array that it shares with the error
-- handler.
use cbsignal_redis.Base.{
  ℕ, zero, suc, ◌≤◌, ◌≡◌, refl, ap, ◌≢◌, true, List, [], ◌∷◌, ◌++◌, map, arith, take, drop,
}
use cbsignal_redis.Messages.{SignalReq}
use cbsignal_redis.Nodes.Aggregator.{
  start_worker, put, read, batch_process, stop_and_clear, on_request, AggregatorOption, Worker,
  Outcome, stopped, blocked, shared, sent, failed, panicked,
}
use cbsignal_redis.Nodes.Aggregator.Loop.{IsReady}
use cbsignal_redis.Nodes.Aggregator.Steps.{
  enqueue, Aggregator, Step, enqueues, receives, runs_out, lingers, closes, quits,
}

-- With a batch size of at most 1 the first request that is processed without a panic leaves the
-- worker waiting for a timer that was never started.
single_blocks :
    (option : AggregatorOption) (req : SignalReq) (outcome : Outcome)
    → option.batch_size ≤ 1
    → outcome ≢ panicked
    → (on_request option req outcome start_worker).phase ≡ blocked
unfolding on_request batch_process stop_and_clear start_worker
single_blocks option req sent small calm = ground arith
single_blocks option req failed small calm = ground arith
single_blocks option req panicked small calm = absurd (calm refl)

-- A blocked worker stays blocked, and hands nothing over any more, whatever else happens.
pub Step-blocked :
    {option : AggregatorOption} {a b : Aggregator}
    → Step option a b
    → a.worker.phase ≡ blocked
    → (b.worker.phase ≡ blocked) × (b.worker.batches ≡ a.worker.batches)
unfolding enqueue
Step-blocked (enqueues a item room) h = (h, refl)
Step-blocked (receives a item rest outcome active e) h = absurd (ground (arith, h, active))
Step-blocked (runs_out a e) h = (h, refl)
Step-blocked (lingers a outcome active e) h = absurd (ground (arith, h, active))
Step-blocked (closes a) h = (h, refl)
Step-blocked (quits a outcome active e) h = absurd (ground (arith, h, active))

-- The batch that a request fills, and the slice of it that the error handler gets.
abbrev pub filled_batch : Worker → SignalReq → List SignalReq
filled_batch w req = take (suc w.len) (put w.array w.len req)

after_failure :
    (option : AggregatorOption) (w : Worker) (req : SignalReq)
    → option.has_error_handler ≡ true
    → option.batch_size ≡ suc w.len
    → w.timer ≢ stopped
    → on_request option req failed w ≡ record w {
      array = put w.array w.len req;
      len = 0;
      timer = stopped;
      handlers = shared (suc w.len) ∷ w.handlers;
      batches = w.batches ++ filled_batch w req ∷ [];
    }
unfolding on_request batch_process stop_and_clear
after_failure option w req handler full runs = ground arith

take-nil : (n : ℕ) → take {A = SignalReq} n [] ≡ []
take-nil zero = refl
take-nil (suc n) = refl

-- The first request of a batch goes to the front of the array.
first_request :
    (option : AggregatorOption) (w : Worker) (req : SignalReq)
    → 2 ≤ option.batch_size
    → (on_request option req sent (record w { len = 0 })).array ≡ put w.array 0 req
unfolding on_request
first_request option w req large = ground arith

take-put-zero :
    (n : ℕ) (array : List SignalReq) (r : SignalReq)
    → take (suc n) (put array 0 r) ≡ r ∷ drop 1 (take (suc n) array)
take-put-zero n [] r = ap (◌∷◌ r) (take-nil n)
take-put-zero n (x ∷ array) r = refl

-- What the goroutines of the error handler would read now, the latest first.
abbrev pub handed_to_handlers : Worker → List (List SignalReq)
handed_to_handlers w = map (read w) w.handlers

-- A request that does not fill its batch starts no error handler.
same_handlers :
    (option : AggregatorOption) (w : Worker) (req : SignalReq)
    → 2 ≤ option.batch_size
    → (on_request option req sent (record w { len = 0 })).handlers ≡ w.handlers
unfolding on_request
same_handlers option w req large = ground arith

-- When a batch of the full size, at least 2, fails and one more request arrives before the error
-- handler has run: after the failure the handler that was started would read the batch, but after the
-- later request it reads that request in the place of the batch's first one.
pub handler_overwritten :
    (option : AggregatorOption) (w : Worker) (req later : SignalReq)
    → 2 ≤ option.batch_size
    → option.has_error_handler ≡ true
    → IsReady option w
    → option.batch_size ≡ suc w.len
    → let w' = on_request option req failed w in
      let w'' = on_request option later sent w' in
      (handed_to_handlers w' ≡ filled_batch w req ∷ map (read w') w.handlers)
      × (handed_to_handlers w'' ≡ (later ∷ drop 1 (filled_batch w req)) ∷ map (read w'') w.handlers)
handler_overwritten option w req later large handler ready full =
    let runs : w.timer ≢ stopped = λ e. absurd (ground (arith, ready.timed)) in
    rw (after_failure option w req handler full runs)
      (refl, rw same (ap (λ b. b ∷ map (read next) w.handlers) first_array))
  where
    filled : Worker
    filled = record w {
      array = put w.array w.len req;
      timer = stopped;
      handlers = shared (suc w.len) ∷ w.handlers;
      batches = w.batches ++ filled_batch w req ∷ [];
    }

    next : Worker
    next = on_request option later sent (record filled { len = 0 })

    same : next.handlers ≡ shared (suc w.len) ∷ w.handlers
    same = same_handlers option filled later large

    first_array : take (suc w.len) next.array ≡ later ∷ drop 1 (filled_batch w req)
    first_array =
        rw (first_request option filled later large) (take-put-zero w.len filled.array later)
