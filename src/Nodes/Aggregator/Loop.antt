-- ===== src/Nodes/Aggregator/Loop.antt =====
-- aggregator.go: the cases of the worker's select, one at a time, with batches of two or more.
use mathlib.Core.List.{append_assoc, append-nil}
use cbsignal_redis.Base.{
  ℕ, zero, suc, ◌≤◌, ◌<◌, ◌≡◌, refl, sym, ap, ◌∙◌, ◌≢◌, inl, inr, List, [], ◌∷◌, ◌++◌, arith, ltb,
  Bool-cases, length, take, drop, length-append, concat, concat-snoc, length-take, All, All-snoc,
}
use cbsignal_redis.Messages.{SignalReq}
use cbsignal_redis.Nodes.Aggregator.{
  start_worker, batch, put, batch_process, stop_and_clear, go_on, on_request, on_linger,
  AggregatorOption, Timer, Worker, Outcome, stopped, armed, fired, running, sent, failed, panicked,
}

-- The timer runs, or has run out, exactly while the batch holds something.
abbrev pub IsTimed : Timer → ℕ → Type 0
IsTimed stopped n = n ≡ 0
IsTimed armed n = 0 < n
IsTimed fired n = 0 < n

abbrev pub IsSized : AggregatorOption → List SignalReq → Type 0
IsSized option b = (0 < length b) × (length b ≤ option.batch_size)

-- The worker at the head of its loop.
pub record IsReady (option : AggregatorOption) (w : Worker) : Type 0 where
  pub active : w.phase ≡ running
  pub within : w.len ≤ length w.array
  pub short : w.len < option.batch_size
  pub timed : IsTimed w.timer w.len
  pub sized : All (IsSized option) w.batches

-- What the worker has taken from the queue, in order.
abbrev pub taken : Worker → List SignalReq
taken w = concat w.batches ++ batch w

length-put :
    (array : List SignalReq) (n : ℕ) (req : SignalReq)
    → n ≤ length array
    → suc n ≤ length (put array n req)
length-put array n req h =
    omega (arith, length-append (take n array) (req ∷ drop (suc n) array), length-take n array h)

take-put :
    (array : List SignalReq) (n : ℕ) (req : SignalReq)
    → n ≤ length array
    → take (suc n) (put array n req) ≡ take n array ++ req ∷ []
take-put array zero req h = refl
take-put [] (suc n) req h = absurd (omega arith)
take-put (x ∷ array) (suc n) req h = ap (◌∷◌ x) (take-put array n req (omega arith))

-- An append to the batch is the last request taken.
taken-put :
    (w : Worker) (req : SignalReq)
    → w.len ≤ length w.array
    → concat w.batches ++ take (suc w.len) (put w.array w.len req) ≡ taken w ++ req ∷ []
taken-put w req h =
    rw (take-put w.array w.len req h) (sym (append_assoc (concat w.batches) (batch w) (req ∷ [])))

module _ (option : AggregatorOption) (large : 2 ≤ option.batch_size) where
  pub start_worker-IsReady : IsReady option start_worker
  unfolding start_worker
  start_worker-IsReady = record {
    active = refl;
    within = omega arith;
    short = omega arith;
    timed = refl;
    sized = tt;
  }

  pub IsSized-batch :
      (w : Worker)
      → w.len ≤ length w.array
      → 0 < w.len
      → w.len ≤ option.batch_size
      → All (IsSized option) w.batches
      → All (IsSized option) (w.batches ++ batch w ∷ [])
  IsSized-batch w within positive fits sized = All-snoc (IsSized option) w.batches (batch w) sized (
    omega (arith, length-take w.len w.array within),
    omega (arith, length-take w.len w.array within),
  )

  -- A full batch, still with its timer.
  process_full :
      (outcome : Outcome) (w : Worker)
      → w.phase ≡ running
      → w.len ≤ length w.array
      → 0 < w.len
      → w.len ≤ option.batch_size
      → w.timer ≢ stopped
      → All (IsSized option) w.batches
      → let w' = go_on outcome stop_and_clear (batch_process option outcome w) in
        IsReady option w' × (taken w' ≡ taken w)
  unfolding batch_process stop_and_clear
  process_full sent w active within positive fits runs sized = ground (
    arith,
    IsSized-batch w within positive fits sized,
    concat-snoc w.batches (batch w),
    append-nil (concat w.batches ++ batch w),
  )
  process_full failed w active within positive fits runs sized = ground (
    arith,
    IsSized-batch w within positive fits sized,
    concat-snoc w.batches (batch w),
    append-nil (concat w.batches ++ batch w),
  )
  process_full panicked w active within positive fits runs sized = (
    record {
      active = refl;
      within = omega arith;
      short = omega arith;
      timed = refl;
      sized = IsSized-batch w within positive fits sized;
    },
    rw (concat-snoc w.batches (batch w), append-nil),
  )

  timer_runs : (w : Worker) → IsReady option w → option.batch_size ≤ suc w.len → w.timer ≢ stopped
  timer_runs w ready full h = absurd (ground (arith, ready.timed))

  -- `case req := <-agt.eventQueue`: the loop goes on, and the request is the last one taken.
  pub on_request-IsReady :
      (req : SignalReq) (outcome : Outcome) (w : Worker)
      → IsReady option w
      → let w' = on_request option req outcome w in
        IsReady option w' × (taken w' ≡ taken w ++ req ∷ [])
  unfolding on_request
  on_request-IsReady req outcome w ready = elim (Bool-cases (ltb (suc w.len) option.batch_size)) [
    | inl more ↦
        rw more
          (ground (arith, length-put w.array w.len req ready.within, taken-put w req ready.within))
    | inr full ↦
        let w' : Worker = record w { array = put w.array w.len req; len = suc w.len } in
        let (ready', same) =
          process_full outcome w' ready.active (length-put w.array w.len req ready.within)
            (omega arith) (omega (arith, ready.short)) (timer_runs w ready (ground (arith, full)))
            ready.sized in
        rw full (ready', same ∙ taken-put w req ready.within)
  ]

  -- `case <-lingerTimer.C`: a batch that has waited long enough is processed.
  pub on_linger-IsReady :
      (outcome : Outcome) (w : Worker)
      → IsReady option w
      → w.timer ≡ fired
      → let w' = on_linger option outcome w in
        IsReady option w' × (taken w' ≡ taken w) × (w'.len ≡ 0)
  unfolding on_linger batch_process
  on_linger-IsReady outcome w ready ran_out = ground (
    arith,
    IsSized-batch w ready.within,
    concat-snoc w.batches (batch w),
    append-nil (concat w.batches ++ batch w),
  )
