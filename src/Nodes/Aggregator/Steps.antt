-- ===== src/Nodes/Aggregator/Steps.antt =====
-- aggregator.go: the aggregator as a whole, its queue, its worker and those who call it, as steps in
-- any order. Start makes the state `start`; Stop and SafeStop close `quit`, SafeStop only when it has
-- seen the queue empty.
use cbsignal_redis.Base.{
  ◌≤◌, ◌<◌, ◌≡◌, refl, sym, ap, ◌∙◌, ◌≢◌, ◌⊎◌, inl, inr, Bool, true, false, List, [], ◌∷◌, ◌++◌,
  arith, ◌==◌, ==_iff, Bool-cases, length, concat, concat-snoc, All,
}
use cbsignal_redis.Messages.{SignalReq}
use cbsignal_redis.Nodes.Aggregator.{
  start_worker, batch, batch_process, go_on, on_request, on_linger, finish, on_quit,
  AggregatorOption, Worker, Outcome, stopped, armed, fired, running, blocked, finished, sent,
  failed, panicked,
}
use cbsignal_redis.Nodes.Aggregator.Loop.{
  IsSized, taken, start_worker-IsReady, IsSized-batch, on_request-IsReady, on_linger-IsReady,
  IsReady,
}
use mathlib.Core.List.{append_assoc, append-nil}

pub record Aggregator : Type 0 where
  pub event_queue : List SignalReq
  pub quit : Bool
  pub worker : Worker
  -- every request that a caller was told is in the queue, in order
  pub accepted : List SignalReq

unfoldable pub start : Aggregator
start = record { event_queue = []; quit = false; worker = start_worker; accepted = [] }

-- Enqueue and TryEnqueue add to a queue with room.
unfoldable pub enqueue : SignalReq → Aggregator → Aggregator
enqueue item a = record a {
  event_queue = a.event_queue ++ item ∷ [];
  accepted = a.accepted ++ item ∷ [];
}

-- The worker has run `f`.
abbrev work : (Worker → Worker) → Aggregator → Aggregator
work f a = record a { worker = f a.worker }

pub data Step (option : AggregatorOption) : Aggregator → Aggregator → Type 0 where
  enqueues :
      (a : Aggregator) (item : SignalReq)
      → length a.event_queue < option.channel_buffer_size
      → Step option a (enqueue item a)
  receives :
      (a : Aggregator) (item : SignalReq) (rest : List SignalReq) (outcome : Outcome)
      → a.worker.phase ≡ running
      → a.event_queue ≡ item ∷ rest
      → Step option a (work (on_request option item outcome) (record a { event_queue = rest }))
  runs_out :
      (a : Aggregator)
      → a.worker.timer ≡ armed
      → Step option a (work (λ w. record w { timer = fired }) a)
  lingers :
      (a : Aggregator) (outcome : Outcome)
      → a.worker.phase ≡ running
      → a.worker.timer ≡ fired
      → Step option a (work (on_linger option outcome) a)
  closes : (a : Aggregator) → Step option a (record a { quit = true })
  quits :
      (a : Aggregator) (outcome : Outcome)
      → a.worker.phase ≡ running
      → a.quit ≡ true
      → Step option a (work (on_quit option outcome) a)

pub data Reach (option : AggregatorOption) : Aggregator → Type 0 where
  here : Reach option start
  next : {a b : Aggregator} → Reach option a → Step option a b → Reach option b

-- The worker has returned after it handed its last batch over.
record IsFinished (option : AggregatorOption) (w : Worker) : Type 0 where
  ended : w.phase ≡ finished
  idle : w.timer ≡ stopped
  sized : All (IsSized option) w.batches

-- Batches in order; `sent_all` is what has been handed over, and the batch being made.
abbrev pub in_hand : Worker → List SignalReq
in_hand w = elim w.phase [ finished ↦ concat w.batches | _ ↦ taken w ]

record Inv (option : AggregatorOption) (a : Aggregator) : Type 0 where
  state : IsReady option a.worker ⊎ IsFinished option a.worker
  accounted : in_hand a.worker ++ a.event_queue ≡ a.accepted

module _ (option : AggregatorOption) (large : 2 ≤ option.batch_size) where
  in_hand_running : (w : Worker) → w.phase ≡ running → in_hand w ≡ taken w
  in_hand_running w h = ground arith

  not-IsFinished : (w : Worker) → w.phase ≡ running → ¬ IsFinished option w
  not-IsFinished w h f = ground (arith, f.ended)

  IsReady-of_running :
      (w : Worker) → w.phase ≡ running → IsReady option w ⊎ IsFinished option w → IsReady option w
  IsReady-of_running w h (inl r) = r
  IsReady-of_running w h (inr f) = absurd (not-IsFinished w h f)

  start-Inv : Inv option start
  unfolding start start_worker
  start-Inv = record { state = inl (start_worker-IsReady option large); accounted = refl }

  quit_full :
      (w : Worker) (outcome : Outcome)
      → All (IsSized option) (w.batches ++ batch w ∷ [])
      → let w' = go_on outcome finish (batch_process option outcome w) in
        (IsReady option w' ⊎ IsFinished option w') × (in_hand w' ≡ taken w)
  unfolding batch_process
  quit_full w sent sized =
      (inr (record { ended = refl; idle = refl; sized = sized }), concat-snoc w.batches (batch w))
  quit_full w failed sized =
      (inr (record { ended = refl; idle = refl; sized = sized }), concat-snoc w.batches (batch w))
  quit_full w panicked sized = (
    inl (record {
      active = refl;
      within = omega arith;
      short = omega arith;
      timed = refl;
      sized = sized;
    }),
    rw (concat-snoc w.batches (batch w), append-nil),
  )

  on_quit-Inv :
      (w : Worker) (outcome : Outcome)
      → IsReady option w
      → let w' = on_quit option outcome w in
        (IsReady option w' ⊎ IsFinished option w') × (in_hand w' ≡ taken w)
  unfolding on_quit
  on_quit-Inv w outcome ready = elim (Bool-cases (w.len == 0)) [
    | inl none_left ↦
        let empty : w.len ≡ 0 = (==_iff w.len 0).0 none_left in
        rw none_left (
          inr (record { ended = refl; idle = refl; sized = ready.sized }),
          rw empty (sym (append-nil (concat w.batches))),
        )
    | inr some_left ↦
        let all_sized =
          IsSized-batch option large w ready.within (ground arith) (omega (arith, ready.short))
            ready.sized in
        rw some_left (quit_full w outcome all_sized)
  ]

  fired_state :
      (w : Worker)
      → w.timer ≡ armed
      → IsReady option w ⊎ IsFinished option w
      → IsReady option (record w { timer = fired }) ⊎ IsFinished option (record w { timer = fired })
  fired_state w e (inl r) = inl (record {
    active = r.active;
    within = r.within;
    short = r.short;
    timed = rw e at r.timed;
    sized = r.sized;
  })
  fired_state w e (inr f) = absurd (ground (arith, f.idle))

  Step-Inv : {a b : Aggregator} → Step option a b → Inv option a → Inv option b
  unfolding enqueue
  Step-Inv (enqueues a item room) inv = record {
    state = inv.state;
    accounted =
        sym (append_assoc (in_hand a.worker) a.event_queue (item ∷ []))
        ∙ ap (λ (l : List SignalReq). l ++ item ∷ []) inv.accounted;
  }
  Step-Inv (receives a item rest outcome active e) inv =
      let ready = IsReady-of_running a.worker active inv.state in
      let (ready', same) = on_request-IsReady option large item outcome a.worker ready in
      record {
        state = inl ready';
        accounted =
            rw
              (
                in_hand_running (on_request option item outcome a.worker) ready'.active,
                same,
                append_assoc,
              )
              (rw (in_hand_running a.worker active, e) at inv.accounted);
      }
  Step-Inv (runs_out a e) inv = record {
    state = fired_state a.worker e inv.state;
    accounted = inv.accounted;
  }
  Step-Inv (lingers a outcome active e) inv =
      let ready = IsReady-of_running a.worker active inv.state in
      let (ready', same, _) = on_linger-IsReady option large outcome a.worker ready e in
      record {
        state = inl ready';
        accounted =
            rw (in_hand_running (on_linger option outcome a.worker) ready'.active, same)
              (rw (in_hand_running a.worker active) at inv.accounted);
      }
  Step-Inv (closes a) inv = record { state = inv.state; accounted = inv.accounted }
  Step-Inv (quits a outcome active e) inv =
      let ready = IsReady-of_running a.worker active inv.state in
      let (state', same) = on_quit-Inv a.worker outcome ready in
      record {
        state = state';
        accounted = rw same (rw (in_hand_running a.worker active) at inv.accounted);
      }

  linger_hands_over :
      (w : Worker)
      → 0 < w.len
      → (outcome : Outcome) → (on_linger option outcome w).batches ≡ w.batches ++ batch w ∷ []
  unfolding on_linger batch_process
  linger_hands_over w nonempty sent = ground arith
  linger_hands_over w nonempty failed = ground arith
  linger_hands_over w nonempty panicked = ground arith

  Reach-Inv : {a : Aggregator} → Reach option a → Inv option a
  Reach-Inv here = start-Inv
  Reach-Inv (next r s) = Step-Inv s (Reach-Inv r)

  -- In every reachable state, with a batch size of at least 2: the batches handed over, the batch
  -- being made and the queue are, in this order, the accepted requests in the order of acceptance; so
  -- none is lost, doubled or overtaken, whatever the batch processor does.
  pub none_lost : {a : Aggregator} → Reach option a → in_hand a.worker ++ a.event_queue ≡ a.accepted
  none_lost r = (Reach-Inv r).accounted

  IsSized-of_state :
      (w : Worker) → IsReady option w ⊎ IsFinished option w → All (IsSized option) w.batches
  IsSized-of_state w (inl r) = r.sized
  IsSized-of_state w (inr f) = f.sized

  -- With a batch size of at least 2, every batch handed over holds at least one request and at most the batch size.
  batches-IsSized : {a : Aggregator} → Reach option a → All (IsSized option) a.worker.batches
  batches-IsSized {a} r = IsSized-of_state a.worker (Reach-Inv r).state

  not_blocked : (w : Worker) → IsReady option w ⊎ IsFinished option w → w.phase ≢ blocked
  not_blocked w (inl r) h = ground (arith, r.active)
  not_blocked w (inr f) h = ground (arith, f.ended)

  -- With a batch size of at least 2 the worker never waits for a timer that does not run.
  pub never_blocked : {a : Aggregator} → Reach option a → a.worker.phase ≢ blocked
  never_blocked {a} r = not_blocked a.worker (Reach-Inv r).state

  timer_of_state :
      (w : Worker)
      → IsReady option w ⊎ IsFinished option w
      → w.phase ≡ running
      → 0 < w.len
      → (w.timer ≡ armed) ⊎ (w.timer ≡ fired)
  timer_of_state w (inl r) h nonempty = ground (arith, r.timed)
  timer_of_state w (inr f) h nonempty = absurd (ground (arith, f.ended))

  -- While the worker runs and its batch holds a request, the linger timer runs or has run out, so the
  -- batch does not wait for further requests; and running out leads to its being handed over.
  lingering_ends :
      {a : Aggregator}
      → Reach option a
      → a.worker.phase ≡ running
      → 0 < a.worker.len
      → ((a.worker.timer ≡ armed) ⊎ (a.worker.timer ≡ fired))
        × ((outcome : Outcome)
            → (on_linger option outcome a.worker).batches ≡ a.worker.batches ++ batch a.worker ∷ [])
  lingering_ends {a} r active nonempty = (
    timer_of_state a.worker (Reach-Inv r).state active nonempty,
    linger_hands_over a.worker nonempty,
  )
