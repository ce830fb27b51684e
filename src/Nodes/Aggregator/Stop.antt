-- ===== src/Nodes/Aggregator/Stop.antt =====
-- aggregator.go: Stop and SafeStop, while the worker and those who call the aggregator go on. Closing
-- a channel that is closed already panics. `agt.wg.Wait()` is the wait for the worker to return.
use mathlib.Core.List.{append_assoc, append-nil, append_cancel_right}
use cbsignal_redis.Base.{
  ◌≤◌, ◌<◌, ◌≡◌, refl, sym, ◌∙◌, inl, inr, true, List, [], ◌∷◌, ◌++◌, arith, ◌==◌, if◌then◌else◌,
  Bool-cases, length, concat,
}
use cbsignal_redis.Messages.{SignalReq}
use cbsignal_redis.Nodes.Aggregator.{
  batch_process, on_quit, AggregatorOption, Worker, running, finished, sent,
}
use cbsignal_redis.Nodes.Aggregator.Steps.{
  enqueue, in_hand, none_lost, Aggregator, Step, Reach, enqueues, receives, runs_out, lingers,
  closes, quits, next,
}

-- What a goroutine that stops the aggregator meets: a queue that is not empty yet, a channel that it
-- has closed, or a channel that was closed before.
pub data Looked : Type 0 where
  waits panics : Looked
  closed : Aggregator → Looked

-- `close(agt.quit)`, all that Stop does before it waits.
unfoldable pub close_quit : Aggregator → Looked
close_quit a = if a.quit then panics else closed (record a { quit = true })

-- One test of the queue in SafeStop, at first or at a tick.
unfoldable pub look : Aggregator → Looked
unfolding close_quit
look a = if length a.event_queue == 0 then close_quit a else waits

pub data Steps (option : AggregatorOption) : Aggregator → Aggregator → Type 0 where
  none_more : {a : Aggregator} → Steps option a a
  one_more : {a b c : Aggregator} → Steps option a b → Step option b c → Steps option a c

-- SafeStop, called in the first state and returned in the last; it has closed `quit` in the middle.
pub data SafeStop (option : AggregatorOption) : Aggregator → Aggregator → Aggregator → Type 0 where
  ticks :
      {a b m c : Aggregator}
      → look a ≡ waits
      → Steps option a b
      → SafeStop option b m c
      → SafeStop option a m c
  returns :
      {a m c : Aggregator}
      → look a ≡ closed m
      → Steps option m c
      → c.worker.phase ≡ finished
      → SafeStop option a m c

-- Of the requests accepted since the state `m`, the first ones have been taken from the queue and the
-- others are in it.
record Since (m c : Aggregator) : Type 0 where
  first : List SignalReq
  grown : c.accepted ≡ m.accepted ++ (first ++ c.event_queue)

-- `quit` stays closed.
Step-quit :
    {option : AggregatorOption} {a b : Aggregator} → Step option a b → a.quit ≡ true → b.quit ≡ true
unfolding enqueue
Step-quit (enqueues a item room) h = h
Step-quit (receives a item rest outcome active e) h = h
Step-quit (runs_out a e) h = h
Step-quit (lingers a outcome active e) h = h
Step-quit (closes a) h = refl
Step-quit (quits a outcome active e) h = h

Steps-quit :
    {option : AggregatorOption} {a b : Aggregator}
    → Steps option a b
    → a.quit ≡ true
    → b.quit ≡ true
Steps-quit none_more h = h
Steps-quit (one_more ss s) h = Step-quit s (Steps-quit ss h)

pub Steps-Reach :
    {option : AggregatorOption} {a b : Aggregator}
    → Steps option a b
    → Reach option a
    → Reach option b
Steps-Reach none_more r = r
Steps-Reach (one_more ss s) r = next (Steps-Reach ss r) s

Step-Since :
    {option : AggregatorOption} {m a b : Aggregator} → Step option a b → Since m a → Since m b
unfolding enqueue
Step-Since {m = m} (enqueues a item room) v = record {
  first = v.first;
  grown =
      rw
        (
          v.grown,
          append_assoc m.accepted (v.first ++ a.event_queue) (item ∷ []),
          append_assoc v.first a.event_queue (item ∷ []),
        )
        refl;
}
Step-Since (receives a item rest outcome active e) v = record {
  first = v.first ++ item ∷ [];
  grown = rw (append_assoc v.first (item ∷ []) rest) (rw e at v.grown);
}
Step-Since (runs_out a e) v = record { first = v.first; grown = v.grown }
Step-Since (lingers a outcome active e) v = record { first = v.first; grown = v.grown }
Step-Since (closes a) v = record { first = v.first; grown = v.grown }
Step-Since (quits a outcome active e) v = record { first = v.first; grown = v.grown }

Steps-Since :
    {option : AggregatorOption} {m a b : Aggregator} → Steps option a b → Since m a → Since m b
Steps-Since none_more v = v
Steps-Since (one_more ss s) v = Step-Since s (Steps-Since ss v)

-- A goroutine that has closed the channel saw an empty queue and an open channel.
record ClosedBy (a m : Aggregator) : Type 0 where
  empty : a.event_queue ≡ []
  now : m ≡ record a { quit = true }

length-zero : {A : Type 0} (l : List A) → (length l == 0) ≡ true → l ≡ []
length-zero [] h = refl
length-zero (x ∷ l) h = ground arith

look-closed : (a m : Aggregator) → look a ≡ closed m → ClosedBy a m
unfolding look close_quit
look-closed a m h = elim (Bool-cases (length a.event_queue == 0)) [
  | inl none_left ↦ elim (Bool-cases a.quit) [
    | inl shut ↦ absurd (ground (arith, h))
    | inr open_still ↦ record {
      empty = length-zero a.event_queue none_left;
      now = ground (arith, h);
    }
  ]
  | inr some_left ↦ absurd (ground (arith, h))
]

module _ (option : AggregatorOption) (large : 2 ≤ option.batch_size) where
  -- SafeStop, called in a state that the aggregator reaches, with batches of at least 2: when it
  -- returns, what has been handed over is all that was accepted before it closed `quit` and the first
  -- of the requests accepted since; the others are what is left in the queue.
  pub handed_over-SafeStop :
      {a m c : Aggregator}
      → Reach option a
      → SafeStop option a m c
      → (first : List SignalReq) × (concat c.worker.batches ≡ m.accepted ++ first)
        × (c.accepted ≡ m.accepted ++ (first ++ c.event_queue))
  handed_over-SafeStop r (ticks waited ss stop) = handed_over-SafeStop (Steps-Reach ss r) stop
  handed_over-SafeStop {a} {m} {c} r (returns saw ss ended) =
      let seen = look-closed a m saw in
      let since : Since m m = record {
        first = [];
        grown = rw (seen.now, seen.empty) (sym (append-nil a.accepted));
      } in
      let v = Steps-Since ss since in
      let reached : Reach option c = Steps-Reach ss (rw seen.now (next r (closes a))) in
      let handed : in_hand c.worker ≡ concat c.worker.batches = rw ended refl in
      let all = rw handed at (none_lost option large reached) in
      (
        v.first,
        append_cancel_right (concat c.worker.batches) (m.accepted ++ v.first) c.event_queue
            (all ∙ v.grown ∙ sym (append_assoc m.accepted v.first c.event_queue)),
        v.grown,
      )

-- Two goroutines that stop the same aggregator, as two calls of NodeHub's Get that find the same dead
-- node do: whatever happens after the first has closed the channel, the second one's Stop panics, and
-- so does its SafeStop as soon as it sees an empty queue.
pub second_stop-panics :
    (option : AggregatorOption) (a m c : Aggregator)
    → look a ≡ closed m
    → Steps option m c
    → (close_quit c ≡ panics) × (c.event_queue ≡ [] → look c ≡ panics)
unfolding look close_quit
second_stop-panics option a m c saw ss =
    let shut : c.quit ≡ true = Steps-quit ss (rw (look-closed a m saw).now refl) in
    (rw shut refl, λ empty. rw (empty, shut) refl)

-- The state after SafeStop has closed the channel, a request has come in, and the worker has chosen
-- to quit.
abbrev pub overtaken : AggregatorOption → SignalReq → Aggregator → Aggregator
overtaken option item m =
    let a = enqueue item m in record a { worker = on_quit option sent a.worker }

on_quit-ends : (option : AggregatorOption) (w : Worker) → (on_quit option sent w).phase ≡ finished
unfolding on_quit batch_process
on_quit-ends option w = elim (Bool-cases (w.len == 0)) [
  | inl none_left ↦ rw none_left refl
  | inr some_left ↦ rw some_left refl
]

-- SafeStop returns while a request that was accepted is left in the queue, if the request comes in
-- behind the look that found the queue empty and the running worker quits next.
pub SafeStop-misses :
    (option : AggregatorOption) (a m : Aggregator) (item : SignalReq)
    → 0 < option.channel_buffer_size
    → look a ≡ closed m
    → a.worker.phase ≡ running
    → let c = overtaken option item m in
      SafeStop option a m c × (c.event_queue ≡ item ∷ []) × (c.accepted ≡ a.accepted ++ item ∷ [])
unfolding enqueue
SafeStop-misses option a m item room saw active =
    let seen = look-closed a m saw in
    let worker : m.worker ≡ a.worker = rw seen.now refl in
    let queue : m.event_queue ≡ [] = rw seen.now seen.empty in
    let shut : m.quit ≡ true = rw seen.now refl in
    let comes : Step option m (enqueue item m) = enqueues m item (rw queue room) in
    let ends = quits (enqueue item m) sent (rw worker active) shut in
    (
      returns saw (one_more (one_more none_more comes) ends) (on_quit-ends option m.worker),
      rw queue refl,
      rw seen.now refl,
    )
