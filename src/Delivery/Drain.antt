-- ===== src/Delivery/Drain.antt =====
-- The steps of a receiver that empty its queue in Redis and end every flight.
use mathlib.Core.List.{append-nil, append_assoc, append_cancel_left}
use cbsignal_redis.Base.{
  ℕ, suc, ◌≤◌, ◌≡◌, refl, sym, ap, ◌∙◌, inl, inr, some, List, [], ◌∷◌, ◌++◌, map, arith,
  Option-cases, length, replicate, length-append, concat, All, Bytes,
}
use cbsignal_redis.Messages.{SignalReq}
use cbsignal_redis.Nodes.Node.Trim.{AnsweringLists}
use cbsignal_redis.World.{Env}
use cbsignal_redis.Hub.{get_client, deliver}
use cbsignal_redis.Delivery.{
  payloads, next_item, push_batch, take_batch, deliver_next, step, run, Event, Link, pushes, takes,
  delivers,
}
use cbsignal_redis.Client.{polling_queue_size}
use cbsignal_redis.Delivery.Client.{IsAt-redis, deliver-IsAt, IsAt}
use cbsignal_redis.Delivery.Payloads.{payloads-append}
use cbsignal_redis.Delivery.Queue.{mq, Carries, mq-deliver, take_batch_lem, PoppingLists}

-- The flights from the k-th on end, one after the other.
abbrev pub finish_from : ℕ → List (List SignalReq) → List Event
finish_from k [] = []
finish_from k (flight ∷ flights) =
    replicate (length flight) (delivers k) ++ finish_from (suc k) flights

-- Consume takes `n` batches, and then each flight of `flights` ends in turn.
abbrev pub in_turn : ℕ → List (List SignalReq) → List Event
in_turn n flights = replicate n takes ++ finish_from 0 flights

next_item-at :
    (ended : List (List SignalReq)) (item : SignalReq) (items : List SignalReq)
    (flights : List (List SignalReq))
    → next_item (length ended) (ended ++ ((item ∷ items) ∷ flights))
      ≡ some (item, ended ++ (items ∷ flights))
next_item-at [] item items flights = refl
next_item-at (f ∷ ended) item items flights = rw (next_item-at ended item items flights) refl

module _ (E : Env) (lists : AnsweringLists E.cmdable) (pops : PoppingLists E.cmdable lists) where
  run-append :
      (addr : Bytes) (es es' : List Event) (l : Link E)
      → run E addr (es ++ es') l ≡ run E addr es' (run E addr es l)
  unfolding run
  run-append addr [] es' l = refl
  run-append addr (e ∷ es) es' l = run-append addr es es' (step E addr e l)

  -- What stays of a link, and what is delivered, when a flight ends.
  record Ended (addr : Bytes) (flights : List (List SignalReq)) (items : List SignalReq)
      (l l' : Link E) : Type 0 where
    left : l'.flights ≡ flights
    got : l'.received ≡ l.received ++ items
    waits : mq E lists addr l'.world ≡ mq E lists addr l.world

  finish_flight :
      (addr : Bytes) (ended : List (List SignalReq)) (items : List SignalReq)
      (flights : List (List SignalReq)) (l : Link E)
      → l.flights ≡ ended ++ (items ∷ flights)
      → Ended addr
          (ended ++ ([] ∷ flights))
          items
          l
          (run E addr (replicate (length items) (delivers (length ended))) l)
  unfolding run step deliver_next
  finish_flight addr ended [] flights l h = record {
    left = h;
    got = sym (append-nil l.received);
    waits = refl;
  }
  finish_flight addr ended (item ∷ items) flights l h =
      let l' : Link E = record l {
        world = deliver E item l.world;
        flights = ended ++ (items ∷ flights);
        received = l.received ++ item ∷ [];
      } in
      let first : deliver_next E (length ended) l ≡ l' =
        rw (h, next_item-at ended item items flights, deliver_next) refl in
      let rest = finish_flight addr ended items flights l' refl in
      rw (run, step, first)
        (record {
          left = rest.left;
          got = rest.got ∙ append_assoc l.received (item ∷ []) items;
          waits = rest.waits ∙ mq-deliver E lists pops addr item l.world;
        })

  finish_flights :
      (addr : Bytes) (ended flights : List (List SignalReq)) (l : Link E)
      → l.flights ≡ ended ++ flights
      → Ended addr
          (ended ++ map (λ f. []) flights)
          (concat flights)
          l
          (run E addr (finish_from (length ended) flights) l)
  finish_flights addr ended [] l h =
      unfold run in record { left = h; got = sym (append-nil l.received); waits = refl }
  finish_flights addr ended (f ∷ flights) l h =
      let k = length ended in
      let l' = run E addr (replicate (length f) (delivers k)) l in
      let ended' = ended ++ [] ∷ [] in
      let longer : suc k ≡ length ended' =
        omega (arith, length-append {A = List SignalReq} ended ([] ∷ [])) in
      let first = finish_flight addr ended f flights l h in
      let rest =
        finish_flights addr ended' flights l'
          (first.left ∙ sym (append_assoc ended ([] ∷ []) flights)) in
      rw
        (
          run-append addr (replicate (length f) (delivers k)) (finish_from (suc k) flights) l,
          longer,
        )
        (record {
          left = rest.left ∙ append_assoc ended ([] ∷ []) (map (λ f. []) flights);
          got = rest.got ∙ rw first.got (append_assoc l.received f (concat flights));
          waits = rest.waits ∙ first.waits;
        })

  takes_lem :
      (encode : List SignalReq → Bytes) (addr : Bytes) (pending : List (List SignalReq))
      (l : Link E)
      → All (Carries E encode) pending
      → mq E lists addr l.world ≡ map encode pending
      → let l' = run E addr (replicate (length pending) takes) l in
        (l'.flights ≡ l.flights ++ pending)
        × (l'.received ≡ l.received)
        × (mq E lists addr l'.world ≡ [])
  unfolding run step
  takes_lem encode addr [] l c h = (sym (append-nil l.flights), refl, h)
  takes_lem encode addr (b ∷ pending) l c h =
      let (grown, rest) = take_batch_lem E lists pops encode addr b (map encode pending) l c.0 h in
      let (flown, same, empty) = takes_lem encode addr pending (take_batch E addr l) c.1 rest in
      (
        flown ∙ rw grown (append_assoc l.flights (b ∷ []) pending),
        same ∙ unfold take_batch in refl,
        empty,
      )

  in_turn-empties :
      (encode : List SignalReq → Bytes) (addr : Bytes) (pending : List (List SignalReq))
      (l : Link E)
      → All (Carries E encode) pending
      → mq E lists addr l.world ≡ map encode pending
      → let l' = run E addr (in_turn (length pending) (l.flights ++ pending)) l in
        (l'.received ≡ l.received ++ concat (l.flights ++ pending))
        × (mq E lists addr l'.world ≡ [])
        × (concat l'.flights ≡ [])
  in_turn-empties encode addr pending l c h =
      let l' = run E addr (replicate (length pending) takes) l in
      let (flown, same, empty) = takes_lem encode addr pending l c h in
      let last = finish_flights addr [] (l.flights ++ pending) l' flown in
      rw
        (run-append addr (replicate (length pending) takes) (finish_from 0 (l.flights ++ pending))
          l)
        (
          last.got ∙ rw same refl,
          last.waits ∙ empty,
          rw last.left (concat-map_nil (l.flights ++ pending)),
        )
    where
      concat-map_nil : (fs : List (List SignalReq)) → concat {A = SignalReq} (map (λ f. []) fs) ≡ []
      concat-map_nil [] = refl
      concat-map_nil (f ∷ fs) = concat-map_nil fs

  -- What the steps between two states of a link deliver: the items, and what a polling client with room
  -- for those that are for it then has.
  record Served (to : Bytes) (p : ℕ) (l l' : Link E) : Type 0 where
    items : List SignalReq
    got : l'.received ≡ l.received ++ items
    keeps :
        (old : List Bytes)
        → IsAt E to p old l.world
        → length (old ++ payloads to items) ≤ polling_queue_size
        → IsAt E to p (old ++ payloads to items) l'.world

  Served-none :
      (to : Bytes) (p : ℕ) (l l' : Link E)
      → l'.received ≡ l.received
      → ((old : List Bytes) → IsAt E to p old l.world → IsAt E to p old l'.world)
      → Served to p l l'
  Served-none to p l l' same still = record {
    items = [];
    got = same ∙ sym (append-nil l.received);
    keeps = λ old at room. rw (append-nil old) (still old at);
  }

  step-Served : (addr to : Bytes) (p : ℕ) (e : Event) (l : Link E) → Served to p l (step E addr e l)
  unfolding step push_batch take_batch deliver_next
  step-Served addr to p (pushes items) l =
      Served-none to p l _ refl (λ old at. IsAt-redis E to p old l.world _ at)
  step-Served addr to p takes l =
      Served-none to p l _ refl (λ old at. IsAt-redis E to p old l.world _ at)
  step-Served addr to p (delivers n) l = elim (Option-cases (next_item n l.flights)) [
    | inl nothing ↦ rw (nothing, deliver_next) (Served-none to p l l refl (λ old at. at))
    | inr ((item, flights), found) ↦
        rw (found, deliver_next)
          (record {
            items = item ∷ [];
            got = refl;
            keeps = λ old at room. deliver-IsAt E item to p old l.world at room;
          })
  ]

  run-Served :
      (addr to : Bytes) (p : ℕ) (es : List Event) (l : Link E) → Served to p l (run E addr es l)
  unfolding run
  run-Served addr to p [] l = Served-none to p l l refl (λ old at. at)
  run-Served addr to p (e ∷ es) l =
      let first = step-Served addr to p e l in
      let rest = run-Served addr to p es (step E addr e l) in
      record {
        items = first.items ++ rest.items;
        got =
            rest.got
            ∙ ap (λ (r : List SignalReq). r ++ rest.items) first.got
            ∙ append_assoc l.received first.items rest.items;
        keeps = λ old at room.
            let all : (old ++ payloads to first.items) ++ payloads to rest.items
                ≡ old ++ payloads to (first.items ++ rest.items) =
              append_assoc old (payloads to first.items) (payloads to rest.items)
              ∙ rw (payloads-append to first.items rest.items) refl in
            let total = length-append (old ++ payloads to first.items) (payloads to rest.items) in
            let whole = rw (← all) at room in
            let short : length (old ++ payloads to first.items) ≤ polling_queue_size =
              omega arith in
            rw (← all)
              (rest.keeps (old ++ payloads to first.items) (first.keeps old at short) whole);
      }

  -- Whatever a receiver's queue in Redis holds of carried batches, and whatever is in flight: when
  -- Consume takes all batches and then the flights end in turn, Redis holds nothing, no flight holds an
  -- item, and a polling client of the receiver that has room for all that is for it is still
  -- registered and has got that, in the order of the flights and then of Redis's queue.
  pub in_turn_lem :
      (encode : List SignalReq → Bytes) (addr to : Bytes) (p : ℕ) (old : List Bytes)
      (pending : List (List SignalReq)) (l : Link E)
      → All (Carries E encode) pending
      → mq E lists addr l.world ≡ map encode pending
      → IsAt E to p old l.world
      → length (old ++ payloads to (concat (l.flights ++ pending))) ≤ polling_queue_size
      → let l' = run E addr (in_turn (length pending) (l.flights ++ pending)) l in
        (get_client E to l'.world ≡ some p)
        × ((l'.world.heap p).msg_queue ≡ old ++ payloads to (concat (l.flights ++ pending)))
        × (mq E lists addr l'.world ≡ [])
        × (concat l'.flights ≡ [])
  in_turn_lem encode addr to p old pending l c h at room =
      let (got, empty, ended) = in_turn-empties encode addr pending l c h in
      let served = run-Served addr to p (in_turn (length pending) (l.flights ++ pending)) l in
      let same : served.items ≡ concat (l.flights ++ pending) =
        append_cancel_left l.received served.items (concat (l.flights ++ pending))
          (sym served.got ∙ got) in
      let at' = served.keeps old at (rw same room) in
      (at'.here, rw (← same) at'.holds, empty, ended)
