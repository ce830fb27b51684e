-- ===== src/Delivery/Arrival.antt =====
-- What a receiver gets of the batches that are pushed into its queue, whichever of its goroutines
-- makes the next step.
use mathlib.Core.List.{append-nil, append_assoc, map-append, Permᴰ}
use mathlib.Core.List.Permᴰ
use cbsignal_redis.Base.{
  ℕ, suc, ◌+◌, ◌≤◌, ◌<◌, ◌≡◌, refl, sym, ap, ◌∙◌, inl, inr, List, [], ◌∷◌, ◌++◌, map, arith,
  Option-cases, length, length-append, concat, concat-snoc, concat-append, All, All-snoc, Bytes,
}
use cbsignal_redis.Messages.{SignalReq}
use cbsignal_redis.Client.{polling_queue_size}
use cbsignal_redis.Nodes.Node.{mq_max_len, batch_process}
use cbsignal_redis.Nodes.Node.Trim.{AnsweringLists}
use cbsignal_redis.Redis.{RedisState}
use cbsignal_redis.World.{Env, World}
use cbsignal_redis.Delivery.{
  payloads, next_item, pushed, push_batch, take_batch, deliver_next, step, run, Event, Link, pushes,
  takes, delivers,
}
use cbsignal_redis.Delivery.Client.{IsAt-redis, deliver-IsAt, IsAt}
use cbsignal_redis.Delivery.Payloads.{
  payloads-append, payload_count-append, payload_count-Perm, next_item-Perm,
}
use cbsignal_redis.Delivery.Queue.{
  mq, Carries, mq-deliver, mq-push_batch, take_batch_lem, take_batch-empty, PoppingLists,
}

module _ (E : Env) (lists : AnsweringLists E.cmdable) (pops : PoppingLists E.cmdable lists)
    (encode : List SignalReq → Bytes) (addr to : Bytes) (p : ℕ) (old : List Bytes) where
  -- After the batches `sent`: those that wait in Redis, what has been delivered, and what the client
  -- has in its queue.
  pub record Inv (sent : List (List SignalReq)) (l : Link E) : Type 0 where
    pub pending : List (List SignalReq)
    pub queued : mq E lists addr l.world ≡ map encode pending
    pub carried : All (Carries E encode) pending
    pub few : length pending ≤ length sent
    pub accounted : Permᴰ (l.received ++ concat l.flights ++ concat pending) (concat sent)
    pub served : IsAt E to p (old ++ payloads to l.received) l.world

  -- The client's queue has room for all that is sent to it, and Redis's for all batches.
  abbrev pub HasRoom : List (List SignalReq) → Type 0
  HasRoom sent =
      (length old + length (payloads to (concat sent)) ≤ polling_queue_size)
      × (length sent ≤ mq_max_len)

  length-map-encode : (bs : List (List SignalReq)) → length (map encode bs) ≡ length bs
  length-map-encode [] = refl
  length-map-encode (b ∷ bs) = ap suc (length-map-encode bs)

  push_batch-Inv :
      (sent : List (List SignalReq)) (items : List SignalReq) (l : Link E)
      → Inv sent l
      → Carries E encode items
      → length sent < mq_max_len
      → Inv (sent ++ items ∷ []) (push_batch E addr items l)
  unfolding push_batch
  push_batch-Inv sent [] l v c room = record {
    pending = v.pending;
    queued = unfold batch_process in v.queued;
    carried = v.carried;
    few = omega (arith, v.few, length-append sent ([] ∷ []));
    accounted = rw (concat-snoc sent [], append-nil (concat sent)) v.accounted;
    served = IsAt-redis E to p _ l.world _ v.served;
  }
  push_batch-Inv sent (item ∷ items) l v c room =
      let b = item ∷ items in
      let waits = length-map-encode v.pending in
      let short : length (mq E lists addr l.world) < mq_max_len =
        rw (v.queued, waits) (omega (arith, v.few)) in
      record {
        pending = v.pending ++ b ∷ [];
        queued =
            mq-push_batch E lists pops encode addr item items l c short
            ∙ rw (v.queued, map-append encode v.pending (b ∷ [])) refl;
        carried = All-snoc (Carries E encode) v.pending b v.carried c;
        few = omega (arith, v.few, length-append sent (b ∷ []), length-append v.pending (b ∷ []));
        accounted =
            rw
              (
                concat-snoc v.pending b,
                concat-snoc sent b,
                ← append_assoc (l.received ++ concat l.flights) (concat v.pending) b,
              )
              (Permᴰ.append_right b v.accounted);
        served = IsAt-redis E to p _ l.world _ v.served;
      }

  take_batch-Inv :
      (sent : List (List SignalReq)) (l : Link E) → Inv sent l → Inv sent (take_batch E addr l)
  unfolding take_batch
  take_batch-Inv sent l v = go v.pending v.queued v.carried v.few v.accounted
    where
      served-take_batch : IsAt E to p (old ++ payloads to l.received) (take_batch E addr l).world
      served-take_batch = IsAt-redis E to p _ l.world _ v.served

      go :
          (pending : List (List SignalReq))
          → mq E lists addr l.world ≡ map encode pending
          → All (Carries E encode) pending
          → length pending ≤ length sent
          → Permᴰ (l.received ++ concat l.flights ++ concat pending) (concat sent)
          → Inv sent (take_batch E addr l)
      go [] q c few a =
          let (same, left) = take_batch-empty E lists pops addr l q in
          record {
            pending = [];
            queued = left;
            carried = tt;
            few = omega arith;
            accounted = rw same a;
            served = served-take_batch;
          }
      go (b ∷ pending) q c few a =
          let (grown, left) =
            take_batch_lem E lists pops encode addr b (map encode pending) l c.0 q in
          record {
            pending = pending;
            queued = left;
            carried = c.1;
            few = omega (arith, few);
            accounted =
                rw
                  (
                    grown,
                    concat-snoc l.flights b,
                    ← append_assoc l.received (concat l.flights) b,
                    append_assoc (l.received ++ concat l.flights) b (concat pending),
                  )
                  a;
            served = served-take_batch;
          }

  payload_room :
      (a b c : List SignalReq) (sent : List (List SignalReq))
      → Permᴰ (a ++ b ++ c) (concat sent)
      → HasRoom sent
      → length (old ++ payloads to a) ≤ polling_queue_size
  payload_room a b c sent same room = omega (
    arith,
    room.0,
    payload_count-Perm to same,
    payload_count-append to (a ++ b) c,
    payload_count-append to a b,
    length-append old (payloads to a),
  )

  deliver_next-Inv :
      (sent : List (List SignalReq)) (n : ℕ) (l : Link E)
      → Inv sent l
      → HasRoom sent
      → Inv sent (deliver_next E n l)
  unfolding deliver_next
  deliver_next-Inv sent n l v room = elim (Option-cases (next_item n l.flights)) [
    | inl idle ↦ rw (idle, deliver_next) v
    | inr ((item, rest), found) ↦
        let taken : Permᴰ (concat l.flights) (item ∷ concat rest) =
          next_item-Perm n l.flights rest item found in
        let moved : Permᴰ (l.received ++ item ∷ [] ++ concat rest)
            (l.received ++ concat l.flights) =
          rw (append_assoc l.received (item ∷ []) (concat rest))
            (Permᴰ.append_left l.received (Permᴰ.symm taken)) in
        let accounted : Permᴰ (l.received ++ item ∷ [] ++ concat rest ++ concat v.pending)
            (concat sent) =
          Permᴰ.trans (Permᴰ.append_right (concat v.pending) moved) v.accounted in
        let enough =
          payload_room (l.received ++ item ∷ []) (concat rest) (concat v.pending) sent accounted
            room in
        let put =
          append_assoc old (payloads to l.received) (payloads to (item ∷ []))
          ∙ ap (◌++◌ old) (sym (payloads-append to l.received (item ∷ []))) in
        rw (found, deliver_next)
          (record {
            pending = v.pending;
            queued = mq-deliver E lists pops addr item l.world ∙ v.queued;
            carried = v.carried;
            few = v.few;
            accounted = accounted;
            served = rw (← put) (
                deliver-IsAt E item to p (old ++ payloads to l.received) l.world v.served
                  (rw put enough));
          })
  ]

  push_batch_room :
      (sent rest : List (List SignalReq)) (items : List SignalReq)
      → HasRoom (sent ++ (items ∷ rest))
      → length sent < mq_max_len
  push_batch_room sent rest items room = omega (arith, room.1, length-append sent (items ∷ rest))

  HasRoom-append : (sent rest : List (List SignalReq)) → HasRoom (sent ++ rest) → HasRoom sent
  HasRoom-append sent rest room = (
    omega (
      arith,
      room.0,
      ap (λ items. length (payloads to items)) (concat-append sent rest),
      payload_count-append to (concat sent) (concat rest),
    ),
    omega (arith, room.1, length-append sent rest),
  )

  pub run-Inv :
      (es : List Event) (sent : List (List SignalReq)) (l : Link E)
      → Inv sent l
      → All (Carries E encode) (pushed es)
      → HasRoom (sent ++ pushed es)
      → Inv (sent ++ pushed es) (run E addr es l)
  unfolding run step
  run-Inv [] sent l v c room = rw (append-nil sent) v
  run-Inv (pushes items ∷ es) sent l v c room =
      let whole = append_assoc sent (items ∷ []) (pushed es) in
      rw (← whole) (
        run-Inv es (sent ++ items ∷ []) (push_batch E addr items l)
          (push_batch-Inv sent items l v c.0 (push_batch_room sent (pushed es) items room)) c.1
          (rw whole room))
  run-Inv (takes ∷ es) sent l v c room =
      run-Inv es sent (take_batch E addr l) (take_batch-Inv sent l v) c room
  run-Inv (delivers n ∷ es) sent l v c room =
      run-Inv es sent (deliver_next E n l)
        (deliver_next-Inv sent n l v (HasRoom-append sent (pushed es) room)) c room

  -- Nothing has been sent yet.
  abbrev pub idle_link : RedisState E.cmdable E.big_cache → World E → Link E
  idle_link s w = record { sender = s; world = w; flights = []; received = [] }

  pub idle_link-Inv :
      (s : RedisState E.cmdable E.big_cache) (w : World E)
      → mq E lists addr w ≡ []
      → IsAt E to p old w
      → Inv [] (idle_link s w)
  idle_link-Inv s w empty at = record {
    pending = [];
    queued = empty;
    carried = tt;
    few = omega arith;
    accounted = Permᴰ.refl [];
    served = rw (append-nil old) at;
  }
