-- ===== src/Delivery/Payloads.antt =====
-- The payloads for one peer in a list of items, and the items of the batches in flight.
use mathlib.Core.List.{append_assoc, Permᴰ}
use mathlib.Core.List.Permᴰ
use cbsignal_redis.Base.{
  ℕ, zero, suc, ◌+◌, ◌≡◌, refl, sym, ap, ◌∙◌, inl, inr, Option, none, some, List, [], ◌∷◌, ◌++◌,
  arith, Option-cases, length, length-append, concat, Bytes,
}
use cbsignal_redis.Messages.{SignalReq}
use cbsignal_redis.Delivery.{payloads, next_item}

pub payloads-append :
    (to : Bytes) (a b : List SignalReq) → payloads to (a ++ b) ≡ payloads to a ++ payloads to b
payloads-append to [] b = refl
payloads-append to (item ∷ a) b =
    rw (payloads-append to a b) (sym (append_assoc _ (payloads to a) (payloads to b)))

pub payload_count-append :
    (to : Bytes) (a b : List SignalReq)
    → length (payloads to (a ++ b)) ≡ length (payloads to a) + length (payloads to b)
payload_count-append to a b =
    ap length (payloads-append to a b) ∙ length-append (payloads to a) (payloads to b)

payload_count-cons :
    (to : Bytes) (i : SignalReq) (l : List SignalReq)
    → length (payloads to (i ∷ l)) ≡ length (payloads to (i ∷ [])) + length (payloads to l)
payload_count-cons to i l = payload_count-append to (i ∷ []) l

-- How many payloads a peer gets does not depend on the order of the items.
pub payload_count-Perm :
    (to : Bytes) {a b : List SignalReq}
    → Permᴰ a b
    → length (payloads to a) ≡ length (payloads to b)
payload_count-Perm to Permᴰ.nil = refl
payload_count-Perm to (Permᴰ.cons {a = a} {b = b} {l₁ = l} {l₂ = m} e p) =
    let heads = ap (λ i. length (payloads to (i ∷ []))) e in
    omega
      (arith, heads, payload_count-Perm to p, payload_count-cons to a l, payload_count-cons to b m)
payload_count-Perm to (Permᴰ.swap {a = a} {b = b} {a' = a'} {b' = b'} {l = l} e e') =
    let first = ap (λ i. length (payloads to (i ∷ []))) e in
    let second = ap (λ i. length (payloads to (i ∷ []))) e' in
    omega (
      arith,
      first,
      second,
      payload_count-cons to a (b ∷ l),
      payload_count-cons to b l,
      payload_count-cons to a' (b' ∷ l),
      payload_count-cons to b' l,
    )
payload_count-Perm to (Permᴰ.trans p q) = payload_count-Perm to p ∙ payload_count-Perm to q

-- A delivery takes one item out of the batches in flight.
pub next_item-Perm :
    (n : ℕ) (flights rest : List (List SignalReq)) (item : SignalReq)
    → next_item n flights ≡ some (item, rest)
    → Permᴰ (concat flights) (item ∷ concat rest)
next_item-Perm n [] rest item h = cc
next_item-Perm zero ([] ∷ flights) rest item h = cc
next_item-Perm zero ((i ∷ items) ∷ flights) rest item h =
    let e : i ≡ item = cc in
    let e' : items ∷ flights ≡ rest = cc in
    rw (← e') (Permᴰ.cons e (Permᴰ.refl (items ++ concat flights)))
next_item-Perm (suc n) (flight ∷ flights) rest item h = elim (Option-cases (next_item n flights)) [
  | inl missing ↦
      let never : ◌≡◌ {A = Option (SignalReq × List (List SignalReq))} none (some (item, rest)) =
        rw missing at h in
      cc
  | inr ((i, others), found) ↦
      let same : ◌≡◌ {A = Option (SignalReq × List (List SignalReq))} (some (i, flight ∷ others))
          (some (item, rest)) =
        rw found at h in
      let e : i ≡ item = cc in
      let e' : flight ∷ others ≡ rest = cc in
      rw (← e') (
        Permᴰ.trans (Permᴰ.append_left flight (next_item-Perm n flights others i found)) (
          Permᴰ.trans (Permᴰ.middle i flight (concat others))
            (Permᴰ.cons e (Permᴰ.refl (flight ++ concat others)))))
]
