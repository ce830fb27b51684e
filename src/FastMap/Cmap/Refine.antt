-- ===== src/FastMap/Cmap/Refine.antt =====
-- cmap.go: every sequence of keyed operations behaves as on one flat map.
use mathlib.Core.Path.{fun_ext}
use cbsignal_redis.Base.{
  ◌≡◌, refl, sym, ap, ◌∙◌, inl, inr, Bool, true, false, ◌&&◌, not, Option, none, some, List, [],
  ◌∷◌, if◌then◌else◌, Bool-cases, Bytes, str_eq, eq_iff,
}
use cbsignal_redis.Dict.{lookup, is_some}
use cbsignal_redis.FastMap.Cmap.{
  ConcurrentMap, get_shard, set_item, upsert, set_if_absent, get, remove, remove_cb, pop, IsValid,
}
use cbsignal_redis.FastMap.Cmap.Laws.{get-set_item, get-remove, set_item-IsValid, remove-IsValid}

-- A call of one of the keyed operations.
pub data Call (V : Type 0) : Type 0 where
  sets : Bytes → V → Call V
  upserts : Bytes → V → (Bool → Option V → V → V) → Call V
  sets_if_absent : Bytes → V → Call V
  removes : Bytes → Call V
  removes_cb : Bytes → (Bytes → Option V → Bool → Bool) → Call V
  pops : Bytes → Call V
  gets : Bytes → Call V

-- What a call returns.
pub data Reply (V : Type 0) : Type 0 where
  unit : Reply V
  flag : Bool → Reply V
  value : Option V → Reply V

module _ {V : Type 0} where
  pub perform : Call V → ConcurrentMap V → Reply V × ConcurrentMap V
  perform (sets k v) m = (unit, set_item k v m)
  perform (upserts k v cb) m = let (res, m') = upsert k v cb m in (value (some res), m')
  perform (sets_if_absent k v) m = let (fresh, m') = set_if_absent k v m in (flag fresh, m')
  perform (removes k) m = (unit, remove k m)
  perform (removes_cb k cb) m = let (wanted, m') = remove_cb k cb m in (flag wanted, m')
  perform (pops k) m = let (old, m') = pop k m in (value old, m')
  perform (gets k) m = (value (get k m), m)

  -- The same call on a flat map, a function from keys to values.
  abbrev update : Bytes → Option V → (Bytes → Option V) → Bytes → Option V
  update k r f j = if str_eq k j then r else f j

  abbrev pub flat : Call V → (Bytes → Option V) → Reply V × (Bytes → Option V)
  flat (sets k v) f = (unit, update k (some v) f)
  flat (upserts k v cb) f =
      let res = cb (is_some (f k)) (f k) v in (value (some res), update k (some res) f)
  flat (sets_if_absent k v) f =
      (flag (not (is_some (f k))), if is_some (f k) then f else update k (some v) f)
  flat (removes k) f = (unit, update k none f)
  flat (removes_cb k cb) f =
      let wanted = cb k (f k) (is_some (f k)) in
      (flag wanted, if wanted then update k none f else f)
  flat (pops k) f = (value (f k), update k none f)
  flat (gets k) f = (value (f k), f)

  pub run : List (Call V) → ConcurrentMap V → List (Reply V) × ConcurrentMap V
  run [] m = ([], m)
  run (c ∷ calls) m = let (r, m') = perform c m in let (rs, m'') = run calls m' in (r ∷ rs, m'')

  abbrev pub run_flat : List (Call V) → (Bytes → Option V) → List (Reply V) × (Bytes → Option V)
  run_flat [] f = ([], f)
  run_flat (c ∷ calls) f =
      let (r, f') = flat c f in let (rs, f'') = run_flat calls f' in (r ∷ rs, f'')

  pub view : ConcurrentMap V → Bytes → Option V
  view m k = get k m

  view-set_item :
      (k : Bytes) (v : V) (m : ConcurrentMap V)
      → IsValid m
      → (view (set_item k v m) ≡ update k (some v) (view m)) × IsValid (set_item k v m)
  unfolding view
  view-set_item k v m h = (fun_ext (λ j. get-set_item k j v m h.size), set_item-IsValid k v m h)

  view-remove :
      (k : Bytes) (m : ConcurrentMap V)
      → IsValid m
      → (view (remove k m) ≡ update k none (view m)) × IsValid (remove k m)
  unfolding view
  view-remove k m h = (fun_ext (λ j. get-remove k j m h.size), remove-IsValid k m h)

  update_absent : (k : Bytes) (f : Bytes → Option V) → f k ≡ none → update k none f ≡ f
  update_absent k f e = fun_ext λ j. elim (Bool-cases (str_eq k j)) [
    | inl same ↦ rw same (sym e ∙ ap f ((eq_iff k j).0 same))
    | inr other ↦ rw other
  ]

  -- SetIfAbsent, by whether the key is there.
  view-set_if_absent :
      (k : Bytes) (v : V) (m : ConcurrentMap V) (old : Bool)
      → IsValid m
      → let m' = if old then m else set_item k v m in
        (view m' ≡ (if old then view m else update k (some v) (view m))) × IsValid m'
  view-set_if_absent k v m true h = (refl, h)
  view-set_if_absent k v m false h = view-set_item k v m h

  -- RemoveCb, by the callback's answer and the value in the map.
  view-remove_cb :
      (k : Bytes) (m : ConcurrentMap V) (wanted : Bool) (old : Option V)
      → view m k ≡ old
      → IsValid m
      → let m' = if wanted && is_some old then remove k m else m in
        (view m' ≡ (if wanted then update k none (view m) else view m)) × IsValid m'
  view-remove_cb k m false old e h = (refl, h)
  view-remove_cb k m true none e h = (sym (update_absent k (view m) e), h)
  view-remove_cb k m true (some v) e h = view-remove k m h

  set_if_absent_lem :
      (k : Bytes) (v : V) (m : ConcurrentMap V)
      → set_if_absent k v m
        ≡ (not (is_some (view m k)), if is_some (view m k) then m else set_item k v m)
  unfolding set_if_absent view get set_item
  set_if_absent_lem k v m = elim (Bool-cases (is_some (lookup k (get_shard m k)))) [
    | inl e ↦ rw e
    | inr e ↦ rw e
  ]

  -- One call replies as the flat map does, leaves the same map behind, and keeps it well formed.
  perform-refines :
      (c : Call V) (m : ConcurrentMap V)
      → IsValid m
      → ((perform c m).0 ≡ (flat c (view m)).0)
        × (view (perform c m).1 ≡ (flat c (view m)).1)
        × IsValid (perform c m).1
  unfolding perform upsert remove_cb pop get set_item remove view
  perform-refines (sets k v) m h = let (e, v') = view-set_item k v m h in (refl, e, v')
  perform-refines (upserts k v cb) m h =
      let res = cb (is_some (view m k)) (view m k) v in
      let (e, v') = view-set_item k res m h in (refl, e, v')
  perform-refines (sets_if_absent k v) m h =
      let (e, v') = view-set_if_absent k v m (is_some (view m k)) h in
      rw (set_if_absent_lem k v m) (refl, e, v')
  perform-refines (removes k) m h = let (e, v') = view-remove k m h in (refl, e, v')
  perform-refines (removes_cb k cb) m h =
      let (e, v') = view-remove_cb k m (cb k (view m k) (is_some (view m k))) (view m k) refl h in
      (refl, e, v')
  perform-refines (pops k) m h = let (e, v') = view-remove k m h in (refl, e, v')
  perform-refines (gets k) m h = (refl, refl, h)

  -- From a well-formed map, any sequence of keyed calls gives the replies of a flat map and ends in
  -- a well-formed map with the flat map's contents: the shards and their hash cannot be observed.
  pub run-refines :
      (calls : List (Call V)) (m : ConcurrentMap V)
      → IsValid m
      → ((run calls m).0 ≡ (run_flat calls (view m)).0)
        × (view (run calls m).1 ≡ (run_flat calls (view m)).1)
        × IsValid (run calls m).1
  unfolding run
  run-refines [] m h = (refl, refl, h)
  run-refines (c ∷ calls) m h =
      let (r, e, v) = perform-refines c m h in
      let (rs, es, vs) = run-refines calls (perform c m).1 v in (rw (r, rs, e), rw (es, e), vs)
