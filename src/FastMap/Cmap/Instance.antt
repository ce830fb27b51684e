-- ===== src/FastMap/Cmap/Instance.antt =====
-- The sharded map of cmap.go as the hub's map: well-formed maps implement the interface of
-- fastmap.go.
use cbsignal_redis.Base.{◌≡◌, none, List, Bytes}
use cbsignal_redis.FastMap.{FastMap}
use cbsignal_redis.FastMap.Cmap.{
  ConcurrentMap, new_cmap, set_item, get, has, remove, count, count_per_map, IsValid,
}
use cbsignal_redis.FastMap.Cmap.Laws.{
  get-new_cmap, new_cmap-IsValid, get-set_item, get-remove, has-get, set_item-IsValid,
  remove-IsValid,
}
use cbsignal_redis.FastMap.Cmap.Count.{count-set_item, count-remove, count-new_cmap}
use cbsignal_redis.FastMap.Cmap.Iter.{Tuple, snapshot, clear_from, get-clear, FanIn}

abbrev pub ValidMap : Type 0 → Type 0
ValidMap V = (m : ConcurrentMap V) × IsValid m

-- A run of Clear, over some delivery of the snapshot.
abbrev pub Clears : (V : Type 0) → ValidMap V → ValidMap V → Type 0
Clears V m m' = (out : List (Tuple V)) × FanIn V (snapshot m.0) out × (m'.0 ≡ clear_from m.0 out)

pub cleared : (V : Type 0) (k : Bytes) (m m' : ValidMap V) → Clears V m m' → get k m'.0 ≡ none
cleared V k m m' (out, run, e) = rw e (get-clear m.0 out k m.1 run)

unfoldable pub cmap : (V : Type 0) → FastMap V
cmap V = record {
  Map = ValidMap V;
  empty = (new_cmap, new_cmap-IsValid);
  count_no_lock = λ m. count m.0;
  count_per_map_no_lock = λ m. count_per_map m.0;
  set = λ k v m. (set_item k v m.0, set_item-IsValid k v m.0 m.1);
  get = λ k m. get k m.0;
  has = λ k m. has k m.0;
  remove = λ k m. (remove k m.0, remove-IsValid k m.0 m.1);
  Clears = Clears V;
  get-empty = get-new_cmap;
  get-set = λ k j v m. get-set_item k j v m.0 m.1.size;
  get-remove = λ k j m. get-remove k j m.0 m.1.size;
  has-get = λ k m. has-get k m.0;
  get-Clears = cleared V;
  count-empty = count-new_cmap V;
  count-set = λ k v m. count-set_item k v m.0 m.1.size;
  count-remove = λ k m. count-remove k m.0 m.1;
}
