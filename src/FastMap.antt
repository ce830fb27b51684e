-- ===== src/FastMap.antt =====
-- util/fastmap/fastmap.go: the interface of the hub's map from peer ids to clients, with the laws
-- that its users rely on. `Clear` may run in several orders, so it is a relation between the map
-- before and after. `Range` is modelled with the sharded map.
pub mod Cmap
pub mod Smap
use cbsignal_redis.Base.{ℕ, ◌+◌, ◌≡◌, Bool, Option, none, some, List, if◌then◌else◌, Bytes, str_eq}
use cbsignal_redis.Dict.{is_some}

pub record FastMap (V : Type 0) : Type 1 where
  pub Map : Type 0
  pub empty : Map
  pub count_no_lock : Map → ℕ
  pub count_per_map_no_lock : Map → List ℕ
  pub set : Bytes → V → Map → Map
  pub get : Bytes → Map → Option V
  pub has : Bytes → Map → Bool
  pub remove : Bytes → Map → Map
  pub Clears : Map → Map → Type 0
  pub get-empty : (k : Bytes) → get k empty ≡ none
  pub get-set :
      (k j : Bytes) (v : V) (m : Map) → get j (set k v m) ≡ (if str_eq k j then some v else get j m)
  pub get-remove :
      (k j : Bytes) (m : Map) → get j (remove k m) ≡ (if str_eq k j then none else get j m)
  pub has-get : (k : Bytes) (m : Map) → has k m ≡ is_some (get k m)
  pub get-Clears : (k : Bytes) (m m' : Map) → Clears m m' → get k m' ≡ none
  pub count-empty : count_no_lock empty ≡ 0
  pub count-set :
      (k : Bytes) (v : V) (m : Map)
      → count_no_lock (set k v m) ≡ count_no_lock m + (if has k m then 0 else 1)
  pub count-remove :
      (k : Bytes) (m : Map)
      → count_no_lock (remove k m) + (if has k m then 1 else 0) ≡ count_no_lock m
