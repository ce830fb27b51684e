-- ===== src/FastMap/Smap.antt =====
-- util/fastmap/smap/smap.go: the map over the skip list of github.com/zhangyunhao116/skipmap, which
-- is a parameter with the behaviour that its documentation gives for Store, Load, Delete and Len.
use cbsignal_redis.Base.{
  ℕ, ◌+◌, ◌≡◌, refl, ◌≢◌, ◌⊎◌, inl, inr, Bool, true, Option, none, some, List, [], ◌∷◌, arith,
  if◌then◌else◌, Bool-cases, Option-cases, Bytes, str_eq, contains,
}
use cbsignal_redis.FastMap.{FastMap}
use cbsignal_redis.Dict.{is_some}

-- *skipmap.StringMap. `keys` is what a Range visits.
pub record StringMap (V : Type 0) : Type 1 where
  pub Store : Type 0
  pub new_string : Store
  pub len : Store → ℕ
  pub store : Bytes → V → Store → Store
  pub load : Bytes → Store → Option V
  pub delete : Bytes → Store → Store
  pub keys : Store → List Bytes
  pub load-new_string : (k : Bytes) → load k new_string ≡ none
  pub load-store :
      (k j : Bytes) (v : V) (s : Store)
      → load j (store k v s) ≡ (if str_eq k j then some v else load j s)
  pub load-delete :
      (k j : Bytes) (s : Store) → load j (delete k s) ≡ (if str_eq k j then none else load j s)
  pub len-new_string : len new_string ≡ 0
  pub len-store :
      (k : Bytes) (v : V) (s : Store)
      → len (store k v s) ≡ len s + (if is_some (load k s) then 0 else 1)
  pub len-delete :
      (k : Bytes) (s : Store) → len (delete k s) + (if is_some (load k s) then 1 else 0) ≡ len s
  pub keys_complete : (k : Bytes) (s : Store) → load k s ≢ none → contains k (keys s) ≡ true

module _ {V : Type 0} (skipmap : StringMap V) where
  open skipmap use {
    Store, new_string, len, store, load, delete, keys, load-new_string, load-store, load-delete,
    len-new_string, len-store, len-delete, keys_complete,
  }

  pub record SkipMap : Type 0 where
    pub m : Store

  unfoldable pub new_smap : SkipMap
  new_smap = record { m = new_string }

  unfoldable pub count_no_lock : SkipMap → ℕ
  count_no_lock s = len s.m

  unfoldable pub count_per_map_no_lock : SkipMap → List ℕ
  count_per_map_no_lock s = len s.m ∷ []

  unfoldable pub set_item : Bytes → V → SkipMap → SkipMap
  set_item key value s = record { m = store key value s.m }

  unfoldable pub get : Bytes → SkipMap → Option V
  get key s = load key s.m

  unfoldable pub has : Bytes → SkipMap → Bool
  has key s = is_some (load key s.m)

  unfoldable pub remove : Bytes → SkipMap → SkipMap
  remove key s = record { m = delete key s.m }

  -- The callback of Clear's Range, over the keys that the Range visits.
  delete_all : List Bytes → SkipMap → SkipMap
  delete_all [] s = s
  delete_all (key ∷ rest) s = delete_all rest (record { m = delete key s.m })

  unfoldable pub clear : SkipMap → SkipMap
  unfolding delete_all
  clear s = delete_all (keys s.m) s

  -- Range, with a callback over a state of its own: it stops at the first `false`.
  unfoldable pub range_over {ℓ} :
      {S : Type ℓ} → (Bytes → V → S → Bool × S) → List Bytes → SkipMap → S → S
  range_over f [] s state = state
  range_over f (key ∷ later) s state =
      let rest = range_over f later s in
      elim (load key s.m) [
        | none ↦ rest state
        | some value ↦
            let (more, state') = f key value state in
            let next = rest state' in if more then next else state'
      ]

  unfoldable pub range {ℓ} : {S : Type ℓ} → (Bytes → V → S → Bool × S) → SkipMap → S → S
  unfolding range_over
  range f s state = range_over f (keys s.m) s state

  get-remove :
      (k j : Bytes) (s : SkipMap) → get j (remove k s) ≡ (if str_eq k j then none else get j s)
  unfolding get remove
  get-remove k j s = load-delete k j s.m

  load-delete_all :
      (ks : List Bytes) (s : SkipMap) (k : Bytes)
      → (get k s ≡ none) ⊎ (contains k ks ≡ true)
      → get k (delete_all ks s) ≡ none
  unfolding delete_all contains get
  load-delete_all [] s k (inl gone) = gone
  load-delete_all [] s k (inr listed) = cc
  load-delete_all (j ∷ ks) s k h =
      load-delete_all ks (record { m = delete j s.m }) k
        (elim (Bool-cases (str_eq j k)) [
          | inl same ↦ inl (rw (load-delete j k s.m, same))
          | inr other ↦ ground (arith, h, load-delete j k s.m)
        ])

  -- Clear leaves no key in the skip list.
  pub get-clear : (s : SkipMap) (k : Bytes) → get k (clear s) ≡ none
  unfolding clear
  get-clear s k = elim (Option-cases (get k s)) [
    | inl gone ↦ load-delete_all (keys s.m) s k (inl gone)
    | inr (v, here) ↦
        load-delete_all (keys s.m) s k
          (inr (keys_complete k s.m (λ e. unfold get in ground (arith, here, e))))
  ]

  -- The skip list implements the hub's interface.
  pub smap : FastMap V
  unfolding new_smap count_no_lock count_per_map_no_lock set_item get has remove
  smap = record {
    Map = SkipMap;
    empty = new_smap;
    count_no_lock = count_no_lock;
    count_per_map_no_lock = count_per_map_no_lock;
    set = set_item;
    get = get;
    has = has;
    remove = remove;
    Clears = λ s s'. s' ≡ clear s;
    get-empty = load-new_string;
    get-set = λ k j v s. load-store k j v s.m;
    get-remove = get-remove;
    has-get = λ k s. refl;
    get-Clears = λ k s s' e. rw e (get-clear s k);
    count-empty = len-new_string;
    count-set = λ k v s. len-store k v s.m;
    count-remove = λ k s. len-delete k s.m;
  }
