-- ===== src/Dict.antt =====
-- Go's `map[string]T` as an association list. An assignment to a present key replaces its value, to
-- a missing one adds an entry; `delete` of a missing key changes nothing. No law depends on the
-- order of the entries, which Go does not fix.
use cbsignal_redis.Base.{
  ◌+◌, ◌≡◌, refl, inl, inr, Bool, true, false, Option, none, some, List, [], ◌∷◌, arith,
  if◌then◌else◌, Bool-cases, length, Bytes, str_eq, eq_iff,
}

module _ {ℓ} {V : Type ℓ} where
  -- v, ok := m[k]
  unfoldable pub lookup : Bytes → List (Bytes × V) → Option V
  lookup key [] = none
  lookup key ((k, old) ∷ entries) = if str_eq k key then some old else lookup key entries

  -- m[k] = v
  unfoldable pub insert : Bytes → V → List (Bytes × V) → List (Bytes × V)
  insert key new [] = (key, new) ∷ []
  insert key new ((k, old) ∷ entries) =
      let rest = insert key new entries in
      if str_eq k key then (k, new) ∷ entries else (k, old) ∷ rest

  -- delete(m, k)
  unfoldable pub erase : Bytes → List (Bytes × V) → List (Bytes × V)
  erase k [] = []
  erase k ((j, v) ∷ m) = let rest = erase k m in if str_eq j k then rest else (j, v) ∷ rest

  -- _, ok := m[k]
  abbrev pub is_some : Option V → Bool
  is_some none = false
  is_some (some v) = true

  -- Every key stands once.
  abbrev pub IsDistinct : List (Bytes × V) → Type ℓ
  IsDistinct [] = Unit
  IsDistinct ((k, v) ∷ m) = (lookup k m ≡ none) × IsDistinct m

  -- Only the key assigned to is seen with another value.
  pub lookup-insert :
      (key other : Bytes) (new : V) (entries : List (Bytes × V))
      → lookup other (insert key new entries)
        ≡ (if str_eq key other then some new else lookup other entries)
  unfolding insert lookup
  lookup-insert key other new ((k, old) ∷ entries) =
      let later = lookup-insert key other new entries in
      ground (arith, later, eq_iff key other, eq_iff k other, eq_iff k key)
  lookup-insert key other new [] = refl

  pub lookup-erase :
      (k j : Bytes) (m : List (Bytes × V))
      → lookup j (erase k m) ≡ (if str_eq k j then none else lookup j m)
  unfolding lookup erase
  lookup-erase k j [] = ground arith
  lookup-erase k j ((i, w) ∷ m) =
      ground (arith, eq_iff k j, eq_iff i k, eq_iff i j, lookup-erase k j m)

  pub insert-IsDistinct :
      (k : Bytes) (v : V) (m : List (Bytes × V)) → IsDistinct m → IsDistinct (insert k v m)
  unfolding lookup insert
  insert-IsDistinct k v [] d = ground arith
  insert-IsDistinct k v ((i, w) ∷ m) d = elim (Bool-cases (str_eq i k)) [
    | inl e ↦ rw e d
    | inr e ↦ rw e (
      (ground (arith, eq_iff i k, eq_iff k i, lookup-insert k i v m, d.0)),
      insert-IsDistinct k v m d.1,
    )
  ]

  pub erase-IsDistinct : (k : Bytes) (m : List (Bytes × V)) → IsDistinct m → IsDistinct (erase k m)
  unfolding lookup erase
  erase-IsDistinct k [] d = d
  erase-IsDistinct k ((i, w) ∷ m) d = elim (Bool-cases (str_eq i k)) [
    | inl e ↦ rw e (erase-IsDistinct k m d.1)
    | inr e ↦ rw e ((ground (arith, lookup-erase k i m, d.0)), erase-IsDistinct k m d.1)
  ]

  pub length-insert :
      (k : Bytes) (v : V) (m : List (Bytes × V))
      → length (insert k v m) ≡ length m + (if is_some (lookup k m) then 0 else 1)
  unfolding lookup insert
  length-insert k v [] = omega arith
  length-insert k v ((i, w) ∷ m) = ground (arith, length-insert k v m)

  erase_absent : (k : Bytes) (m : List (Bytes × V)) → lookup k m ≡ none → erase k m ≡ m
  unfolding lookup erase
  erase_absent k [] h = refl
  erase_absent k ((i, w) ∷ m) h = ground (arith, erase_absent k m)

  pub length-erase :
      (k : Bytes) (m : List (Bytes × V))
      → IsDistinct m
      → length (erase k m) + (if is_some (lookup k m) then 1 else 0) ≡ length m
  unfolding lookup erase
  length-erase k [] d = omega arith
  length-erase k ((i, w) ∷ m) d =
      ground (arith, length-erase k m d.1, eq_iff i k, erase_absent k m, d.0)
