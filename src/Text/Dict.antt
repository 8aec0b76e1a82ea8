-- ===== src/Text/Dict.antt =====
-- Go maps with string keys: association lists. Go fixes no order of iteration; the list's order
-- is one that it allows.
use geotagger.Prelude.{
  ◌≡◌, refl, Bool, false, List, [], ◌∷◌, Option, none, some, arith, if◌then◌else◌, ◌+◌, length, All,
  is_some, Bool-cases, inl, inr,
}
use mathlib.Core.Path.{subst₂}
use geotagger.Text.Bytes.{Str, str_eq, str_eq_iff}

abbrev pub Dict {ℓ} : Type ℓ → Type ℓ
Dict V = List (Str × V)

module _ {ℓ} {V : Type ℓ} where
  -- v, ok := m[k]
  unfoldable pub lookup : Str → Dict V → Option V
  lookup k [] = none
  lookup k ((j, v) ∷ m) = if str_eq j k then some v else lookup k m

  -- m[k] = v
  unfoldable pub insert : Str → V → Dict V → Dict V
  insert k v [] = (k, v) ∷ []
  insert k v ((j, w) ∷ m) = if str_eq j k then (k, v) ∷ m else (j, w) ∷ insert k v m

  -- delete(m, k)
  unfoldable pub delete : Str → Dict V → Dict V
  delete k [] = []
  delete k ((j, w) ∷ m) = let rest = delete k m in if str_eq j k then rest else (j, w) ∷ rest

  abbrev pub has_key : Str → Dict V → Bool
  has_key k m = is_some (lookup k m)

  pub lookup-insert :
      (k j : Str) (v : V) (m : Dict V)
      → lookup j (insert k v m) ≡ (if str_eq k j then some v else lookup j m)
  unfolding lookup insert
  lookup-insert k j v [] = refl
  lookup-insert k j v ((i, w) ∷ m) =
      ground (arith, str_eq_iff k j, str_eq_iff i k, str_eq_iff i j, lookup-insert k j v m)

  pub lookup-delete :
      (k j : Str) (m : Dict V) → lookup j (delete k m) ≡ (if str_eq k j then none else lookup j m)
  unfolding lookup delete
  lookup-delete k j [] = ground arith
  lookup-delete k j ((i, w) ∷ m) =
      ground (arith, str_eq_iff k j, str_eq_iff i k, str_eq_iff i j, lookup-delete k j m)

  -- A property of all values holds of the one that is found.
  pub lookup-All {κ} :
      (P : Str × V → Type κ) (k : Str) (m : Dict V) {v : V}
      → lookup k m ≡ some v
      → All P m
      → P (k, v)
  unfolding lookup
  lookup-All P k [] h a = cc
  lookup-All P k ((j, w) ∷ m) {v} h (p, ps) = elim (Bool-cases (str_eq j k)) [
    | inl same ↦
        let key : j ≡ k = (str_eq_iff j k).0 same in
        let value : w ≡ v = ground arith in subst₂ (λ x y. P (x, y)) key value p
    | inr other ↦ lookup-All P k m (ground arith) ps
  ]

  pub insert-All {κ} :
      (P : Str × V → Type κ) (k : Str) (v : V) (m : Dict V)
      → P (k, v)
      → All P m
      → All P (insert k v m)
  unfolding insert
  insert-All P k v [] p h = (p, tt)
  insert-All P k v ((j, w) ∷ m) p (q, h) = elim (Bool-cases (str_eq j k)) [
    | inl same ↦ rw same (p, h)
    | inr other ↦ rw other (q, insert-All P k v m p h)
  ]

  -- A new key makes the map longer by one.
  pub length-insert :
      (k : Str) (v : V) (m : Dict V) → has_key k m ≡ false → length (insert k v m) ≡ length m + 1
  unfolding insert lookup
  length-insert k v [] h = omega arith
  length-insert k v ((j, w) ∷ m) h = ground (arith, length-insert k v m)

  -- No key stands twice.
  abbrev pub IsDistinct : Dict V → Type 0
  IsDistinct [] = Unit
  IsDistinct ((k, v) ∷ m) = (has_key k m ≡ false) × IsDistinct m

  pub insert-IsDistinct : (k : Str) (v : V) (m : Dict V) → IsDistinct m → IsDistinct (insert k v m)
  unfolding insert lookup
  insert-IsDistinct k v [] h = (refl, tt)
  insert-IsDistinct k v ((j, w) ∷ m) (fresh, h) = elim (Bool-cases (str_eq j k)) [
    | inl same ↦ rw same (rw ((str_eq_iff j k).0 same) at fresh, h)
    | inr other ↦ rw other (
      rw lookup-insert (ground (arith, str_eq_iff j k, str_eq_iff k j)),
      insert-IsDistinct k v m h,
    )
  ]

  pub lookup-eq-none : (k : Str) (m : Dict V) → has_key k m ≡ false → lookup k m ≡ none
  lookup-eq-none k m h = ground arith
