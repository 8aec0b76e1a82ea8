-- ===== src/Prelude/Sorting.antt =====
-- sort.Slice and sort.Sort, as the insertion sort: where the elements are ordered strictly, every
-- sorting algorithm gives the same list.
use mathlib.Core.Path.{◌≡◌, sym, subst}
use mathlib.Core.Logic.{◌⊎◌, inl, inr}
use mathlib.Core.Bool.{Bool, true, false}
use mathlib.Core.List.{List, [], ◌∷◌}
use geotagger.Prelude.Tests.{Bool-cases}
use geotagger.Prelude.Lists.{All}

-- The element stands in the list.
abbrev pub Elem : {A : Type 0} → A → List A → Type 0
Elem z [] = ⊥
Elem z (x ∷ xs) = (z ≡ x) ⊎ Elem z xs

pub All-Elem {κ} : {A : Type 0} (P : A → Type κ) (x : A) (xs : List A) → Elem x xs → All P xs → P x
All-Elem P x [] e _ = absurd e
All-Elem P x (y ∷ xs) (inl same) (p, _) = subst P (sym same) p
All-Elem P x (y ∷ xs) (inr e) (_, ps) = All-Elem P x xs e ps

module _ {A : Type 0} (before : A → A → Bool) where
  unfoldable pub insert_sorted : A → List A → List A
  insert_sorted x [] = x ∷ []
  insert_sorted x (y ∷ ys) = elim (before x y) [
    | true ↦ x ∷ y ∷ ys
    | false ↦ y ∷ insert_sorted x ys
  ]

  unfoldable pub sort : List A → List A
  unfolding insert_sorted
  sort [] = []
  sort (x ∷ xs) = insert_sorted x (sort xs)

  -- No element stands behind one that it belongs before.
  abbrev pub IsSorted : List A → Type 0
  IsSorted [] = Unit
  IsSorted (x ∷ xs) = All (λ y. before y x ≡ false) xs × IsSorted xs

  insert_sorted-All {κ} :
      (P : A → Type κ) (x : A) (ys : List A) → P x → All P ys → All P (insert_sorted x ys)
  unfolding insert_sorted
  insert_sorted-All P x [] p _ = (p, tt)
  insert_sorted-All P x (y ∷ ys) p (q, qs) = elim (Bool-cases (before x y)) [
    | inl first ↦ rw (first, insert_sorted) (p, (q, qs))
    | inr later ↦ rw (later, insert_sorted) (q, insert_sorted-All P x ys p qs)
  ]

  pub sort-All {κ} : (P : A → Type κ) (xs : List A) → All P xs → All P (sort xs)
  unfolding sort
  sort-All P [] h = tt
  sort-All P (x ∷ xs) (p, ps) = insert_sorted-All P x (sort xs) p (sort-All P xs ps)

  insert_sorted-Elem : (z x : A) (ys : List A) → Elem z (x ∷ ys) → Elem z (insert_sorted x ys)
  unfolding insert_sorted
  insert_sorted-Elem z x [] e = e
  insert_sorted-Elem z x (y ∷ ys) e = elim (Bool-cases (before x y)) [
    | inl first ↦ rw (first, insert_sorted) e
    | inr later ↦ rw (later, insert_sorted) (moved (λ f. insert_sorted-Elem z x ys f) e)
  ]
    where
      moved :
          (Elem z (x ∷ ys) → Elem z (insert_sorted x ys))
          → Elem z (x ∷ y ∷ ys)
          → Elem z (y ∷ insert_sorted x ys)
      moved go (inl same) = inr (go (inl same))
      moved go (inr (inl same)) = inl same
      moved go (inr (inr r)) = inr (go (inr r))

  -- Sorting loses no element.
  pub sort-Elem : (z : A) (xs : List A) → Elem z xs → Elem z (sort xs)
  unfolding sort
  sort-Elem z [] e = e
  sort-Elem z (x ∷ xs) (inl same) = insert_sorted-Elem z x (sort xs) (inl same)
  sort-Elem z (x ∷ xs) (inr e) = insert_sorted-Elem z x (sort xs) (inr (sort-Elem z xs e))

  module _ (asym : (x y : A) → before x y ≡ true → before y x ≡ false)
      (trans : (x y z : A) → before y x ≡ false → before z y ≡ false → before z x ≡ false) where
    All-before :
        (x y : A) (ys : List A)
        → before y x ≡ false
        → All (λ z. before z y ≡ false) ys
        → All (λ z. before z x ≡ false) ys
    All-before x y [] h _ = tt
    All-before x y (z ∷ ys) h (p, ps) = (trans x y z h p, All-before x y ys h ps)

    insert_sorted-IsSorted : (x : A) (ys : List A) → IsSorted ys → IsSorted (insert_sorted x ys)
    unfolding insert_sorted
    insert_sorted-IsSorted x [] _ = (tt, tt)
    insert_sorted-IsSorted x (y ∷ ys) (p, s) = elim (Bool-cases (before x y)) [
      | inl first ↦
          rw (first, insert_sorted) ((asym x y first, All-before x y ys (asym x y first) p), (p, s))
      | inr later ↦
          rw (later, insert_sorted)
            (
              insert_sorted-All (λ z. before z y ≡ false) x ys later p,
              insert_sorted-IsSorted x ys s,
            )
    ]

    pub sort-IsSorted : (xs : List A) → IsSorted (sort xs)
    unfolding sort
    sort-IsSorted [] = tt
    sort-IsSorted (x ∷ xs) = insert_sorted-IsSorted x (sort xs) (sort-IsSorted xs)
