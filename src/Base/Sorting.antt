-- ===== src/Base/Sorting.antt =====
-- Stable insertion sort, which stands for sort.SliceStable, and what its result is.
use mathlib.Core.Path.{◌≡◌, refl}
use mathlib.Core.Logic.{inl, inr}
use mathlib.Core.Bool.{Bool, true, false}
use mathlib.Core.List.{List, [], ◌∷◌}
use native.Mathlib.Omega.{arith}
use sentinel_api.Base.Tests.{if◌then◌else◌, Bool-cases}
use sentinel_api.Base.Lists.{All, filter, count_if}

-- sort.SliceStable: an element passes those that must come before it, and no equal one.
unfoldable pub insert_sorted {ℓ} : {A : Type ℓ} → (A → A → Bool) → A → List A → List A
insert_sorted less x [] = x ∷ []
insert_sorted less x (y ∷ l) =
    let rest = insert_sorted less x l in if less y x then y ∷ rest else x ∷ y ∷ l

unfoldable pub slice_stable {ℓ} : {A : Type ℓ} → (A → A → Bool) → List A → List A
slice_stable less [] = []
slice_stable less (x ∷ l) = insert_sorted less x (slice_stable less l)

-- No element must come before one that stands above it.
abbrev pub IsSorted {ℓ} : {A : Type ℓ} → (A → A → Bool) → List A → Type ℓ
IsSorted less [] = Unit
IsSorted less (x ∷ l) = All (λ y. less y x ≡ false) l × IsSorted less l

module _ {A : Type 0} (less : A → A → Bool) (asym : (x y : A) → less x y ≡ true → less y x ≡ false)
    (trans : (x y z : A) → less y x ≡ false → less z y ≡ false → less z x ≡ false) where
  All-insert_sorted :
      (z x : A) (l : List A)
      → less x z ≡ false
      → All (λ y. less y z ≡ false) l
      → All (λ y. less y z ≡ false) (insert_sorted less x l)
  unfolding insert_sorted
  All-insert_sorted z x [] h a = (h, tt)
  All-insert_sorted z x (y ∷ l) h a = ground (arith, All-insert_sorted z x l h a.1)

  All-trans :
      (x y : A) (l : List A)
      → less y x ≡ false
      → All (λ z. less z y ≡ false) l
      → All (λ z. less z x ≡ false) l
  All-trans x y [] h a = tt
  All-trans x y (z ∷ l) h a = (trans x y z h a.0, All-trans x y l h a.1)

  insert_sorted-IsSorted :
      (x : A) (l : List A) → IsSorted less l → IsSorted less (insert_sorted less x l)
  unfolding insert_sorted
  insert_sorted-IsSorted x [] s = (tt, tt)
  insert_sorted-IsSorted x (y ∷ l) s = elim (Bool-cases (less y x)) [
    | inl h ↦ rw h (All-insert_sorted y x l (asym y x h) s.0, insert_sorted-IsSorted x l s.1)
    | inr h ↦ rw h ((h, All-trans x y l h s.0), s)
  ]

  pub slice_stable-IsSorted : (l : List A) → IsSorted less (slice_stable less l)
  unfolding slice_stable
  slice_stable-IsSorted [] = tt
  slice_stable-IsSorted (x ∷ l) =
      insert_sorted-IsSorted x (slice_stable less l) (slice_stable-IsSorted l)

module _ {A : Type 0} (less : A → A → Bool) (p : A → Bool) where
  count_if-insert_sorted :
      (x : A) (l : List A) → count_if p (insert_sorted less x l) ≡ count_if p (x ∷ l)
  unfolding insert_sorted
  count_if-insert_sorted x [] = refl
  count_if-insert_sorted x (y ∷ l) = ground (arith, count_if-insert_sorted x l)

  pub count_if-slice_stable : (l : List A) → count_if p (slice_stable less l) ≡ count_if p l
  unfolding slice_stable
  count_if-slice_stable [] = refl
  count_if-slice_stable (x ∷ l) =
      ground (arith, count_if-insert_sorted x (slice_stable less l), count_if-slice_stable l)

  filter-insert_sorted :
      ((x y : A) → p x ≡ true → p y ≡ true → less x y ≡ false)
      → (x : A) (l : List A) → filter p (insert_sorted less x l) ≡ filter p (x ∷ l)
  unfolding insert_sorted
  filter-insert_sorted same x [] = refl
  filter-insert_sorted same x (y ∷ l) = ground (arith, same y x, filter-insert_sorted same x l)

  -- Elements that need not come before one another keep their order.
  pub filter-slice_stable :
      ((x y : A) → p x ≡ true → p y ≡ true → less x y ≡ false)
      → (l : List A) → filter p (slice_stable less l) ≡ filter p l
  unfolding slice_stable
  filter-slice_stable same [] = refl
  filter-slice_stable same (x ∷ l) =
      ground (arith, filter-insert_sorted same x (slice_stable less l), filter-slice_stable same l)
