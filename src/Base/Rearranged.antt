-- ===== src/Base/Rearranged.antt =====
-- Lists that are rearrangements of one another: `Permᴰ` of the library, with the Boolean filters,
-- counts and predicates of `Lists`.
use Prim.Native.Nat.{ℕ, zero, suc, ◌+◌, ◌≤◌}
use mathlib.Core.Path.{◌≡◌, refl, ap, ◌∙◌, sym, subst}
use mathlib.Core.Logic.{inl, inr}
use mathlib.Core.Bool.{Bool}
use mathlib.Core.List.{List, [], ◌∷◌, ◌++◌, map, Permᴰ}
use mathlib.Core.List.Permᴰ
use native.Mathlib.Omega.{arith}
use sentinel_api.Base.Tests.{Bool-cases, if◌then◌else◌}
use sentinel_api.Base.Sorting.{insert_sorted, slice_stable}
use sentinel_api.Base.Lists.{All, filter, count_if, length, take, drop}

module _ {A : Type 0} where
  pub All-perm {κ} : (P : A → Type κ) {xs ys : List A} → Permᴰ xs ys → All P ys → All P xs
  All-perm P Permᴰ.nil h = tt
  All-perm P (Permᴰ.cons e d) h = (subst P (sym e) h.0, All-perm P d h.1)
  All-perm P (Permᴰ.swap e e') h = (subst P (sym e) h.1.0, (subst P (sym e') h.0, h.1.1))
  All-perm P (Permᴰ.trans d d') h = All-perm P d (All-perm P d' h)

  count_if_same : (p : A → Bool) (a b : A) → a ≡ b → p a ≡ p b
  count_if_same p a b e = ap p e

  pub count_if-perm : (p : A → Bool) {xs ys : List A} → Permᴰ xs ys → count_if p xs ≡ count_if p ys
  count_if-perm p Permᴰ.nil = refl
  count_if-perm p (Permᴰ.cons {a = a} {b = b} e d) =
      ground (arith, count_if_same p a b e, count_if-perm p d)
  count_if-perm p (Permᴰ.swap {a = a} {b = b} {a' = a'} {b' = b'} e e') =
      ground (arith, count_if_same p a b' e, count_if_same p b a' e')
  count_if-perm p (Permᴰ.trans d d') = count_if-perm p d ∙ count_if-perm p d'

  keep_cons :
      (p : A → Bool) {a b : A} {xs ys : List A}
      → a ≡ b
      → Permᴰ xs ys
      → Permᴰ (if p a then a ∷ xs else xs) (if p b then b ∷ ys else ys)
  keep_cons p {a} {b} e d = elim (Bool-cases (p b)) [
    | inl h ↦ rw (e, h) (Permᴰ.cons refl d)
    | inr h ↦ rw (e, h) d
  ]

  keep_swap :
      (p : A → Bool) (a b : A) (l : List A)
      → (let m = if p a then a ∷ l else l in
          let n = if p b then b ∷ l else l in
          Permᴰ (if p a then a ∷ n else n) (if p b then b ∷ m else m))
  keep_swap p a b l = elim (Bool-cases (p a)) [
    | inl h ↦ elim (Bool-cases (p b)) [
      | inl k ↦ rw (h, k) (Permᴰ.swap refl refl)
      | inr k ↦ rw (h, k) (Permᴰ.refl (a ∷ l))
    ]
    | inr h ↦ rw h (Permᴰ.refl _)
  ]

  pub filter-perm :
      (p : A → Bool) {xs ys : List A} → Permᴰ xs ys → Permᴰ (filter p xs) (filter p ys)
  filter-perm p Permᴰ.nil = Permᴰ.nil
  filter-perm p (Permᴰ.cons {a = a} {b = b} e d) = keep_cons p e (filter-perm p d)
  filter-perm p (Permᴰ.swap {a = a} {b = b} {a' = a'} {b' = b'} {l = l} e e') =
      rw (e, e') (keep_swap p b' a' (filter p l))
  filter-perm p (Permᴰ.trans d d') = Permᴰ.trans (filter-perm p d) (filter-perm p d')

  pub length-perm : {xs ys : List A} → Permᴰ xs ys → length xs ≡ length ys
  length-perm Permᴰ.nil = refl
  length-perm (Permᴰ.cons e d) = ap suc (length-perm d)
  length-perm (Permᴰ.swap e e') = refl
  length-perm (Permᴰ.trans d d') = length-perm d ∙ length-perm d'

  pub singleton-perm : (x : A) (xs : List A) → Permᴰ xs (x ∷ []) → xs ≡ x ∷ []
  singleton-perm x [] d = absurd (omega (arith, length-perm d))
  singleton-perm x (y ∷ []) d = ap (λ z. z ∷ []) (All-perm (λ z. z ≡ x) d (refl, tt)).0
  singleton-perm x (y ∷ z ∷ l) d = absurd (omega (arith, length-perm d))

  pub length-filter : (p : A → Bool) (xs : List A) → length (filter p xs) ≡ count_if p xs
  length-filter p [] = refl
  length-filter p (x ∷ xs) = ground (arith, length-filter p xs)

  pub count_if-append :
      (p : A → Bool) (xs ys : List A) → count_if p (xs ++ ys) ≡ count_if p xs + count_if p ys
  count_if-append p [] ys = omega arith
  count_if-append p (x ∷ xs) ys = ground (arith, count_if-append p xs ys)

  pub empty_of_length : (xs : List A) → length xs ≤ 0 → xs ≡ []
  empty_of_length [] h = refl
  empty_of_length (x ∷ xs) h = absurd (omega arith)

  pub filter-ext :
      (p q : A → Bool) → ((x : A) → p x ≡ q x) → (xs : List A) → filter p xs ≡ filter q xs
  filter-ext p q same [] = refl
  filter-ext p q same (x ∷ xs) = rw (same x, filter-ext p q same xs) refl

module _ {A B : Type 0} (g : A → B) where
  -- An arrangement of images is the list of images of an arrangement.
  pub map-perm_inv :
      {xs zs : List B} (ys : List A)
      → Permᴰ xs zs
      → zs ≡ map g ys
      → (q : List A) × (xs ≡ map g q) × Permᴰ q ys
  map-perm_inv [] Permᴰ.nil h = ([], refl, Permᴰ.nil)
  map-perm_inv (y ∷ ys) Permᴰ.nil h = absurd cc
  map-perm_inv [] (Permᴰ.cons e d) h = absurd cc
  map-perm_inv (y ∷ ys) (Permᴰ.cons {a = a} {b = b} {l₁ = l} e d) h =
      let (q, k, p) = map-perm_inv ys d cc in
      let same : a ≡ g y = cc in (y ∷ q, rw (same, k) refl, Permᴰ.cons refl p)
  map-perm_inv [] (Permᴰ.swap e e') h = absurd cc
  map-perm_inv (y ∷ []) (Permᴰ.swap e e') h = absurd cc
  map-perm_inv (y ∷ z ∷ ys) (Permᴰ.swap {a = a} {b = b} {l = l} e e') h =
      let first : a ≡ g z = cc in
      let second : b ≡ g y = cc in
      let rest : l ≡ map g ys = cc in
      (z ∷ y ∷ ys, rw (first, second, rest) refl, Permᴰ.swap refl refl)
  map-perm_inv ys (Permᴰ.trans d d') h =
      let (mid, k, p) = map-perm_inv ys d' h in
      let (q, k', p') = map-perm_inv mid d k in (q, k', Permᴰ.trans p' p)

  pub map-take : (n : ℕ) (xs : List A) → take n (map g xs) ≡ map g (take n xs)
  map-take zero xs = refl
  map-take (suc n) [] = refl
  map-take (suc n) (x ∷ xs) = ap (λ l. g x ∷ l) (map-take n xs)

  pub map-drop : (n : ℕ) (xs : List A) → drop n (map g xs) ≡ map g (drop n xs)
  map-drop zero xs = refl
  map-drop (suc n) [] = refl
  map-drop (suc n) (x ∷ xs) = map-drop n xs

  pub filter-map :
      (p : B → Bool) (q : A → Bool) (xs : List A)
      → ((x : A) → p (g x) ≡ q x)
      → filter p (map g xs) ≡ map g (filter q xs)
  filter-map p q [] same = refl
  filter-map p q (x ∷ xs) same = elim (Bool-cases (q x)) [
    | inl h ↦ rw (same x, h, filter-map p q xs same) refl
    | inr h ↦ rw (same x, h, filter-map p q xs same) refl
  ]

module _ {κ} {A : Type 0} (P : A → Type κ) where
  pub All-take : (n : ℕ) (xs : List A) → All P xs → All P (take n xs)
  All-take zero xs h = tt
  All-take (suc n) [] h = tt
  All-take (suc n) (x ∷ xs) h = (h.0, All-take n xs h.1)

  pub All-drop : (n : ℕ) (xs : List A) → All P xs → All P (drop n xs)
  All-drop zero xs h = h
  All-drop (suc n) [] h = tt
  All-drop (suc n) (x ∷ xs) h = All-drop n xs h.1

module _ {A B : Type 0} (g : A → B) where
  pub map-append_inv :
      (xs ys : List B) (q : List A)
      → xs ++ ys ≡ map g q
      → (k : List A) × (l : List A) × (q ≡ k ++ l) × (xs ≡ map g k) × (ys ≡ map g l)
  map-append_inv [] ys q h = ([], q, refl, refl, h)
  map-append_inv (x ∷ xs) ys [] h = absurd cc
  map-append_inv (x ∷ xs) ys (a ∷ q) h =
      let (k, l, e, first, rest) = map-append_inv xs ys q cc in (a ∷ k, l, cc, cc, rest)

  pub count_if-map {κ} :
      (P : A → Type κ) (p : B → Bool) (r : A → Bool) (xs : List A)
      → ((x : A) → P x → p (g x) ≡ r x)
      → All P xs
      → count_if p (map g xs) ≡ count_if r xs
  count_if-map P p r [] same h = refl
  count_if-map P p r (x ∷ xs) same h = rw (same x h.0, count_if-map P p r xs same h.1) refl

module _ {A : Type 0} where
  pub All-append_inv {κ} :
      (P : A → Type κ) (xs ys : List A) → All P (xs ++ ys) → All P xs × All P ys
  All-append_inv P [] ys h = (tt, h)
  All-append_inv P (x ∷ xs) ys h = let r = All-append_inv P xs ys h.1 in ((h.0, r.0), r.1)

-- Sorting rearranges.
module _ {A : Type 0} (less : A → A → Bool) where
  insert_sorted-perm : (x : A) (l : List A) → Permᴰ (insert_sorted less x l) (x ∷ l)
  unfolding insert_sorted
  insert_sorted-perm x [] = Permᴰ.refl _
  insert_sorted-perm x (y ∷ l) = elim (Bool-cases (less y x)) [
    | inl h ↦ rw h (Permᴰ.trans (Permᴰ.cons refl (insert_sorted-perm x l)) (Permᴰ.swap refl refl))
    | inr h ↦ rw h (Permᴰ.refl _)
  ]

  pub slice_stable-perm : (l : List A) → Permᴰ (slice_stable less l) l
  unfolding slice_stable
  slice_stable-perm [] = Permᴰ.nil
  slice_stable-perm (x ∷ l) =
      Permᴰ.trans (insert_sorted-perm x (slice_stable less l))
        (Permᴰ.cons refl (slice_stable-perm l))
