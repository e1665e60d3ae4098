-- ===== src/Store/Positions.antt =====
-- internal/store/memory.go: an alert at its position in the order of creation.
use sentinel_api.Base.{
  ℕ, zero, suc, String, some, List, [], ◌∷◌, ◌++◌, ◌≡◌, refl, ap, ◌⊎◌, inl, inr, arith, str_eq,
  str_eq_iff, Bool-cases, length, get_elem?, set,
}
use sentinel_api.Alerts.Model.{Alert}
use sentinel_api.Alerts.Store.{find_alert, replace_alert, find_active, is_open_for}

-- Only one place holds an alert of the id.
abbrev pub Sole : String → ℕ → List Alert → Type 0
Sole i p l = (q : ℕ) (b : Alert) → get_elem? l q ≡ some b → b.id ≡ i → q ≡ p

pub find_alert-at :
    (i : String) (l : List Alert) (p : ℕ) (a : Alert)
    → get_elem? l p ≡ some a
    → a.id ≡ i
    → Sole i p l
    → find_alert i l ≡ some a
unfolding find_alert
find_alert-at i [] p a e q s = cc
find_alert-at i (x ∷ l) zero a e q s = let same : x ≡ a = cc in rw (same, (str_eq_iff a.id i).1 q)
find_alert-at i (x ∷ l) (suc p) a e q s = elim (Bool-cases (str_eq x.id i)) [
  | inl here ↦ absurd (omega (arith, s 0 x refl ((str_eq_iff x.id i).0 here)))
  | inr other ↦ rw other (find_alert-at i l p a e q (λ q b f g. omega (arith, s (suc q) b f g)))
]

pub replace_alert-at :
    (b : Alert) (l : List Alert) (p : ℕ) (a : Alert)
    → get_elem? l p ≡ some a
    → a.id ≡ b.id
    → Sole b.id p l
    → replace_alert b l ≡ set l p b
unfolding replace_alert
replace_alert-at b [] p a e q s = cc
replace_alert-at b (x ∷ l) zero a e q s =
    let same : x ≡ a = cc in rw (same, (str_eq_iff a.id b.id).1 q)
replace_alert-at b (x ∷ l) (suc p) a e q s = elim (Bool-cases (str_eq x.id b.id)) [
  | inl here ↦ absurd (omega (arith, s 0 x refl ((str_eq_iff x.id b.id).0 here)))
  | inr other ↦
      rw other
        (ap (◌∷◌ x) (replace_alert-at b l p a e q (λ q c f g. omega (arith, s (suc q) c f g))))
]

pub find_active-at :
    (rule k : String) (l : List Alert) (a : Alert)
    → find_active rule k l ≡ some a
    → (p : ℕ) × (get_elem? l p ≡ some a)
unfolding find_active
find_active-at rule k [] a e = cc
find_active-at rule k (x ∷ l) a e = elim (Bool-cases (is_open_for rule k x)) [
  | inl here ↦ (0, rw here at e)
  | inr other ↦ let (p, f) = find_active-at rule k l a (rw other at e) in (suc p, f)
]

pub get_elem?-snoc :
    (l : List Alert) (a b : Alert) (p : ℕ)
    → get_elem? (l ++ a ∷ []) p ≡ some b
    → (get_elem? l p ≡ some b) ⊎ ((p ≡ length l) × (b ≡ a))
get_elem?-snoc [] a b zero e = inr (refl, cc)
get_elem?-snoc [] a b (suc p) e = cc
get_elem?-snoc (x ∷ l) a b zero e = inl e
get_elem?-snoc (x ∷ l) a b (suc p) e = elim (get_elem?-snoc l a b p e) [
  | inl f ↦ inl f
  | inr (q, f) ↦ inr (ap suc q, f)
]
