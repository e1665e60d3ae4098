-- ===== src/Alerts/Contents.antt =====
-- Lists of alerts as the contents of a store: finding, replacing and counting.
use sentinel_api.Base.{
  ◌+◌, ◌≤◌, String, Bool, true, false, none, some, List, [], ◌∷◌, ◌++◌, ◌≡◌, refl, sym, inl, inr,
  arith, str_eq, str_eq_iff, Bool-cases, subst, All, count_if, if◌then◌else◌,
}
use sentinel_api.Alerts.Model.{Alert}
use sentinel_api.Alerts.Store.{find_alert, replace_alert, is_open_for, find_active}

pub find_alert-All :
    (P : Alert → Type 0) (i : String) (l : List Alert) (a : Alert)
    → All P l
    → find_alert i l ≡ some a
    → P a
unfolding find_alert
find_alert-All P i [] a h e = cc
find_alert-All P i (x ∷ l) a h e = elim (Bool-cases (str_eq x.id i)) [
  | inl p ↦ subst P (cc (rw p at e)) h.0
  | inr p ↦ find_alert-All P i l a h.1 (rw p at e)
]

pub id-find_alert : (i : String) (l : List Alert) (a : Alert) → find_alert i l ≡ some a → a.id ≡ i
unfolding find_alert
id-find_alert i [] a e = cc
id-find_alert i (x ∷ l) a e = ground (arith, str_eq_iff x.id i, id-find_alert i l a)

pub All-replace_alert :
    (P : Alert → Type 0) (b : Alert) (l : List Alert) → P b → All P l → All P (replace_alert b l)
unfolding replace_alert
All-replace_alert P b [] p h = tt
All-replace_alert P b (x ∷ l) p h = ground (arith, All-replace_alert P b l p h.1)

pub find_alert-replace_alert :
    (i j : String) (a b : Alert) (l : List Alert)
    → find_alert i l ≡ some a
    → b.id ≡ i
    → find_alert j (replace_alert b l) ≡ (if str_eq i j then some b else find_alert j l)
unfolding find_alert replace_alert
find_alert-replace_alert i j a b [] e q = cc
find_alert-replace_alert i j a b (x ∷ l) e q = ground (
  arith,
  str_eq_iff x.id b.id,
  str_eq_iff x.id i,
  str_eq_iff x.id j,
  str_eq_iff b.id j,
  str_eq_iff i j,
  find_alert-replace_alert i j a b l,
)

pub find_alert-append :
    (i : String) (l m : List Alert) (a : Alert)
    → find_alert i l ≡ some a
    → find_alert i (l ++ m) ≡ some a
unfolding find_alert
find_alert-append i [] m a e = cc
find_alert-append i (x ∷ l) m a e = ground (arith, find_alert-append i l m a)

pub count_if-append :
    (p : Alert → Bool) (l : List Alert) (b : Alert)
    → count_if p (l ++ b ∷ []) ≡ count_if p l + (if p b then 1 else 0)
count_if-append p [] b = ground arith
count_if-append p (x ∷ l) b = ground (arith, count_if-append p l b)

pub count_if-find_active :
    (rule k : String) (l : List Alert)
    → find_active rule k l ≡ none
    → count_if (is_open_for rule k) l ≡ 0
unfolding find_active
count_if-find_active rule k [] e = refl
count_if-find_active rule k (x ∷ l) e = elim (Bool-cases (is_open_for rule k x)) [
  | inl p ↦ cc (rw p at e)
  | inr p ↦ rw p (count_if-find_active rule k l (rw p at e))
]

count_if-head :
    (p : Alert → Bool) (b x : Alert) (l : List Alert)
    → (p b ≡ true → p x ≡ true)
    → count_if p (b ∷ l) ≤ count_if p (x ∷ l)
count_if-head p b x l m = ground arith

-- Replacing the found alert by one that passes a test only if the found one does.
pub count_if-replace_alert :
    (p : Alert → Bool) (i : String) (a b : Alert) (l : List Alert)
    → find_alert i l ≡ some a
    → b.id ≡ i
    → (p b ≡ true → p a ≡ true)
    → count_if p (replace_alert b l) ≤ count_if p l
unfolding find_alert replace_alert
count_if-replace_alert p i a b [] e q m = cc
count_if-replace_alert p i a b (x ∷ l) e q m = elim (Bool-cases (str_eq x.id b.id)) [
  | inl s ↦
      let found : str_eq x.id i ≡ true = subst (λ j. str_eq x.id j ≡ true) q s in
      let same : x ≡ a = cc (rw found at e) in
      rw s (count_if-head p b x l (λ h. subst (λ y. p y ≡ true) (sym same) (m h)))
  | inr s ↦
      let other : str_eq x.id i ≡ false = subst (λ j. str_eq x.id j ≡ false) q s in
      let rest = count_if-replace_alert p i a b l (rw other at e) q m in rw s (ground (arith, rest))
]
