-- ===== src/Alerts/Effects.antt =====
-- internal/alerts/service.go: what one call may do to the alerts of a store.
use sentinel_api.Base.{
  ◌≤◌, String, Bool, true, ◌&&◌, none, some, List, [], ◌∷◌, ◌++◌, ◌≡◌, ◌⊎◌, inl, inr, arith, ◌∙◌,
  subst, str_eq, str_eq_iff, Bool-cases, All, All-append, count_if,
}
use sentinel_api.Alerts.Model.{Alert}
use sentinel_api.Alerts.Store.{find_alert, replace_alert, is_open_for, find_active}
use sentinel_api.Alerts.Soundness.{IsSound, Evolves, Evolves-refl}
use sentinel_api.Alerts.Contents.{
  find_alert-All, id-find_alert, All-replace_alert, find_alert-replace_alert, find_alert-append,
  count_if-append, count_if-find_active, count_if-replace_alert,
}

-- The alerts of a list that changed by one call. `F` is the evidence that a lookup failed for
-- another reason than a missing alert.
pub data Effect (F : Type 0) (l : List Alert) : List Alert → Type 0 where
  unchanged : Effect F l l
  changed :
      (i : String) (a b : Alert)
      → find_alert i l ≡ some a
      → Evolves a b
      → (IsSound a → IsSound b)
      → Effect F l (replace_alert b l)
  added :
      (b : Alert)
      → IsSound b
      → (find_active b.rule_id b.rule_key l ≡ none) ⊎ F
      → Effect F l (l ++ b ∷ [])

-- At most one active alert for each rule and key.
abbrev pub IsDeduplicated : List Alert → Type 0
IsDeduplicated l = (rule k : String) → count_if (is_open_for rule k) l ≤ 1

and_parts : (x y : Bool) → (x && y) ≡ true → (x ≡ true) × (y ≡ true)
and_parts x y h = ground arith

-- An alert that is open for a rule and key was so before.
was_open :
    (rule k : String) (a b : Alert)
    → Evolves a b
    → is_open_for rule k b ≡ true
    → is_open_for rule k a ≡ true
was_open rule k a b v h =
    let (p, q) = and_parts (str_eq b.rule_id rule) _ h in
    let (q, r) = and_parts (str_eq b.rule_key k) _ q in
    rw (
      subst (λ x. str_eq x rule ≡ true) v.same_rule p,
      subst (λ x. str_eq x k ≡ true) v.same_key q,
      v.no_reopen r,
    )

-- What is open for a rule and key is of that rule and key.
open_of :
    (rule k : String) (b : Alert)
    → is_open_for rule k b ≡ true
    → (b.rule_id ≡ rule) × (b.rule_key ≡ k)
open_of rule k b h =
    let (p, q) = and_parts (str_eq b.rule_id rule) _ h in
    let (q, r) = and_parts (str_eq b.rule_key k) _ q in
    ((str_eq_iff b.rule_id rule).0 p, (str_eq_iff b.rule_key k).0 q)

one_more :
    (b : Alert) (l : List Alert)
    → find_active b.rule_id b.rule_key l ≡ none
    → IsDeduplicated l
    → IsDeduplicated (l ++ b ∷ [])
one_more b l m h rule k =
    rw (count_if-append (is_open_for rule k) l b) (elim (Bool-cases (is_open_for rule k b)) [
      | inr p ↦ rw p (omega (arith, h rule k))
      | inl p ↦
          let (r, q) = open_of rule k b p in
          let none_before : find_active rule k l ≡ none =
            subst (λ x. find_active rule x l ≡ none) q
              (subst (λ x. find_active x b.rule_key l ≡ none) r m) in
          rw (p, count_if-find_active rule k l none_before) (omega arith)
    ])

module _ (F : Type 0) where
  pub Effect-IsSound : {l l' : List Alert} → Effect F l l' → All IsSound l → All IsSound l'
  Effect-IsSound unchanged h = h
  Effect-IsSound {l} (changed i a b e v s) h =
      All-replace_alert IsSound b l (s (find_alert-All IsSound i l a h e)) h
  Effect-IsSound {l} (added b s m) h = All-append IsSound l _ h (s, tt)

  pub Effect-Evolves :
      {l l' : List Alert} (j : String) (c : Alert)
      → Effect F l l'
      → find_alert j l ≡ some c
      → (c' : Alert) × (find_alert j l' ≡ some c') × Evolves c c'
  Effect-Evolves j c unchanged e = (c, e, Evolves-refl c)
  Effect-Evolves {l} j c (added b s m) e = (c, find_alert-append j l _ c e, Evolves-refl c)
  Effect-Evolves {l} j c (changed i a b f v s) e = elim (Bool-cases (str_eq i j)) [
    | inl p ↦ (
      b,
      rw (find_alert-replace_alert i j a b l f (v.same_id ∙ id-find_alert i l a f), p),
      subst (λ x. Evolves x b) (cc (f, e, (str_eq_iff i j).0 p)) v,
    )
    | inr p ↦ (
      c,
      rw (find_alert-replace_alert i j a b l f (v.same_id ∙ id-find_alert i l a f), p) e,
      Evolves-refl c,
    )
  ]

  pub Effect-IsDeduplicated :
      {l l' : List Alert} → ¬ F → Effect F l l' → IsDeduplicated l → IsDeduplicated l'
  Effect-IsDeduplicated n unchanged h = h
  Effect-IsDeduplicated {l} n (changed i a b e v s) h = λ rule k. omega (
    arith,
    h rule k,
    count_if-replace_alert (is_open_for rule k) i a b l e (v.same_id ∙ id-find_alert i l a e)
        (was_open rule k a b v),
  )
  Effect-IsDeduplicated {l} n (added b s (inr f)) h = absurd (n f)
  Effect-IsDeduplicated {l} n (added b s (inl m)) h = λ rule k. one_more b l m h rule k
