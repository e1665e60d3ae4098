-- ===== src/Analysis/Indicators/Tools.antt =====
-- internal/analysis/analysis.go: which user agents `toolConfidence` recognises.
use sentinel_api.Base.{
  All, ℕ, zero, suc, ◌≤◌, ◌<◌, String, true, false, ◌&&◌, none, List, [], ◌∷◌, map, ◌≡◌, refl, ◌∙◌,
  ap, inl, inr, arith, ltb, leb, length, take, any, lower, codes, to_lower, Bool-cases, same_text,
  if◌then◌else◌,
}
use native.Mathlib.Decide.{dec_lt}
use sentinel_api.Analysis.Indicators.{
  same_fold, eq_fold, index_from, index_fold, is_some, contains_text, contains_fold, tools,
  tool_confidence,
}

eq_fold_lem : (a b : List ℕ) → eq_fold a b ≡ same_text (map lower a) (map lower b)
unfolding eq_fold same_fold same_text
eq_fold_lem [] [] = refl
eq_fold_lem [] (b ∷ bs) = ground arith
eq_fold_lem (a ∷ s) [] = ground arith
eq_fold_lem (a ∷ s) (b ∷ bs) = ground (arith, eq_fold_lem s bs)

take_all : (s : List ℕ) (n : ℕ) → length s ≤ n → take n s ≡ s
take_all [] zero h = refl
take_all [] (suc n) h = refl
take_all (c ∷ s) zero h = absurd (omega arith)
take_all (c ∷ s) (suc n) h = ap (◌∷◌ c) (take_all s n (omega arith))

index_from-longer : (i : ℕ) (s sub : List ℕ) → length s < length sub → index_from i s sub ≡ none
unfolding index_from
index_from-longer i [] sub h = ground arith
index_from-longer i (c ∷ s) sub h = ground arith

eq_fold-shorter : (s sub : List ℕ) → length sub < length s → eq_fold s sub ≡ false
unfolding eq_fold
eq_fold-shorter s sub h = ground arith

eq_fold-longer : (s sub : List ℕ) → length s < length sub → eq_fold s sub ≡ false
unfolding eq_fold
eq_fold-longer s sub h = ground arith

-- A text that is at least as long is found only at the start, and only if it is the same.
index_from-long :
    (i : ℕ) (s sub : List ℕ) → length s ≤ length sub → is_some (index_from i s sub) ≡ eq_fold s sub
unfolding index_from is_some
index_from-long i [] sub h = elim (dec_lt 0 (length sub)) [
  | yes k ↦ rw (index_from-longer i [] sub k, eq_fold-longer [] sub k)
  | no k ↦ elim (Bool-cases (eq_fold [] sub)) [
    | inl e ↦ rw e (ground arith)
    | inr e ↦ rw e (ground arith)
  ]
]
index_from-long i (c ∷ s) sub h = elim (dec_lt (length (c ∷ s)) (length sub)) [
  | yes k ↦ rw (index_from-longer i (c ∷ s) sub k, eq_fold-longer (c ∷ s) sub k)
  | no k ↦
      let fits : leb (length sub) (length (c ∷ s)) ≡ true = ground arith in
      let whole = take_all (c ∷ s) (length sub) h in
      elim (Bool-cases (eq_fold (c ∷ s) sub)) [
        | inl e ↦ rw (fits, whole, e)
        | inr e ↦ rw (fits, whole, e, index_from-longer (suc i) s sub (omega arith))
      ]
]

-- With the arguments the way round that `containsFold` has them, a text counts as containing another
-- only if it equals it but for case, and is not empty.
pub contains_fold_lem :
    (s sub : List ℕ)
    → contains_fold s sub ≡ (ltb 0 (length s) && same_text (map lower sub) (map lower s))
unfolding contains_fold contains_text index_fold
contains_fold_lem s sub = elim (dec_lt (length s) (length sub)) [
  | yes k ↦
      let short : leb (length sub) (length s) ≡ false = ground arith in
      rw (short, ← eq_fold_lem sub s, eq_fold-shorter sub s k) (ground arith)
  | no k ↦
      let fits : leb (length sub) (length s) ≡ true = ground arith in
      rw (fits, index_from-long 0 sub s (omega arith), eq_fold_lem sub s)
]

same_text-nil : (t s : List ℕ) → 0 < length t → length s ≡ 0 → same_text t s ≡ false
unfolding same_text
same_text-nil [] s h e = absurd (omega arith)
same_text-nil (c ∷ t) [] h e = refl
same_text-nil (c ∷ t) (d ∷ s) h e = absurd (omega arith)

length-map : (s : List ℕ) → length (map lower s) ≡ length s
length-map [] = refl
length-map (c ∷ s) = ap suc (length-map s)

contains_fold-name :
    (s t : List ℕ) → 0 < length t → contains_fold s t ≡ same_text (map lower t) (map lower s)
contains_fold-name s t h = contains_fold_lem s t ∙ elim (dec_lt 0 (length s)) [
  | yes k ↦ let full : ltb 0 (length s) ≡ true = ground arith in rw full
  | no k ↦
      let empty : ltb 0 (length s) ≡ false = ground arith in
      let differ : same_text (map lower t) (map lower s) ≡ false =
        same_text-nil _ _ (omega (arith, length-map t)) (omega (arith, length-map s)) in
      rw (empty, differ)
]

any-tools :
    (ua : String) (ts : List String)
    → All (λ t. 0 < length (codes t)) ts
    → any (λ t. contains_fold (codes ua) (codes t)) ts
      ≡ any (λ t. same_text (to_lower t) (to_lower ua)) ts
any-tools ua [] h = refl
any-tools ua (t ∷ ts) h = rw (contains_fold-name (codes ua) (codes t) h.0, any-tools ua ts h.1)

tools_named : All (λ t. 0 < length (codes t)) tools
tools_named = omega arith

-- `toolConfidence` is 0.95 exactly for the user agents that are the bare name of a tool, in whatever
-- case, and 0.7 for every other text, also one that names a tool among other words.
pub tool_confidence_lem :
    (ua : String)
    → tool_confidence ua
      ≡ (if any (λ t. same_text (to_lower t) (to_lower ua)) tools then 95 else 70)
unfolding tool_confidence
tool_confidence_lem ua = ap (λ b. if b then 95 else 70) (any-tools ua tools tools_named)
