-- ===== src/Base/Slices.antt =====
-- How the searches and slices of a text act on a text that is put together from parts.
use Prim.Native.Nat.{ℕ, suc, ◌+◌, ◌≤◌, ◌<◌}
use Prim.Native.Char.{Char}
use mathlib.Core.Path.{◌≡◌, refl, ap, ◌∙◌}
use mathlib.Core.Bool.{Bool, true, false}
use mathlib.Core.List.{List, [], ◌∷◌, ◌++◌}
use mathlib.Core.Option.{some}
use native.Mathlib.Omega.{arith}
use sentinel_api.Base.Tests.{leb}
use sentinel_api.Base.Lists.{length, take, drop, any, All, length-append}
use sentinel_api.Base.Chars.{
  Str, is_space, trim_left, trim_right, keep_if, trim_space, index_of, words, fields, add_word,
  split_at, slice_from,
}

module _ {ℓ} {A : Type ℓ} where
  pub take-append : (w r : List A) → take (length w) (w ++ r) ≡ w
  take-append [] r = refl
  take-append (x ∷ w) r = ap (◌∷◌ x) (take-append w r)

  pub drop-append : (w r : List A) → drop (length w) (w ++ r) ≡ r
  drop-append [] r = refl
  drop-append (x ∷ w) r = drop-append w r

  pub drop-append_more : (k : ℕ) (w r : List A) → drop (length w + k) (w ++ r) ≡ drop k r
  drop-append_more k [] r = ap (λ n. drop n r) (omega arith)
  drop-append_more k (x ∷ w) r =
      let step : length (x ∷ w) + k ≡ suc (length w + k) = omega arith in
      ap (λ n. drop n (x ∷ w ++ r)) step ∙ drop-append_more k w r

  pub any-append : (p : A → Bool) (w r : List A) → any p r ≡ true → any p (w ++ r) ≡ true
  any-append p [] r h = h
  any-append p (x ∷ w) r h = rw (any-append p w r h) (ground arith)

-- No character passes the test.
abbrev pub Free : (Char → Bool) → Str → Type 0
Free p w = All (λ c. p c ≡ false) w

module _ (p : Char → Bool) where
  pub index_of-append :
      (w : Str) (c : Char) (r : Str)
      → Free p w
      → p c ≡ true
      → index_of p (w ++ c ∷ r) ≡ some (length w)
  unfolding index_of
  index_of-append [] c r h k = rw k
  index_of-append (x ∷ w) c r h k = rw (h.0, index_of-append w c r h.1 k) (ap some (omega arith))

  pub split_at-append :
      (w : Str) (c : Char) (r : Str) → Free p w → p c ≡ true → (split_at p (w ++ c ∷ r)).0 ≡ w
  unfolding split_at
  split_at-append [] c r h k = rw k
  split_at-append (x ∷ w) c r h k = rw h.0 (ap (◌∷◌ x) (split_at-append w c r h.1 k))

  pub split_at-Free : (w : Str) → Free p w → (split_at p w).0 ≡ w
  unfolding split_at
  split_at-Free [] h = refl
  split_at-Free (x ∷ w) h = rw h.0 (ap (◌∷◌ x) (split_at-Free w h.1))

  keep_if-given : (c : Char) (s : Str) → 0 < length s → keep_if p c s ≡ c ∷ s
  keep_if-given c [] h = absurd (omega arith)
  keep_if-given c (d ∷ s) h = refl

  pub trim_right-Free : (w : Str) → Free p w → trim_right p w ≡ w
  unfolding trim_right
  trim_right-Free [] h = refl
  trim_right-Free (x ∷ []) h = rw h.0
  trim_right-Free (x ∷ y ∷ w) h = rw (trim_right-Free (y ∷ w) h.1)

-- A text that ends with a character that is no space.
abbrev pub IsTrimmed : Str → Type 0
IsTrimmed s = (0 < length s) × (trim_right is_space s ≡ s)

pub append-IsTrimmed : (w r : Str) → IsTrimmed r → IsTrimmed (w ++ r)
unfolding trim_right
append-IsTrimmed [] r h = h
append-IsTrimmed (x ∷ w) r h =
    let (given, same) = append-IsTrimmed w r h in
    (omega arith, rw same (keep_if-given is_space x (w ++ r) given))

pub trim_space-append :
    (w r : Str) → 0 < length w → Free is_space w → IsTrimmed (w ++ r) → trim_space (w ++ r) ≡ w ++ r
unfolding trim_space trim_left
trim_space-append [] r g h t = absurd (omega arith)
trim_space-append (c ∷ w) r g h t = rw h.0 t.1

trim_left-Free : (w : Str) → Free is_space w → trim_left is_space w ≡ w
unfolding trim_left
trim_left-Free [] h = refl
trim_left-Free (x ∷ w) h = rw h.0

pub trim_space-Free : (w : Str) → Free is_space w → trim_space w ≡ w
unfolding trim_space
trim_space-Free w h = rw (trim_left-Free w h) (trim_right-Free is_space w h)

pub words-append :
    (w : Str) (c : Char) (r : Str)
    → Free is_space w
    → is_space c ≡ true
    → words (w ++ c ∷ r) ≡ (w, fields r)
unfolding words fields
words-append [] c r h k = rw k
words-append (x ∷ w) c r h k = rw (words-append w c r h.1 k, h.0)

pub words-Free : (w : Str) → Free is_space w → words w ≡ (w, [])
unfolding words
words-Free [] h = refl
words-Free (x ∷ w) h = rw (words-Free w h.1, h.0)

-- A word and a space before a text add the word to its words.
pub fields-word :
    (w : Str) (c : Char) (r : Str)
    → Free is_space w
    → is_space c ≡ true
    → fields (w ++ c ∷ r) ≡ add_word w (fields r)
unfolding fields
fields-word w c r h k = ap (λ x. add_word x.0 x.1) (words-append w c r h k)

pub fields-Free : (w : Str) → Free is_space w → fields w ≡ add_word w []
unfolding fields
fields-Free w h = ap (λ x. add_word x.0 x.1) (words-Free w h)

pub slice_from-append :
    (k : ℕ) (w r : Str) → k ≤ length r → slice_from (length w + k) (w ++ r) ≡ some (drop k r)
slice_from-append k w r h =
    let fits : leb (length w + k) (length (w ++ r)) ≡ true = ground (arith, length-append w r) in
    rw (fits, drop-append_more k w r)

pub any-Free : (p : Char → Bool) (w : Str) → any p w ≡ false → Free p w
any-Free p [] h = tt
any-Free p (x ∷ w) h = ground (arith, any-Free p w)
