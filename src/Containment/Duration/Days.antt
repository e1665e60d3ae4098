-- ===== src/Containment/Duration/Days.antt =====
-- internal/containment/containment.go: what `ParseDuration` makes of a number of days.
use sentinel_api.Base.{
  ℕ, ◌-◌, ◌*◌, ◌%◌, ◌^◌, ◌≤◌, ◌<◌, String, true, false, Option, some, List, [], ◌∷◌, ◌++◌, ltb, leb,
  ◌==◌, All, ◌≡◌, refl, ap, ◌∙◌, trim_right, arith, chars, text, chars-text, Str, code, numbers,
  lower, is_digit, is_space, codes, lower_numbers, trim_space, same_text, atoi, unsigned,
  digits_value, length, ℤ, pos, negsuc, if◌then◌else◌, append-IsTrimmed, trim_space-append, All-map,
  int_max,
}
use native.Mathlib.Decide.{dec_le}
use sentinel_api.Containment.{lasting}
use sentinel_api.Containment.Duration.{day, days, before_d, parse_duration}

abbrev pub IsDecimal : Str → Type 0
IsDecimal s = All (λ c. is_digit (code c) ≡ true) s

digit_solid : (c : _) → is_digit (code c) ≡ true → is_space c ≡ false
unfolding is_space
digit_solid c h = ground arith

lower_numbers-digits :
    (s r : Str) → IsDecimal s → lower_numbers (s ++ r) ≡ numbers s ++ lower_numbers r
lower_numbers-digits [] r h = refl
lower_numbers-digits (c ∷ s) r h =
    let same : lower (code c) ≡ code c = ground arith in rw (same, lower_numbers-digits s r h.1)

before_d-append : (s : List ℕ) → before_d (s ++ b'd' ∷ []) ≡ some s
unfolding before_d
before_d-append [] = refl
before_d-append (c ∷ []) = refl
before_d-append (c ∷ d ∷ s) = rw (before_d-append (d ∷ s))

atoi-digits :
    (c : _) (s : Str) (n : ℕ)
    → IsDecimal (c ∷ s)
    → digits_value 0 (numbers (c ∷ s)) ≡ some n
    → n ≤ int_max
    → atoi (numbers (c ∷ s)) ≡ some (pos n)
unfolding atoi unsigned
atoi-digits c s n h e k =
    let small : leb n int_max ≡ true = ground arith in
    let no_minus : (code c == b'-') ≡ false = ground arith in
    let no_plus : (code c == b'+') ≡ false = ground arith in rw (no_minus, no_plus, e, small)

unfoldable pub day_text : Str → String
day_text s = text (s ++ "d" ∷ [])

trimmed_days :
    (c : _) (s : Str) → IsDecimal (c ∷ s) → trim_space (c ∷ s ++ "d" ∷ []) ≡ c ∷ s ++ "d" ∷ []
unfolding trim_right is_space
trimmed_days c s h =
    trim_space-append (c ∷ s) _ (omega arith) (All-map digit_solid (c ∷ s) h)
      (append-IsTrimmed (c ∷ s) ("d" ∷ []) (omega arith, refl))

day_numbers :
    (c : _) (s : Str)
    → IsDecimal (c ∷ s)
    → lower_numbers (trim_space (chars (day_text (c ∷ s)))) ≡ numbers (c ∷ s) ++ b'd' ∷ []
unfolding day_text
day_numbers c s h =
    ap (λ t. lower_numbers (trim_space t)) (chars-text (c ∷ s ++ "d" ∷ []))
    ∙ ap lower_numbers (trimmed_days c s h)
    ∙ lower_numbers-digits (c ∷ s) ("d" ∷ []) h

no_word :
    (c : ℕ) (s : List ℕ)
    → is_digit c ≡ true
    → (same_text (c ∷ s ++ b'd' ∷ []) (codes "permanent") ≡ false)
      × (same_text (c ∷ s ++ b'd' ∷ []) (codes "0") ≡ false)
unfolding same_text
no_word c [] h = (ground arith, ground arith)
no_word c (d ∷ s) h = (ground arith, ground arith)

parse_duration-days :
    (parse : List ℕ → Option ℤ) (c : _) (s : Str) (n : ℕ)
    → IsDecimal (c ∷ s)
    → digits_value 0 (numbers (c ∷ s)) ≡ some n
    → n ≤ int_max
    → parse_duration parse (day_text (c ∷ s)) ≡ some (lasting (days (pos n)))
unfolding parse_duration same_text
parse_duration-days parse c s n h e k =
    let other = no_word (code c) (numbers s) h.0 in
    rw (
      day_numbers c s h,
      other.0,
      other.1,
      before_d-append (numbers (c ∷ s)),
      atoi-digits c s n h e k,
    )

days-short : (n : ℕ) → n ≤ 106751 → days (pos n) ≡ pos (n * day)
unfolding days
days-short n h =
    let same : n * day % 2 ^ 64 ≡ n * day = omega arith in
    let small : ltb (n * day) (2 ^ 63) ≡ true = ground arith in rw (same, small)

days-wrapped : (n : ℕ) → 106752 ≤ n → n ≤ 213503 → days (pos n) ≡ negsuc (2 ^ 64 - n * day - 1)
unfolding days
days-wrapped n h k =
    let same : n * day % 2 ^ 64 ≡ n * day = omega arith in
    let large : ltb (n * day) (2 ^ 63) ≡ false = ground arith in rw (same, large)

-- What n days are up to 213503 of them.
abbrev pub wrapped_days : ℕ → ℤ
wrapped_days n = if leb n 106751 then pos (n * day) else negsuc (2 ^ 64 - n * day - 1)

days-wrapped_days : (n : ℕ) → n ≤ 213503 → days (pos n) ≡ wrapped_days n
days-wrapped_days n h = elim (dec_le n 106751) [
  | yes k ↦ let short : leb n 106751 ≡ true = ground arith in rw short (days-short n k)
  | no k ↦
      let long : leb n 106751 ≡ false = ground arith in rw long (days-wrapped n (omega arith) h)
]

-- The decimal digits of a number n and a "d" stand for n days of 86400 seconds up to 106751; from 106752
-- to 213503 days the duration is negative, because it wraps around at 2^64 nanoseconds.
pub parse_duration_days :
    (parse : List ℕ → Option ℤ) (s : Str) (n : ℕ)
    → 0 < length s
    → IsDecimal s
    → digits_value 0 (numbers s) ≡ some n
    → n ≤ 213503
    → parse_duration parse (day_text s) ≡ some (lasting (wrapped_days n))
parse_duration_days parse [] n g h e k = absurd (omega arith)
parse_duration_days parse (c ∷ s) n g h e k =
    parse_duration-days parse c s n h e (omega arith)
    ∙ ap (λ d. some (lasting d)) (days-wrapped_days n k)
