-- ===== src/Containment/Duration.antt =====
-- internal/containment/containment.go `ParseDuration`, on ASCII text. `parse` is `time.ParseDuration`, of
-- the characters' numbers.
pub mod Days
use sentinel_api.Base.{
  ℕ, suc, ◌+◌, ◌-◌, ◌*◌, ◌%◌, ◌^◌, String, Bool, true, false, ◌||◌, Option, none, some, List, [],
  ◌∷◌, map, ltb, ◌==◌, chars, codes, lower_numbers, trim_space, same_text, atoi, ℤ, pos, negsuc,
  if◌then◌else◌,
}
use sentinel_api.Containment.{Lifetime, permanent, lasting}

-- 24 * time.Hour
abbrev pub day : ℕ
day = 24 * 3600 * 10 ^ 9

-- The signed 64-bit number of these bits.
abbrev pub to_int64 : ℕ → ℤ
to_int64 n = if ltb n (2 ^ 63) then pos n else negsuc (2 ^ 64 - n - 1)

-- `time.Duration(n) * 24 * time.Hour`, which wraps around.
unfoldable pub days : ℤ → ℤ
days (pos n) = to_int64 (n * day % 2 ^ 64)
days (negsuc n) = to_int64 ((2 ^ 64 - suc n * day % 2 ^ 64) % 2 ^ 64)

-- The text before a final "d", if it has one.
unfoldable pub before_d : List ℕ → Option (List ℕ)
before_d [] = none
before_d (c ∷ []) = if c == b'd' then some [] else none
before_d (c ∷ d ∷ s) = elim (before_d (d ∷ s)) [ none ↦ none | some t ↦ some (c ∷ t) ]

abbrev as_lifetime : Option ℤ → Option Lifetime
as_lifetime none = none
as_lifetime (some d) = some (lasting d)

abbrev in_days : Option ℤ → Option Lifetime
unfolding days
in_days none = none
in_days (some n) = some (lasting (days n))

-- `none` is `ErrInvalidDur`.
unfoldable pub parse_duration : (List ℕ → Option ℤ) → String → Option Lifetime
unfolding before_d trim_space same_text atoi in_days
parse_duration parse raw =
    let s = lower_numbers (trim_space (chars raw)) in
    if same_text s [] || (same_text s (codes "permanent") || same_text s (codes "0"))
    then some permanent
    else elim (before_d s) [ none ↦ as_lifetime (parse s) | some n ↦ in_days (atoi n) ]
