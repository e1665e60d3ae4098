-- ===== src/Base/Chars.antt =====
-- The parts of Go's `strings` and `strconv` that the parsers call, on a text as a list of its
-- characters. Positions count characters, which are the bytes of an ASCII text.
use Prim.Native.Nat.{ℕ, zero, suc, ◌+◌, ◌-◌, ◌*◌, ◌^◌}
use Prim.Native.Char.{Char, code}
use Prim.Native.String.{String}
use mathlib.Core.Path.{◌≡◌, refl, ap}
use mathlib.Core.Bool.{Bool, ◌&&◌, ◌||◌}
use mathlib.Core.List.{List, [], ◌∷◌, map}
use mathlib.Core.Option.{Option, none, some}
use sentinel_api.Base.Tests.{leb, ◌==◌, if◌then◌else◌}
use sentinel_api.Base.Lists.{length, drop}
use sentinel_api.Base.Int.{ℤ, pos, negsuc}
use sentinel_api.Base.Text.{has_prefix, lower}

abbrev pub Str : Type 0
Str = List Char

abbrev pub chars : String → Str
chars String.[] = []
chars (String.◌∷◌ c s) = c ∷ chars s

abbrev pub text : Str → String
text [] = String.[]
text (c ∷ s) = String.◌∷◌ c (text s)

abbrev pub is_char : ℕ → Char → Bool
is_char n c = code c == n

abbrev pub within : ℕ → ℕ → ℕ → Bool
within lo hi n = leb lo n && leb n hi

-- unicode.IsSpace
unfoldable pub is_space : Char → Bool
is_space c =
    let n = code c in
    within 9 13 n
    || (n == 32
        || (n == 133
            || (n == 160
                || (n == 5760
                    || (within 8192 8202 n
                        || (n == 8232
                            || (n == 8233 || (n == 8239 || (n == 8287 || n == 12288)))))))))

unfoldable pub trim_left : (Char → Bool) → Str → Str
trim_left p [] = []
trim_left p (c ∷ s) = let rest = trim_left p s in if p c then rest else c ∷ s

abbrev pub keep_if : (Char → Bool) → Char → Str → Str
keep_if p c [] = if p c then [] else c ∷ []
keep_if p c (d ∷ s) = c ∷ d ∷ s

unfoldable pub trim_right : (Char → Bool) → Str → Str
trim_right p [] = []
trim_right p (c ∷ s) = keep_if p c (trim_right p s)

-- strings.TrimSpace
unfoldable pub trim_space : Str → Str
unfolding trim_left trim_right is_space
trim_space s = trim_right is_space (trim_left is_space s)

abbrev pub later_by : ℕ → Option ℕ → Option ℕ
later_by k none = none
later_by k (some i) = some (i + k)

-- The position of the first character that passes a test; `none` is -1.
unfoldable pub index_of : (Char → Bool) → Str → Option ℕ
index_of p [] = none
index_of p (c ∷ s) = let rest = later_by 1 (index_of p s) in if p c then some 0 else rest

-- strings.Index, on the numbers of the characters.
unfoldable pub index_sub : List ℕ → List ℕ → Option ℕ
unfolding has_prefix
index_sub [] sub = if has_prefix [] sub then some 0 else none
index_sub (c ∷ s) sub =
    let rest = later_by 1 (index_sub s sub) in if has_prefix (c ∷ s) sub then some 0 else rest

abbrev pub numbers : Str → List ℕ
numbers s = map code s

-- strings.ToLower, as the numbers that are compared.
abbrev pub lower_numbers : Str → List ℕ
lower_numbers s = map lower (numbers s)

-- `s[n:]`; `none` is the panic of an index out of range.
abbrev pub slice_from : ℕ → Str → Option Str
slice_from n s = if leb n (length s) then some (drop n s) else none

-- A word is kept unless it is empty.
abbrev pub add_word : Str → List Str → List Str
add_word [] ws = ws
add_word (c ∷ w) ws = (c ∷ w) ∷ ws

-- The words of a text: the one that starts here, which may be empty, and the later ones.
unfoldable pub words : Str → Str × List Str
unfolding is_space
words [] = ([], [])
words (c ∷ s) = let (w, ws) = words s in if is_space c then ([], add_word w ws) else (c ∷ w, ws)

-- strings.Fields
unfoldable pub fields : Str → List Str
unfolding words
fields s = let (w, ws) = words s in add_word w ws

-- strings.Split at a single character: the first part and the others.
unfoldable pub split_at : (Char → Bool) → Str → Str × List Str
split_at p [] = ([], [])
split_at p (c ∷ s) = let (w, ws) = split_at p s in if p c then ([], w ∷ ws) else (c ∷ w, ws)

abbrev pub is_digit : ℕ → Bool
is_digit = within b'0' b'9'

-- The value of decimal digits, after those read so far.
unfoldable pub digits_value : ℕ → List ℕ → Option ℕ
digits_value n [] = some n
digits_value n (c ∷ s) =
    let rest = digits_value (n * 10 + (c - b'0')) s in if is_digit c then rest else none

abbrev pub int_max : ℕ
int_max = 2 ^ 63 - 1

unfoldable pub unsigned : List ℕ → Option ℕ
unfolding digits_value
unsigned [] = none
unsigned (c ∷ s) = digits_value 0 (c ∷ s)

abbrev pub positive_int : Option ℕ → Option ℤ
positive_int none = none
positive_int (some n) = if leb n int_max then some (pos n) else none

abbrev negative_int : Option ℕ → Option ℤ
negative_int none = none
negative_int (some zero) = some (pos 0)
negative_int (some (suc n)) = if leb n int_max then some (negsuc n) else none

pub chars-text : (s : Str) → chars (text s) ≡ s
chars-text [] = refl
chars-text (c ∷ s) = ap (◌∷◌ c) (chars-text s)

-- strconv.Atoi: `none` is a syntax or range error.
unfoldable pub atoi : List ℕ → Option ℤ
unfolding unsigned
atoi [] = none
atoi (c ∷ s) =
    if c == b'-'
    then negative_int (unsigned s)
    else if c == b'+'
    then positive_int (unsigned s)
    else positive_int (unsigned (c ∷ s))
