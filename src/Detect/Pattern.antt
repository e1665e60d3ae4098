-- ===== src/Detect/Pattern.antt =====
-- internal/detect/rules.go: `sqliPattern`, a case-insensitive regular expression, as data with a
-- matcher over the bytes of an ASCII text.
use sentinel_api.Base.{
  ℕ, zero, suc, String, Bool, true, false, ◌&&◌, ◌||◌, ◌≡◌, refl, List, [], ◌∷◌, ◌++◌, ◌==◌, leb,
  ltb, codes, to_lower, length, filter, if◌then◌else◌,
}

-- The syntax that the pattern uses. `atom` tests a byte that is already in lower case.
pub data Regex : Type 0 where
  empty : Regex
  atom : (ℕ → Bool) → Regex
  seq : Regex → Regex → Regex
  alt : Regex → Regex → Regex
  star : Regex → Regex
  word_boundary : Regex
  end_of_text : Regex

-- A place in the text: the byte before it (0 at the start) and what follows.
abbrev Place : Type 0
Place = ℕ × List ℕ

is_word : ℕ → Bool
is_word c = (leb b'a' c && leb c b'z') || (leb b'0' c && leb c b'9') || c == b'_'

head_or_zero : List ℕ → ℕ
head_or_zero [] = 0
head_or_zero (c ∷ cs) = c

step_atom : (ℕ → Bool) → Place → List Place
step_atom p (b, []) = []
step_atom p (b, c ∷ cs) = if p c then (c, cs) ∷ [] else []

at_end : Place → List Place
at_end (b, []) = (b, []) ∷ []
at_end (b, c ∷ cs) = []

at_boundary : Place → List Place
unfolding is_word head_or_zero
at_boundary (b, cs) =
    if is_word b && is_word (head_or_zero cs)
    then []
    else if is_word b || is_word (head_or_zero cs)
    then (b, cs) ∷ []
    else []

flat_map_places : (Place → List Place) → List Place → List Place
flat_map_places f [] = []
flat_map_places f (p ∷ ps) = f p ++ flat_map_places f ps

-- Zero or more rounds of `f`; each round that counts takes a byte at least.
rounds : (Place → List Place) → ℕ → Place → List Place
unfolding flat_map_places
rounds f zero p = p ∷ []
rounds f (suc n) p =
    p ∷ flat_map_places (rounds f n) (filter (λ q. ltb (length q.1) (length p.1)) (f p))

-- The places where a match that starts at a place can end.
ends : Regex → Place → List Place
unfolding step_atom at_end at_boundary rounds
ends empty p = p ∷ []
ends (atom t) p = step_atom t p
ends (seq r s) p = flat_map_places (ends s) (ends r p)
ends (alt r s) p = ends r p ++ ends s p
ends (star r) p = rounds (ends r) (length p.1) p
ends word_boundary p = at_boundary p
ends end_of_text p = at_end p

is_nonempty : List Place → Bool
is_nonempty [] = false
is_nonempty (p ∷ ps) = true

search_from : Regex → ℕ → List ℕ → Bool
unfolding ends is_nonempty
search_from r b [] = is_nonempty (ends r (b, []))
search_from r b (c ∷ cs) = is_nonempty (ends r (b, c ∷ cs)) || search_from r c cs

-- `Regexp.MatchString` under the flag `i`.
unfoldable pub match_string : Regex → String → Bool
unfolding search_from
match_string r s = search_from r 0 (to_lower s)

word : List ℕ → Regex
word [] = empty
word (c ∷ cs) = seq (atom (λ d. d == c)) (word cs)

-- A literal text.
lit : String → Regex
unfolding word
lit s = word (codes s)

-- `\s`, `\s*` and `\s+`
space : Regex
space = atom (λ c. c == 9 || c == 10 || c == 12 || c == 13 || c == 32)

spaces : Regex
unfolding space
spaces = star space

spaces1 : Regex
unfolding spaces
spaces1 = seq space spaces

-- `(?:'|%27)`
quote : Regex
unfolding lit
quote = alt (lit "'") (lit "%27")

hex_digit : Regex
hex_digit = atom (λ c. (leb b'0' c && leb c b'9') || (leb b'a' c && leb c b'f'))

-- `0x[0-9a-f]{6,}`
hex_literal : Regex
unfolding lit hex_digit
hex_literal = seq (lit "0x") (
    seq hex_digit (
      seq hex_digit
        (seq hex_digit (seq hex_digit (seq hex_digit (seq hex_digit (star hex_digit)))))))

-- `(?:'|%27)\s*or\s*(?:'|%27)\s*=\s*(?:'|%27)`
quoted_or : Regex
unfolding quote spaces lit
quoted_or = seq quote (
    seq spaces
      (seq (lit "or") (seq spaces (seq quote (seq spaces (seq (lit "=") (seq spaces quote)))))))

-- The alternatives of the source, in its order.
unfoldable pub sqli_pattern : Regex
unfolding quoted_or hex_literal spaces1 lit
sqli_pattern = alt (seq (lit "union") (seq spaces1 (lit "select"))) (
    alt quoted_or (
      alt (seq (lit "--") (seq spaces end_of_text)) (
        alt (lit "/*") (
          alt (seq word_boundary (seq (lit "sleep") (seq spaces (lit "(")))) (
            alt (lit "information_schema") (
              alt (seq (lit "concat") (seq spaces (lit "("))) (
                alt hex_literal (
                  alt (lit "'%20or%20'1'%3d'1") (
                    seq (lit "union")
                      (seq spaces (seq (lit "all") (seq spaces (lit "select")))))))))))))

matches_union : match_string sqli_pattern "/q?id=1 UNION  SELECT x" ≡ true
unfolding match_string sqli_pattern
matches_union = refl

clean_path : match_string sqli_pattern "/assets/sleepy.js?x=0x12" ≡ false
unfolding match_string sqli_pattern
clean_path = refl

comment_at_end : match_string sqli_pattern "/login?u=admin'--  " ≡ true
unfolding match_string sqli_pattern
comment_at_end = refl
