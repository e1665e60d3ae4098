-- ===== src/Ingest/Tail.antt =====
-- internal/ingest/tail.go: the parsers of a tailed line, nginx's combined format and sshd's failures.
-- `panics` is an index out of range: the goroutine that tails the file has no recover, so that it
-- ends the process. `refused` is the result `false`. The lines are ASCII.
mod Opening
pub mod Nginx
pub mod Panics
use sentinel_api.Base.{
  ℕ, suc, ◌+◌, String, Bool, true, false, not, ◌&&◌, ◌||◌, Option, none, some, List, [], ◌∷◌, Map,
  insert, length, take, drop, ltb, leb, ◌==◌, code, any, Str, Char, chars, text, is_char, trim_left,
  trim_space, index_of, index_sub, fields, split_at, slice_from, lower_numbers, to_lower, contains,
  codes, is_blank, if◌then◌else◌,
}
use sentinel_api.Event.{Source, nginx, ssh}
use sentinel_api.Event.Tag
use sentinel_api.Ingest.Value.{Value, string_value, string_list, RawLog}

pub data Outcome (A : Type 0) : Type 0 where
  panics refused : Outcome A
  parsed : A → Outcome A

infixl 5 ◌>>=◌ ◌>>◌
abbrev pub ◌>>=◌ : {A B : Type 0} → Outcome A → (A → Outcome B) → Outcome B
panics >>= f = panics
refused >>= f = refused
parsed a >>= f = f a

abbrev pub ◌>>◌ : {B : Type 0} → Outcome (Unit {0}) → Outcome B → Outcome B
m >> k = m >>= λ _. k

abbrev pub guard : Bool → Outcome (Unit {0})
guard true = parsed tt
guard false = refused

-- A position that was not found refuses the line.
abbrev pub found : Option ℕ → Outcome ℕ
found none = refused
found (some i) = parsed i

abbrev pub in_range : {A : Type 0} → Option A → Outcome A
in_range none = panics
in_range (some s) = parsed s

abbrev pub first_of : List Str → Option Str
first_of [] = none
first_of (w ∷ ws) = some w

abbrev pub starts : ℕ → Str → Bool
starts n [] = false
starts n (c ∷ s) = is_char n c

abbrev pub starts_dash : Str → Bool
starts_dash s = starts b'-' s && starts b' ' (drop 1 s)

-- The token and what follows it.
unfoldable pub quoted_token : Str → Outcome (Str × Str)
unfolding trim_left index_of
quoted_token s = do
  let s' = trim_left (is_char b' ') s
  guard (starts b'"' s')
  end ← found (index_of (is_char b'"') (drop 1 s'))
  parsed (take end (drop 1 s'), drop (end + 1) (drop 1 s'))

abbrev upper_letter : Char → Bool
upper_letter c = leb b'A' (code c) && leb (code c) b'Z'

unfoldable pub is_upper : Str → Bool
is_upper s = ltb 0 (length s) && not (any (λ c. not (upper_letter c)) s)

pub record RequestLine : Type 0 where
  pub method : Str
  pub path : Str
  pub proto : Str

abbrev pub no_request : RequestLine
no_request = record { method = []; path = []; proto = [] }

abbrev third : List Str → Str
third [] = []
third (w ∷ ws) = w

unfoldable pub request_parts : List Str → RequestLine
unfolding is_upper
request_parts (m ∷ p ∷ rest) =
    if leb (length m) 8 && is_upper m
    then record { method = m; path = p; proto = third rest }
    else no_request
request_parts _ = no_request

unfoldable pub parse_request_line : Str → RequestLine
unfolding request_parts fields trim_space
parse_request_line req = request_parts (fields (trim_space req))

abbrev pub field : Str → Value
field s = string_value (text s)

unfoldable pub add_request : RequestLine → Map Value → Map Value
unfolding insert
add_request r f =
    if is_blank (text r.method)
    then f
    else (let g = insert "path" (field r.path) (insert "method" (field r.method) f) in
        if is_blank (text r.proto) then g else insert "proto" (field r.proto) g)

unfoldable pub from_quote : Str → Str
unfolding index_of
from_quote rest = elim (index_of (is_char b'"') rest) [ none ↦ rest | some i ↦ drop i rest ]

unfoldable pub parse_nginx_combined : Str → Outcome (Map Value)
unfolding split_at quoted_token index_of fields from_quote add_request parse_request_line
parse_nginx_combined line = do
  let ip = (split_at (is_char b' ') line).0
  guard (ltb 0 (length ip) && (leb (length ip) 45 && any (is_char b'"') line))
  rest ← in_range (slice_from (length ip + 1) line)
  guard (starts_dash rest)
  let rest = drop 2 rest
  i ← found (index_of (is_char b'[') rest)
  let rest = drop i rest
  i ← found (index_of (is_char b']') rest)
  rest ← in_range (slice_from (i + 2) rest)
  (request, rest) ← quoted_token rest
  status ← in_range (first_of (fields rest))
  let rest = from_quote rest
  (referer, rest) ← quoted_token rest
  (ua, rest) ← quoted_token rest
  parsed (
      add_request (parse_request_line request) (
        ("ip", field ip)
        ∷ ("request", field request)
        ∷ ("status", field status)
        ∷ ("referer", field referer)
        ∷ ("user_agent", field ua)
        ∷ []))

abbrev blank_char : Char → Bool
blank_char c = is_char b' ' c || is_char b'\t' c

-- The word that follows a token, whatever the case of its letters.
unfoldable pub word_after : Str → String → Str
unfolding index_sub trim_space index_of
word_after s token = elim (index_sub (lower_numbers s) (to_lower token)) [
  | none ↦ []
  | some i ↦
      let w = trim_space (drop (i + length (chars token)) s) in
      elim (index_of blank_char w) [ none ↦ w | some j ↦ take j w ]
]

abbrev ssh_fields : Str → Str → Str → Map Value
ssh_fields line user ip =
    ("user", field user)
    ∷ ("ip", field (trim_space ip))
    ∷ ("message", field line)
    ∷ ("tags", string_list (Tag.auth_failure ∷ []))
    ∷ []

unfoldable pub parse_ssh_line : Str → Outcome (Map Value)
unfolding word_after contains trim_space
parse_ssh_line line =
    let ip = word_after line "from " in
    if contains (lower_numbers line) (codes "failed password for")
    then parsed (ssh_fields line (trim_space (word_after line "failed password for ")) ip)
    else if contains (lower_numbers line) (codes "invalid user")
    then parsed (ssh_fields line (word_after line "invalid user ") ip)
    else refused

-- A refusal leaves the line to the next parser.
abbrev or_else : {A : Type 0} → Outcome A → Outcome A → Outcome A
or_else panics k = panics
or_else refused k = k
or_else (parsed a) k = parsed a

abbrev entry : Source → String → Map Value → Outcome RawLog
entry source asset f = parsed (record { source = source; asset = asset; fields = f })

unfoldable pub parse_line : Str → String → Outcome RawLog
unfolding parse_nginx_combined parse_ssh_line trim_space
parse_line line asset =
    let line = trim_space line in
    if length line == 0
    then refused
    else or_else (parse_nginx_combined line >>= entry nginx asset)
        (parse_ssh_line line >>= entry ssh asset)
