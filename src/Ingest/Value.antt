-- ===== src/Ingest/Value.antt =====
-- internal/event/event.go `RawLog` and internal/ingest/fields.go: the fields of a raw log entry, and how
-- they are read as texts, numbers and tags.
use sentinel_api.Base.{
  String, Option, none, some, List, [], ◌∷◌, map, ℤ, pos, Map, lookup, chars, text, is_char,
  trim_space, split_at, atoi, numbers, is_blank, if◌then◌else◌,
}
use sentinel_api.Event.{Source}

-- What an `any` of the source can hold: nil, a string, an `int` or `int64`, a `float64` (the `int` that
-- it converts to, and how it is printed), a `[]string`, an `[]any`, a `fmt.Stringer`, or something else.
mutual
  pub data Value : Type 0 where
    nil : Value
    string_value : String → Value
    int_value : ℤ → Value
    float_value : ℤ → String → Value
    string_list : List String → Value
    any_list : Values → Value
    stringer : String → Value
    other : String → Value

  pub data Values : Type 0 where
    no_values : Values
    a_value : Value → Values → Values

pub record RawLog : Type 0 where
  pub source : Source
  pub asset : String
  pub fields : Map Value

abbrev trim : String → String
trim s = text (trim_space (chars s))

unfoldable pub as_string : Value → Option String
as_string (string_value s) = some s
as_string (stringer s) = some s
as_string _ = none

-- What one key of `firstStr` finds; nil is passed over.
unfoldable pub field_string : Option Value → Option String
unfolding as_string
field_string none = none
field_string (some v) = as_string v

abbrev or_first : Option String → String → String
or_first none rest = rest
or_first (some s) rest = trim s

unfoldable pub first_str : Map Value → List String → String
unfolding field_string lookup trim_space
first_str f [] = ""
first_str f (k ∷ ks) = or_first (field_string (lookup k f)) (first_str f ks)

unfoldable pub as_int : Option Value → Option ℤ
unfolding trim_space atoi
as_int (some (int_value i)) = some i
as_int (some (float_value i s)) = some i
as_int (some (string_value s)) = atoi (numbers (trim_space (chars s)))
as_int _ = none

abbrev or_int : Option ℤ → ℤ → ℤ
or_int none rest = rest
or_int (some i) rest = i

unfoldable pub first_int : Map Value → List String → ℤ
unfolding as_int lookup
first_int f [] = pos 0
first_int f (k ∷ ks) = or_int (as_int (lookup k f)) (first_int f ks)

unfoldable pub value_strings : Values → List String
unfolding as_string
value_strings no_values = []
value_strings (a_value v vs) = elim (as_string v) [
  | none ↦ value_strings vs
  | some s ↦ s ∷ value_strings vs
]

unfoldable pub split_commas : String → List String
unfolding split_at
split_commas s = let (w, ws) = split_at (is_char b',') (chars s) in map text (w ∷ ws)

unfoldable pub raw_tags : Value → List String
unfolding value_strings split_commas
raw_tags (string_list ts) = ts
raw_tags (any_list vs) = value_strings vs
raw_tags (string_value s) = split_commas s
raw_tags _ = []

abbrev kept_tags : List String → List String
kept_tags [] = []
kept_tags (t ∷ ts) = let rest = kept_tags ts in if is_blank (trim t) then rest else trim t ∷ rest

unfoldable pub to_tags : Value → List String
unfolding raw_tags
to_tags v = kept_tags (raw_tags v)
