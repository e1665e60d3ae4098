-- ===== src/Ingest/Tail/Opening.antt =====
-- internal/ingest/tail.go `parseNginxCombined`: what it does up to the end of the time, on a line that
-- starts with an address and a time in brackets.
use sentinel_api.Base.{
  suc, ◌+◌, ◌<◌, true, false, some, List, [], ◌∷◌, ◌++◌, ◌≡◌, refl, ap, arith, length, drop, any,
  Str, Char, chars, is_char, is_space, trim_left, index_of, fields, add_word, split_at, slice_from,
  take-append, drop-append, drop-append_more, any-append, Free, index_of-append, split_at-append,
  fields-word, slice_from-append, All-map,
}
use sentinel_api.Ingest.Tail.{parsed, first_of, quoted_token, starts_dash, from_quote}

-- A token between quotes.
abbrev pub quoted : Str → Str → Str
quoted s rest = "\"" ∷ s ++ "\"" ∷ rest

pub quoted_token-quoted :
    (s rest : Str) → Free (is_char b'"') s → quoted_token (quoted s rest) ≡ parsed (s, rest)
unfolding quoted_token trim_left
quoted_token-quoted s rest h = rw (
  index_of-append (is_char b'"') s "\"" rest h refl,
  take-append s ("\"" ∷ rest),
  drop-append_more 1 s ("\"" ∷ rest),
)

pub quoted_token-spaced :
    (s rest : Str) → Free (is_char b'"') s → quoted_token (" " ∷ quoted s rest) ≡ parsed (s, rest)
unfolding quoted_token trim_left
quoted_token-spaced s rest h = quoted_token-quoted s rest h

pub quote_after :
    (w : Str) (r : Str) → Free (is_char b'"') w → from_quote (w ++ "\"" ∷ r) ≡ "\"" ∷ r
unfolding from_quote
quote_after w r h =
    rw (from_quote, index_of-append (is_char b'"') w "\"" r h refl) (drop-append w ("\"" ∷ r))

first_of-add_word : (w : Str) (ws : List Str) → 0 < length w → first_of (add_word w ws) ≡ some w
first_of-add_word [] ws h = absurd (omega arith)
first_of-add_word (c ∷ w) ws h = refl

pub first_of-status :
    (w r : Str) → Free is_space w → 0 < length w → first_of (fields (" " ∷ w ++ " " ∷ r)) ≡ some w
unfolding is_space
first_of-status w r h k =
    rw (fields-word [] " " (w ++ " " ∷ r) tt refl, fields-word w " " r h refl)
      (first_of-add_word w (fields r) k)

pub no_blank : (c : Char) → is_space c ≡ false → is_char b' ' c ≡ false
unfolding is_space
no_blank c h = ground arith

-- What follows the address and a space.
unfoldable pub after_ip : Str → Str → Str
after_ip time t = chars "- - [" ++ (time ++ "]" ∷ " " ∷ t)

-- A line up to the time, and what follows it.
unfoldable pub opening : Str → Str → Str → Str
unfolding after_ip
opening ip time t = ip ++ " " ∷ after_ip time t

module _ (ip time t : Str) where
  pub ip_of : Free is_space ip → (split_at (is_char b' ') (opening ip time t)).0 ≡ ip
  unfolding opening
  ip_of h = split_at-append (is_char b' ') ip " " (after_ip time t) (All-map no_blank ip h) refl

  pub has_quote : any (is_char b'"') t ≡ true → any (is_char b'"') (opening ip time t) ≡ true
  unfolding opening after_ip
  has_quote h = any-append _ ip _ (any-append (is_char b'"') time ("]" ∷ " " ∷ t) (rw h))

  pub rest_of : slice_from (length ip + 1) (opening ip time t) ≡ some (after_ip time t)
  unfolding opening
  rest_of = slice_from-append 1 ip (" " ∷ after_ip time t) (omega arith)

  pub dash : starts_dash (after_ip time t) ≡ true
  unfolding after_ip
  dash = refl

  pub to_bracket : index_of (is_char b'[') (drop 2 (after_ip time t)) ≡ some 2
  unfolding index_of after_ip
  to_bracket = refl

  pub bracket :
      Free (is_char b']') time
      → index_of (is_char b']') (drop 2 (drop 2 (after_ip time t))) ≡ some (suc (length time))
  unfolding index_of after_ip
  bracket h = rw (index_of-append (is_char b']') time "]" (" " ∷ t) h refl) (ap some (omega arith))

  pub after_bracket :
      slice_from (suc (length time) + 2) (drop 2 (drop 2 (after_ip time t))) ≡ some t
  unfolding after_ip
  after_bracket = slice_from-append 2 ("[" ∷ time) ("]" ∷ " " ∷ t) (omega arith)
