-- ===== src/Ingest/Tail/Panics.antt =====
-- internal/ingest/tail.go: lines that end the process.
use sentinel_api.Base.{
  ◌+◌, ◌≤◌, ◌<◌, String, true, false, [], ◌≡◌, refl, arith, length, ltb, leb, ◌==◌, any, Str, chars,
  is_char, is_space, trim_right, trim_space, fields, words, Free, IsTrimmed, append-IsTrimmed,
  trim_space-Free, trim_space-append, split_at-Free, All-map,
}
use sentinel_api.Ingest.Tail.{panics, parse_nginx_combined, parse_line}
use sentinel_api.Ingest.Tail.Opening.{
  quoted, quoted_token-quoted, no_blank, opening, ip_of, has_quote, rest_of, dash, to_bracket,
  bracket, after_bracket,
}

-- A line that is one word of at most 45 characters with a quote in it panics: there is nothing after
-- the word that is taken for the address, and the slice starts past the end.
pub parse_line-word :
    (w : Str) (asset : String)
    → Free is_space w
    → 0 < length w
    → length w ≤ 45
    → any (is_char b'"') w ≡ true
    → parse_line w asset ≡ panics
unfolding parse_line parse_nginx_combined
parse_line-word w asset h g k q =
    let given : ltb 0 (length w) ≡ true = ground arith in
    let full : (length w == 0) ≡ false = ground arith in
    let short : leb (length w) 45 ≡ true = ground arith in
    let past : leb (length w + 1) (length w) ≡ false = ground arith in
    rw (
      trim_space-Free w h,
      full,
      split_at-Free (is_char b' ') w (All-map no_blank w h),
      given,
      short,
      q,
      past,
    )

-- A line of nginx's combined format that is cut off after its request.
unfoldable pub cut_line : Str → Str → Str → Str
unfolding opening
cut_line ip time request = opening ip time (quoted request [])

cut_line-IsTrimmed : (ip time request : Str) → IsTrimmed (cut_line ip time request)
unfolding cut_line opening trim_right is_space
cut_line-IsTrimmed ip time request = append-IsTrimmed ip _ (
    append-IsTrimmed (chars " - - [") _ (
      append-IsTrimmed time _
        (append-IsTrimmed (chars "] \"") _ (append-IsTrimmed request _ (omega arith, refl)))))

trim_space-cut_line :
    (ip time request : Str)
    → 0 < length ip
    → Free is_space ip
    → trim_space (cut_line ip time request) ≡ cut_line ip time request
unfolding cut_line opening
trim_space-cut_line ip time request g h =
    trim_space-append ip _ g h (cut_line-IsTrimmed ip time request)

parse_nginx_combined-cut :
    (ip time request : Str)
    → Free is_space ip
    → 0 < length ip
    → length ip ≤ 45
    → Free (is_char b']') time
    → Free (is_char b'"') request
    → parse_nginx_combined (opening ip time (quoted request [])) ≡ panics
unfolding parse_nginx_combined fields words
parse_nginx_combined-cut ip time request h g k end token =
    let given : ltb 0 (length ip) ≡ true = ground arith in
    let short : leb (length ip) 45 ≡ true = ground arith in
    let t = quoted request [] in
    rw (
      ip_of ip time t h,
      given,
      short,
      has_quote ip time t refl,
      rest_of ip time t,
      dash ip time t,
      to_bracket ip time t,
      bracket ip time t end,
      after_bracket ip time t,
      quoted_token-quoted request [] token,
    )

cut :
    (ip time request : Str)
    → Free is_space ip
    → 0 < length ip
    → length ip ≤ 45
    → Free (is_char b']') time
    → Free (is_char b'"') request
    → parse_nginx_combined (cut_line ip time request) ≡ panics
unfolding cut_line
cut ip time request = parse_nginx_combined-cut ip time request

-- A line in nginx's combined format that is cut off after its request panics, whatever its address, a
-- word of at most 45 characters, its time, without a bracket, and its request, without a quote: there
-- is no word after the request to take for the status.
pub parse_line-cut_line :
    (ip time request : Str) (asset : String)
    → Free is_space ip
    → 0 < length ip
    → length ip ≤ 45
    → Free (is_char b']') time
    → Free (is_char b'"') request
    → parse_line (cut_line ip time request) asset ≡ panics
unfolding parse_line
parse_line-cut_line ip time request asset h g k end token =
    let full : (length (cut_line ip time request) == 0) ≡ false =
      ground (arith, cut_line-IsTrimmed ip time request) in
    rw (trim_space-cut_line ip time request g h, full, cut ip time request h g k end token)
