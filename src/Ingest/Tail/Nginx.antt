-- ===== src/Ingest/Tail/Nginx.antt =====
-- internal/ingest/tail.go: what `parseLine` makes of a line in nginx's combined format.
use mathlib.Core.List.{append_assoc}
use sentinel_api.Base.{
  Map, ◌≤◌, ◌<◌, String, true, false, some, [], ◌∷◌, ◌++◌, ◌≡◌, refl, sym, ◌∙◌, ap, arith, length,
  ltb, leb, ◌==◌, Str, chars, is_char, is_space, trim_right, trim_space, fields, Free, IsTrimmed,
  append-IsTrimmed, trim_space-append, All-append,
}
use sentinel_api.Event.{nginx}
use sentinel_api.Ingest.Value.{Value}
use sentinel_api.Ingest.Tail.{
  parsed, first_of, field, from_quote, parse_request_line, add_request, parse_nginx_combined,
  parse_line,
}
use sentinel_api.Ingest.Tail.Opening.{
  quoted, quoted_token-quoted, quoted_token-spaced, quote_after, first_of-status, opening, ip_of,
  has_quote, rest_of, dash, to_bracket, bracket, after_bracket,
}

-- The parts of a line, and the line.
pub record Combined : Type 0 where
  pub ip : Str
  pub time : Str
  pub request : Str
  pub status : Str
  pub size : Str
  pub referer : Str
  pub ua : Str

after_status : Combined → Str
after_status l = l.size ++ (" " ∷ quoted l.referer (" " ∷ quoted l.ua []))

-- What each part may hold: the address and the status are words, and no part holds the character that
-- ends it.
pub record IsCombined (l : Combined) : Type 0 where
  pub ip_given : 0 < length l.ip
  pub ip_short : length l.ip ≤ 45
  pub ip_word : Free is_space l.ip
  pub time_end : Free (is_char b']') l.time
  pub request_end : Free (is_char b'"') l.request
  pub status_given : 0 < length l.status
  pub status_word : Free is_space l.status
  pub status_end : Free (is_char b'"') l.status
  pub size_end : Free (is_char b'"') l.size
  pub referer_end : Free (is_char b'"') l.referer
  pub ua_end : Free (is_char b'"') l.ua

-- The part of the line between the request and the referer.
middle : Combined → Str
middle l = " " ∷ l.status ++ (" " ∷ l.size ++ " " ∷ [])

after_request : Combined → Str
unfolding after_status
after_request l = " " ∷ l.status ++ (" " ∷ after_status l)

unfoldable pub log_line : Combined → Str
unfolding opening after_request
log_line l = opening l.ip l.time (quoted l.request (after_request l))

-- The fields that the line's parts make.
unfoldable pub combined_fields : Combined → Map Value
combined_fields l = add_request (parse_request_line l.request) (
    ("ip", field l.ip)
    ∷ ("request", field l.request)
    ∷ ("status", field l.status)
    ∷ ("referer", field l.referer)
    ∷ ("user_agent", field l.ua)
    ∷ [])

after_request_lem :
    (l : Combined) → after_request l ≡ middle l ++ quoted l.referer (" " ∷ quoted l.ua [])
unfolding after_request middle after_status
after_request_lem l =
    let q = quoted l.referer (" " ∷ quoted l.ua []) in
    sym (
      ap (◌∷◌ " ") (
        append_assoc l.status (" " ∷ l.size ++ " " ∷ []) q
        ∙ ap (λ s. l.status ++ (" " ∷ s)) (append_assoc l.size (" " ∷ []) q)))

parse_tail :
    (l : Combined)
    → IsCombined l
    → from_quote (after_request l) ≡ quoted l.referer (" " ∷ quoted l.ua [])
unfolding middle
parse_tail l v = rw (after_request_lem l) (
    quote_after (middle l) _ (
      refl,
      All-append _ l.status _ v.status_end (refl, All-append _ l.size _ v.size_end (refl, tt)),
    ))

status_of : (l : Combined) → IsCombined l → first_of (fields (after_request l)) ≡ some l.status
unfolding after_request
status_of l v = first_of-status l.status (after_status l) v.status_word v.status_given

parse_nginx_combined-opening :
    (l : Combined)
    → IsCombined l
    → parse_nginx_combined (opening l.ip l.time (quoted l.request (after_request l)))
      ≡ parsed (combined_fields l)
unfolding parse_nginx_combined combined_fields
parse_nginx_combined-opening l v =
    let given : ltb 0 (length l.ip) ≡ true = ground arith in
    let short : leb (length l.ip) 45 ≡ true = ground arith in
    let t = quoted l.request (after_request l) in
    rw (
      ip_of l.ip l.time t v.ip_word,
      given,
      short,
      has_quote l.ip l.time t refl,
      rest_of l.ip l.time t,
      dash l.ip l.time t,
      to_bracket l.ip l.time t,
      bracket l.ip l.time t v.time_end,
      after_bracket l.ip l.time t,
      quoted_token-quoted l.request (after_request l) v.request_end,
      status_of l v,
      parse_tail l v,
      quoted_token-quoted l.referer (" " ∷ quoted l.ua []) v.referer_end,
      quoted_token-spaced l.ua [] v.ua_end,
    )

parse_nginx_combined-log_line :
    (l : Combined) → IsCombined l → parse_nginx_combined (log_line l) ≡ parsed (combined_fields l)
unfolding log_line
parse_nginx_combined-log_line l v = parse_nginx_combined-opening l v

log_line-IsTrimmed : (l : Combined) → IsTrimmed (log_line l)
unfolding log_line opening after_request after_status trim_right is_space
log_line-IsTrimmed l = append-IsTrimmed l.ip _ (
    append-IsTrimmed (chars " - - [") _ (
      append-IsTrimmed l.time _ (
        append-IsTrimmed (chars "] \"") _ (
          append-IsTrimmed l.request _ (
            append-IsTrimmed (chars "\" ") _ (
              append-IsTrimmed l.status _ (
                append-IsTrimmed (chars " ") _ (
                  append-IsTrimmed l.size _ (
                    append-IsTrimmed (chars " \"") _ (
                      append-IsTrimmed l.referer _ (
                        append-IsTrimmed (chars "\" \"") _
                          (append-IsTrimmed l.ua _ (omega arith, refl)))))))))))))

trim_space-log_line : (l : Combined) → IsCombined l → trim_space (log_line l) ≡ log_line l
unfolding log_line opening
trim_space-log_line l v = trim_space-append l.ip _ v.ip_given v.ip_word (log_line-IsTrimmed l)

log_line-given : (l : Combined) → (length (log_line l) == 0) ≡ false
log_line-given l = ground (arith, log_line-IsTrimmed l)

-- A line in nginx's combined format, whose request, referer and user agent hold no quote, parses to
-- an entry of nginx with the parts of the line as its fields.
pub parse_line-log_line :
    (l : Combined) (asset : String)
    → IsCombined l
    → parse_line (log_line l) asset
      ≡ parsed (record { source = nginx; asset = asset; fields = combined_fields l })
unfolding parse_line
parse_line-log_line l asset v =
    rw (trim_space-log_line l v, log_line-given l, parse_nginx_combined-log_line l v)
