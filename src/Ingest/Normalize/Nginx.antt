-- ===== src/Ingest/Normalize/Nginx.antt =====
-- internal/ingest: from a line in nginx's combined format to the event that the pipeline gets.
use sentinel_api.Base.{
  ℕ, suc, ◌≤◌, ◌<◌, String, true, false, Option, some, List, [], ◌∷◌, ◌++◌, ◌≡◌, refl, sym, ◌∙◌, ap,
  arith, length, leb, ◌==◌, Str, chars, text, is_space, chars-text, lookup, insert, Map, trim_space,
  fields, add_word, if◌then◌else◌, pos, atoi, numbers, is_blank, Bool-cases, inl, inr, str_eq_iff,
  zero, Free, append-IsTrimmed, trim_space-Free, trim_space-append, trim_right-Free, fields-word,
  fields-Free,
}
use sentinel_api.Event.{nginx, Geo, NormalizedEvent}
use sentinel_api.Ingest.Value.{Value, RawLog, first_str, first_int, as_int, field_string, as_string}
use sentinel_api.Ingest.Tail.{
  parsed, parse_line, RequestLine, parse_request_line, request_parts, is_upper, field, add_request,
}
use sentinel_api.Ingest.Tail.Nginx.{
  Combined, IsCombined, combined_fields, log_line, parse_line-log_line,
}
use sentinel_api.Ingest.Normalize.{normalize, extra_fields, hash_fields, event_tags}

-- A request line: a method, a path and a protocol.
abbrev pub request_text : RequestLine → Str
request_text r = r.method ++ " " ∷ (r.path ++ " " ∷ r.proto)

pub record IsRequest (r : RequestLine) : Type 0 where
  pub method_upper : is_upper r.method ≡ true
  pub method_short : length r.method ≤ 8
  pub method_word : Free is_space r.method
  pub path_given : 0 < length r.path
  pub path_word : Free is_space r.path
  pub proto_given : 0 < length r.proto
  pub proto_word : Free is_space r.proto

is_upper-given : (s : Str) → is_upper s ≡ true → 0 < length s
unfolding is_upper
is_upper-given s h = ground arith

request_text-trim : (r : RequestLine) → IsRequest r → trim_space (request_text r) ≡ request_text r
request_text-trim r v =
    trim_space-append r.method _ (is_upper-given r.method v.method_upper) v.method_word (
      append-IsTrimmed r.method _ (
        append-IsTrimmed (chars " ") _ (
          append-IsTrimmed r.path _ (
            append-IsTrimmed (chars " ") _
              (v.proto_given, trim_right-Free is_space r.proto v.proto_word)))))

add_word-given : (w : Str) (ws : List Str) → 0 < length w → add_word w ws ≡ w ∷ ws
add_word-given [] ws h = absurd (omega arith)
add_word-given (c ∷ w) ws h = refl

fields-request_text :
    (r : RequestLine) → IsRequest r → fields (request_text r) ≡ r.method ∷ r.path ∷ r.proto ∷ []
unfolding is_space
fields-request_text r v = rw (
  fields-word r.method " " (r.path ++ " " ∷ r.proto) v.method_word refl,
  fields-word r.path " " r.proto v.path_word refl,
  fields-Free r.proto v.proto_word,
  add_word-given r.proto [] v.proto_given,
  add_word-given r.path (r.proto ∷ []) v.path_given,
  add_word-given r.method (r.path ∷ r.proto ∷ []) (is_upper-given r.method v.method_upper),
)

-- A request line parses to its parts.
pub parse_request_line-request_text :
    (r : RequestLine) → IsRequest r → parse_request_line (request_text r) ≡ r
unfolding parse_request_line request_parts
parse_request_line-request_text r v =
    let short : leb (length r.method) 8 ≡ true = ground arith in
    rw (request_text-trim r v, fields-request_text r v, short, v.method_upper)

is_blank-text : (s : Str) → 0 < length s → is_blank (text s) ≡ false
is_blank-text s h = elim (Bool-cases (is_blank (text s))) [
  | inl blank ↦
      let empty : s ≡ [] = sym (chars-text s) ∙ ap chars ((str_eq_iff (text s) "").0 blank) in
      absurd (omega (arith, ap length empty, h))
  | inr e ↦ e
]

zero_status : (n : ℕ) → (if n == 0 then pos 0 else pos n) ≡ pos n
zero_status zero = refl
zero_status (suc n) = ground arith

-- The fields of a line with a request line.
abbrev pub request_fields : Combined → RequestLine → Map Value
request_fields l r =
    ("ip", field l.ip)
    ∷ ("request", field l.request)
    ∷ ("status", field l.status)
    ∷ ("referer", field l.referer)
    ∷ ("user_agent", field l.ua)
    ∷ ("method", field r.method)
    ∷ ("path", field r.path)
    ∷ ("proto", field r.proto)
    ∷ []

combined_fields-request :
    (l : Combined) (r : RequestLine)
    → l.request ≡ request_text r
    → IsRequest r
    → combined_fields l ≡ request_fields l r
unfolding combined_fields add_request insert
combined_fields-request l r e v =
    let parses : parse_request_line l.request ≡ r = rw e (parse_request_line-request_text r v) in
    rw (
      parses,
      is_blank-text r.method (is_upper-given r.method v.method_upper),
      is_blank-text r.proto v.proto_given,
    )

module _ (print : Value → String) (event_id : ℕ → ℕ → String) (geo_of : String → Option Geo) where
  abbrev pub line_event : Combined → RequestLine → ℕ → String → ℕ → NormalizedEvent
  line_event l r n asset ts = record {
    id = event_id ts (hash_fields print (request_fields l r));
    timestamp = ts;
    source = nginx;
    asset = asset;
    src_ip = text l.ip;
    src_port = pos 0;
    method = text r.method;
    path = text r.path;
    status = pos n;
    size = pos 0;
    proto = text r.proto;
    user_agent = text (trim_space l.ua);
    referer = text (trim_space l.referer);
    user = "";
    message = "";
    tags = [];
    geo = geo_of (text l.ip);
    extra = ("proto", print (field r.proto)) ∷ [];
  }

  normalize-request_fields :
      (l : Combined) (r : RequestLine) (n : ℕ) (asset : String) (ts : ℕ)
      → l.request ≡ request_text r
      → IsRequest r
      → IsCombined l
      → atoi (numbers l.status) ≡ some (pos n)
      → normalize print event_id geo_of
          (record { source = nginx; asset = asset; fields = request_fields l r })
          ts
        ≡ line_event l r n asset ts
  unfolding normalize first_str first_int as_int field_string as_string lookup event_tags
      extra_fields
  normalize-request_fields l r n asset ts e v w status =
      let req : trim_space l.request ≡ request_text r = rw e (request_text-trim r v) in
      rw (
        chars-text l.ip,
        chars-text l.status,
        chars-text l.ua,
        chars-text l.referer,
        chars-text l.request,
        req,
        chars-text (request_text r),
        trim_space-Free l.ip w.ip_word,
        trim_space-Free l.status w.status_word,
        parse_request_line-request_text r v,
        status,
        is_blank-text r.method (is_upper-given r.method v.method_upper),
        is_blank-text r.path v.path_given,
        is_blank-text l.ip w.ip_given,
        zero_status n,
      )

-- A line in nginx's combined format, whose address is a word of at most 45 characters and whose parts
-- do not hold the character that ends them, with a request line of a method, a path and a protocol and
-- a number for its status, becomes an event of nginx with exactly these: its source address, method,
-- path, protocol and status are those of the line, its referer and user agent too up to outer spaces,
-- and it has no tags, no user and no message. Its protocol is also its one extra field.
pub normalize-log_line :
    (print : Value → String) (event_id : ℕ → ℕ → String) (geo_of : String → Option Geo)
    (l : Combined) (r : RequestLine) (n : ℕ) (asset : String) (ts : ℕ)
    → l.request ≡ request_text r
    → IsRequest r
    → IsCombined l
    → atoi (numbers l.status) ≡ some (pos n)
    → (raw : RawLog) × (parse_line (log_line l) asset ≡ parsed raw)
      × (normalize print event_id geo_of raw ts ≡ line_event print event_id geo_of l r n asset ts)
normalize-log_line print event_id geo_of l r n asset ts e v w status = (
  record { source = nginx; asset = asset; fields = combined_fields l },
  parse_line-log_line l asset w,
  ap
        (λ f.
          normalize print event_id geo_of (record { source = nginx; asset = asset; fields = f }) ts)
        (combined_fields-request l r e v)
      ∙ normalize-request_fields print event_id geo_of l r n asset ts e v w status,
)
