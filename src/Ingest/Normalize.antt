-- ===== src/Ingest/Normalize.antt =====
-- internal/ingest/normalize.go: the normalised event of a raw log entry.
-- The parameters are `fmt.Sprintf` with "%v", the same with "evt-%d-%d" (of the time and the hash), and
-- the resolver's `Lookup`.
pub mod Nginx
use sentinel_api.Base.{
  ℕ, ◌+◌, ◌%◌, String, Bool, true, false, Option, none, some, List, [], ◌∷◌, ℤ, pos, int_eq, Map,
  lookup, length, chars, text, is_blank, any, to_lower, same_text, if◌then◌else◌,
}
use sentinel_api.Event.{Geo, NormalizedEvent}
use sentinel_api.Ingest.Value.{Value, RawLog, first_str, first_int, to_tags}
use sentinel_api.Ingest.Tail.{RequestLine, parse_request_line}

-- The first of the keys that is there gives the tags.
unfoldable pub event_tags : Map Value → List String → List String
unfolding lookup to_tags
event_tags f [] = []
event_tags f (k ∷ ks) = elim (lookup k f) [ none ↦ event_tags f ks | some v ↦ to_tags v ]

abbrev pub known_keys : List String
known_keys =
    "ip" ∷ "src_ip" ∷ "client_ip" ∷ "remote_addr" ∷ "host" ∷ "port" ∷ "src_port" ∷ "remote_port"
    ∷ "request" ∷ "request_line" ∷ "req" ∷ "method" ∷ "verb" ∷ "path" ∷ "uri" ∷ "endpoint" ∷ "url"
    ∷ "status" ∷ "status_code" ∷ "response" ∷ "code" ∷ "sc_status" ∷ "size" ∷ "bytes"
    ∷ "body_bytes_sent" ∷ "user_agent" ∷ "ua" ∷ "agent" ∷ "referer" ∷ "referrer" ∷ "user"
    ∷ "username" ∷ "account" ∷ "message" ∷ "msg" ∷ "tags" ∷ "tag" ∷ "labels" ∷ "timestamp" ∷ "ts"
    ∷ "time" ∷ []

unfoldable pub is_known_key : String → Bool
unfolding same_text
is_known_key k = any (λ n. same_text (to_lower n) (to_lower k)) known_keys

abbrev or_blank : String → String → String
or_blank s t = if is_blank s then t else s

abbrev or_zero : ℤ → ℤ → ℤ
or_zero i j = if int_eq i (pos 0) then j else i

module _ (print : Value → String) where
  unfoldable pub sum_fields : Map Value → ℕ
  sum_fields [] = 0
  sum_fields ((k, v) ∷ f) = length (chars k) + length (chars (print v)) + sum_fields f

  unfoldable pub hash_fields : Map Value → ℕ
  unfolding sum_fields
  hash_fields f = sum_fields f % 99999

  unfoldable pub extra_fields : Map Value → Map String
  unfolding is_known_key
  extra_fields [] = []
  extra_fields ((k, v) ∷ f) =
      let rest = extra_fields f in if is_known_key k then rest else (k, print v) ∷ rest

  module _ (event_id : ℕ → ℕ → String) (geo_of : String → Option Geo) where
    unfoldable pub normalize : RawLog → ℕ → NormalizedEvent
    unfolding hash_fields extra_fields event_tags first_str first_int parse_request_line
    normalize raw ts =
        let f = raw.fields in
        let ip = first_str f ("ip" ∷ "src_ip" ∷ "client_ip" ∷ "remote_addr" ∷ "host" ∷ []) in
        let r =
          parse_request_line (chars (first_str f ("request" ∷ "request_line" ∷ "req" ∷ []))) in
        let no_line = is_blank (text r.method) in
        record {
          id = event_id ts (hash_fields f);
          timestamp = ts;
          source = raw.source;
          asset = raw.asset;
          src_ip = ip;
          src_port = first_int f ("port" ∷ "src_port" ∷ "remote_port" ∷ []);
          method = if no_line then first_str f ("method" ∷ "verb" ∷ []) else text r.method;
          path =
              or_blank
                (if no_line
                  then first_str f ("path" ∷ "uri" ∷ "endpoint" ∷ "url" ∷ [])
                  else text r.path)
                "/";
          status =
              or_zero (first_int f ("status" ∷ "status_code" ∷ "response" ∷ "code" ∷ []))
                (first_int f ("sc_status" ∷ []));
          size = first_int f ("size" ∷ "bytes" ∷ "body_bytes_sent" ∷ []);
          proto = if no_line then "" else text r.proto;
          user_agent = first_str f ("user_agent" ∷ "ua" ∷ "agent" ∷ []);
          referer = first_str f ("referer" ∷ "referrer" ∷ []);
          user = first_str f ("user" ∷ "username" ∷ "account" ∷ []);
          message = first_str f ("message" ∷ "msg" ∷ []);
          tags = event_tags f ("tags" ∷ "tag" ∷ "labels" ∷ []);
          geo = if is_blank ip then none else geo_of ip;
          extra = extra_fields f;
        }
