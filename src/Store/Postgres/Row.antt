-- ===== src/Store/Postgres/Row.antt =====
-- internal/store/postgres.go: `rowArgs` and `scan`, between an alert and the values of a row.
-- encoding/json is a parameter: what Marshal writes, and what Unmarshal leaves in the field.
use sentinel_api.Base.{
  ℕ, String, Option, none, some, List, [], ◌∷◌, pos, Map, is_blank, if◌then◌else◌,
}
use sentinel_api.Event.{Geo, severity_text, severity_of_text}
use sentinel_api.Alerts.Model.{
  Alert, ActionLog, ExtraValue, status_text, status_of_text, resolution_text, resolution_of_text,
}
use sentinel_api.Alerts.Store.{Result, ok, err, backend, ◌>>=◌}
use sentinel_api.Store.Postgres.Sql.{
  Value, null, text_value, number, double, text_array, json, instant_value,
}

pub record Codec : Type 0 where
  pub write_geo : Option Geo → String
  pub read_geo : String → Option Geo
  pub write_actions : List ActionLog → String
  pub read_actions : String → List ActionLog
  pub write_extra : Map ExtraValue → String
  pub read_extra : String → Map ExtraValue

unfoldable pub optional_instant : Option ℕ → Value
optional_instant none = null
optional_instant (some t) = instant_value t

-- The arguments in the order of `rowArgs`. `extra` is nil exactly if it is empty: the service only
-- makes the map to write into it.
unfoldable pub extra_arg : Codec → Map ExtraValue → Value
extra_arg codec [] = null
extra_arg codec (e ∷ m) = json (codec.write_extra (e ∷ m))

unfoldable pub row_args : Codec → Alert → List Value
unfolding optional_instant extra_arg
row_args codec a =
    text_value a.id
    ∷ text_value a.rule_id
    ∷ text_value a.rule_key
    ∷ text_value a.title
    ∷ text_value (severity_text a.severity)
    ∷ text_value (status_text a.status)
    ∷ double a.confidence
    ∷ text_array a.mitre
    ∷ text_value a.description
    ∷ text_value a.asset
    ∷ text_value a.src_ip
    ∷ json (codec.write_geo a.geo)
    ∷ number (pos a.count)
    ∷ number (pos a.blocked_count)
    ∷ number (pos a.unique_paths)
    ∷ number (pos a.distinct_assets)
    ∷ text_array a.event_ids
    ∷ instant_value a.started_at
    ∷ instant_value a.last_seen_at
    ∷ text_value a.assignee
    ∷ optional_instant a.assigned_at
    ∷ optional_instant a.status_changed_at
    ∷ optional_instant a.responded_at
    ∷ optional_instant a.resolved_at
    ∷ text_value (resolution_text a.resolution)
    ∷ json (codec.write_actions a.actions)
    ∷ extra_arg codec a.extra
    ∷ instant_value a.created_at
    ∷ []

-- A destination that cannot take the value of its column is an error of the driver.
abbrev mismatch {ℓ} : {A : Type ℓ} → Result A
mismatch = err (backend "scan alert")

abbrev to_text : Value → Result String
to_text (text_value s) = ok s
to_text _ = mismatch

abbrev to_number : Value → Result ℕ
to_number (number (pos n)) = ok n
to_number _ = mismatch

abbrev to_double : Value → Result ℕ
to_double (double n) = ok n
to_double _ = mismatch

abbrev to_texts : Value → Result (List String)
to_texts (text_array l) = ok l
to_texts _ = mismatch

abbrev to_instant : Value → Result ℕ
to_instant (instant_value t) = ok t
to_instant _ = mismatch

unfoldable pub to_optional : Value → Result (Option ℕ)
to_optional null = ok none
to_optional (instant_value t) = ok (some t)
to_optional _ = mismatch

-- A nil slice is the empty text.
unfoldable pub to_bytes : Value → Result String
to_bytes null = ok ""
to_bytes (json s) = ok s
to_bytes _ = mismatch

-- `if len(raw) > 0 { json.Unmarshal(raw, &field) }`, the error dropped.
abbrev pub unmarshal {ℓ} : {A : Type ℓ} → (String → A) → A → String → A
unmarshal read initial s = if is_blank s then initial else read s

-- The next column of a row.
abbrev column {ℓ} : {A : Type ℓ} → (Value → Result A) → List Value → Result (A × List Value)
column dest [] = mismatch
column dest (v ∷ vs) = dest v >>= λ x. ok (x, vs)

-- More columns than destinations are an error.
abbrev if_no_more {ℓ} : {A : Type ℓ} → List Value → A → Result A
if_no_more [] x = ok x
if_no_more (v ∷ vs) x = mismatch

unfoldable pub scan : Codec → List Value → Result Alert
unfolding status_of_text resolution_of_text severity_of_text to_optional to_bytes
scan codec vs = do
  (id, vs) ← column to_text vs
  (rule_id, vs) ← column to_text vs
  (rule_key, vs) ← column to_text vs
  (title, vs) ← column to_text vs
  (severity, vs) ← column to_text vs
  (status, vs) ← column to_text vs
  (confidence, vs) ← column to_double vs
  (mitre, vs) ← column to_texts vs
  (description, vs) ← column to_text vs
  (asset, vs) ← column to_text vs
  (src_ip, vs) ← column to_text vs
  (geo_raw, vs) ← column to_bytes vs
  (count, vs) ← column to_number vs
  (blocked_count, vs) ← column to_number vs
  (unique_paths, vs) ← column to_number vs
  (distinct_assets, vs) ← column to_number vs
  (event_ids, vs) ← column to_texts vs
  (started_at, vs) ← column to_instant vs
  (last_seen_at, vs) ← column to_instant vs
  (assignee, vs) ← column to_text vs
  (assigned_at, vs) ← column to_optional vs
  (status_changed_at, vs) ← column to_optional vs
  (responded_at, vs) ← column to_optional vs
  (resolved_at, vs) ← column to_optional vs
  (resolution, vs) ← column to_text vs
  (actions_raw, vs) ← column to_bytes vs
  (extra_raw, vs) ← column to_bytes vs
  (created_at, vs) ← column to_instant vs
  if_no_more vs record {
    id = id;
    rule_id = rule_id;
    rule_key = rule_key;
    title = title;
    severity = severity_of_text severity;
    status = status_of_text status;
    confidence = confidence;
    mitre = mitre;
    description = description;
    asset = asset;
    src_ip = src_ip;
    geo = unmarshal codec.read_geo none geo_raw;
    count = count;
    blocked_count = blocked_count;
    unique_paths = unique_paths;
    distinct_assets = distinct_assets;
    event_ids = event_ids;
    started_at = started_at;
    last_seen_at = last_seen_at;
    assignee = assignee;
    assigned_at = assigned_at;
    status_changed_at = status_changed_at;
    responded_at = responded_at;
    resolved_at = resolved_at;
    resolution = resolution_of_text resolution;
    actions = unmarshal codec.read_actions [] actions_raw;
    extra = unmarshal codec.read_extra [] extra_raw;
    created_at = created_at;
  }
