-- ===== src/Store/Postgres/RoundTrip.antt =====
-- internal/store/postgres.go: an alert comes back from the row that its insert writes.
use sentinel_api.Base.{
  ℕ, ◌-◌, ◌%◌, String, false, Option, none, some, List, [], ◌∷◌, map, ◌≡◌, refl, Map, is_blank,
}
use sentinel_api.Event.{severity_text, severity_of_text}
use sentinel_api.Alerts.Model.{
  Alert, ExtraValue, text, instant, status_text, status_of_text, resolution_text,
  resolution_of_text,
}
use sentinel_api.Alerts.Store.{ok}
use sentinel_api.Store.Postgres.Sql.{Statement, insert_into, insert_alert, Value}
use sentinel_api.Store.Postgres.Row.{
  Codec, row_args, scan, optional_instant, extra_arg, to_optional, to_bytes, unmarshal,
}
use sentinel_api.Store.Postgres.Documented.{
  Row, Dialect, argument, value_at, stored, inserted, inserted_row,
}

-- Timestamps have microseconds.
abbrev pub cut : ℕ → ℕ
cut t = t - t % 1000

abbrev pub cut_some : Option ℕ → Option ℕ
cut_some none = none
cut_some (some t) = some (cut t)

abbrev pub printed : (ℕ → String) → Map ExtraValue → Map ExtraValue
printed format [] = []
printed format ((k, text s) ∷ m) = (k, text s) ∷ printed format m
printed format ((k, instant t) ∷ m) = (k, text (format t)) ∷ printed format m

-- What the database keeps of an alert.
unfoldable pub kept : (ℕ → String) → Alert → Alert
kept format a = record a {
  started_at = cut a.started_at;
  last_seen_at = cut a.last_seen_at;
  assigned_at = cut_some a.assigned_at;
  status_changed_at = cut_some a.status_changed_at;
  responded_at = cut_some a.responded_at;
  resolved_at = cut_some a.resolved_at;
  created_at = cut a.created_at;
  extra = printed format a.extra;
}

-- The JSON documents of the alert that the server writes back read as what was written, and are not
-- empty; an instant among the extra values is the text that `format` gives.
pub record Lossless (d : Dialect) (codec : Codec) (format : ℕ → String) (a : Alert) : Type 0 where
  pub geo_back : codec.read_geo (d.jsonb (codec.write_geo a.geo)) ≡ a.geo
  pub geo_full : is_blank (d.jsonb (codec.write_geo a.geo)) ≡ false
  pub actions_back : codec.read_actions (d.jsonb (codec.write_actions a.actions)) ≡ a.actions
  pub actions_full : is_blank (d.jsonb (codec.write_actions a.actions)) ≡ false
  pub extra_back : codec.read_extra (d.jsonb (codec.write_extra a.extra)) ≡ printed format a.extra
  pub extra_full : is_blank (d.jsonb (codec.write_extra a.extra)) ≡ false

-- The status, the resolution and the severity are no constants under another constructor.
pub record IsPlain (a : Alert) : Type 0 where
  pub plain_status : status_of_text (status_text a.status) ≡ a.status
  pub plain_resolution : resolution_of_text (resolution_text a.resolution) ≡ a.resolution
  pub plain_severity : severity_of_text (severity_text a.severity) ≡ a.severity

module _ (d : Dialect) (codec : Codec) where
  -- The row that the insert of an alert writes.
  unfoldable pub alert_row : Alert → Row
  alert_row a = map (stored d) (row_args codec a)

  abbrev pub columns_of : Statement → List Value → Row
  columns_of (insert_into cols ns) args = inserted_row d cols ns args
  columns_of _ args = []

  -- The insert gives each column of the table its value, in the order of the table.
  pub insert_alert_lem : (a : Alert) → columns_of insert_alert (row_args codec a) ≡ alert_row a
  unfolding insert_alert alert_row inserted_row inserted argument value_at row_args
  insert_alert_lem a = refl

module _ (d : Dialect) (codec : Codec) where
  optional_lem : (o : Option ℕ) → to_optional (stored d (optional_instant o)) ≡ ok (cut_some o)
  unfolding to_optional stored optional_instant
  optional_lem none = refl
  optional_lem (some t) = refl

  -- The bytes that come back for the extra values.
  extra_bytes : Map ExtraValue → String
  extra_bytes [] = ""
  extra_bytes (e ∷ m) = d.jsonb (codec.write_extra (e ∷ m))

  extra_lem : (m : Map ExtraValue) → to_bytes (stored d (extra_arg codec m)) ≡ ok (extra_bytes m)
  unfolding to_bytes stored extra_arg extra_bytes
  extra_lem [] = refl
  extra_lem (e ∷ m) = refl

  extra_read :
      (format : ℕ → String) (m : Map ExtraValue)
      → codec.read_extra (d.jsonb (codec.write_extra m)) ≡ printed format m
      → is_blank (d.jsonb (codec.write_extra m)) ≡ false
      → unmarshal codec.read_extra [] (extra_bytes m) ≡ printed format m
  unfolding extra_bytes
  extra_read format [] back full = refl
  extra_read format (e ∷ m) back full = rw (full, back) refl

  -- Scanning the row of a plain alert gives the alert back as far as the database keeps it.
  pub scan-alert_row :
      (format : ℕ → String) (a : Alert)
      → IsPlain a
      → Lossless d codec format a
      → scan codec (alert_row d codec a) ≡ ok (kept format a)
  unfolding alert_row scan row_args kept stored
  scan-alert_row format a plain back =
      rw
        (
          optional_lem a.assigned_at,
          optional_lem a.status_changed_at,
          optional_lem a.responded_at,
          optional_lem a.resolved_at,
          extra_lem a.extra,
          extra_read format a.extra back.extra_back back.extra_full,
          plain.plain_status,
          plain.plain_resolution,
          plain.plain_severity,
          back.geo_full,
          back.geo_back,
          back.actions_full,
          back.actions_back,
        )
        refl
