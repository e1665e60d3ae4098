-- ===== src/Detect/Rule.antt =====
-- internal/detect/rules.go: the `Rule` and `Outcome` types and the methods of `Rule`.
use sentinel_api.Base.{ℕ, String, Bool, Option, none, some, List, ltb, length, if◌then◌else◌}
use sentinel_api.Event.{NormalizedEvent, Severity}

pub record Outcome : Type 0 where
  pub count : ℕ
  pub blocked : ℕ
  pub unique_paths : ℕ
  pub distinct_assets : ℕ
  pub message : String

-- The confidence is in hundredths, and the window in nanoseconds. `(Outcome, bool)` is an option.
pub record Rule : Type 0 where
  pub id : String
  pub name : String
  pub severity : Severity
  pub mitre : List String
  pub confidence : ℕ
  pub description : String
  pub window : ℕ
  pub threshold : ℕ
  pub key_fn : Option (NormalizedEvent → String)
  pub match_fn : NormalizedEvent → Bool
  pub alert_fn : List NormalizedEvent → Option Outcome

abbrev key_or : Option (NormalizedEvent → String) → NormalizedEvent → String
key_or none ev = ""
key_or (some f) ev = f ev

unfoldable pub key : Rule → NormalizedEvent → String
key r ev = key_or r.key_fn ev

unfoldable pub matches : Rule → NormalizedEvent → Bool
matches r ev = r.match_fn ev

unfoldable pub should_alert : Rule → List NormalizedEvent → Option Outcome
should_alert r evs = if ltb (length evs) r.threshold then none else r.alert_fn evs
