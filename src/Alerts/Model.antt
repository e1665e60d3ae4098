-- ===== src/Alerts/Model.antt =====
-- internal/alerts/model.go: alerts, their status, and the record of actions on them.
-- A status or an action that comes from a request may be any text: `of_text` gives the constructor
-- of a known one, and `custom` holds only the others.
use sentinel_api.Base.{
  ℕ, String, Bool, true, false, ◌&&◌, Option, none, some, List, ℤ, sub_ℕ, str_eq, is_blank, Map,
  if◌then◌else◌,
}
use sentinel_api.Event.{Geo, Severity}

pub data Status : Type 0 where
  open_ assigned in_progress resolved : Status
  custom : String → Status

abbrev pub status_text : Status → String
status_text open_ = "OPEN"
status_text assigned = "ASSIGNED"
status_text in_progress = "IN_PROGRESS"
status_text resolved = "RESOLVED"
status_text (custom s) = s

unfoldable pub status_of_text : String → Status
status_of_text s =
    if str_eq s "OPEN"
    then open_
    else if str_eq s "ASSIGNED"
    then assigned
    else if str_eq s "IN_PROGRESS"
    then in_progress
    else if str_eq s "RESOLVED"
    then resolved
    else custom s

unfoldable pub is_active : Status → Bool
is_active resolved = false
is_active _ = true

pub data ActionType : Type 0 where
  assign unassign start acknowledge respond investigate block_ip whitelist : ActionType
  resolve mitigate false_pos comment : ActionType
  unknown_action : String → ActionType

abbrev pub action_text : ActionType → String
action_text assign = "assign"
action_text unassign = "unassign"
action_text start = "start"
action_text acknowledge = "acknowledge"
action_text respond = "respond"
action_text investigate = "investigate"
action_text block_ip = "block_ip"
action_text whitelist = "whitelist"
action_text resolve = "resolve"
action_text mitigate = "mitigate"
action_text false_pos = "false_positive"
action_text comment = "comment"
action_text (unknown_action s) = s

-- A text as an `ActionType`.
unfoldable pub action_of_text : String → ActionType
action_of_text s =
    if str_eq s "assign"
    then assign
    else if str_eq s "unassign"
    then unassign
    else if str_eq s "start"
    then start
    else if str_eq s "acknowledge"
    then acknowledge
    else if str_eq s "respond"
    then respond
    else if str_eq s "investigate"
    then investigate
    else if str_eq s "block_ip"
    then block_ip
    else if str_eq s "whitelist"
    then whitelist
    else if str_eq s "resolve"
    then resolve
    else if str_eq s "mitigate"
    then mitigate
    else if str_eq s "false_positive"
    then false_pos
    else if str_eq s "comment"
    then comment
    else unknown_action s

-- `unset` is the empty string.
pub data Resolution : Type 0 where
  unset mitigated false_positive benign no_action : Resolution
  custom_resolution : String → Resolution

abbrev pub resolution_text : Resolution → String
resolution_text unset = ""
resolution_text mitigated = "mitigated"
resolution_text false_positive = "false_positive"
resolution_text benign = "benign"
resolution_text no_action = "no_action"
resolution_text (custom_resolution s) = s

unfoldable pub resolution_of_text : String → Resolution
resolution_of_text s =
    if str_eq s ""
    then unset
    else if str_eq s "mitigated"
    then mitigated
    else if str_eq s "false_positive"
    then false_positive
    else if str_eq s "benign"
    then benign
    else if str_eq s "no_action"
    then no_action
    else custom_resolution s

pub record ActionLog : Type 0 where
  pub at : ℕ
  pub actor : String
  pub action : ActionType
  pub note : String
  pub from_state : String
  pub to_state : String

-- The values that the service puts into `Extra`: a text, or an instant that it formats.
pub data ExtraValue : Type 0 where
  text : String → ExtraValue
  instant : ℕ → ExtraValue

-- Times are nanoseconds since Go's zero time, and the confidence is in hundredths.
pub record Alert : Type 0 where
  pub id : String
  pub rule_id : String
  pub rule_key : String
  pub title : String
  pub severity : Severity
  pub status : Status
  pub confidence : ℕ
  pub mitre : List String
  pub description : String
  pub asset : String
  pub src_ip : String
  pub geo : Option Geo
  pub count : ℕ
  pub blocked_count : ℕ
  pub unique_paths : ℕ
  pub distinct_assets : ℕ
  pub event_ids : List String
  pub started_at : ℕ
  pub last_seen_at : ℕ
  pub assignee : String
  pub assigned_at : Option ℕ
  pub status_changed_at : Option ℕ
  pub responded_at : Option ℕ
  pub resolved_at : Option ℕ
  pub resolution : Resolution
  pub actions : List ActionLog
  pub extra : Map ExtraValue
  pub created_at : ℕ

abbrev is_open : Status → Bool
is_open open_ = true
is_open _ = false

unfoldable pub is_unassigned : Alert → Bool
is_unassigned a = is_open a.status && is_blank a.assignee

respond_end : Option ℕ → Option ℕ → Option ℕ
respond_end (some t) r = some t
respond_end none r = r

since : ℕ → Option ℕ → Option ℤ
since created none = none
since created (some t) = some (sub_ℕ t created)

-- `(time.Duration, bool)` is an option; the difference is exact.
unfoldable pub tt_respond : Alert → Option ℤ
unfolding respond_end since
tt_respond a = since a.created_at (respond_end a.responded_at a.resolved_at)

pub record Counts : Type 0 where
  pub total_active : ℕ
  pub open_count : ℕ
  pub assigned_count : ℕ
  pub in_progress_count : ℕ
  pub resolved_count : ℕ
  pub unassigned : ℕ
  pub by_severity : Map ℕ
  pub critical : ℕ
  pub high : ℕ
  pub medium : ℕ
  pub low : ℕ

-- The empty string in a filter field asks for nothing.
pub record Filter : Type 0 where
  pub status : String
  pub severity : String
  pub asset : String
  pub assignee : String
  pub rule_id : String
  pub query : String
  pub limit : ℤ
  pub offset : ℤ
