-- ===== src/Server/Desk.antt =====
-- internal/server/handlers.go: the handlers of alerts and requests, and `Summary` and `Health`. Of the
-- web framework the values of the query and the decoded body are parameters; a panic is answered 500 by
-- its recover middleware. Whether a text of the query is a number is decided by the framework.
pub mod Calls
pub mod Taken
pub mod Stream
use sentinel_api.Base.{
  ℕ, ◌-◌, ◌/◌, ◌^◌, String, Bool, true, false, Option, none, some, List, [], ◌∷◌, map, ℤ, pos,
  negsuc, ltb, str_eq, is_blank, count_if, if◌then◌else◌,
}
use sentinel_api.Event.{NormalizedEvent}
use sentinel_api.Alerts.Model.{Alert, Counts, Filter, status_of_text, action_of_text, is_active}
use sentinel_api.Alerts.Store.{Error, not_found, Result, ok, err, Store}
use sentinel_api.Alerts.Service.{assign, set_status, action, list_alerts}
use sentinel_api.Alerts.Related.{related_events}
use sentinel_api.Requests.Ring.{recent_of}
use sentinel_api.Containment.{Containment, Items, list as list_controls}
use sentinel_api.Server.Incidents.{is_active_status}
use sentinel_api.Server.Reading.{Point, alert_timeline}
use sentinel_api.Edge.{Engine, kind_text, deny, rate_limit, waf}

-- Why a request was refused: its body is no JSON document, it names no assignee, the service returned
-- an error, or the handler panicked.
pub data Refusal : Type 0 where
  unreadable missing_assignee recovered : Refusal
  refused : Error → Refusal

-- An answer 200, or one with another status.
pub data Answer {ℓ} (A : Type ℓ) : Type ℓ where
  replies : A → Answer A
  fails : ℕ → Refusal → Answer A

pub record AssignBody : Type 0 where
  pub assignee : String
  pub actor : String

pub record StatusBody : Type 0 where
  pub status : String
  pub actor : String

pub record ActionBody : Type 0 where
  pub action : String
  pub note : String
  pub actor : String

abbrev pub or_console : String → String
or_console actor = if is_blank actor then "console" else actor

-- The query of a request: `Query`, and `QueryInt` with its default.
pub record Query : Type 0 where
  pub text_of : String → String
  pub int_of : String → ℤ → ℤ

unfoldable pub filter_of : Query → Filter
filter_of q = record {
  status = q.text_of "status";
  severity = q.text_of "severity";
  asset = q.text_of "asset";
  assignee = q.text_of "assignee";
  rule_id = q.text_of "rule";
  query = q.text_of "q";
  limit = q.int_of "limit" (pos 50);
  offset = q.int_of "offset" (pos 0);
}

abbrev pub at_most_500 : ℤ → ℤ
at_most_500 (pos n) = if ltb 500 n then pos 500 else pos n
at_most_500 (negsuc n) = negsuc n

abbrev pub or_recovered {ℓ} : {A : Type ℓ} → Option A → Answer A
or_recovered none = fails 500 recovered
or_recovered (some x) = replies x

-- `ListRequests`, of the snapshot of the ring.
unfoldable pub list_requests : Query → List NormalizedEvent → Answer (List NormalizedEvent)
unfolding recent_of
list_requests q snap = or_recovered (
    recent_of snap (q.text_of "asset") (at_most_500 (q.int_of "limit" (pos 50)))
      (q.int_of "offset" (pos 0)))

pub record Health : Type 0 where
  pub uptime : ℕ
  pub events : ℕ
  pub store_kind : String
  pub simulates : Bool

-- The uptime is in whole seconds.
unfoldable pub health : ℕ → ℕ → ℕ → String → Bool → Health
health started now events kind sim = record {
  uptime = (now - started) / 10 ^ 9;
  events = events;
  store_kind = kind;
  simulates = sim;
}

pub record Summary : Type 0 where
  pub assets : List (String × ℕ)
  pub totals : Counts
  pub mean_response : ℤ
  pub sample : ℕ
  pub timeline : List Point
  pub controls : ℕ
  pub blocked : ℕ
  pub by_reason : List (String × ℕ)

-- `ListContainment`: the controls are resolved by the look.
unfoldable pub list_containment :
    (Items → List Containment) → ℕ → Query → Items → List Containment × Items
unfolding list_controls
list_containment visit now q items = list_controls visit now (q.text_of "target_ip") items

module _ (St : Store) where
  open St use {State, get, counts, mttr}

  unfoldable pub answer_list : Option (Result (List Alert)) → Answer (List Alert)
  answer_list none = fails 500 recovered
  answer_list (some (err e)) = fails 500 (refused e)
  answer_list (some (ok l)) = replies l

  unfoldable pub list_handler : Query → State → Answer (List Alert)
  unfolding answer_list filter_of list_alerts
  list_handler q s = answer_list (list_alerts St (filter_of q) s)

  -- Any error of the store is answered 404.
  unfoldable pub get_handler : String → State → Answer Alert
  get_handler i s = elim (get i s) [ err e ↦ fails 404 (refused not_found) | ok a ↦ replies a ]

  unfoldable pub events_handler :
      ((NormalizedEvent → NormalizedEvent → Bool) → List NormalizedEvent → List NormalizedEvent)
      → String
      → List NormalizedEvent
      → State
      → List NormalizedEvent
  unfolding related_events
  events_handler sort i snap s = related_events St sort i snap 100 s

  unfoldable pub answer_call : State → Result (Alert × State) → Answer Alert × State
  answer_call s (err e) = (fails 400 (refused e), s)
  answer_call s (ok (a, s')) = (replies a, s')

  unfoldable pub assign_handler : ℕ → ℕ → String → Option AssignBody → State → Answer Alert × State
  unfolding answer_call assign
  assign_handler now at i none s = (fails 400 unreadable, s)
  assign_handler now at i (some b) s =
      if is_blank b.assignee
      then (fails 400 missing_assignee, s)
      else answer_call s (assign St now at i b.assignee (or_console b.actor) s)

  unfoldable pub status_handler : ℕ → ℕ → String → Option StatusBody → State → Answer Alert × State
  unfolding answer_call set_status status_of_text
  status_handler now at i none s = (fails 400 unreadable, s)
  status_handler now at i (some b) s =
      answer_call s (set_status St now at i (status_of_text b.status) (or_console b.actor) s)

  unfoldable pub action_handler : ℕ → ℕ → String → Option ActionBody → State → Answer Alert × State
  unfolding answer_call action action_of_text
  action_handler now at i none s = (fails 400 unreadable, s)
  action_handler now at i (some b) s =
      answer_call s (action St now at i (action_of_text b.action) b.note (or_console b.actor) s)

  -- The alerts of a list whose error is dropped.
  abbrev listed_or_none : Option (Result (List Alert)) → List Alert
  listed_or_none none = []
  listed_or_none (some (err e)) = []
  listed_or_none (some (ok l)) = l

  abbrev of_asset_filter : String → ℕ → Filter
  of_asset_filter asset limit = record {
    status = "";
    severity = "";
    asset = asset;
    assignee = "";
    rule_id = "";
    query = "";
    limit = pos limit;
    offset = pos 0;
  }

  unfoldable pub active_of_asset : State → String → String × ℕ
  unfolding list_alerts
  active_of_asset s asset = (
    asset,
    count_if (λ a. is_active a.status)
        (listed_or_none (list_alerts St (of_asset_filter asset 500) s)),
  )

  -- The error of `MTTR` is dropped, with its result.
  abbrev mttr_or_zero : Result (ℤ × ℕ) → ℤ × ℕ
  mttr_or_zero (err e) = (pos 0, 0)
  mttr_or_zero (ok r) = r

  abbrev summary_of : Counts → List (String × ℕ) → ℤ × ℕ → List Point → ℕ → Engine → Summary
  summary_of c assets (d, n) timeline controls gate = record {
    assets = assets;
    totals = c;
    mean_response = d;
    sample = n;
    timeline = timeline;
    controls = controls;
    blocked = gate.blocked;
    by_reason =
        (kind_text deny, gate.by_deny)
        ∷ (kind_text rate_limit, gate.by_rate_limit)
        ∷ (kind_text waf, gate.by_waf)
        ∷ [];
  }

  unfoldable pub summary :
      (Items → List Containment) → ℕ → List String → State → Items → Engine → Answer Summary × Items
  unfolding active_of_asset alert_timeline list_alerts list_controls
  summary visit now assets s items gate =
      let (controls, items') = list_controls visit now "" items in
      elim (counts s) [
        | err e ↦ (fails 500 (refused e), items)
        | ok c ↦ (
          replies (
              summary_of c (map (active_of_asset s) assets) (mttr_or_zero (mttr s))
                (alert_timeline 30 now (listed_or_none (list_alerts St (of_asset_filter "" 500) s)))
                (count_if (λ x. is_active_status x.status) controls) gate),
          items',
        )
      ]
