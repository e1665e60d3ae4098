-- ===== src/Alerts/Service.antt =====
-- internal/alerts/service.go: the operations of `Service`, over any store. Each call reads the
-- service's clock once (`now`), `appendAction` reads the wall clock (`at`), and `new_id` is the id
-- that `newID` draws. Operations hold the mutex or touch one alert, and run one after another here.
use Prim.Native.String.{◌++◌ as text_append}
use sentinel_api.Base.{
  ℕ, String, Bool, true, false, Option, none, some, List, [], ◌∷◌, ◌++◌, map, pos, is_positive,
  is_blank, insert, if◌then◌else◌,
}
use sentinel_api.Event.{NormalizedEvent}
use sentinel_api.Detect.Rule.{Rule, Outcome, key}
use sentinel_api.Alerts.Model.{
  Alert, Status, open_, assigned, in_progress, resolved, ActionType, ActionLog, Resolution,
  mitigated, false_positive, text, instant, status_text, action_text, Filter,
}
use sentinel_api.Alerts.Store.{
  bad_transition, unknown_action, assignee_required, assignee_before_assigned, Result, ok, err,
  ◌>>=◌, ◌>>◌, refuse_if, Store,
}
use sentinel_api.Alerts.Merge.{merge, fresh_alert}

abbrev pub log_entry : ℕ → String → ActionType → String → String → String → ActionLog
log_entry at actor action from_state to_state note = record {
  at = at;
  actor = actor;
  action = action;
  note = note;
  from_state = from_state;
  to_state = to_state;
}

unfoldable pub append_action : ℕ → Alert → String → ActionType → String → String → String → Alert
append_action at a actor action from_state to_state note = record a {
  actions = a.actions ++ log_entry at actor action from_state to_state note ∷ [];
}

-- `firstOr`, and `if p == nil { p = &now }`.
unfoldable pub first_or : Option ℕ → ℕ → Option ℕ
first_or none t = some t
first_or (some p) t = some p

unfoldable pub is_resolved : Status → Bool
is_resolved resolved = true
is_resolved _ = false

unfoldable pub after_assign : Status → Status
after_assign open_ = assigned
after_assign s = s

-- The body of `Assign` between `Get` and `Update`.
unfoldable pub assign_alert : ℕ → ℕ → String → String → Alert → Result Alert
assign_alert now at assignee actor a = do
  refuse_if (is_resolved a.status) bad_transition
  let to_status = after_assign a.status
  ok (
      append_action at
        (record a { assignee = assignee; assigned_at = some now; status = to_status }) actor
        ActionType.assign (status_text a.status) (status_text to_status)
        (text_append "assigned to " assignee))

-- The `switch` of `SetStatus`.
unfoldable pub check_target : Status → Alert → Result (Unit {0})
check_target assigned a = refuse_if (is_blank a.assignee) assignee_before_assigned
check_target in_progress a = ok tt
check_target open_ a = ok tt
check_target _ a = err bad_transition

-- The body of `SetStatus` between `Get` and `Update`.
unfoldable pub set_status_alert : ℕ → ℕ → Status → String → Alert → Result Alert
set_status_alert now at status actor a = do
  refuse_if (is_resolved a.status) bad_transition
  check_target status a
  ok (
      append_action at (record a { status = status; status_changed_at = some now }) actor
        ActionType.start (status_text a.status) (status_text status) "")

unfoldable pub responded : ℕ → Alert → Alert
unfolding first_or
responded now a = record a { responded_at = first_or a.responded_at now }

unfoldable pub ip_action : ℕ → ActionType → Alert → Alert
ip_action now action a = record a {
  extra =
      insert "ip_action_at" (instant now) (insert "ip_action" (text (action_text action)) a.extra);
}

unfoldable pub close : ℕ → Resolution → Alert → Alert
unfolding responded
close now resolution a =
    responded now (record a { status = resolved; resolution = resolution; resolved_at = some now })

-- The `switch` of `Action`.
unfoldable pub apply_action : ℕ → ActionType → Alert → Result Alert
unfolding responded ip_action close
apply_action now ActionType.investigate a = ok (responded now a)
apply_action now ActionType.acknowledge a = ok (responded now a)
apply_action now ActionType.respond a = ok (responded now a)
apply_action now ActionType.block_ip a = ok (ip_action now ActionType.block_ip (responded now a))
apply_action now ActionType.whitelist a = ok (ip_action now ActionType.whitelist (responded now a))
apply_action now ActionType.mitigate a = ok (close now mitigated a)
apply_action now ActionType.resolve a = ok (close now mitigated a)
apply_action now ActionType.false_pos a = ok (close now false_positive a)
apply_action now ActionType.comment a = ok a
apply_action now _ a = err unknown_action

-- The body of `Action` between `Get` and `Update`.
unfoldable pub action_alert : ℕ → ℕ → ActionType → String → String → Alert → Result Alert
action_alert now at action note actor a = do
  b ← apply_action now action a
  ok (
      append_action at (record b { status_changed_at = some now }) actor action
        (status_text a.status) (status_text b.status) note)

unfoldable pub last_of : NormalizedEvent → List NormalizedEvent → NormalizedEvent
last_of e [] = e
last_of e (x ∷ xs) = last_of x xs

-- `if f.Limit <= 0 { f.Limit = 50 }`
default_limit : Filter → Filter
default_limit f = if is_positive f.limit then f else record f { limit = pos 50 }

module _ (St : Store) where
  open St use {State, create, get, update, find_open, list}

  unfoldable pub modify : String → (Alert → Result Alert) → State → Result (Alert × State)
  modify i f s = do a ← get i s; b ← f a; s' ← update b s; ok (b, s')

  unfoldable pub assign : ℕ → ℕ → String → String → String → State → Result (Alert × State)
  unfolding modify
  assign now at i assignee actor s = do
    refuse_if (is_blank assignee) assignee_required
    modify i (assign_alert now at assignee actor) s

  unfoldable pub set_status : ℕ → ℕ → String → Status → String → State → Result (Alert × State)
  unfolding modify
  set_status now at i status actor s = modify i (set_status_alert now at status actor) s

  unfoldable pub action :
      ℕ → ℕ → String → ActionType → String → String → State → Result (Alert × State)
  unfolding modify
  action now at i act note actor s = modify i (action_alert now at act note actor) s

  -- An error of `Update` or `Create` is logged, and the store is as it was.
  unfoldable pub logged : State → Result State → State
  logged s (ok s') = s'
  logged s (err e) = s

  unfoldable pub ingest_into :
      Result Alert
      → String
      → ℕ
      → Rule
      → NormalizedEvent
      → NormalizedEvent
      → List String
      → Outcome
      → State
      → State
  unfolding logged
  ingest_into (ok a) new_id now r first last ids o s =
      logged s (update (merge a r first last o ids) s)
  ingest_into (err e) new_id now r first last ids o s =
      logged s (create (fresh_alert new_id now r first last o ids) s)

  -- `none` is the panic of `evs[0]` on an empty batch.
  unfoldable pub ingest : String → ℕ → Rule → List NormalizedEvent → Outcome → State → Option State
  unfolding ingest_into last_of
  ingest new_id now r [] o s = none
  ingest new_id now r (first ∷ rest) o s = some (
      ingest_into (find_open r.id (key r first) s) new_id now r first (last_of first rest)
        (map (λ e. e.id) (first ∷ rest)) o s)

  unfoldable pub list_alerts : Filter → State → Option (Result (List Alert))
  unfolding default_limit
  list_alerts f s = list (default_limit f) s
