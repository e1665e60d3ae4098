-- ===== src/Detect/Engine.antt =====
-- internal/detect/engine.go: the sliding windows, per rule and key, and the loop over the rules.
-- The emitter is a callback with a state `S` of its own; `none` is a nil emitter. One event is
-- processed at a time, as the pipeline's single goroutine does, so the lock has no counterpart.
use sentinel_api.Base.{
  ℕ, ◌+◌, String, Bool, Option, none, some, List, [], ◌∷◌, ◌++◌, map, filter, ltb, not, is_blank,
  Map, lookup, insert, if◌then◌else◌,
}
use sentinel_api.Event.{NormalizedEvent}
use sentinel_api.Detect.Rule.{Rule, Outcome, key, matches, should_alert}
use sentinel_api.Detect.Rules.{rules}

pub record WindowEntry : Type 0 where
  pub ts : ℕ
  pub ev : NormalizedEvent

pub record Engine : Type 0 where
  pub windows : Map (Map (List WindowEntry))

unfoldable pub new_engine : Engine
new_engine = record { windows = [] }

abbrev pub or_empty {ℓ} : {A : Type ℓ} → Option (List A) → List A
or_empty none = []
or_empty (some xs) = xs

-- `e.windows[ruleID][key]`; a missing entry is the nil slice.
unfoldable pub entries : Engine → String → String → List WindowEntry
entries e rule k = or_empty (lookup k (or_empty (lookup rule e.windows)))

-- `byKey[key] = kept`, where a missing `byKey` is made first.
unfoldable pub set_entries : Engine → String → String → List WindowEntry → Engine
set_entries e rule k kept = record {
  windows = insert rule (insert k kept (or_empty (lookup rule e.windows))) e.windows;
}

-- `ent.ts.After(now - window)`, with the subtraction moved to the other side.
abbrev pub in_window : ℕ → ℕ → WindowEntry → Bool
in_window now window ent = ltb now (ent.ts + window)

-- The entries that are kept, and the new one.
unfoldable pub slide : ℕ → NormalizedEvent → List WindowEntry → List WindowEntry
slide window ev ents =
    filter (in_window ev.timestamp window) ents ++ record { ts = ev.timestamp; ev = ev } ∷ []

abbrev pub events_of : List WindowEntry → List NormalizedEvent
events_of = map (λ ent. ent.ev)

abbrev pub Emitter : Type 0 → Type 0
Emitter S = Rule → List NormalizedEvent → Outcome → S → S

module _ {S : Type 0} where
  unfoldable pub raise_alert : Emitter S → Rule → List NormalizedEvent → Option Outcome → S → S
  raise_alert emit r evs none s = s
  raise_alert emit r evs (some o) s = emit r evs o s

  -- The body of the loop for one rule.
  unfoldable pub process_rule : Emitter S → NormalizedEvent → Rule → Engine × S → Engine × S
  unfolding raise_alert
  process_rule emit ev r (e, s) =
      let kept = slide r.window ev (entries e r.id (key r ev)) in
      if not (matches r ev) then (e, s) else if is_blank (key r ev) then (e, s) else (
        set_entries e r.id (key r ev) kept,
        raise_alert emit r (events_of kept) (should_alert r (events_of kept)) s,
      )

  unfoldable pub process_rules : Emitter S → NormalizedEvent → List Rule → Engine × S → Engine × S
  process_rules emit ev [] st = st
  process_rules emit ev (r ∷ rs) st = process_rules emit ev rs (process_rule emit ev r st)

  unfoldable pub process : Engine → NormalizedEvent → Option (Emitter S) → S → Engine × S
  process e ev none s = (e, s)
  process e ev (some emit) s = process_rules emit ev rules (e, s)

unfoldable pub drain : Engine → Engine
drain e = record { windows = [] }
