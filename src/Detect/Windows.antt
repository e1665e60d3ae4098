-- ===== src/Detect/Windows.antt =====
-- internal/detect/engine.go: what a window holds, and what it hands on.
use sentinel_api.Base.{
  ℕ, ◌+◌, ◌≤◌, ◌<◌, String, true, Option, none, some, List, [], ◌∷◌, ◌++◌, ◌≡◌, refl, ◌≢◌, inl, inr,
  subst, arith, length, filter, str_eq, str_eq_iff, Bool-cases, All, All-append, All-filter, lookup,
  insert, lookup-insert, if◌then◌else◌,
}
use mathlib.Core.List.{map-append}
use sentinel_api.Event.{NormalizedEvent}
use sentinel_api.Detect.Rule.{Rule, Outcome, key, matches, should_alert}
use sentinel_api.Detect.Rules.{
  rules, sqli_rule, auth_brute_rule, waf_block_spike_rule, db_anomaly_rule, webshell_rule,
}
use sentinel_api.Detect.Scans.{dir_enum_rule, port_scan_rule}
use sentinel_api.Detect.Engine.{
  WindowEntry, Engine, or_empty, entries, set_entries, in_window, slide, events_of,
}

pub entries-set_entries :
    (e : Engine) (i k i' k' : String) (kept : List WindowEntry)
    → entries (set_entries e i k kept) i' k'
      ≡ (if str_eq i i' then (if str_eq k k' then kept else entries e i' k') else entries e i' k')
unfolding entries set_entries
entries-set_entries e i k i' k' kept = ground (
  arith,
  str_eq_iff i i',
  lookup-insert i i' (insert k kept (or_empty (lookup i e.windows))) e.windows,
  lookup-insert k k' kept (or_empty (lookup i e.windows)),
)

-- An entry that rule `r` filed under key `k`.
pub record IsFiled (r : Rule) (k : String) (ent : WindowEntry) : Type 0 where
  pub matched : matches r ent.ev ≡ true
  pub keyed : key r ent.ev ≡ k
  pub stamped : ent.ts ≡ ent.ev.timestamp

-- Every window of the rule holds only what the rule filed there.
abbrev pub Windowed : Engine → Rule → Type 0
Windowed e r = (k : String) → All (IsFiled r k) (entries e r.id k)

-- What an emitter may rely on.
pub record IsBatch (ev : NormalizedEvent) (r : Rule) (evs : List NormalizedEvent) (o : Outcome)
    : Type 0 where
  pub enough : r.threshold ≤ length evs
  pub decided : r.alert_fn evs ≡ some o
  pub alike : All (λ x. (matches r x ≡ true) × (key r x ≡ key r ev)) evs
  pub recent : All (λ x. ev.timestamp < x.timestamp + r.window) evs
  pub newest : (older : List NormalizedEvent) × (evs ≡ older ++ ev ∷ [])
  pub keyed : key r ev ≢ ""

pub find_rule : String → List Rule → Option Rule
find_rule i [] = none
find_rule i (r ∷ rs) = let rest = find_rule i rs in if str_eq r.id i then some r else rest

-- A rule is determined by its id, and its window is not empty.
pub record IsKnown (r : Rule) : Type 0 where
  pub listed : find_rule r.id rules ≡ some r
  pub open_window : 0 < r.window

pub rules-IsKnown : All IsKnown rules
unfolding rules find_rule dir_enum_rule port_scan_rule sqli_rule auth_brute_rule
    waf_block_spike_rule db_anomaly_rule webshell_rule
rules-IsKnown = (
  record { listed = refl; open_window = omega arith },
  (
    record { listed = refl; open_window = omega arith },
    (
      record { listed = refl; open_window = omega arith },
      (
        record { listed = refl; open_window = omega arith },
        (
          record { listed = refl; open_window = omega arith },
          (
            record { listed = refl; open_window = omega arith },
            (record { listed = refl; open_window = omega arith }, tt),
          ),
        ),
      ),
    ),
  ),
)

pub slide-IsFiled :
    (r : Rule) (ev : NormalizedEvent) (ents : List WindowEntry)
    → matches r ev ≡ true
    → All (IsFiled r (key r ev)) ents
    → All (IsFiled r (key r ev)) (slide r.window ev ents)
unfolding slide
slide-IsFiled r ev ents m h =
    All-append (IsFiled r (key r ev)) _ _
      (All-filter (IsFiled r (key r ev)) (in_window ev.timestamp r.window) ents h)
      (record { matched = m; keyed = refl; stamped = refl }, tt)

-- Filing under one rule and key leaves every known rule's windows consistent.
pub set_entries-Windowed :
    (e : Engine) (r : Rule) (k : String) (kept : List WindowEntry) (rs : List Rule)
    → All (IsFiled r k) kept
    → IsKnown r
    → All IsKnown rs
    → All (Windowed e) rs
    → All (Windowed (set_entries e r.id k kept)) rs
set_entries-Windowed e r k kept [] f n ns h = tt
set_entries-Windowed e r k kept (r' ∷ rs) f n ns h =
    (here, set_entries-Windowed e r k kept rs f n ns.1 h.1)
  where
    same : str_eq r.id r'.id ≡ true → r ≡ r'
    same p = cc ((str_eq_iff r.id r'.id).0 p, n.listed, ns.0.listed)

    moved : (j : String) → str_eq r.id r'.id ≡ true → str_eq k j ≡ true → All (IsFiled r' j) kept
    moved j p q =
        subst (λ x. All (IsFiled x j) kept) (same p)
          (subst (λ x. All (IsFiled r x) kept) ((str_eq_iff k j).0 q) f)

    here : Windowed (set_entries e r.id k kept) r'
    here j = elim (Bool-cases (str_eq r.id r'.id)) [
      | inl p ↦ elim (Bool-cases (str_eq k j)) [
        | inl q ↦ rw (entries-set_entries, p, q) (moved j p q)
        | inr q ↦ rw (entries-set_entries, p, q) (h.0 j)
      ]
      | inr p ↦ rw (entries-set_entries, p) (h.0 j)
    ]

pub slide-recent :
    (r : Rule) (ev : NormalizedEvent) (k : String) (ents : List WindowEntry)
    → 0 < r.window
    → All (IsFiled r k) ents
    → All (λ x. ev.timestamp < x.timestamp + r.window) (events_of (slide r.window ev ents))
unfolding slide
slide-recent r ev k [] w f = (omega arith, tt)
slide-recent r ev k (x ∷ ents) w f = ground (arith, slide-recent r ev k ents w f.1)

pub filed-alike :
    (r : Rule) (k : String) (ents : List WindowEntry)
    → All (IsFiled r k) ents
    → All (λ x. (matches r x ≡ true) × (key r x ≡ k)) (events_of ents)
filed-alike r k [] f = tt
filed-alike r k (x ∷ ents) f = ((f.0.matched, f.0.keyed), filed-alike r k ents f.1)

pub slide-newest :
    (w : ℕ) (ev : NormalizedEvent) (ents : List WindowEntry)
    → (older : List NormalizedEvent) × (events_of (slide w ev ents) ≡ older ++ ev ∷ [])
unfolding slide
slide-newest w ev ents =
    (events_of (filter (in_window ev.timestamp w) ents), map-append (λ (x : WindowEntry). x.ev) _ _)

pub should_alert_iff :
    (r : Rule) (evs : List NormalizedEvent) (o : Outcome)
    → should_alert r evs ≡ some o
    → (r.threshold ≤ length evs) × (r.alert_fn evs ≡ some o)
unfolding should_alert
should_alert_iff r evs o h = ground arith
