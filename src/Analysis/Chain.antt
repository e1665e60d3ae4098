-- ===== src/Analysis/Chain.antt =====
-- internal/analysis/analysis.go: `BuildChain`. The zero time is 0, and the empty severity is
-- `unknown ""`; `none` is the empty phase.
pub mod Partition
pub mod Highest
pub mod Own
use sentinel_api.Base.{
  ℕ, ◌+◌, String, Bool, true, false, ◌||◌, Option, none, some, List, [], ◌∷◌, ◌++◌, ltb, ◌==◌,
  length, filter, if◌then◌else◌,
}
use sentinel_api.Event.{Severity, critical, high, medium, low, unknown}
use sentinel_api.Alerts.Model.{Alert}
use sentinel_api.Analysis.Phase.{Phase, phase_eq, phase_order, label, phase_for_technique}

pub record ChainPhase : Type 0 where
  pub phase : Phase
  pub label : String
  pub covered : Bool
  pub alerts : List Alert
  pub count : ℕ
  pub blocked_count : ℕ
  pub severity : Severity
  pub first_seen : ℕ
  pub last_seen : ℕ

pub record Chain : Type 0 where
  pub src_ip : String
  pub asset : String
  pub total_alerts : ℕ
  pub max_severity : Severity
  pub reached_phase : Option Phase
  pub started_at : ℕ
  pub last_seen_at : ℕ
  pub phases : List ChainPhase

unfoldable pub sev_rank : Severity → ℕ
sev_rank critical = 4
sev_rank high = 3
sev_rank medium = 2
sev_rank low = 1
sev_rank (unknown s) = 0

-- `if sevRank(a) > sevRank(s) { s = a }`
unfoldable pub raise_severity : Severity → Severity → Severity
raise_severity a s = if ltb (sev_rank s) (sev_rank a) then a else s

-- `if first.IsZero() || t.Before(first) { first = t }`
abbrev pub earlier_of : ℕ → ℕ → ℕ
earlier_of t first = if first == 0 || ltb t first then t else first

-- `if t.After(last) { last = t }`
abbrev pub later_of : ℕ → ℕ → ℕ
later_of t last = if ltb last t then t else last

-- `byPhase[p]`: the alerts of the phase, in order.
abbrev pub is_of : Phase → Alert → Bool
is_of p a = phase_eq (phase_for_technique a.rule_id) p

-- The body of the loop over a phase's alerts.
unfoldable pub gather : List Alert → ChainPhase → ChainPhase
unfolding raise_severity
gather [] cp = cp
gather (a ∷ group) cp = gather group (record cp {
  alerts = cp.alerts ++ a ∷ [];
  blocked_count = cp.blocked_count + a.blocked_count;
  severity = raise_severity a.severity cp.severity;
  first_seen = earlier_of a.started_at cp.first_seen;
  last_seen = later_of a.last_seen_at cp.last_seen;
})

abbrev start_phase : Phase → List Alert → ChainPhase
start_phase p group = record {
  phase = p;
  label = label p;
  covered = true;
  alerts = [];
  count = length group;
  blocked_count = 0;
  severity = unknown "";
  first_seen = 0;
  last_seen = 0;
}

unfoldable pub chain_phase : Phase → List Alert → ChainPhase
unfolding gather
chain_phase p group = gather group (start_phase p group)

abbrev add_phase : Phase → List Alert → List ChainPhase → List ChainPhase
add_phase p [] rest = rest
add_phase p (a ∷ group) rest = chain_phase p (a ∷ group) ∷ rest

unfoldable pub phases_of : List Phase → List Alert → List ChainPhase
phases_of [] alerts = []
phases_of (p ∷ ps) alerts = add_phase p (filter (is_of p) alerts) (phases_of ps alerts)

-- `TotalAlerts += len(group)`, over the phases: `Count` is the length of the group.
unfoldable pub total : List ChainPhase → ℕ
total [] = 0
total (cp ∷ cps) = cp.count + total cps

max_severity_from : Severity → List ChainPhase → Severity
max_severity_from s [] = s
max_severity_from s (cp ∷ cps) = max_severity_from (raise_severity cp.severity s) cps

unfoldable pub max_severity : List ChainPhase → Severity
unfolding max_severity_from raise_severity
max_severity cps = max_severity_from (unknown "") cps

abbrev pub last_phase : List ChainPhase → Option ChainPhase
last_phase [] = none
last_phase (cp ∷ []) = some cp
last_phase (cp ∷ next ∷ cps) = last_phase (next ∷ cps)

abbrev from_last {ℓ} : {A : Type ℓ} → A → (ChainPhase → A) → List ChainPhase → A
from_last d f cps = elim (last_phase cps) [ none ↦ d | some cp ↦ f cp ]

abbrev first_start : List ChainPhase → ℕ
first_start [] = 0
first_start (cp ∷ cps) = cp.first_seen

abbrev from_first : (Alert → String) → List Alert → String
from_first f [] = ""
from_first f (a ∷ alerts) = f a

unfoldable pub build_chain : List Alert → Chain
unfolding phases_of total max_severity
build_chain alerts =
    let phases = phases_of phase_order alerts in
    record {
      src_ip = from_first (λ a. a.src_ip) alerts;
      asset = from_first (λ a. a.asset) alerts;
      total_alerts = total phases;
      max_severity = max_severity phases;
      reached_phase = from_last none (λ cp. some cp.phase) phases;
      started_at = first_start phases;
      last_seen_at = from_last 0 (λ cp. cp.last_seen) phases;
      phases = phases;
    }
