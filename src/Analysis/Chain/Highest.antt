-- ===== src/Analysis/Chain/Highest.antt =====
-- internal/analysis/analysis.go: the severity of a kill chain.
use sentinel_api.Base.{
  ℕ, max, List, [], ◌∷◌, ◌≡◌, refl, ◌∙◌, inl, inr, arith, filter, count_if, Bool-cases, ltb, ltb→lt,
  if◌then◌else◌,
}
use sentinel_api.Event.{Severity, unknown}
use sentinel_api.Alerts.Model.{Alert}
use sentinel_api.Analysis.Phase.{Phase, phase_eq, phase_order, phase_for_technique}
use sentinel_api.Analysis.Chain.{
  ChainPhase, is_of, gather, start_phase, chain_phase, add_phase, phases_of, build_chain, sev_rank,
  raise_severity, max_severity_from, max_severity,
}
use sentinel_api.Analysis.Chain.Partition.{count_if-phase_order}

-- The highest rank among the alerts.
abbrev pub top : List Alert → ℕ
top [] = 0
top (a ∷ l) = max (sev_rank a.severity) (top l)

rank-raise_severity :
    (a s : Severity) → sev_rank (raise_severity a s) ≡ max (sev_rank s) (sev_rank a)
unfolding raise_severity
rank-raise_severity a s = elim (Bool-cases (ltb (sev_rank s) (sev_rank a))) [
  | inl h ↦ rw h (omega (arith, ltb→lt (sev_rank s) (sev_rank a) h))
  | inr h ↦ rw h (ground arith)
]

severity-gather :
    (group : List Alert) (cp : ChainPhase)
    → sev_rank (gather group cp).severity ≡ max (sev_rank cp.severity) (top group)
unfolding gather
severity-gather [] cp = omega arith
severity-gather (a ∷ group) cp =
    omega (
      arith,
      severity-gather group (gather (a ∷ []) cp),
      rank-raise_severity a.severity cp.severity,
    )

top_over : List Phase → List Alert → ℕ
top_over [] alerts = 0
top_over (p ∷ ps) alerts = max (top (filter (is_of p) alerts)) (top_over ps alerts)

abbrev tops : List ChainPhase → ℕ
tops [] = 0
tops (cp ∷ cps) = max (sev_rank cp.severity) (tops cps)

rank-max_severity_from :
    (s : Severity) (cps : List ChainPhase)
    → sev_rank (max_severity_from s cps) ≡ max (sev_rank s) (tops cps)
unfolding max_severity_from
rank-max_severity_from s [] = omega arith
rank-max_severity_from s (cp ∷ cps) = omega (
  arith,
  rank-max_severity_from (raise_severity cp.severity s) cps,
  rank-raise_severity cp.severity s,
)

rank_empty : sev_rank (unknown "") ≡ 0
unfolding sev_rank
rank_empty = refl

tops-add_phase :
    (p : Phase) (g : List Alert) (cps : List ChainPhase)
    → tops (add_phase p g cps) ≡ max (top g) (tops cps)
unfolding chain_phase
tops-add_phase p [] cps = omega arith
tops-add_phase p (a ∷ g) cps =
    omega (arith, severity-gather (a ∷ g) (start_phase p (a ∷ g)), rank_empty)

top_over-nil : (ps : List Phase) → top_over ps [] ≡ 0
unfolding top_over
top_over-nil [] = refl
top_over-nil (p ∷ ps) = omega (arith, top_over-nil ps)

top_over-cons :
    (ps : List Phase) (a : Alert) (alerts : List Alert)
    → top_over ps (a ∷ alerts)
      ≡ max (top_over ps alerts) (
          if ltb 0 (count_if (phase_eq (phase_for_technique a.rule_id)) ps)
          then sev_rank a.severity
          else 0)
unfolding top_over
top_over-cons [] a alerts = ground arith
top_over-cons (p ∷ ps) a alerts = elim (Bool-cases (is_of p a)) [
  | inl h ↦ rw h (ground (arith, top_over-cons ps a alerts))
  | inr h ↦ rw h (omega (arith, top_over-cons ps a alerts))
]

top_over-phase_order : (alerts : List Alert) → top_over phase_order alerts ≡ top alerts
top_over-phase_order [] = top_over-nil phase_order
top_over-phase_order (a ∷ alerts) =
    let e = top_over-cons phase_order a alerts in
    let n = count_if-phase_order (phase_for_technique a.rule_id) in
    e ∙ rw n (omega (arith, top_over-phase_order alerts))

tops-phases_of :
    (ps : List Phase) (alerts : List Alert) → tops (phases_of ps alerts) ≡ top_over ps alerts
unfolding phases_of top_over
tops-phases_of [] alerts = refl
tops-phases_of (p ∷ ps) alerts = omega (
  arith,
  tops-add_phase p (filter (is_of p) alerts) (phases_of ps alerts),
  tops-phases_of ps alerts,
)

-- The severity of a chain is the highest among its alerts.
pub highest_lem : (alerts : List Alert) → sev_rank (build_chain alerts).max_severity ≡ top alerts
unfolding build_chain max_severity
highest_lem alerts = omega (
  arith,
  rank-max_severity_from (unknown "") (phases_of phase_order alerts),
  rank_empty,
  tops-phases_of phase_order alerts,
  top_over-phase_order alerts,
)
