-- ===== src/Analysis/Chain/Own.antt =====
-- internal/analysis/analysis.go: the kill chains of the alerts that the program's own rules raise.
use sentinel_api.Base.{
  String, true, false, List, [], ◌∷◌, map, ◌≡◌, refl, ◌∙◌, inl, inr, str_eq, str_eq_iff, filter,
  any, All, All-map, Bool-cases,
}
use sentinel_api.Detect.Rule.{Rule}
use sentinel_api.Detect.Rules.{
  rules, sqli_rule, auth_brute_rule, waf_block_spike_rule, db_anomaly_rule, webshell_rule,
}
use sentinel_api.Detect.Scans.{dir_enum_rule, port_scan_rule}
use sentinel_api.Alerts.Model.{Alert}
use sentinel_api.Analysis.Phase.{Phase, initial_access, phase_eq, phase_order, phase_for_technique}
use sentinel_api.Analysis.Chain.{is_of, build_chain}
use sentinel_api.Analysis.Chain.Partition.{HasPhase, reached, build_chain_lem}

-- The alert was raised by one of the program's rules.
abbrev pub IsOwn : Alert → Type 0
IsOwn a = any (λ r. str_eq r.id a.rule_id) rules ≡ true

ids_default : All (λ r. phase_for_technique r.id ≡ initial_access) rules
unfolding rules phase_for_technique dir_enum_rule port_scan_rule sqli_rule auth_brute_rule
    waf_block_spike_rule db_anomaly_rule webshell_rule
ids_default = (refl, (refl, (refl, (refl, (refl, (refl, (refl, tt)))))))

default_of_any :
    (t : String) (rs : List Rule)
    → All (λ r. phase_for_technique r.id ≡ initial_access) rs
    → any (λ r. str_eq r.id t) rs ≡ true
    → phase_for_technique t ≡ initial_access
default_of_any t [] h e = cc
default_of_any t (r ∷ rs) h e = elim (Bool-cases (str_eq r.id t)) [
  | inl q ↦ rw (← (str_eq_iff r.id t).0 q) h.0
  | inr q ↦ default_of_any t rs h.1 (rw q at e)
]

own_phase : (a : Alert) → IsOwn a → HasPhase initial_access a
own_phase a h = default_of_any a.rule_id rules ids_default h

none_other :
    (p q : Phase) (alerts : List Alert)
    → All (HasPhase q) alerts
    → phase_eq q p ≡ false
    → any (is_of p) alerts ≡ false
none_other p q [] h e = refl
none_other p q (a ∷ alerts) h e = rw (h.0, e) (none_other p q alerts h.1 e)

reached_one :
    (q : Phase) (a : Alert) (alerts : List Alert) (ps : List Phase)
    → All (HasPhase q) (a ∷ alerts)
    → reached ps (a ∷ alerts) ≡ filter (phase_eq q) ps
reached_one q a alerts [] h = refl
reached_one q a alerts (p ∷ ps) h = elim (Bool-cases (phase_eq q p)) [
  | inl e ↦ rw (h.0, e, reached_one q a alerts ps h)
  | inr e ↦ rw (none_other p q (a ∷ alerts) h e, e, reached_one q a alerts ps h)
]

-- All alerts that the program's rules raise, whatever they detect, end in one phase, initial access:
-- the chain looks a rule id up among the techniques, and no rule id is one.
pub own_chain_lem :
    (a : Alert) (alerts : List Alert)
    → All IsOwn (a ∷ alerts)
    → map (λ cp. cp.phase) (build_chain (a ∷ alerts)).phases ≡ initial_access ∷ []
own_chain_lem a alerts h =
    (build_chain_lem (a ∷ alerts)).3
    ∙ reached_one initial_access a alerts phase_order (All-map own_phase (a ∷ alerts) h)
