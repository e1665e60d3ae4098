-- ===== src/Analysis/Chain/Partition.antt =====
-- internal/analysis/analysis.go: `BuildChain` puts each alert into one phase, in kill-chain order.
use sentinel_api.Base.{
  ℕ, suc, ◌+◌, ◌<◌, String, Bool, true, false, List, [], ◌∷◌, ◌++◌, map, ◌≡◌, refl, sym, ◌∙◌, ap,
  subst, arith, str_eq, str_eq_iff, length, filter, any, count_if, All, filter-All, All-map,
  if◌then◌else◌,
}
use mathlib.Core.List.{append-nil, append_assoc}
use sentinel_api.Alerts.Model.{Alert}
use sentinel_api.Analysis.Phase.{
  Phase, recon, initial_access, execution, persistence, defense_evasion, credential_access,
  discovery, lateral_movement, collection, c2, exfiltration, impact, phase_text, phase_eq,
  phase_order, phase_for_technique,
}
use sentinel_api.Analysis.Chain.{
  ChainPhase, is_of, gather, chain_phase, add_phase, phases_of, total, build_chain,
}

with_text : String → List Phase → Phase
with_text t [] = recon
with_text t (p ∷ ps) = let rest = with_text t ps in if str_eq (phase_text p) t then p else rest

with_text_lem : (p : Phase) → with_text (phase_text p) phase_order ≡ p
unfolding with_text
with_text_lem recon = refl
with_text_lem initial_access = refl
with_text_lem execution = refl
with_text_lem persistence = refl
with_text_lem defense_evasion = refl
with_text_lem credential_access = refl
with_text_lem discovery = refl
with_text_lem lateral_movement = refl
with_text_lem collection = refl
with_text_lem c2 = refl
with_text_lem exfiltration = refl
with_text_lem impact = refl

phase_eq_lem : (p q : Phase) → phase_eq p q ≡ true → p ≡ q
phase_eq_lem p q h =
    sym (with_text_lem p)
    ∙ ap (λ t. with_text t phase_order) ((str_eq_iff (phase_text p) (phase_text q)).0 h)
    ∙ with_text_lem q

-- Every phase stands in the order once.
pub count_if-phase_order : (q : Phase) → count_if (phase_eq q) phase_order ≡ 1
count_if-phase_order recon = refl
count_if-phase_order initial_access = refl
count_if-phase_order execution = refl
count_if-phase_order persistence = refl
count_if-phase_order defense_evasion = refl
count_if-phase_order credential_access = refl
count_if-phase_order discovery = refl
count_if-phase_order lateral_movement = refl
count_if-phase_order collection = refl
count_if-phase_order c2 = refl
count_if-phase_order exfiltration = refl
count_if-phase_order impact = refl

abbrev pub HasPhase : Phase → Alert → Type 0
HasPhase p a = phase_for_technique a.rule_id ≡ p

-- Each alert of a phase's entry has that phase, and there is one.
pub record IsEntry (cp : ChainPhase) : Type 0 where
  pub held : 0 < length cp.alerts
  pub counted : cp.count ≡ length cp.alerts
  pub alike : All (HasPhase cp.phase) cp.alerts

gather-alerts :
    (group : List Alert) (cp : ChainPhase)
    → ((gather group cp).alerts ≡ cp.alerts ++ group)
      × ((gather group cp).phase ≡ cp.phase)
      × ((gather group cp).count ≡ cp.count)
unfolding gather
gather-alerts [] cp = (sym (append-nil cp.alerts), refl, refl)
gather-alerts (a ∷ group) cp =
    let (e, p, c) = gather-alerts group _ in (e ∙ append_assoc cp.alerts (a ∷ []) group, p, c)

pub chain_phase_lem :
    (p : Phase) (group : List Alert)
    → ((chain_phase p group).alerts ≡ group)
      × ((chain_phase p group).phase ≡ p)
      × ((chain_phase p group).count ≡ length group)
unfolding chain_phase
chain_phase_lem p group = gather-alerts group _

-- How many alerts of all entries pass a test.
abbrev pub count_in : (Alert → Bool) → List ChainPhase → ℕ
count_in p [] = 0
count_in p (cp ∷ cps) = count_if p cp.alerts + count_in p cps

count_over : (Alert → Bool) → List Phase → List Alert → ℕ
count_over t [] alerts = 0
count_over t (p ∷ ps) alerts = count_if t (filter (is_of p) alerts) + count_over t ps alerts

count_over-nil : (t : Alert → Bool) (ps : List Phase) → count_over t ps [] ≡ 0
unfolding count_over
count_over-nil t [] = refl
count_over-nil t (p ∷ ps) = omega (arith, count_over-nil t ps)

count_over-cons :
    (t : Alert → Bool) (ps : List Phase) (a : Alert) (alerts : List Alert)
    → count_over t ps (a ∷ alerts)
      ≡ count_over t ps alerts
        + (if t a then count_if (phase_eq (phase_for_technique a.rule_id)) ps else 0)
unfolding count_over
count_over-cons t [] a alerts = ground arith
count_over-cons t (p ∷ ps) a alerts = ground (arith, count_over-cons t ps a alerts)

count_over-phase_order :
    (t : Alert → Bool) (alerts : List Alert) → count_over t phase_order alerts ≡ count_if t alerts
count_over-phase_order t [] = count_over-nil t phase_order
count_over-phase_order t (a ∷ alerts) =
    let e = count_over-cons t phase_order a alerts in
    let n = count_if-phase_order (phase_for_technique a.rule_id) in
    e ∙ rw n (ground (arith, count_over-phase_order t alerts))

count_in-add_phase :
    (t : Alert → Bool) (p : Phase) (g : List Alert) (cps : List ChainPhase)
    → count_in t (add_phase p g cps) ≡ count_if t g + count_in t cps
count_in-add_phase t p [] cps = omega arith
count_in-add_phase t p (a ∷ g) cps = rw (chain_phase_lem p (a ∷ g)).0

count_in-phases_of :
    (t : Alert → Bool) (ps : List Phase) (alerts : List Alert)
    → count_in t (phases_of ps alerts) ≡ count_over t ps alerts
unfolding phases_of count_over
count_in-phases_of t [] alerts = refl
count_in-phases_of t (p ∷ ps) alerts = omega (
  arith,
  count_in-add_phase t p (filter (is_of p) alerts) (phases_of ps alerts),
  count_in-phases_of t ps alerts,
)

IsEntry-add_phase :
    (p : Phase) (g : List Alert) (cps : List ChainPhase)
    → All (λ a. is_of p a ≡ true) g
    → All IsEntry cps
    → All IsEntry (add_phase p g cps)
IsEntry-add_phase p [] cps h v = v
IsEntry-add_phase p (a ∷ g) cps h v =
    let (e, q, n) = chain_phase_lem p (a ∷ g) in
    (
      record {
        held = omega (arith, ap length e);
        counted = n ∙ sym (ap length e);
        alike =
            subst (λ l. All (HasPhase (chain_phase p (a ∷ g)).phase) l) (sym e)
              (subst (λ r. All (HasPhase r) (a ∷ g)) (sym q)
                (All-map (λ x k. phase_eq_lem (phase_for_technique x.rule_id) p k) (a ∷ g) h));
      },
      v,
    )

phases_of-IsEntry : (ps : List Phase) (alerts : List Alert) → All IsEntry (phases_of ps alerts)
unfolding phases_of
phases_of-IsEntry [] alerts = tt
phases_of-IsEntry (p ∷ ps) alerts =
    IsEntry-add_phase p (filter (is_of p) alerts) (phases_of ps alerts)
      (filter-All (is_of p) alerts) (phases_of-IsEntry ps alerts)

-- The phases that some alert has, in the order of the kill chain.
abbrev pub reached : List Phase → List Alert → List Phase
reached ps alerts = filter (λ p. any (is_of p) alerts) ps

abbrev is_cons : List Alert → Bool
is_cons [] = false
is_cons (a ∷ l) = true

any-filter : (t : Alert → Bool) (alerts : List Alert) → any t alerts ≡ is_cons (filter t alerts)
any-filter t [] = refl
any-filter t (a ∷ alerts) = ground (arith, any-filter t alerts)

phase-add_phase :
    (p : Phase) (g : List Alert) (cps : List ChainPhase)
    → map (λ cp. cp.phase) (add_phase p g cps)
      ≡ (if is_cons g then p ∷ map (λ cp. cp.phase) cps else map (λ cp. cp.phase) cps)
phase-add_phase p [] cps = refl
phase-add_phase p (a ∷ g) cps = rw (chain_phase_lem p (a ∷ g)).1

phases_of-reached :
    (ps : List Phase) (alerts : List Alert)
    → map (λ cp. cp.phase) (phases_of ps alerts) ≡ reached ps alerts
unfolding phases_of
phases_of-reached [] alerts = refl
phases_of-reached (p ∷ ps) alerts =
    phase-add_phase p (filter (is_of p) alerts) (phases_of ps alerts)
    ∙ rw (any-filter (is_of p) alerts, phases_of-reached ps alerts)

count_all : (l : List Alert) → count_if (λ a. true) l ≡ length l
count_all [] = refl
count_all (a ∷ l) = ap suc (count_all l)

total-phases_of : (cps : List ChainPhase) → All IsEntry cps → total cps ≡ count_in (λ a. true) cps
unfolding total
total-phases_of [] v = refl
total-phases_of (cp ∷ cps) v =
    omega (arith, v.0.counted, count_all cp.alerts, total-phases_of cps v.1)

-- Every alert stands in exactly one phase, the one of its rule id read as a technique; `TotalAlerts`
-- is their number; each phase that is listed has an alert and counts its alerts; and those listed are
-- the phases that occur, in the order of the kill chain.
pub build_chain_lem :
    (alerts : List Alert)
    → ((t : Alert → Bool) → count_in t (build_chain alerts).phases ≡ count_if t alerts)
      × ((build_chain alerts).total_alerts ≡ length alerts)
      × All IsEntry (build_chain alerts).phases
      × (map (λ cp. cp.phase) (build_chain alerts).phases ≡ reached phase_order alerts)
unfolding build_chain
build_chain_lem alerts =
    let counts = λ (t : Alert → Bool).
      count_in-phases_of t phase_order alerts ∙ count_over-phase_order t alerts in
    let entries = phases_of-IsEntry phase_order alerts in
    (
      counts,
      total-phases_of (phases_of phase_order alerts) entries
          ∙ counts (λ a. true)
          ∙ count_all alerts,
      entries,
      phases_of-reached phase_order alerts,
    )
