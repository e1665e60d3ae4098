-- ===== src/Tests/Edge.antt =====
-- internal/edge/edge.go: an engine with a denial, a rate limit and a WAF policy.
use sentinel_api.Base.{
  ◌+◌, ◌-◌, ◌*◌, ◌≤◌, String, true, false, ◌&&◌, none, List, [], ◌∷◌, ◌≡◌, refl, arith, Map,
  if◌then◌else◌,
}
use sentinel_api.Edge.{
  Kind, deny, rate_limit, waf, Policy, Engine, install, remove, applies, draw, bucket_of, is_attack,
  values, count_block, eval, unit_token,
}
use sentinel_api.Edge.Verdict.{Complete, contained, some_applies, eval_denied, eval_unlimited}
use sentinel_api.Edge.Rate.{draws, draws_bounded, draw_refilled}
use sentinel_api.Edge.Counters.{IsBalanced, counters_lem}
use sentinel_api.Tests.Fixtures.{second_ns, probe}

abbrev pub in_order : Kind → Map Policy → List Policy
in_order k m = values m

pub in_order-Complete : Complete in_order
in_order-Complete k m p = refl

abbrev pub policy : String → Kind → String → Policy
policy i k ip = record {
  source_id = i;
  kind = k;
  target_ip = ip;
  enforcement = "";
  rate_per_sec = 2;
  burst = 5;
  expires_at = none;
}

abbrev engine_of : Map Policy → Engine
engine_of m = record {
  policies = m;
  buckets = [];
  blocked = 0;
  by_deny = 0;
  by_rate_limit = 0;
  by_waf = 0;
}

abbrev denying : Engine
denying = engine_of (("w", policy "w" waf "") ∷ ("d", policy "d" deny "9.9.9.9") ∷ [])

abbrev limiting : Engine
limiting = engine_of (("r", policy "r" rate_limit "9.9.9.9") ∷ [])

abbrev shielding : Engine
shielding = engine_of (("w", policy "w" waf "") ∷ [])

abbrev aiming : Engine
aiming = engine_of (("w", policy "w" waf "9.9.9.9") ∷ [])

eval_denied_example :
    eval in_order 5 probe denying ≡ (true, contained deny probe, count_block deny denying)
unfolding applies
eval_denied_example = eval_denied in_order in_order-Complete 5 probe denying refl

eval_unlimited_example : eval in_order 5 probe shielding ≡ (
    if some_applies waf "" 5 shielding && is_attack probe
    then (true, contained waf probe, count_block waf shielding)
    else (false, probe, shielding))
unfolding applies
eval_unlimited_example = eval_unlimited in_order in_order-Complete 5 probe shielding refl refl

abbrev limit_two : Policy
limit_two = policy "r" rate_limit "9.9.9.9"

draws_bounded_example :
    let (granted, b) = draws limit_two (1 ∷ 3 ∷ 2 ∷ []) (bucket_of limit_two 1 none) in
    (granted * unit_token ≤ 5 * unit_token + (9 - 1) * 2) × (b.tokens ≤ 5 * unit_token)
draws_bounded_example =
    draws_bounded limit_two 1 9 (1 ∷ 3 ∷ 2 ∷ []) (omega arith)
      (omega arith, (omega arith, (omega arith, tt)))

draw_refilled_example : (draw limit_two second_ns (record { tokens = 0; last = 0 })).0 ≡ true
draw_refilled_example =
    draw_refilled limit_two second_ns (record { tokens = 0; last = 0 }) (omega arith) (omega arith)

counters_lem_example :
    (let (b, ev', e') = eval in_order 5 probe denying in
      IsBalanced e' × (e'.blocked ≡ 0 + (if b then 1 else 0)))
    × (IsBalanced (install limit_two denying) × ((install limit_two denying).blocked ≡ 0))
    × (IsBalanced (remove "w" denying) × ((remove "w" denying).blocked ≡ 0))
counters_lem_example = counters_lem in_order 5 probe denying limit_two "w" refl
