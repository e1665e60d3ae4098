-- ===== src/Edge/Counters.antt =====
-- internal/edge/edge.go: the counters of blocked events.
use sentinel_api.Base.{
  ℕ, ◌+◌, String, Option, none, some, List, if◌then◌else◌, ◌≡◌, refl, arith, Map,
}
use sentinel_api.Event.{NormalizedEvent}
use sentinel_api.Edge.{
  Kind, Policy, Engine, install, remove, allow, decide_rate, decide, count_block, enforce, eval,
}

-- The total is the sum over the reasons.
abbrev pub IsBalanced : Engine → Type 0
IsBalanced e = e.blocked ≡ e.by_deny + e.by_rate_limit + e.by_waf

decide-counts :
    (d r w : Option Policy) (ev : NormalizedEvent) (now : ℕ) (e : Engine)
    → let e' = (decide d r w ev now e).1 in
      (e'.blocked ≡ e.blocked)
      × (e'.by_deny ≡ e.by_deny)
      × (e'.by_rate_limit ≡ e.by_rate_limit)
      × (e'.by_waf ≡ e.by_waf)
unfolding decide decide_rate allow
decide-counts (some d) r w ev now e = (refl, refl, refl, refl)
decide-counts none (some r) w ev now e = (refl, refl, refl, refl)
decide-counts none none (some w) ev now e = (refl, refl, refl, refl)
decide-counts none none none ev now e = (refl, refl, refl, refl)

enforce-counts :
    (ev : NormalizedEvent) (k : Option Kind) (e : Engine)
    → IsBalanced e
    → let (b, ev', e') = enforce ev (k, e) in
      IsBalanced e' × (e'.blocked ≡ e.blocked + (if b then 1 else 0))
unfolding enforce count_block
enforce-counts ev none e h = (h, omega arith)
enforce-counts ev (some k) e h = ground arith

decided-counts :
    (r : Option Kind × Engine) (ev : NormalizedEvent) (e : Engine)
    → IsBalanced e
    → (r.1.blocked ≡ e.blocked)
      × (r.1.by_deny ≡ e.by_deny)
      × (r.1.by_rate_limit ≡ e.by_rate_limit)
      × (r.1.by_waf ≡ e.by_waf)
    → let (b, ev', e') = enforce ev r in
      IsBalanced e' × (e'.blocked ≡ e.blocked + (if b then 1 else 0))
decided-counts (k, e') ev e h (t, d, r, w) =
    let v = enforce-counts ev k e' (omega arith) in (v.0, omega (arith, v.1))

pub eval-counts :
    (visit : Kind → Map Policy → List Policy) (now : ℕ) (ev : NormalizedEvent) (e : Engine)
    → IsBalanced e
    → let (b, ev', e') = eval visit now ev e in
      IsBalanced e' × (e'.blocked ≡ e.blocked + (if b then 1 else 0))
unfolding eval
eval-counts visit now ev e h = decided-counts _ ev e h (decide-counts _ _ _ ev now e)

-- If the total of blocked events is the sum over the reasons, every evaluation keeps that so and
-- adds to the total exactly for a blocked event; installing and removing policies keeps both.
pub counters_lem :
    (visit : Kind → Map Policy → List Policy) (now : ℕ) (ev : NormalizedEvent) (e : Engine)
    (p : Policy) (i : String)
    → IsBalanced e
    → (let (b, ev', e') = eval visit now ev e in
        IsBalanced e' × (e'.blocked ≡ e.blocked + (if b then 1 else 0)))
      × (IsBalanced (install p e) × ((install p e).blocked ≡ e.blocked))
      × (IsBalanced (remove i e) × ((remove i e).blocked ≡ e.blocked))
unfolding install remove
counters_lem visit now ev e p i h = (eval-counts visit now ev e h, ground arith, (h, refl))
