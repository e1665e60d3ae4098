-- ===== src/Server/Control/Effects.antt =====
-- internal/server/analysis_handlers.go: what a deployed control does to the traffic.
use sentinel_api.Base.{
  ℕ, String, Bool, true, false, ◌&&◌, Option, none, some, List, [], ◌∷◌, ◌≡◌, ◌≢◌, refl, ◌∙◌, sym,
  inl, inr, arith, subst, str_eq, str_eq_iff, is_blank, any, Map, lookup, insert, lookup-insert,
  lookup-delete, Bool-cases,
}
use sentinel_api.Event.{NormalizedEvent}
use sentinel_api.Containment.{
  ControlType, block_ip, waf_rule, revoke, revoke_found, revoked, Containment, Result, ◌>>=◌, ok,
  err, Lifetime, Items,
}
use sentinel_api.Containment.Life.{Deployed, deploy_ok}
use sentinel_api.Edge.{
  Kind, deny, waf, kind_eq, Policy, Engine, install, remove, applies, values, is_expired, eval,
  count_block,
}
use sentinel_api.Edge.Verdict.{Complete, contained, some_applies, eval_denied, eval_targeted_waf}
use sentinel_api.Server.Control.{
  edge_policy_for, deploy_control, revoke_control, or_text, with_policy,
}

any-insert :
    (p : Policy → Bool) (k : String) (v : Policy) (m : Map Policy)
    → (p v ≡ true → any p (values (insert k v m)) ≡ true)
      × (p v ≡ false → any p (values m) ≡ false → any p (values (insert k v m)) ≡ false)
unfolding insert
any-insert p k v [] = (λ h. rw h, λ h n. rw h)
any-insert p k v ((j, w) ∷ m) = ground (arith, any-insert p k v m)

some_applies-install :
    (k : Kind) (ip : String) (now : ℕ) (p : Policy) (e : Engine)
    → is_blank p.source_id ≡ false
    → (applies k ip now p ≡ true → some_applies k ip now (install p e) ≡ true)
      × (applies k ip now p ≡ false
          → some_applies k ip now e ≡ false
          → some_applies k ip now (install p e) ≡ false)
unfolding install applies
some_applies-install k ip now p e h = rw h (any-insert _ p.source_id _ e.policies)

control_applies :
    (ip : String) (now : ℕ) (c : Containment)
    → c.type ≡ block_ip
    → ip ≡ c.target_ip
    → is_expired now c.expires_at ≡ false
    → applies deny ip now (edge_policy_for c) ≡ true
unfolding applies edge_policy_for
control_applies ip now c ty from live =
    rw (ty, from, live) (ground (arith, str_eq_iff c.target_ip c.target_ip))

control_spares :
    (ip : String) (now : ℕ) (c : Containment)
    → c.type ≡ waf_rule
    → (applies deny ip now (edge_policy_for c) ≡ false)
      × (applies Kind.rate_limit ip now (edge_policy_for c) ≡ false)
unfolding applies edge_policy_for
control_spares ip now c ty = (rw ty, rw ty)

abbrev untargeted_waf : Policy → Bool
untargeted_waf p = kind_eq p.kind waf && is_blank p.target_ip

untargeted-install :
    (c : Containment) (e : Engine)
    → c.type ≡ waf_rule
    → {target : String} → target ≢ ""
    → c.target_ip ≡ target
    → is_blank (edge_policy_for c).source_id ≡ false
    → any untargeted_waf (values e.policies) ≡ false
    → any untargeted_waf (values (install (edge_policy_for c) e).policies) ≡ false
unfolding install edge_policy_for
untargeted-install c e ty {target} n aimed named u =
    let set : is_blank c.target_ip ≡ false = ground (arith, str_eq_iff c.target_ip "") in
    rw named ((any-insert untargeted_waf c.id _ e.policies).1 (rw (ty, set)) u)

installed :
    (e e' : Engine) (c : Containment) (items' : Items) (r : Result (Containment × Items))
    → (r >>= with_policy e) ≡ ok (c, items', e')
    → (r ≡ ok (c, items')) × (e' ≡ install (edge_policy_for c) e)
unfolding with_policy
installed e e' c items' (ok (d, items'')) h = (cc, cc)
installed e e' c items' (err x) h = cc

module _ (parse : String → Option Lifetime) (now : ℕ) (i target direction duration : String)
    (enforcement note : String) (ids : List String) (items : Items) (e : Engine) where
  deployed :
      (type : ControlType) (c : Containment) (items' : Items) (e' : Engine)
      → deploy_control parse now i type target direction duration enforcement note ids items e
        ≡ ok (c, items', e')
      → (d : Deployed now i type target (parse (or_text duration "24h")) items c items') × (e'
          ≡ install (edge_policy_for c) e)
  unfolding deploy_control
  deployed type c items' e' h =
      let (q, same) = installed e e' c items' _ h in
      (deploy_ok parse now i type target _ _ _ _ ids items c items' q, same)

  -- Once the handler has deployed a block for a source under an id that is not empty, the edge blocks
  -- every event of that source with 403, in whatever order it walks its policies, until the control
  -- expires.
  pub deploy_blocks :
      (c : Containment) (items' : Items) (e' : Engine)
      → is_blank i ≡ false
      → deploy_control parse now i block_ip target direction duration enforcement note ids items e
        ≡ ok (c, items', e')
      → (visit : Kind → Map Policy → List Policy) (later : ℕ) (ev : NormalizedEvent)
      → Complete visit
      → ev.src_ip ≡ target
      → is_expired later c.expires_at ≡ false
      → eval visit later ev e' ≡ (true, contained deny ev, count_block deny e')
  deploy_blocks c items' e' n h visit later ev complete from live =
      let (d, same) = deployed block_ip c items' e' h in
      let named : is_blank (edge_policy_for c).source_id ≡ false =
        unfold edge_policy_for in rw d.named n in
      eval_denied visit complete later ev e' (
        rw same (
          (some_applies-install deny ev.src_ip later (edge_policy_for c) e named).0
            (control_applies ev.src_ip later c d.typed (from ∙ sym d.aimed) live)))

  -- A deployed WAF control blocks nothing: if no WAF policy without a target was in force, and no
  -- denial and no rate limit applies to an event before, the event passes unchanged after the
  -- deployment, whatever its tags and its source.
  pub deploy_waf_inert :
      (c : Containment) (items' : Items) (e' : Engine)
      → is_blank i ≡ false
      → deploy_control parse now i waf_rule target direction duration enforcement note ids items e
        ≡ ok (c, items', e')
      → (visit : Kind → Map Policy → List Policy) (later : ℕ) (ev : NormalizedEvent)
      → Complete visit
      → any untargeted_waf (values e.policies) ≡ false
      → some_applies deny ev.src_ip later e ≡ false
      → some_applies Kind.rate_limit ev.src_ip later e ≡ false
      → eval visit later ev e' ≡ (false, ev, e')
  deploy_waf_inert c items' e' n h visit later ev complete u de ra =
      let (d, same) = deployed waf_rule c items' e' h in
      let named : is_blank (edge_policy_for c).source_id ≡ false =
        unfold edge_policy_for in rw d.named n in
      let other = control_spares ev.src_ip later c d.typed in
      eval_targeted_waf visit complete later ev e'
        (rw same (untargeted-install c e d.typed d.not_blank d.aimed named u))
        (rw same
          ((some_applies-install deny ev.src_ip later (edge_policy_for c) e named).1 other.0 de))
        (rw same (
          (some_applies-install Kind.rate_limit ev.src_ip later (edge_policy_for c) e named).1
            other.1 ra))

  -- A control of any type, deployed under a new id that is not empty, can be revoked at any later
  -- time; that marks it revoked, and afterwards the edge finds the policies it had before the
  -- deployment.
  pub revoke_deploy :
      (type : ControlType) (c : Containment) (items' : Items) (e' : Engine) (later : ℕ)
      → is_blank i ≡ false
      → lookup i e.policies ≡ none
      → deploy_control parse now i type target direction duration enforcement note ids items e
        ≡ ok (c, items', e')
      → (c' : Containment) × (items'' : Items) × (e'' : Engine) × (revoke_control later i items' e'
          ≡ ok (c', items'', e''))
        × (c'.status ≡ revoked)
        × ((j : String) → lookup j e''.policies ≡ lookup j e.policies)
  unfolding revoke_control revoke revoke_found remove install edge_policy_for
  revoke_deploy type c items' e' later n new h =
      let (d, same) = deployed type c items' e' h in
      let found : lookup i items' ≡ some c =
        rw (d.stored, lookup-insert, (str_eq_iff i i).1 refl) in
      (
        record c { status = revoked; revoked_at = some later },
        insert i (record c { status = revoked; revoked_at = some later }) items',
        remove c.id e',
        rw (found, d.live),
        refl,
        λ j.
            rw (same, d.named, n, lookup-delete, lookup-insert)
              (elim (Bool-cases (str_eq i j)) [
                | inl q ↦
                    rw q (subst (λ k. none ≡ lookup k e.policies) ((str_eq_iff i j).0 q) (sym new))
                | inr q ↦ rw q
              ]),
      )
