-- ===== src/Edge/Verdict.antt =====
-- internal/edge/edge.go: which events are blocked, in whatever order the policies are walked.
use sentinel_api.Base.{
  ℕ, ◌+◌, ◌-◌, ◌*◌, ◌^◌, min, max, Option, ltb, insert, String, Bool, true, false, ◌&&◌, none, some,
  List, [], ◌∷◌, ◌++◌, ◌≡◌, refl, ◌∙◌, inl, inr, arith, pos, is_blank, any, Map, Bool-cases,
  if◌then◌else◌,
}
use sentinel_api.Event.{NormalizedEvent}
use sentinel_api.Event.Tag
use sentinel_api.Edge.{
  Kind, deny, rate_limit, waf, kind_eq, Policy, Engine, applies, match_policy, Bucket, is_attack,
  values, decide_rate, decide, status_of, contained_tag, count_block, enforce, eval,
}

match_policy-none :
    (kind : Kind) (ip : String) (now : ℕ) (ps : List Policy)
    → any (applies kind ip now) ps ≡ false
    → match_policy kind ip now ps ≡ none
unfolding match_policy
match_policy-none kind ip now [] h = refl
match_policy-none kind ip now (p ∷ ps) h = ground (arith, match_policy-none kind ip now ps)

match_policy-some :
    (kind : Kind) (ip : String) (now : ℕ) (ps : List Policy)
    → any (applies kind ip now) ps ≡ true
    → (p : Policy) × (match_policy kind ip now ps ≡ some p) × (applies kind ip now p ≡ true)
unfolding match_policy
match_policy-some kind ip now [] h = cc
match_policy-some kind ip now (p ∷ ps) h = elim (Bool-cases (applies kind ip now p)) [
  | inl a ↦ (p, rw a, a)
  | inr a ↦ let (q, e, b) = match_policy-some kind ip now ps (rw a at h) in (q, rw a e, b)
]

-- A walk of a map finds what the map holds.
abbrev pub Complete : (Kind → Map Policy → List Policy) → Type 0
Complete visit =
    (k : Kind) (m : Map Policy) (p : Policy → Bool) → any p (visit k m) ≡ any p (values m)

-- The event as it goes on when it is blocked.
abbrev pub contained : Kind → NormalizedEvent → NormalizedEvent
contained k ev = record ev {
  status = pos (status_of k);
  tags = ev.tags ++ Tag.waf_block ∷ contained_tag k ∷ [];
}

-- Some policy of the engine applies.
abbrev pub some_applies : Kind → String → ℕ → Engine → Bool
some_applies k ip now e = any (applies k ip now) (values e.policies)

-- The tokens of a bucket, in units of 10^-9, when they are refilled now, up to the burst; a source
-- without a bucket has all of them.
abbrev pub level : Policy → ℕ → Option Bucket → ℕ
level p now none = p.burst * 10 ^ 9
level p now (some b) =
    if ltb b.last now
    then min (p.burst * 10 ^ 9) (b.tokens + (now - b.last) * p.rate_per_sec)
    else b.tokens

-- When a bucket was last refilled.
abbrev pub filled_at : ℕ → Option Bucket → ℕ
filled_at now none = now
filled_at now (some b) = max b.last now

-- The engine with another bucket of a source.
abbrev pub with_bucket : String → ℕ → ℕ → Engine → Engine
with_bucket ip n at e = record e {
  buckets = insert ip (record { tokens = n; last = at }) e.buckets;
}

any-waf :
    (ip : String) (now : ℕ) (ps : List Policy)
    → any (λ p. kind_eq p.kind waf && is_blank p.target_ip) ps ≡ false
    → any (applies waf "" now) ps ≡ false
unfolding applies
any-waf ip now [] h = refl
any-waf ip now (p ∷ ps) h = ground (arith, any-waf ip now ps)

module _ (visit : Kind → Map Policy → List Policy) (complete : Complete visit) (now : ℕ)
    (ev : NormalizedEvent) (e : Engine) where
  -- An event whose source is denied is blocked with 403 and counted so, whatever else applies and
  -- in whatever order the policies are walked.
  pub eval_denied :
      some_applies deny ev.src_ip now e ≡ true
      → eval visit now ev e ≡ (true, contained deny ev, count_block deny e)
  unfolding eval decide enforce
  eval_denied h =
      let (p, f, a) = match_policy-some deny ev.src_ip now _ (complete deny e.policies _ ∙ h) in
      rw f

  -- Without a denial or a rate limit for its source an event is blocked exactly if a WAF policy
  -- without a target is in force and the event carries an attack tag; otherwise neither the event
  -- nor the engine changes.
  pub eval_unlimited :
      some_applies deny ev.src_ip now e ≡ false
      → some_applies rate_limit ev.src_ip now e ≡ false
      → eval visit now ev e ≡ (
          if some_applies waf "" now e && is_attack ev
          then (true, contained waf ev, count_block waf e)
          else (false, ev, e))
  unfolding eval decide decide_rate enforce
  eval_unlimited h k =
      let not_denied = match_policy-none deny ev.src_ip now _ (complete deny e.policies _ ∙ h) in
      let not_limited =
        match_policy-none rate_limit ev.src_ip now _ (complete rate_limit e.policies _ ∙ k) in
      elim (Bool-cases (some_applies waf "" now e)) [
        | inr w ↦ rw (
          not_denied,
          not_limited,
          match_policy-none waf "" now _ (complete waf e.policies _ ∙ w),
          w,
        )
        | inl w ↦
            let (p, f, a) = match_policy-some waf "" now _ (complete waf e.policies _ ∙ w) in
            elim (Bool-cases (is_attack ev)) [
              | inl b ↦ rw (not_denied, not_limited, f, w, b)
              | inr b ↦ rw (not_denied, not_limited, f, w, b)
            ]
      ]

  -- WAF policies that all have a target block nothing: without a denial or a rate limit the event
  -- passes unchanged, whatever its tags.
  pub eval_targeted_waf :
      any (λ p. kind_eq p.kind waf && is_blank p.target_ip) (values e.policies) ≡ false
      → some_applies deny ev.src_ip now e ≡ false
      → some_applies rate_limit ev.src_ip now e ≡ false
      → eval visit now ev e ≡ (false, ev, e)
  eval_targeted_waf w h k = eval_unlimited h k ∙ rw (any-waf "" now (values e.policies) w)
