-- ===== src/Edge/Rate.antt =====
-- internal/edge/edge.go: what a token bucket lets through over time.
use sentinel_api.Base.{
  ℕ, zero, All, none, ap, suc, ◌+◌, ◌-◌, ◌*◌, ◌≤◌, ◌<◌, true, List, [], ◌∷◌, ◌≡◌, arith,
  if◌then◌else◌,
}
use sentinel_api.Edge.{Policy, Bucket, draw, bucket_of, unit_token}

-- The bucket after draws at the given times, and how many of them it granted.
pub draws : Policy → List ℕ → Bucket → ℕ × Bucket
draws p [] b = (0, b)
draws p (t ∷ ts) b =
    let (ok, c) = draw p t b in let (n, d) = draws p ts c in (if ok then suc n else n, d)

-- One draw: the tokens stay within the burst, the clock of the bucket does not go back, and what is
-- spent was there or was refilled at the policy's rate.
record Draws (p : Policy) (b : Bucket) (granted : ℕ) (c : Bucket) : Type 0 where
  capped : b.tokens ≤ p.burst * unit_token → c.tokens ≤ p.burst * unit_token
  forward : b.last ≤ c.last
  paid : c.tokens + granted * unit_token ≤ b.tokens + (c.last - b.last) * p.rate_per_sec

draw-Draws :
    (p : Policy) (t : ℕ) (b : Bucket) → Draws p b (if (draw p t b).0 then 1 else 0) (draw p t b).1
unfolding draw
draw-Draws p t b = record {
  capped = λ h. ground arith;
  forward = ground arith;
  paid = ground arith;
}

draw-last :
    (p : Policy) (t end : ℕ) (b : Bucket) → b.last ≤ end → t ≤ end → (draw p t b).1.last ≤ end
unfolding draw
draw-last p t end b h k = ground arith

rate_split : (x y z r : ℕ) → x ≤ y → y ≤ z → (y - x) * r + (z - y) * r ≡ (z - x) * r
rate_split x y z r h k =
    let whole : z - x ≡ (y - x) + (z - y) = omega arith in
    omega (arith, ap (λ (t : ℕ). t * r) whole)

draws-Draws : (p : Policy) (ts : List ℕ) (b : Bucket) → Draws p b (draws p ts b).0 (draws p ts b).1
unfolding draws
draws-Draws p [] b = record { capped = λ h. h; forward = omega arith; paid = omega arith }
draws-Draws p (t ∷ ts) b =
    let v = draw-Draws p t b in
    let w = draws-Draws p ts (draw p t b).1 in
    let s =
      rate_split b.last (draw p t b).1.last (draws p ts (draw p t b).1).1.last p.rate_per_sec
        v.forward w.forward in
    record {
      capped = λ h. w.capped (v.capped h);
      forward = omega (arith, v.forward, w.forward);
      paid = ground (arith, v.paid, w.paid, s);
    }

draws-last :
    (p : Policy) (end : ℕ) (ts : List ℕ) (b : Bucket)
    → b.last ≤ end
    → All (λ t. t ≤ end) ts
    → (draws p ts b).1.last ≤ end
unfolding draws
draws-last p end [] b h a = h
draws-last p end (t ∷ ts) b h a = draws-last p end ts _ (draw-last p t end b h a.0) a.1

-- Of any draws between the making of a bucket and a later time, in whatever order, those granted
-- number at most the burst and what the policy's rate gives over that time; and the bucket never
-- holds more than the burst.
pub draws_bounded :
    (p : Policy) (start end : ℕ) (ts : List ℕ)
    → start ≤ end
    → All (λ t. t ≤ end) ts
    → let (granted, b) = draws p ts (bucket_of p start none) in
      (granted * unit_token ≤ p.burst * unit_token + (end - start) * p.rate_per_sec)
      × (b.tokens ≤ p.burst * unit_token)
unfolding bucket_of
draws_bounded p start end ts h a =
    let b = bucket_of p start none in
    let v = draws-Draws p ts b in
    let last = draws-last p end ts b h a in
    let s = rate_split start (draws p ts b).1.last end p.rate_per_sec v.forward last in
    (omega (arith, v.paid, s), v.capped (omega arith))

positive_factor : (x r : ℕ) → 0 < x * r → 0 < x
positive_factor zero r h = absurd (omega arith)
positive_factor (suc x) r h = omega arith

-- A draw is granted once the time since the last refill is worth a token, if the burst is not 0.
pub draw_refilled :
    (p : Policy) (t : ℕ) (b : Bucket)
    → 0 < p.burst
    → unit_token ≤ (t - b.last) * p.rate_per_sec
    → (draw p t b).0 ≡ true
unfolding draw
draw_refilled p t b h k = ground (arith, positive_factor (t - b.last) p.rate_per_sec)
