-- ===== src/Ingest/Simulator/Ends.antt =====
-- internal/ingest/simulator.go: a burst and a tick of `loop` end.
use sentinel_api.Base.{
  ℕ, zero, suc, ◌+◌, ◌-◌, ◌*◌, ◌≤◌, ◌<◌, String, List, [], ◌∷◌, ◌++◌, ◌≡◌, refl, sym, ◌∙◌, ap,
  arith, ◌⊎◌, inl, inr, length, All, All-map, All-append, length-append, ltb, ltb→lt,
}
use mathlib.Core.List.{append_assoc, append-nil}
use sentinel_api.Ingest.Value.{RawLog}
use sentinel_api.Ingest.Simulator.Random.{Random, InRange, done, draw_int}
use sentinel_api.Ingest.Simulator.Traffic.{legit_request, attack_event}
use sentinel_api.Ingest.Simulator.Live.{
  burst, follow_up, countdown_after, attack_burst, ordinary, tick_on, tick, ticks,
}
use sentinel_api.Ingest.Simulator.Yields.{
  Yields, Yields-pure, Yields-bind, Yields-int, Yields-map, float_any, if_yields, when_yields,
}
use sentinel_api.Ingest.Simulator.Kinds.{
  IsOrdinary, IsAttack, legit_request-IsOrdinary, attack_event-IsAttack,
}

-- Attacks were appended, which with the i before make at least 3 and at most 8.
record Attacked (i : ℕ) (sent sent' : List RawLog) : Type 0 where
  pub raws : List RawLog
  pub appended : sent' ≡ sent ++ raws
  pub attacks : All IsAttack raws
  pub at_least : 3 ≤ i + length raws
  pub at_most : i + length raws ≤ 8

-- An attack or an ordinary request.
abbrev pub IsTraffic : RawLog → Type 0
IsTraffic raw = IsAttack raw ⊎ IsOrdinary raw

-- After n ticks: events were appended, at least one and at most 8 for each tick, and the countdown is
-- at most 13.
pub record Ticked (n : ℕ) (sent : List RawLog) (out : ℕ × List RawLog) : Type 0 where
  pub raws : List RawLog
  pub appended : out.1 ≡ sent ++ raws
  pub traffic : All IsTraffic raws
  pub at_least : n ≤ length raws
  pub at_most : length raws ≤ n * 8
  pub countdown : out.0 ≤ 13

one_event :
    (sent : List RawLog) (c : ℕ) (raw : RawLog)
    → c ≤ 13
    → IsTraffic raw
    → Ticked 1 sent (c, sent ++ raw ∷ [])
one_event sent c raw few kind = record {
  raws = raw ∷ [];
  appended = refl;
  traffic = (kind, tt);
  at_least = omega arith;
  at_most = omega arith;
  countdown = few;
}

Attacked-Ticked :
    (sent sent' : List RawLog) (c : ℕ) → c ≤ 13 → Attacked 0 sent sent' → Ticked 1 sent (c, sent')
Attacked-Ticked sent sent' c few a = record {
  raws = a.raws;
  appended = a.appended;
  traffic = All-map (λ raw bad. inl bad) a.raws a.attacks;
  at_least = omega (arith, a.at_least);
  at_most = omega (arith, a.at_most);
  countdown = few;
}

Ticked-step :
    (n : ℕ) (sent : List RawLog) (mid out : ℕ × List RawLog)
    → Ticked 1 sent mid
    → Ticked n mid.1 out
    → Ticked (suc n) sent out
Ticked-step n sent mid out a b = record {
  raws = a.raws ++ b.raws;
  appended = b.appended ∙ ap (λ l. l ++ b.raws) a.appended ∙ append_assoc sent a.raws b.raws;
  traffic = All-append IsTraffic a.raws b.raws a.traffic b.traffic;
  at_least = omega (arith, a.at_least, b.at_least, length-append a.raws b.raws);
  at_most = omega (arith, a.at_most, b.at_most, length-append a.raws b.raws);
  countdown = b.countdown;
}

module _ (R : Random) (range : InRange R) (assets : List String) (h : 0 < length assets)
    (sprint : ℕ → String) where
  one_more :
      (i : ℕ) (sent sent' : List RawLog) (raw : RawLog)
      → IsAttack raw
      → Attacked (suc i) (sent ++ raw ∷ []) sent'
      → Attacked i sent sent'
  one_more i sent sent' raw bad a = record {
    raws = raw ∷ a.raws;
    appended = a.appended ∙ append_assoc sent (raw ∷ []) a.raws;
    attacks = (bad, a.attacks);
    at_least = omega (arith, a.at_least);
    at_most = omega (arith, a.at_most);
  }

  -- From a round i up to 8 on, fuel for the rounds up to the ninth is enough, whatever is drawn.
  burst_ends :
      (fuel i : ℕ) (sent : List RawLog)
      → 9 ≤ fuel + i
      → i ≤ 8
      → Yields R (Attacked i sent) (burst R assets sprint fuel i sent)
  unfolding burst
  burst_ends zero i sent enough few = absurd (omega arith)
  burst_ends (suc fuel) i sent enough few =
      Yields-bind R (λ k. k < 6) (Attacked i sent) (draw_int R 6) _
        (Yields-int R range 6 (omega arith))
        (λ k below.
          when_yields R (ltb i (3 + k))
            (λ more.
              Yields-bind R IsAttack (Attacked i sent) (attack_event R assets sprint) _
                (attack_event-IsAttack R range assets h sprint)
                (λ raw bad.
                  Yields-map R (Attacked (suc i) (sent ++ raw ∷ [])) (Attacked i sent)
                    (burst R assets sprint fuel (suc i) (sent ++ raw ∷ []))
                    (λ sent'. one_more i sent sent' raw bad)
                    (burst_ends fuel (suc i) (sent ++ raw ∷ []) (omega arith)
                      (let lt = ltb→lt i (3 + k) more in omega arith))))
            (λ over. Yields-pure R (Attacked i sent) sent record {
              raws = [];
              appended = sym (append-nil sent);
              attacks = tt;
              at_least = ground arith;
              at_most = ground arith;
            }))

  follow_up-Ticked :
      (c : ℕ) (sent : List RawLog)
      → c ≤ 13
      → Yields R (Ticked 1 sent) (follow_up R assets sprint c sent)
  unfolding follow_up
  follow_up-Ticked c sent few =
      Yields-bind R IsAttack (Ticked 1 sent) (attack_event R assets sprint) _
        (attack_event-IsAttack R range assets h sprint)
        (λ raw bad.
          Yields-pure R (Ticked 1 sent) (c - 1, sent ++ raw ∷ [])
            (one_event sent (c - 1) raw (omega arith) (inl bad)))

  ordinary-Ticked :
      (c : ℕ) (sent : List RawLog)
      → c ≤ 13
      → Yields R (Ticked 1 sent) (ordinary R assets sprint c sent)
  unfolding ordinary
  ordinary-Ticked c sent few =
      Yields-bind R IsOrdinary (Ticked 1 sent) (legit_request R assets) _
        (legit_request-IsOrdinary R range assets h)
        (λ raw good.
          Yields-pure R (Ticked 1 sent) (c, sent ++ raw ∷ []) (one_event sent c raw few (inr good)))

  countdown_after-Ticked :
      (c : ℕ) (sent sent' : List RawLog) (y : R.Float)
      → c ≤ 13
      → Attacked 0 sent sent'
      → Yields R (Ticked 1 sent) (countdown_after R assets sprint c sent' y)
  unfolding countdown_after
  countdown_after-Ticked c sent sent' y few a =
      if_yields R (R.below y 35)
        (Yields-bind R (λ k. k < 10) (Ticked 1 sent) (draw_int R 10) _
          (Yields-int R range 10 (omega arith))
          (λ k below.
            Yields-pure R (Ticked 1 sent) (4 + k, sent')
              (Attacked-Ticked sent sent' (4 + k) (omega arith) a)))
        (Yields-pure R (Ticked 1 sent) (c, sent') (Attacked-Ticked sent sent' c few a))

  attack_burst-Ticked :
      (c : ℕ) (sent : List RawLog)
      → c ≤ 13
      → Yields R (Ticked 1 sent) (attack_burst R assets sprint c sent)
  unfolding attack_burst
  attack_burst-Ticked c sent few =
      Yields-bind R (Attacked 0 sent) (Ticked 1 sent) (burst R assets sprint 9 0 sent) _
        (burst_ends 9 0 sent (omega arith) (omega arith))
        (λ sent' a.
          float_any R (Ticked 1 sent) (countdown_after R assets sprint c sent')
            (λ y. countdown_after-Ticked c sent sent' y few a))

  tick-Ticked :
      (c : ℕ) (sent : List RawLog) → c ≤ 13 → Yields R (Ticked 1 sent) (tick R assets sprint c sent)
  unfolding tick tick_on
  tick-Ticked c sent few = float_any R (Ticked 1 sent) (tick_on R assets sprint c sent) (λ x.
      if_yields R (ltb 0 c) (follow_up-Ticked c sent few)
        (if_yields R (R.below x 16) (attack_burst-Ticked c sent few) (ordinary-Ticked c sent few)))

  -- With draws in their range, at least one asset and a countdown of at most 13, any number of ticks
  -- ends without a panic and within the fuel of its bursts, whatever is drawn: each tick has sent at
  -- least one and at most 8 events, each an attack with its tag or an ordinary request without any.
  pub ticks_end :
      (n c : ℕ) (sent : List RawLog)
      → c ≤ 13
      → (s : R.State)
      → (out : ℕ × List RawLog) × (s' : R.State) × (ticks R assets sprint n c sent s ≡ done out s')
        × Ticked n sent out
  unfolding ticks
  ticks_end zero c sent few =
      Yields-pure R (Ticked 0 sent) (c, sent)
        record {
          raws = [];
          appended = sym (append-nil sent);
          traffic = tt;
          at_least = omega arith;
          at_most = omega arith;
          countdown = few;
        }
  ticks_end (suc n) c sent few =
      Yields-bind R (Ticked 1 sent) (Ticked (suc n) sent) (tick R assets sprint c sent) _
        (tick-Ticked c sent few)
        (λ mid a.
          Yields-map R (Ticked n mid.1) (Ticked (suc n) sent) (ticks R assets sprint n mid.0 mid.1)
            (λ out b. Ticked-step n sent mid out a b) (ticks_end n mid.0 mid.1 a.countdown))
