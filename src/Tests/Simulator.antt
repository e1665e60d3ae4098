-- ===== src/Tests/Simulator.antt =====
-- internal/ingest/simulator.go: a small generator, whose state is its next number.
use sentinel_api.Base.{ℕ, ◌+◌, ◌*◌, ◌%◌, String, List, [], ◌∷◌, ◌≡◌, arith, ltb}
use native.Mathlib.Nat.{mod-lt}
use sentinel_api.Ingest.Simulator.Random.{Random, InRange, done}
use sentinel_api.Ingest.Simulator.Live.{ticks}
use sentinel_api.Ingest.Simulator.Ends.{Ticked, ticks_end}
use sentinel_api.Ingest.Value.{RawLog}

-- The float in hundredths.
abbrev small : Random
small = record {
  State = ℕ;
  intn = λ n s. (s % n, (s * 5 + 3) % 1024);
  Float = ℕ;
  float64 = λ s. (s % 100, (s * 5 + 3) % 1024);
  below = λ x n. ltb x n;
  above = λ x n. ltb n x;
}

small-InRange : InRange small
small-InRange n s h = mod-lt s h

abbrev gateways : List String
gateways = "www-01" ∷ "api-gw-01" ∷ []

ticks_end_example :
    (out : ℕ × List RawLog) × (s' : ℕ) × (ticks small gateways (λ n. "9000") 100 0 [] 7
      ≡ done out s')
    × Ticked 100 [] out
ticks_end_example =
    ticks_end small small-InRange gateways (omega arith) (λ n. "9000") 100 0 [] (omega arith) 7
