-- ===== src/Ingest/Simulator/Live.antt =====
-- internal/ingest/simulator.go: a tick of `loop`. What `emit` hands over is appended to a list; after
-- Stop it may be lost instead. The number of events of a burst is drawn anew in each round.
use sentinel_api.Base.{ℕ, zero, suc, ◌+◌, ◌-◌, String, List, [], ◌∷◌, ◌++◌, ltb, if◌then◌else◌}
use sentinel_api.Ingest.Value.{RawLog}
use sentinel_api.Ingest.Simulator.Random.{
  Random, Draw, out_of_fuel, draw_int, draw_float, ◌>>=◌, pure,
}
use sentinel_api.Ingest.Simulator.Traffic.{legit_request, attack_event}

module _ (R : Random) (assets : List String) (sprint : ℕ → String) where
  abbrev give_up : {A : Type 0} → Draw R A
  give_up s = out_of_fuel

  -- `for i := 0; i < 3+s.rnd.Intn(6); i++ { s.attackEvent() }`, from the round i on.
  unfoldable pub burst : ℕ → ℕ → List RawLog → Draw R (List RawLog)
  unfolding draw_int attack_event
  burst zero i sent = give_up
  burst (suc fuel) i sent = do
    k ← draw_int R 6
    if ltb i (3 + k)
        then (attack_event R assets sprint >>= λ raw. burst fuel (suc i) (sent ++ raw ∷ []))
        else pure sent

  -- The cases of a tick: what it leaves of the countdown, and what it has sent.
  unfoldable pub follow_up : ℕ → List RawLog → Draw R (ℕ × List RawLog)
  unfolding attack_event
  follow_up countdown sent = do
    raw ← attack_event R assets sprint
    pure (countdown - 1, sent ++ raw ∷ [])

  unfoldable pub countdown_after : ℕ → List RawLog → R.Float → Draw R (ℕ × List RawLog)
  unfolding draw_int
  countdown_after countdown sent y =
      if R.below y 35 then (draw_int R 10 >>= λ k. pure (4 + k, sent)) else pure (countdown, sent)

  unfoldable pub attack_burst : ℕ → List RawLog → Draw R (ℕ × List RawLog)
  unfolding burst draw_float countdown_after
  attack_burst countdown sent = do
    sent' ← burst 9 0 sent
    y ← draw_float R
    countdown_after countdown sent' y

  unfoldable pub ordinary : ℕ → List RawLog → Draw R (ℕ × List RawLog)
  unfolding legit_request
  ordinary countdown sent = do raw ← legit_request R assets; pure (countdown, sent ++ raw ∷ [])

  unfoldable pub tick_on : ℕ → List RawLog → R.Float → Draw R (ℕ × List RawLog)
  unfolding follow_up attack_burst ordinary
  tick_on countdown sent x =
      if ltb 0 countdown
      then follow_up countdown sent
      else if R.below x 16
      then attack_burst countdown sent
      else ordinary countdown sent

  unfoldable pub tick : ℕ → List RawLog → Draw R (ℕ × List RawLog)
  unfolding draw_float tick_on
  tick countdown sent = draw_float R >>= tick_on countdown sent

  -- The ticks of a while.
  unfoldable pub ticks : ℕ → ℕ → List RawLog → Draw R (ℕ × List RawLog)
  unfolding tick
  ticks zero countdown sent = pure (countdown, sent)
  ticks (suc n) countdown sent = do
    (countdown', sent') ← tick countdown sent
    ticks n countdown' sent'
