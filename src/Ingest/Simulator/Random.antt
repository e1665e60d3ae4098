-- ===== src/Ingest/Simulator/Random.antt =====
-- internal/ingest/simulator.go: draws from a generator of math/rand, which is a parameter, and loops on
-- fuel. A draw below 0 is the panic of `Intn`.
use sentinel_api.Base.{
  ℕ, ◌<◌, Bool, Option, none, some, List, length, get_elem?, ◌==◌, if◌then◌else◌,
}

pub record Random : Type 1 where
  pub State : Type 0
  pub intn : ℕ → State → ℕ × State
  -- A `float64`, and its comparisons with a constant that is given in hundredths.
  pub Float : Type 0
  pub float64 : State → Float × State
  pub below : Float → ℕ → Bool
  pub above : Float → ℕ → Bool

-- `Intn(n)` is below n.
abbrev pub InRange : Random → Type 0
InRange R = (n : ℕ) (s : R.State) → 0 < n → (R.intn n s).0 < n

-- A computation that draws: it ends with a value and the generator, it panics, or its fuel is out.
pub data Drawn (S A : Type 0) : Type 0 where
  done : A → S → Drawn S A
  panics : Drawn S A
  out_of_fuel : Drawn S A

abbrev pub after : {S A B : Type 0} → Drawn S A → (A → S → Drawn S B) → Drawn S B
after (done x s) next = next x s
after panics next = panics
after out_of_fuel next = out_of_fuel

abbrev pub ◌>>=◌ : {S A B : Type 0} → (S → Drawn S A) → (A → S → Drawn S B) → S → Drawn S B
(m >>= next) s = after (m s) next

infixl 5 ◌>>=◌
abbrev pub pure : {S A : Type 0} → A → S → Drawn S A
pure x s = done x s

module _ (R : Random) where
  abbrev pub Draw : Type 0 → Type 0
  Draw A = R.State → Drawn R.State A

  unfoldable pub draw_int : ℕ → Draw ℕ
  draw_int n s = let (k, s') = R.intn n s in if n == 0 then panics else done k s'

  unfoldable pub draw_float : Draw R.Float
  draw_float s = let (x, s') = R.float64 s in done x s'

  abbrev pub or_panic : {A : Type 0} → Option A → Draw A
  or_panic none s = panics
  or_panic (some x) s = done x s

  -- `rndPick`
  unfoldable pub rnd_pick : {A : Type 0} → List A → Draw A
  unfolding draw_int
  rnd_pick items = draw_int (length items) >>= λ i. or_panic (get_elem? items i)
