-- ===== src/Ingest/Simulator/Yields.antt =====
-- internal/ingest/simulator.go: computations that draw and always end, with what their value is.
use sentinel_api.Base.{
  ℕ, zero, suc, ◌<◌, Bool, true, false, some, List, [], ◌∷◌, ◌≡◌, refl, arith, ap, ◌∙◌, length,
  get_elem?, All, if◌then◌else◌,
}
use sentinel_api.Ingest.Simulator.Random.{
  Random, InRange, Draw, done, after, draw_int, draw_float, rnd_pick, ◌>>=◌, pure,
}

module _ (R : Random) where
  -- From any state of the generator the computation ends, without a panic and within its fuel, in a
  -- value with the property.
  abbrev pub Yields {κ} : {A : Type 0} → (A → Type κ) → Draw R A → Type κ
  Yields {A} P m = (s : R.State) → (x : A) × (s' : R.State) × (m s ≡ done x s') × P x

  pub Yields-pure {κ} : {A : Type 0} (P : A → Type κ) (x : A) → P x → Yields P (pure x)
  Yields-pure P x h s = (x, s, refl, h)

  pub Yields-bind {κ μ} :
      {A B : Type 0} (P : A → Type κ) (Q : B → Type μ) (m : Draw R A) (next : A → Draw R B)
      → Yields P m
      → ((x : A) → P x → Yields Q (next x))
      → Yields Q (m >>= next)
  Yields-bind P Q m next h k s =
      let (x, s', e, p) = h s in
      let (y, s'', e', q) = k x p s' in (y, s'', ap (λ r. after r next) e ∙ e', q)

  pub Yields-float : Yields (λ x. Unit {0}) (draw_float R)
  unfolding draw_float
  Yields-float s = (_, _, refl, tt)

  pub Yields-int : InRange R → (n : ℕ) → 0 < n → Yields (λ k. k < n) (draw_int R n)
  unfolding draw_int
  Yields-int range n h s = ((R.intn n s).0, (R.intn n s).1, ground arith, range n s h)

  pub pick_at {κ} :
      {A : Type 0} (P : A → Type κ) (items : List A) (i : ℕ)
      → All P items
      → i < length items
      → (x : A) × (get_elem? items i ≡ some x) × P x
  pick_at P [] i h k = absurd (omega arith)
  pick_at P (y ∷ items) zero h k = (y, refl, h.0)
  pick_at P (y ∷ items) (suc i) h k = pick_at P items i h.1 (omega arith)

  pub Yields-pick {κ} :
      {A : Type 0} (P : A → Type κ) (items : List A)
      → InRange R
      → 0 < length items
      → All P items
      → Yields P (rnd_pick R items)
  unfolding rnd_pick
  Yields-pick P items range some_item h =
      Yields-bind (λ k. k < length items) P (draw_int R (length items)) _
        (Yields-int range (length items) some_item)
        (λ i below s. let (x, e, p) = pick_at P items i h below in rw e (x, s, refl, p))

  pub All-unit : {A : Type 0} (items : List A) → All (λ x. Unit {0}) items
  All-unit [] = tt
  All-unit (x ∷ items) = (tt, All-unit items)

  -- The next step, after a draw of which nothing is needed.
  pub pick_any {κ} :
      {A B : Type 0} (Q : B → Type κ) (items : List A) (next : A → Draw R B)
      → InRange R
      → 0 < length items
      → ((x : A) → Yields Q (next x))
      → Yields Q (rnd_pick R items >>= next)
  pick_any Q items next range some_item f =
      Yields-bind (λ x. Unit {0}) Q (rnd_pick R items) next
        (Yields-pick (λ x. Unit {0}) items range some_item (All-unit items)) (λ x u. f x)

  pub int_any {κ} :
      {B : Type 0} (Q : B → Type κ) (n : ℕ) (next : ℕ → Draw R B)
      → InRange R
      → 0 < n
      → ((k : ℕ) → Yields Q (next k))
      → Yields Q (draw_int R n >>= next)
  int_any Q n next range h f =
      Yields-bind (λ k. k < n) Q (draw_int R n) next (Yields-int range n h) (λ k below. f k)

  pub float_any {κ} :
      {B : Type 0} (Q : B → Type κ) (next : R.Float → Draw R B)
      → ((x : R.Float) → Yields Q (next x))
      → Yields Q (draw_float R >>= next)
  float_any Q next f = Yields-bind (λ x. Unit {0}) Q (draw_float R) next Yields-float (λ x u. f x)

  pub if_yields {κ} :
      {B : Type 0} {Q : B → Type κ} (b : Bool) {m n : Draw R B}
      → Yields Q m
      → Yields Q n
      → Yields Q (if b then m else n)
  if_yields true h k = h
  if_yields false h k = k

  pub Yields-map {κ μ} :
      {A : Type 0} (P : A → Type κ) (Q : A → Type μ) (m : Draw R A)
      → ((x : A) → P x → Q x)
      → Yields P m
      → Yields Q m
  Yields-map P Q m f h s = let (x, s', e, p) = h s in (x, s', e, f x p)

  -- Each branch under its condition.
  pub when_yields {κ} :
      {B : Type 0} {Q : B → Type κ} (b : Bool) {m n : Draw R B}
      → (b ≡ true → Yields Q m)
      → (b ≡ false → Yields Q n)
      → Yields Q (if b then m else n)
  when_yields true h k = h refl
  when_yields false h k = k refl
