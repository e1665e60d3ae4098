-- ===== src/Server/Rate.antt =====
-- internal/server/pipeline.go: `rateWindow`, which counts events by the second. `last` is in
-- nanoseconds since Go's zero time, and 0 is `IsZero`. The average is in sixtieths of an event per
-- second, before the division that Go makes in floating point.
use sentinel_api.Base.{
  ℕ, zero, suc, ◌+◌, ◌-◌, ◌/◌, ◌%◌, ◌^◌, ◌<◌, Bool, ◌||◌, not, List, [], ◌∷◌, ◌≡◌, refl, subst, ◌∙◌,
  arith, ◌==◌, length, if◌then◌else◌,
}
use native.Mathlib.Nat.{mod-eq_of_lt}

pub record RateWindow : Type 0 where
  pub idx : ℕ
  pub last : ℕ
  pub vals : List ℕ

abbrev pub word : ℕ
word = 2 ^ 64

abbrev second : ℕ
second = 10 ^ 9

zeros : ℕ → List ℕ
zeros zero = []
zeros (suc n) = 0 ∷ zeros n

unfoldable pub new_rate_window : RateWindow
unfolding zeros
new_rate_window = record { idx = 0; last = 0; vals = zeros 60 }

-- `r.vals[i]++`, on machine words.
unfoldable pub bump : ℕ → List ℕ → List ℕ
bump i [] = []
bump zero (v ∷ vs) = (v + 1) % word ∷ vs
bump (suc i) (v ∷ vs) = v ∷ bump i vs

-- A new second, or the first event.
abbrev moves_on : ℕ → ℕ → Bool
moves_on t last = last == 0 || not (t / second == last / second)

unfoldable pub next_idx : ℕ → RateWindow → ℕ
next_idx t r =
    if moves_on t r.last
    then (if r.last == 0 then r.idx else (r.idx + 1) % length r.vals)
    else r.idx

unfoldable pub add : ℕ → RateWindow → RateWindow
unfolding next_idx bump
add t r = record {
  idx = next_idx t r;
  last = if moves_on t r.last then t - t % second else r.last;
  vals = bump (next_idx t r) r.vals;
}

unfoldable pub sum_loop : ℕ → List ℕ → ℕ
sum_loop sum [] = sum
sum_loop sum (v ∷ vs) = sum_loop ((sum + v) % word) vs

unfoldable pub avg : RateWindow → ℕ
unfolding sum_loop
avg r = sum_loop 0 r.vals

unfoldable pub add_all : List ℕ → RateWindow → RateWindow
add_all [] r = r
add_all (t ∷ ts) r = add_all ts (add t r)

total : List ℕ → ℕ
total [] = 0
total (v ∷ vs) = v + total vs

word_mod : (x : ℕ) → x < word → x % word ≡ x
word_mod x h = mod-eq_of_lt h

sum_loop-total : (sum : ℕ) (vs : List ℕ) → sum + total vs < word → sum_loop sum vs ≡ sum + total vs
unfolding sum_loop total
sum_loop-total sum [] h = omega arith
sum_loop-total sum (v ∷ vs) h =
    rw (word_mod (sum + v) (omega arith)) (sum_loop-total (sum + v) vs (omega arith) ∙ omega arith)

bump_lem :
    (i : ℕ) (vs : List ℕ)
    → i < length vs
    → total vs + 1 < word
    → (total (bump i vs) ≡ total vs + 1) × (length (bump i vs) ≡ length vs)
unfolding bump total
bump_lem i [] h k = absurd (omega arith)
bump_lem zero (v ∷ vs) h k = (rw (word_mod (v + 1) (omega arith)) (omega arith), refl)
bump_lem (suc i) (v ∷ vs) h k =
    let (e, l) = bump_lem i vs (omega arith) (omega arith) in (omega arith, omega arith)

record IsCounted (r : RateWindow) (n : ℕ) : Type 0 where
  sized : length r.vals ≡ 60
  inside : r.idx < 60
  counted : total r.vals ≡ n

next_idx-lt : (t : ℕ) (r : RateWindow) (n : ℕ) → IsCounted r n → next_idx t r < 60
unfolding next_idx
next_idx-lt t r n v = rw v.sized (ground (arith, v.inside))

add-IsCounted :
    (t : ℕ) (r : RateWindow) (n : ℕ) → n + 1 < word → IsCounted r n → IsCounted (add t r) (n + 1)
unfolding add
add-IsCounted t r n h v =
    let (e, l) =
      bump_lem (next_idx t r) r.vals (omega (arith, next_idx-lt t r n v, v.sized))
        (omega (arith, v.counted)) in
    record {
      sized = l ∙ v.sized;
      inside = next_idx-lt t r n v;
      counted = omega (arith, e, v.counted);
    }

add_all-IsCounted :
    (ts : List ℕ) (r : RateWindow) (n : ℕ)
    → n + length ts < word
    → IsCounted r n
    → IsCounted (add_all ts r) (n + length ts)
unfolding add_all
add_all-IsCounted [] r n h v = subst (IsCounted r) (omega arith) v
add_all-IsCounted (t ∷ ts) r n h v =
    subst (IsCounted (add_all ts (add t r))) (omega arith)
      (add_all-IsCounted ts (add t r) (n + 1) (omega arith) (add-IsCounted t r n (omega arith) v))

new_rate_window-IsCounted : IsCounted new_rate_window 0
unfolding new_rate_window zeros total
new_rate_window-IsCounted = record { sized = refl; inside = omega arith; counted = refl }

-- The average never forgets: after any events, at whatever times, fewer than 2^64, it is all of
-- them over sixty, since a slot that comes round again keeps its old count.
pub avg_lem : (ts : List ℕ) → length ts < word → avg (add_all ts new_rate_window) ≡ length ts
unfolding avg
avg_lem ts h =
    let v = add_all-IsCounted ts new_rate_window 0 (omega arith) new_rate_window-IsCounted in
    sum_loop-total 0 (add_all ts new_rate_window).vals (omega (arith, v.counted))
    ∙ omega (arith, v.counted)
