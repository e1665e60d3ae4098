-- ===== src/Store/Queue.antt =====
-- internal/store/memory.go: the order and the window of `List`.
use sentinel_api.Base.{
  ℕ, zero, suc, ◌∙◌, ◌≤◌, Bool, true, false, some, List, [], ◌∷◌, ◌≡◌, refl, ap, arith, pos, length,
  take, drop, filter, count_if, IsSorted, slice_stable-IsSorted, count_if-slice_stable,
  filter-slice_stable, if◌then◌else◌, ◌&&◌, not, ◌==◌, All, ltb, ◌<◌, ◌⊎◌,
}
use sentinel_api.Event.{rank, critical, high, medium, low, unknown}
use sentinel_api.Alerts.Model.{Alert, Filter, is_active, resolved}
use sentinel_api.Store.Memory.{
  MemoryStore, matches_filter, comes_before, queue, list, from_offset, to_limit, page,
}

comes_before_asym : (a b : Alert) → comes_before a b ≡ true → comes_before b a ≡ false
unfolding comes_before
comes_before_asym a b h = ground arith

comes_before_trans :
    (a b c : Alert) → comes_before b a ≡ false → comes_before c b ≡ false → comes_before c a ≡ false
unfolding comes_before
comes_before_trans a b c h k = ground arith

-- How urgent an alert is: whether it is active, and its severity.
abbrev pub liveness : Alert → ℕ
liveness a = elim a.status [ resolved ↦ 0 | _ ↦ 1 ]

abbrev pub grade : Alert → ℕ
grade a = elim a.severity [ critical ↦ 4 | high ↦ 3 | medium ↦ 2 | low ↦ 1 | unknown s ↦ 0 ]

-- An alert may stand above another.
abbrev pub Above : Alert → Alert → Type 0
Above a b =
    (liveness b < liveness a)
    ⊎ ((liveness a ≡ liveness b)
        × ((grade b < grade a) ⊎ ((grade a ≡ grade b) × (b.last_seen_at ≤ a.last_seen_at))))

abbrev pub Ranked : List Alert → Type 0
Ranked [] = Unit
Ranked (a ∷ l) = All (Above a) l × Ranked l

rank-grade : (a : Alert) → rank a.severity ≡ grade a
unfolding rank
rank-grade a = ground arith

is_active-liveness : (a : Alert) → is_active a.status ≡ ltb 0 (liveness a)
unfolding is_active
is_active-liveness a = ground arith

liveness_le : (a : Alert) → liveness a ≤ 1
liveness_le a = ground arith

-- The tests of the order on the numbers.
above :
    (m n g h s t : ℕ)
    → m ≤ 1
    → n ≤ 1
    → (if ltb 0 n && not (ltb 0 m)
        then true
        else if ltb 0 m && not (ltb 0 n)
        then false
        else if not (h == g)
        then ltb g h
        else ltb s t)
      ≡ false
    → (n < m) ⊎ ((m ≡ n) × ((h < g) ⊎ ((g ≡ h) × (t ≤ s))))
above m n g h s t x y e = ground arith

comes_before-Above : (a b : Alert) → comes_before b a ≡ false → Above a b
unfolding comes_before
comes_before-Above a b h =
    above (liveness a) (liveness b) (grade a) (grade b) a.last_seen_at b.last_seen_at
      (liveness_le a) (liveness_le b)
      (rw (rank-grade a, rank-grade b, is_active-liveness a, is_active-liveness b) at h)

All-Above : (a : Alert) (l : List Alert) → All (λ b. comes_before b a ≡ false) l → All (Above a) l
All-Above a [] h = tt
All-Above a (b ∷ l) h = (comes_before-Above a b h.0, All-Above a l h.1)

IsSorted-Ranked : (l : List Alert) → IsSorted comes_before l → Ranked l
IsSorted-Ranked [] h = tt
IsSorted-Ranked (a ∷ l) h = (All-Above a l h.0, IsSorted-Ranked l h.1)

-- In the queue active alerts stand above resolved ones, then those of a higher severity (CRITICAL,
-- HIGH, MEDIUM, LOW, any other), then those seen last; and it holds exactly the alerts that pass the
-- filter, each as often.
pub queue_lem :
    (f : Filter) (m : MemoryStore)
    → Ranked (queue f m)
      × ((p : Alert → Bool)
          → count_if p (queue f m) ≡ count_if p (filter (matches_filter f) m.created))
unfolding queue
queue_lem f m = (
  IsSorted-Ranked _ (slice_stable-IsSorted comes_before comes_before_asym comes_before_trans _),
  λ p. count_if-slice_stable comes_before p _,
)

-- The queue keeps the order of creation among alerts of which none must come before another.
pub queue_stable :
    (f : Filter) (m : MemoryStore) (p : Alert → Bool)
    → ((a b : Alert) → p a ≡ true → p b ≡ true → comes_before a b ≡ false)
    → filter p (queue f m) ≡ filter p (filter (matches_filter f) m.created)
unfolding queue
queue_stable f m p same = filter-slice_stable comes_before p same _

take_all : (k : ℕ) (l : List Alert) → length l ≤ k → take k l ≡ l
take_all zero [] h = refl
take_all (suc k) [] h = refl
take_all zero (x ∷ l) h = absurd (omega arith)
take_all (suc k) (x ∷ l) h = ap (◌∷◌ x) (take_all k l (omega arith))

drop_all : (n : ℕ) (l : List Alert) → length l ≤ n → drop n l ≡ []
drop_all zero [] h = refl
drop_all (suc n) [] h = refl
drop_all zero (x ∷ l) h = absurd (omega arith)
drop_all (suc n) (x ∷ l) h = drop_all n l (omega arith)

page_window :
    (q : List Alert) (n k : ℕ)
    → page (from_offset (pos n) q) (pos (suc k)) ≡ some (take (suc k) (drop n q))
unfolding from_offset page to_limit
page_window q n k =
    ground
      (arith, take_all (suc k) (drop n q), take_all (suc k) [], drop_all n q, drop_all (length q) q)

-- At an offset that is not negative and a positive limit, `List` returns that window of the queue,
-- also where the offset lies past its end.
pub list_window :
    (f : Filter) (m : MemoryStore) (n k : ℕ)
    → f.offset ≡ pos n
    → f.limit ≡ pos (suc k)
    → list f m ≡ some (take (suc k) (drop n (queue f m)))
unfolding list
list_window f m n k o l =
    ap (λ x. page (from_offset x (queue f m)) f.limit) o
    ∙ ap (λ x. page (from_offset (pos n) (queue f m)) x) l
    ∙ page_window (queue f m) n k
