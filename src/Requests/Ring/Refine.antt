-- ===== src/Requests/Ring/Refine.antt =====
-- internal/requests/requests.go: `Ring` keeps exactly the last events, oldest first.
use sentinel_api.Base.{
  ℕ, zero, suc, ◌+◌, ◌-◌, ◌≤◌, ◌<◌, true, false, some, List, [], ◌∷◌, ◌++◌, map, ◌≡◌, refl, sym, ap,
  arith, subst, ltb, length, length-append, length-drop, get_elem?, drop, take_last,
}
use mathlib.Core.List.{append-nil, append_assoc}
use native.Mathlib.Decide.{dec_lt}
use sentinel_api.Event.{NormalizedEvent}
use sentinel_api.Requests.Ring.{Ring, replicate, new_ring, append, len_locked, collect, snapshot}
use sentinel_api.Requests.Ring.Holds.{remember, start_of, Holds, append-Holds}

length-replicate : (n : ℕ) → length (replicate n) ≡ n
length-replicate zero = refl
length-replicate (suc n) = ap suc (length-replicate n)

pub new_ring-Holds : (n : ℕ) → Holds (new_ring n) []
unfolding new_ring len_locked
new_ring-Holds n = record {
  sized = length-replicate _;
  inside = ground arith;
  size = refl;
  placed = λ j h. absurd (omega arith);
}

drop-cons :
    (q : List NormalizedEvent) (i : ℕ)
    → i < length q
    → (x : NormalizedEvent) × (get_elem? q i ≡ some x) × (drop i q ≡ x ∷ drop (suc i) q)
drop-cons [] i h = absurd (omega arith)
drop-cons (x ∷ q) zero h = (x, refl, refl)
drop-cons (x ∷ q) (suc i) h = drop-cons q i (omega arith)

drop-nil : (q : List NormalizedEvent) (i : ℕ) → length q ≤ i → drop i q ≡ []
drop-nil [] zero h = refl
drop-nil [] (suc i) h = refl
drop-nil (x ∷ q) zero h = absurd (omega arith)
drop-nil (x ∷ q) (suc i) h = drop-nil q i (omega arith)

collect-drop :
    (r : Ring) (q : List NormalizedEvent) (i n : ℕ)
    → Holds r q
    → i + n ≡ length q
    → collect r (start_of r) i n ≡ map (λ x. some x) (drop i q)
unfolding collect
collect-drop r q i zero v e = rw (drop-nil q i (omega arith))
collect-drop r q i (suc n) v e =
    let (x, f, g) = drop-cons q i (omega arith) in
    rw (v.placed i (omega arith), f, g, collect-drop r q (suc i) n v (omega arith))

-- A snapshot of a ring is what the ring holds.
pub snapshot-Holds :
    (r : Ring) (q : List NormalizedEvent) → Holds r q → snapshot r ≡ map (λ x. some x) q
unfolding snapshot
snapshot-Holds r q v = collect-drop r q 0 (len_locked r) v (omega (arith, v.size))

-- The ring after any appends.
unfoldable pub append_all : List NormalizedEvent → Ring → Ring
append_all [] r = r
append_all (ev ∷ evs) r = append_all evs (append ev r)

drop-append :
    (n : ℕ) (q : List NormalizedEvent) (ev : NormalizedEvent)
    → n ≤ length q
    → drop n (q ++ ev ∷ []) ≡ drop n q ++ ev ∷ []
drop-append zero q ev h = refl
drop-append (suc n) [] ev h = absurd (omega arith)
drop-append (suc n) (x ∷ q) ev h = drop-append n q ev (omega arith)

drop-one-drop : (n : ℕ) (q : List NormalizedEvent) → drop 1 (drop n q) ≡ drop (suc n) q
drop-one-drop zero q = refl
drop-one-drop (suc n) [] = refl
drop-one-drop (suc n) (x ∷ q) = drop-one-drop n q

remember-take_last :
    (cap : ℕ) (q : List NormalizedEvent) (ev : NormalizedEvent)
    → 0 < cap
    → remember cap (take_last cap q) ev ≡ take_last cap (q ++ ev ∷ [])
unfolding remember
remember-take_last cap q ev h = elim (dec_lt (length q) cap) [
  | yes k ↦
      let none_lost : length q - cap ≡ 0 = omega arith in
      let none_lost_after : length (q ++ ev ∷ []) - cap ≡ 0 =
        omega (arith, length-append q (ev ∷ [])) in
      let room : ltb (length q) cap ≡ true = ground arith in rw (none_lost, none_lost_after, room)
  | no k ↦
      let whole : ltb (length (drop (length q - cap) q)) cap ≡ false =
        ground (arith, length-drop (length q - cap) q) in
      let lost : length (q ++ ev ∷ []) - cap ≡ suc (length q - cap) =
        omega (arith, length-append q (ev ∷ [])) in
      rw (whole, lost, drop-one-drop) (sym (drop-append (suc (length q - cap)) q ev (omega arith)))
]

cap-append : (ev : NormalizedEvent) (r : Ring) → (append ev r).cap ≡ r.cap
unfolding append
cap-append ev r = refl

pub append_all-Holds :
    (evs : List NormalizedEvent) (r : Ring) (past : List NormalizedEvent)
    → Holds r (take_last r.cap past)
    → Holds (append_all evs r) (take_last r.cap (past ++ evs))
unfolding append_all append
append_all-Holds [] r past v = rw append-nil v
append_all-Holds (ev ∷ evs) r past v =
    let next = append-Holds r (take_last r.cap past) ev v in
    let same = remember-take_last r.cap past ev (omega (arith, v.inside)) in
    rw (← append_assoc past (ev ∷ []) evs)
      (append_all-Holds evs (append ev r) (past ++ ev ∷ []) (subst (Holds (append ev r)) same next))

-- After any appends to a new ring, of whatever capacity was asked for, a snapshot is exactly the
-- last events that fit, oldest first, and no slot of it is empty.
pub snapshot_lem :
    (n : ℕ) (evs : List NormalizedEvent)
    → snapshot (append_all evs (new_ring n)) ≡ map (λ x. some x) (take_last (new_ring n).cap evs)
snapshot_lem n evs = snapshot-Holds _ _ (
    append_all-Holds evs (new_ring n) []
      (subst (Holds (new_ring n)) (sym (drop-nil [] _ (omega arith))) (new_ring-Holds n)))
