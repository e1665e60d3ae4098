-- ===== src/Requests/Ring.antt =====
-- internal/requests/requests.go: `Ring`. A slot that was never written holds nil. A call holds the
-- lock, and calls run one after another here.
pub mod Holds
pub mod Refine
use sentinel_api.Base.{
  ℕ, zero, suc, ◌+◌, ◌-◌, ◌%◌, String, Bool, true, false, ◌&&◌, Option, none, some, List, [], ◌∷◌,
  ◌++◌, ℤ, pos, negsuc, ltb, ◌==◌, str_eq, is_blank, length, get_elem?, set, take, drop, take_last,
  filter, if◌then◌else◌,
}
use sentinel_api.Event.{NormalizedEvent}

pub record Ring : Type 0 where
  pub cap : ℕ
  pub buf : List (Option NormalizedEvent)
  pub next : ℕ
  pub full : Bool

abbrev pub replicate : ℕ → List (Option NormalizedEvent)
replicate zero = []
replicate (suc n) = none ∷ replicate n

abbrev pub default_cap : ℕ
default_cap = 4096

-- A capacity of 0 stands for any that is not positive.
unfoldable pub new_ring : ℕ → Ring
new_ring n =
    let c = if n == 0 then default_cap else n in
    record { cap = c; buf = replicate c; next = 0; full = false }

unfoldable pub append : NormalizedEvent → Ring → Ring
append ev r =
    let n = (r.next + 1) % r.cap in
    record r { buf = set r.buf r.next (some ev); next = n; full = if n == 0 then true else r.full }

unfoldable pub len_locked : Ring → ℕ
len_locked r = if r.full then r.cap else r.next

-- The slot that a pointer is read from; a read out of range cannot happen.
abbrev slot : Option (Option NormalizedEvent) → Option NormalizedEvent
slot none = none
slot (some x) = x

-- The loop from `i`, over `n` slots more.
unfoldable pub collect : Ring → ℕ → ℕ → ℕ → List (Option NormalizedEvent)
collect r start i zero = []
collect r start i (suc n) = slot (get_elem? r.buf ((start + i) % r.cap)) ∷ collect r start (suc i) n

unfoldable pub snapshot : Ring → List (Option NormalizedEvent)
unfolding len_locked collect
snapshot r = collect r (if r.full then r.next else 0) 0 (len_locked r)

abbrev from_asset : String → NormalizedEvent → Bool
from_asset asset e = str_eq e.asset asset

-- `all[:len(all)-offset]` and `all[len(all)-limit:]`; a negative offset is out of range.
unfoldable pub window : List NormalizedEvent → ℤ → ℤ → Option (List NormalizedEvent)
window all limit (negsuc n) = none
window all limit (pos n) =
    let offset = if ltb (length all) n then length all else n in
    let rest = take (length all - offset) all in
    some (elim limit [
      | negsuc k ↦ rest
      | pos k ↦ if ltb 0 k && ltb k (length rest) then take_last k rest else rest
    ])

-- `Recent`, on the events of the snapshot.
unfoldable pub recent_of : List NormalizedEvent → String → ℤ → ℤ → Option (List NormalizedEvent)
unfolding window
recent_of all asset limit offset =
    window (if is_blank asset then all else filter (from_asset asset) all) limit offset
