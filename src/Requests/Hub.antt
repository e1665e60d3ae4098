-- ===== src/Requests/Hub.antt =====
-- internal/requests/requests.go: `Hub`. A subscriber's channel is the list of the events that it
-- holds, at most 128, oldest first. A call holds the lock and runs as one step; receivers take
-- events between the steps. Ids are numbers, and the map is an association list.
use sentinel_api.Base.{
  ℕ, map, ◌-◌, subst, All-append, ◌+◌, ◌≤◌, ◌<◌, Option, none, some, List, [], ◌∷◌, ◌++◌, ◌≡◌, refl,
  ap, ◌∙◌, sym, arith, ltb, ◌==◌, length, length-append, length-drop, drop, take_last, All,
  if◌then◌else◌,
}
use native.Mathlib.Decide.{dec_lt}
use sentinel_api.Event.{NormalizedEvent}

abbrev pub Channel : Type 0
Channel = List NormalizedEvent

pub record Hub : Type 0 where
  pub subs : List (ℕ × Channel)
  pub next : ℕ

abbrev pub channel_cap : ℕ
channel_cap = 128

unfoldable pub new_hub : Hub
new_hub = record { subs = []; next = 0 }

unfoldable pub subscribe : Hub → ℕ × Hub
subscribe h = (h.next, record { subs = h.subs ++ (h.next, []) ∷ []; next = h.next + 1 })

unfoldable pub without : ℕ → List (ℕ × Channel) → List (ℕ × Channel)
without i [] = []
without i ((j, c) ∷ subs) = let rest = without i subs in if j == i then rest else (j, c) ∷ rest

-- The function that `Subscribe` returns. It closes the channel, which nothing publishes to after.
unfoldable pub unsubscribe : ℕ → Hub → Hub
unsubscribe i h = record h { subs = without i h.subs }

-- A send that does not wait: `none` if the channel is full.
unfoldable pub try_send : NormalizedEvent → Channel → Option Channel
try_send ev c = if ltb (length c) channel_cap then some (c ++ ev ∷ []) else none

-- The `default` branch: drop the oldest event and try again, or `none` for a deleted subscriber.
unfoldable pub offer : NormalizedEvent → Channel → Option Channel
unfolding try_send
offer ev c = elim (try_send ev c) [ some d ↦ some d | none ↦ try_send ev (drop 1 c) ]

publish_to : NormalizedEvent → List (ℕ × Channel) → List (ℕ × Channel)
publish_to ev [] = []
publish_to ev ((i, c) ∷ subs) =
    let rest = publish_to ev subs in elim (offer ev c) [ none ↦ rest | some d ↦ (i, d) ∷ rest ]

unfoldable pub publish : NormalizedEvent → Hub → Hub
unfolding publish_to
publish ev h = record h { subs = publish_to ev h.subs }

-- A receiver takes the oldest event of its channel.
receive_from : ℕ → List (ℕ × Channel) → List (ℕ × Channel)
receive_from i [] = []
receive_from i ((j, c) ∷ subs) = (j, if j == i then drop 1 c else c) ∷ receive_from i subs

unfoldable pub receive : ℕ → Hub → Hub
unfolding receive_from
receive i h = record h { subs = receive_from i h.subs }

-- Each channel is within its capacity, and its id was given out.
abbrev IsBounded : ℕ → ℕ × Channel → Type 0
IsBounded next (i, c) = (i < next) × (length c ≤ channel_cap)

abbrev pub IsValid : Hub → Type 0
IsValid h = All (IsBounded h.next) h.subs

drop_one_append :
    (c : Channel) (ev : NormalizedEvent)
    → 0 < length c
    → drop 1 c ++ ev ∷ [] ≡ drop 1 (c ++ ev ∷ [])
drop_one_append [] ev h = absurd (omega arith)
drop_one_append (x ∷ c) ev h = refl

try_send_room :
    (ev : NormalizedEvent) (c : Channel)
    → length c < channel_cap
    → try_send ev c ≡ some (c ++ ev ∷ [])
unfolding try_send
try_send_room ev c h = ground arith

try_send_full :
    (ev : NormalizedEvent) (c : Channel) → ¬ (length c < channel_cap) → try_send ev c ≡ none
unfolding try_send
try_send_full ev c h = ground arith

-- A channel within its capacity accepts every event: a full one loses its oldest.
pub offer_lem :
    (ev : NormalizedEvent) (c : Channel)
    → length c ≤ channel_cap
    → offer ev c ≡ some (take_last channel_cap (c ++ ev ∷ []))
unfolding offer
offer_lem ev c h = elim (dec_lt (length c) channel_cap) [
  | yes k ↦
      let none_lost : length (c ++ ev ∷ []) - channel_cap ≡ 0 =
        omega (arith, length-append c (ev ∷ [])) in
      rw (offer, try_send_room ev c k, none_lost)
  | no k ↦
      let room = try_send_room ev (drop 1 c) (omega (arith, length-drop 1 c)) in
      let lost : length (c ++ ev ∷ []) - channel_cap ≡ 1 =
        omega (arith, length-append c (ev ∷ [])) in
      rw (offer, try_send_full ev c k, room, lost) (ap some (drop_one_append c ev (omega arith)))
]

-- What a channel holds after an event.
abbrev pub delivered : NormalizedEvent → ℕ × Channel → ℕ × Channel
delivered ev (i, c) = (i, take_last channel_cap (c ++ ev ∷ []))

delivered-IsBounded :
    (ev : NormalizedEvent) (next : ℕ) (s : ℕ × Channel)
    → IsBounded next s
    → IsBounded next (delivered ev s)
delivered-IsBounded ev next (i, c) h = (
  h.0,
  omega (
    arith,
    h.1,
    length-append c (ev ∷ []),
    length-drop (length (c ++ ev ∷ []) - channel_cap) (c ++ ev ∷ []),
  ),
)

publish_to_lem :
    (ev : NormalizedEvent) (next : ℕ) (subs : List (ℕ × Channel))
    → All (IsBounded next) subs
    → (publish_to ev subs ≡ map (delivered ev) subs)
      × All (IsBounded next) (map (delivered ev) subs)
unfolding publish_to
publish_to_lem ev next [] h = (refl, tt)
publish_to_lem ev next ((i, c) ∷ subs) h =
    let (e, v) = publish_to_lem ev next subs h.1 in
    (rw (publish_to, offer_lem ev c h.0.1, e), (delivered-IsBounded ev next (i, c) h.0, v))

-- In a hub within its bounds a publish reaches every subscriber and drops none: each channel then
-- holds the last 128 of what it held and the event, and the hub stays within its bounds.
pub publish_lem :
    (ev : NormalizedEvent) (h : Hub)
    → IsValid h
    → ((publish ev h).subs ≡ map (delivered ev) h.subs) × IsValid (publish ev h)
unfolding publish
publish_lem ev h v =
    let (e, w) = publish_to_lem ev h.next h.subs v in (e, subst (All (IsBounded h.next)) (sym e) w)

IsBounded-mono :
    (m n : ℕ) (subs : List (ℕ × Channel)) → m ≤ n → All (IsBounded m) subs → All (IsBounded n) subs
IsBounded-mono m n [] h a = tt
IsBounded-mono m n ((i, c) ∷ subs) h a = ((omega arith, a.0.1), IsBounded-mono m n subs h a.1)

without-IsBounded :
    (next i : ℕ) (subs : List (ℕ × Channel))
    → All (IsBounded next) subs
    → All (IsBounded next) (without i subs)
unfolding without
without-IsBounded next i [] a = tt
without-IsBounded next i ((j, c) ∷ subs) a = ground (arith, without-IsBounded next i subs a.1)

receive_from-IsBounded :
    (next i : ℕ) (subs : List (ℕ × Channel))
    → All (IsBounded next) subs
    → All (IsBounded next) (receive_from i subs)
unfolding receive_from
receive_from-IsBounded next i [] a = tt
receive_from-IsBounded next i ((j, c) ∷ subs) a =
    ground (arith, length-drop 1 c, receive_from-IsBounded next i subs a.1)

no_other : (i : ℕ) (subs : List (ℕ × Channel)) → All (IsBounded i) subs → without i subs ≡ subs
unfolding without
no_other i [] a = refl
no_other i ((j, c) ∷ subs) a = ground (arith, no_other i subs a.1)

without_append :
    (i : ℕ) (c : Channel) (subs : List (ℕ × Channel))
    → without i (subs ++ (i, c) ∷ []) ≡ without i subs
unfolding without
without_append i c [] = ground arith
without_append i c ((j, d) ∷ subs) = ground (arith, without_append i c subs)

-- In a hub within its bounds, cancelling a new subscription takes exactly it away, and subscribing,
-- cancelling and receiving keep the hub within its bounds.
pub subscribe_lem :
    (h : Hub) (i : ℕ)
    → IsValid h
    → let (new, h') = subscribe h in
      IsValid h'
      × ((unsubscribe new h').subs ≡ h.subs)
      × IsValid (unsubscribe i h)
      × IsValid (receive i h)
unfolding subscribe unsubscribe receive
subscribe_lem h i v = (
  All-append (IsBounded (h.next + 1)) h.subs _
      (IsBounded-mono h.next (h.next + 1) h.subs (omega arith) v) ((omega arith, omega arith), tt),
  without_append h.next [] h.subs ∙ no_other h.next h.subs v,
  without-IsBounded h.next i h.subs v,
  receive_from-IsBounded h.next i h.subs v,
)
