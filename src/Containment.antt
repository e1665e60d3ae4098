-- ===== src/Containment.antt =====
-- internal/containment/containment.go: the controls that operators deploy and revoke. A call holds
-- the lock, and calls run one after another here; `now` is what time.Now() gives in the call.
pub mod Keeps
pub mod Life
pub mod Duration
use mathlib.Core.List.{reverse}
use sentinel_api.Base.{
  ℕ, ◌+◌, ◌-◌, suc, String, Bool, true, false, ◌&&◌, not, Option, none, some, List, [], ◌∷◌, ◌||◌,
  ltb, is_blank, str_eq, filter, insert_sorted, Map, lookup, insert, ℤ, pos, negsuc, if◌then◌else◌,
}

pub data ControlType : Type 0 where
  block_ip rate_limit waf_rule : ControlType
  invalid : String → ControlType

pub data Status : Type 0 where
  active revoked expired : Status

pub record Containment : Type 0 where
  pub id : String
  pub type : ControlType
  pub target_ip : String
  pub direction : String
  pub duration : String
  pub enforcement : String
  pub status : Status
  pub alert_ids : List String
  pub note : String
  pub deployed_at : ℕ
  pub expires_at : Option ℕ
  pub revoked_at : Option ℕ

pub data Error : Type 0 where
  not_found invalid_type invalid_ip invalid_duration not_active : Error

pub data Result {ℓ} (A : Type ℓ) : Type ℓ where
  err : Error → Result A
  ok : A → Result A

-- An error ends a chain of calls, as `if err != nil { return nil, err }` does.
abbrev pub ◌>>=◌ {κ ℓ} : {A : Type κ} → Result A → {B : Type ℓ} → (A → Result B) → Result B
err reason >>= next = err reason
ok x >>= next = next x

abbrev pub ◌>>◌ {κ} : Result (Unit {0}) → {B : Type κ} → Result B → Result B
first >> second = first >>= λ done. second

infixl 5 ◌>>=◌ ◌>>◌
abbrev pub refuse_if : Bool → Error → Result (Unit {0})
refuse_if b e = if b then err e else ok tt

-- What `ParseDuration` returns when it accepts: no end, or a duration in nanoseconds.
pub data Lifetime : Type 0 where
  permanent : Lifetime
  lasting : ℤ → Lifetime

abbrev pub is_valid_type : ControlType → Bool
is_valid_type (invalid s) = false
is_valid_type _ = true

-- `now.Add(d)`; no duration reaches back before Go's zero time.
abbrev pub add_duration : ℕ → ℤ → ℕ
add_duration now (pos d) = now + d
add_duration now (negsuc d) = now - suc d

abbrev pub expiry : ℕ → Lifetime → Option ℕ
expiry now permanent = none
expiry now (lasting d) = some (add_duration now d)

abbrev pub Items : Type 0
Items = Map Containment

-- `parse` is `ParseDuration`, and `new_id` the id that `newID` draws.
unfoldable pub deploy :
    (String → Option Lifetime)
    → ℕ
    → String
    → ControlType
    → String
    → String
    → String
    → String
    → String
    → List String
    → Items
    → Result (Containment × Items)
deploy parse now new_id type target_ip direction duration enforcement note alert_ids items = do
  refuse_if (not (is_valid_type type)) invalid_type
  refuse_if (is_blank target_ip) invalid_ip
  life ← elim (parse duration) [ none ↦ err invalid_duration | some l ↦ ok l ]
  let c : Containment = record {
    id = new_id;
    type = type;
    target_ip = target_ip;
    direction = direction;
    duration = duration;
    enforcement = enforcement;
    status = active;
    alert_ids = alert_ids;
    note = note;
    deployed_at = now;
    expires_at = expiry now life;
    revoked_at = none;
  }
  ok (c, insert new_id c items)

-- An active control past its end becomes expired.
unfoldable pub resolve : ℕ → Containment → Containment
resolve now c = elim c.status [
  | active ↦ elim c.expires_at [
    | none ↦ c
    | some t ↦ if ltb t now then record c { status = expired } else c
  ]
  | _ ↦ c
]

unfoldable pub get_found : Option Containment → ℕ → String → Items → Result (Containment × Items)
get_found none now i items = err not_found
get_found (some c) now i items = let c' = resolve now c in ok (c', insert i c' items)

-- The item is resolved in place.
unfoldable pub get : ℕ → String → Items → Result (Containment × Items)
unfolding get_found
get now i items = get_found (lookup i items) now i items

abbrev pub is_for : String → Containment → Bool
is_for target c = is_blank target || str_eq c.target_ip target

-- The items of the target are resolved in place.
unfoldable pub resolve_all : ℕ → String → Items → Items
resolve_all now target [] = []
resolve_all now target ((k, c) ∷ items) =
    (k, if is_for target c then resolve now c else c) ∷ resolve_all now target items

abbrev pub earlier : Containment → Containment → Bool
earlier a b = ltb a.deployed_at b.deployed_at

-- `sortByDeployedDesc`: the sorted prefix is held backwards, and each item moves past those that
-- were deployed earlier.
unfoldable pub sort_loop : List Containment → List Containment → List Containment
sort_loop prefix [] = prefix
sort_loop prefix (c ∷ cs) = sort_loop (insert_sorted earlier c prefix) cs

unfoldable pub sort_by_deployed_desc : List Containment → List Containment
unfolding sort_loop
sort_by_deployed_desc cs = reverse (sort_loop [] cs)

-- `visit` is the order in which the map is walked: Go leaves it open.
unfoldable pub list : (Items → List Containment) → ℕ → String → Items → List Containment × Items
list visit now target items =
    let resolved_items = resolve_all now target items in
    (sort_by_deployed_desc (filter (is_for target) (visit resolved_items)), resolved_items)

unfoldable pub revoke_found : Option Containment → ℕ → String → Items → Result (Containment × Items)
revoke_found none now i items = err not_found
revoke_found (some c) now i items =
    let c' = record c { status = revoked; revoked_at = some now } in
    elim c.status [ active ↦ ok (c', insert i c' items) | _ ↦ err not_active ]

unfoldable pub revoke : ℕ → String → Items → Result (Containment × Items)
unfolding revoke_found
revoke now i items = revoke_found (lookup i items) now i items
