-- ===== src/Containment/Life.antt =====
-- internal/containment/containment.go: the life of a control under any calls.
use sentinel_api.Base.{
  ℕ, ◌<◌, String, true, Option, none, some, List, ◌≡◌, refl, sym, ◌≢◌, inl, inr, arith, subst,
  str_eq_iff, is_blank, Bool-cases, Option-cases, lookup, insert, lookup-insert,
}
use sentinel_api.Containment.{
  ControlType, Status, active, revoked, expired, Containment, Result, ok, err, not_active, Lifetime,
  expiry, Items, deploy, resolve, get_found, get, list, revoke_found, revoke, is_valid_type,
}
use sentinel_api.Containment.Keeps.{
  Follows, Follows-refl, Follows-trans, resolve-Follows, revoked-Follows, Keeps, Keeps-refl,
  insert-Keeps, fresh-Keeps, resolve_all-Keeps,
}

-- What an accepted deployment is.
pub record Deployed (now : ℕ) (i : String) (type : ControlType) (target : String)
    (life : Option Lifetime) (items : Items) (c : Containment) (items' : Items) : Type 0 where
  pub stored : items' ≡ insert i c items
  pub named : c.id ≡ i
  pub typed : c.type ≡ type
  pub known : is_valid_type type ≡ true
  pub aimed : c.target_ip ≡ target
  pub not_blank : target ≢ ""
  pub live : c.status ≡ active
  pub started : c.deployed_at ≡ now
  pub ends : (l : Lifetime) × (life ≡ some l) × (c.expires_at ≡ expiry now l)

ok-injective : {x y : Containment × Items} → ok x ≡ ok y → x ≡ y
ok-injective h = cc

-- `Deploy` accepts only a known type, a target and a duration that parses, and stores under the
-- drawn id an active control with that type, that target, and the end that the duration gives.
pub deploy_ok :
    (parse : String → Option Lifetime) (now : ℕ) (i : String) (type : ControlType)
    (target direction duration enforcement note : String) (alert_ids : List String) (items : Items)
    (c : Containment) (items' : Items)
    → deploy parse now i type target direction duration enforcement note alert_ids items
      ≡ ok (c, items')
    → Deployed now i type target (parse duration) items c items'
unfolding deploy
deploy_ok parse now i type target direction duration enforcement note ids items c items' h =
    elim (Bool-cases (is_valid_type type)) [
      | inr v ↦ cc (rw v at h)
      | inl v ↦ elim (Bool-cases (is_blank target)) [
        | inl b ↦ cc (rw (v, b) at h)
        | inr b ↦ elim (Option-cases (parse duration)) [
          | inl p ↦ cc (rw (v, b, p) at h)
          | inr (l, p) ↦ rw p (
              subst (λ (x : Containment × Items). Deployed now i type target (some l) items x.0 x.1)
                (ok-injective (rw (v, b, p) at h))
                (record {
                  stored = refl;
                  named = refl;
                  typed = refl;
                  known = v;
                  aimed = refl;
                  not_blank = λ e. ground (arith, str_eq_iff target "");
                  live = refl;
                  started = refl;
                  ends = (l, refl, refl);
                }))
        ]
      ]
    ]

-- A call that succeeded. The id that `Deploy` draws is new.
pub data Step (items : Items) : Items → Type 0 where
  deploys :
      (parse : String → Option Lifetime) (now : ℕ) (i : String) (type : ControlType)
      (target direction duration enforcement note : String) (alert_ids : List String)
      (c : Containment) (items' : Items)
      → lookup i items ≡ none
      → deploy parse now i type target direction duration enforcement note alert_ids items
        ≡ ok (c, items')
      → Step items items'
  gets :
      (now : ℕ) (i : String) (c : Containment) (items' : Items)
      → get now i items ≡ ok (c, items')
      → Step items items'
  lists :
      (visit : Items → List Containment) (now : ℕ) (target : String)
      → Step items (list visit now target items).1
  revokes :
      (now : ℕ) (i : String) (c : Containment) (items' : Items)
      → revoke now i items ≡ ok (c, items')
      → Step items items'

pub data Reach (items : Items) : Items → Type 0 where
  here : Reach items items
  onward : {mid end : Items} → Reach items mid → Step mid end → Reach items end

items_of : Items → Result (Containment × Items) → Items
items_of items (ok (c, items')) = items'
items_of items (err e) = items

items_of-Keeps :
    (items items' : Items) (c : Containment) (r : Result (Containment × Items))
    → r ≡ ok (c, items')
    → Keeps items (items_of items r)
    → Keeps items items'
unfolding items_of
items_of-Keeps items items' c r e k = subst (λ x. Keeps items (items_of items x)) e k

get_found-Keeps :
    (now : ℕ) (i : String) (items : Items) (o : Option Containment)
    → lookup i items ≡ o
    → Keeps items (items_of items (get_found o now i items))
unfolding get_found items_of
get_found-Keeps now i items none e = Keeps-refl items
get_found-Keeps now i items (some c) e =
    insert-Keeps i c (resolve now c) items e (resolve-Follows now c)

revoke_found-Keeps :
    (now : ℕ) (i : String) (items : Items) (o : Option Containment)
    → lookup i items ≡ o
    → Keeps items (items_of items (revoke_found o now i items))
unfolding revoke_found items_of
revoke_found-Keeps now i items none e = Keeps-refl items
revoke_found-Keeps now i items (some c) e = go c.status refl
  where
    go :
        (s : Status)
        → c.status ≡ s
        → Keeps items (items_of items (revoke_found (some c) now i items))
    go active a = rw a (insert-Keeps i c _ items e (revoked-Follows now c a))
    go revoked a = rw a (Keeps-refl items)
    go expired a = rw a (Keeps-refl items)

Step-Keeps : {items items' : Items} → Step items items' → Keeps items items'
unfolding get revoke list
Step-Keeps {items} (gets now i c items' h) =
    items_of-Keeps items items' c _ h (get_found-Keeps now i items (lookup i items) refl)
Step-Keeps {items} (revokes now i c items' h) =
    items_of-Keeps items items' c _ h (revoke_found-Keeps now i items (lookup i items) refl)
Step-Keeps {items} (lists visit now target) = resolve_all-Keeps now target items
Step-Keeps {items}
      (deploys parse now i type target direction duration enforcement note ids c items' n h) =
    let v =
      deploy_ok parse now i type target direction duration enforcement note ids items c items' h in
    subst (Keeps items) (sym v.stored) (fresh-Keeps i c items n)

Reach-Keeps : {items items' : Items} → Reach items items' → Keeps items items'
unfolding Keeps
Reach-Keeps here i c h = (c, h, Follows-refl c)
Reach-Keeps (onward r s) i c h =
    let (d, e, f) = Reach-Keeps r i c h in
    let (x, g, k) = Step-Keeps s i d e in (x, g, Follows-trans f k)

-- After any calls every control that was there still is, with its id, type, target, start and end;
-- and one that was revoked or had expired is exactly as it was.
pub control_lem :
    (items items' : Items) (i : String) (c : Containment)
    → Reach items items'
    → lookup i items ≡ some c
    → (d : Containment) × (lookup i items' ≡ some d) × Follows c d
unfolding Keeps
control_lem items items' i c r h = Reach-Keeps r i c h

-- A control past its end can be revoked as long as nobody has looked at it; after a look at it,
-- which resolves it to expired, it cannot.
pub revoke_overdue :
    (now : ℕ) (i : String) (c : Containment) (t : ℕ) (items : Items)
    → lookup i items ≡ some c
    → c.status ≡ active
    → c.expires_at ≡ some t
    → t < now
    → ((d : Containment) × (items' : Items) × (revoke now i items ≡ ok (d, items')))
      × ((d : Containment) × (items' : Items) × (get now i items ≡ ok (d, items'))
          × (d.status ≡ expired)
          × (revoke now i items' ≡ err not_active))
unfolding revoke revoke_found get get_found resolve
revoke_overdue now i c t items e a x h = (
  (
    record c { status = revoked; revoked_at = some now },
    insert i (record c { status = revoked; revoked_at = some now }) items,
    ground arith,
  ),
  (
    record c { status = expired },
    insert i (record c { status = expired }) items,
    ground arith,
    refl,
    rw (lookup-insert, (str_eq_iff i i).1 refl),
  ),
)
