-- ===== src/Alerts/Store.antt =====
-- internal/alerts/service.go: the `Store` interface, with the errors of the package.
-- `Get` and `FindOpen` hand out a pointer to the alert and the service writes through it before
-- `Update`; between the first write and `Update` nothing returns, so the two are one write here.
use sentinel_api.Base.{
  ℕ, String, Bool, ◌&&◌, Option, none, some, List, [], ◌∷◌, ◌++◌, ◌≡◌, refl, ◌≢◌, ◌⊎◌, inl, inr, ℤ,
  str_eq, if◌then◌else◌,
}
use sentinel_api.Alerts.Model.{Alert, Filter, Counts, is_active}

pub data Error : Type 0 where
  not_found bad_transition unknown_action : Error
  assignee_required assignee_before_assigned duplicate_id : Error
  -- An error of the database, or of its driver.
  backend : String → Error

pub data Result {ℓ} (A : Type ℓ) : Type ℓ where
  err : Error → Result A
  ok : A → Result A

-- An error ends a chain of calls, as `if err != nil { return nil, err }` does.
abbrev pub ◌>>=◌ {κ ℓ} : {A : Type κ} → Result A → {B : Type ℓ} → (A → Result B) → Result B
err reason >>= next = err reason
ok x >>= next = next x

abbrev pub ◌>>◌ {κ} : Result (Unit {0}) → {B : Type κ} → Result B → Result B
first >> second = first >>= λ done. second

infixl 5 ◌>>=◌ ◌>>◌
abbrev pub refuse_if : Bool → Error → Result (Unit {0})
refuse_if b e = if b then err e else ok tt

pub Result-cases {ℓ} :
    {A : Type ℓ} (r : Result A) → ((a : A) × (r ≡ ok a)) ⊎ ((e : Error) × (r ≡ err e))
Result-cases (ok a) = inl (a, refl)
Result-cases (err e) = inr (e, refl)

pub record Store : Type 1 where
  pub State : Type 0
  pub create : Alert → State → Result State
  pub get : String → State → Result Alert
  pub update : Alert → State → Result State
  -- `none` is the panic of a slice out of range.
  pub list : Filter → State → Option (Result (List Alert))
  pub find_open : String → String → State → Result Alert
  pub counts : State → Result Counts
  pub mttr : State → Result (ℤ × ℕ)

-- The contents of a store: its alerts, in the order of creation.
unfoldable pub find_alert : String → List Alert → Option Alert
find_alert i [] = none
find_alert i (a ∷ l) = let rest = find_alert i l in if str_eq a.id i then some a else rest

unfoldable pub replace_alert : Alert → List Alert → List Alert
replace_alert b [] = []
replace_alert b (a ∷ l) =
    let rest = replace_alert b l in if str_eq a.id b.id then b ∷ l else a ∷ rest

-- The alert is active, and of the rule and key.
abbrev pub is_open_for : String → String → Alert → Bool
is_open_for rule k a = str_eq a.rule_id rule && (str_eq a.rule_key k && is_active a.status)

unfoldable pub find_active : String → String → List Alert → Option Alert
find_active rule k [] = none
find_active rule k (a ∷ l) =
    let rest = find_active rule k l in if is_open_for rule k a then some a else rest

-- What the service relies on, in terms of the contents: a store may fail, but what it accepts it
-- has done, and what it finds is there, also under its id.
pub record Laws (St : Store) : Type 1 where
  pub IsValid : St.State → Type 0
  pub contents : St.State → List Alert
  pub create_ok :
      (a : Alert) (s s' : St.State)
      → IsValid s
      → St.create a s ≡ ok s'
      → IsValid s' × (contents s' ≡ contents s ++ a ∷ [])
  pub get_ok :
      (i : String) (s : St.State) (a : Alert)
      → IsValid s
      → St.get i s ≡ ok a
      → find_alert i (contents s) ≡ some a
  pub update_ok :
      (a : Alert) (s s' : St.State)
      → IsValid s
      → St.update a s ≡ ok s'
      → IsValid s' × (contents s' ≡ replace_alert a (contents s))
  pub find_open_ok :
      (rule k : String) (s : St.State) (a : Alert)
      → IsValid s
      → St.find_open rule k s ≡ ok a
      → (find_active rule k (contents s) ≡ some a) × (find_alert a.id (contents s) ≡ some a)
  pub find_open_missing :
      (rule k : String) (s : St.State)
      → IsValid s
      → St.find_open rule k s ≡ err not_found
      → find_active rule k (contents s) ≡ none

pub Error-cases : (e : Error) → (e ≡ not_found) ⊎ (e ≢ not_found)
Error-cases not_found = inl refl
Error-cases _ = inr (λ h. cc)
