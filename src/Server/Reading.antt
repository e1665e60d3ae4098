-- ===== src/Server/Reading.antt =====
-- internal/server/analysis_handlers.go and handlers.go: what the handlers that only read compute, over
-- any store. The parameters `digest`, `walk`, `sort` are those of internal/analysis, `visit` is the
-- order in which the controls are walked, and `now` is what time.Now() gives.
pub mod Buckets
use sentinel_api.Base.{
  ℕ, zero, suc, ◌+◌, ◌-◌, ◌*◌, ◌/◌, ◌^◌, String, Bool, true, false, not, ◌&&◌, ◌||◌, Option, none,
  some, List, [], ◌∷◌, map, set, get_elem?, pos, negsuc, ℤ, ltb, leb, ◌==◌, length, filter, str_eq,
  is_blank, if◌then◌else◌,
}
use sentinel_api.Event.{NormalizedEvent, Severity, critical, severity_eq, has_tag}
use sentinel_api.Event.Tag
use sentinel_api.Alerts.Model.{Alert}

abbrev pub minute : ℕ
minute = 60 * 10 ^ 9

-- The bucket of a time: the whole minutes since, truncated toward 0, from the last bucket backwards;
-- `none` is an index out of range. A time less than a minute ahead counts as now.
unfoldable pub bucket_index : ℕ → ℕ → ℕ → Option ℕ
bucket_index window now t =
    let d = (now - t) / minute in
    if leb (now + minute) t then none else if ltb d window then some (window - 1 - d) else none

pub record Bucket : Type 0 where
  pub requests : ℕ
  pub errors : ℕ
  pub blocked : ℕ

abbrev pub empty_bucket : Bucket
empty_bucket = record { requests = 0; errors = 0; blocked = 0 }

abbrev pub is_error : ℤ → Bool
is_error (pos n) = leb 400 n
is_error (negsuc n) = false

abbrev pub is_forbidden : ℤ → Bool
is_forbidden (pos n) = n == 403
is_forbidden (negsuc n) = false

unfoldable pub count_request : NormalizedEvent → Bucket → Bucket
unfolding has_tag
count_request e b = record {
  requests = b.requests + 1;
  errors = if is_error e.status then b.errors + 1 else b.errors;
  blocked = if has_tag e Tag.waf_block || is_forbidden e.status then b.blocked + 1 else b.blocked;
}

-- The bucket at an index is changed.
unfoldable pub change_at {ℓ} : {A : Type ℓ} → (A → A) → ℕ → List A → List A
change_at f k [] = []
change_at f zero (b ∷ bs) = f b ∷ bs
change_at f (suc k) (b ∷ bs) = b ∷ change_at f k bs

unfoldable pub change_found {ℓ} : {A : Type ℓ} → (A → A) → Option ℕ → List A → List A
unfolding change_at
change_found f none bs = bs
change_found f (some k) bs = change_at f k bs

abbrev pub repeat {ℓ} : {A : Type ℓ} → ℕ → A → List A
repeat zero x = []
repeat (suc n) x = x ∷ repeat n x

abbrev pub of_asset : String → NormalizedEvent → Bool
of_asset asset e = is_blank asset || str_eq e.asset asset

unfoldable pub count_requests : String → ℕ → ℕ → List NormalizedEvent → List Bucket → List Bucket
unfolding bucket_index count_request change_found
count_requests asset window now [] bs = bs
count_requests asset window now (e ∷ es) bs =
    let counted = change_found (count_request e) (bucket_index window now e.timestamp) bs in
    count_requests asset window now es (if of_asset asset e then counted else bs)

-- `Metrics`: a window above 120 is cut to it; `none` is the panic of a negative one.
unfoldable pub metrics : ℤ → String → ℕ → List NormalizedEvent → Option (List Bucket)
unfolding count_requests
metrics (negsuc n) asset now snap = none
metrics (pos n) asset now snap =
    let window = if ltb 120 n then 120 else n in
    some (count_requests asset window now snap (repeat window empty_bucket))

pub record Point : Type 0 where
  pub total : ℕ
  pub critical_count : ℕ

abbrev empty_point : Point
empty_point = record { total = 0; critical_count = 0 }

unfoldable pub count_alert : Alert → Point → Point
count_alert a p = record {
  total = p.total + 1;
  critical_count =
      if severity_eq a.severity critical then p.critical_count + 1 else p.critical_count;
}

unfoldable pub count_alerts : ℕ → ℕ → List Alert → List Point → List Point
unfolding bucket_index count_alert change_found
count_alerts minutes now [] ps = ps
count_alerts minutes now (a ∷ alerts) ps =
    count_alerts minutes now alerts
      (change_found (count_alert a) (bucket_index minutes now a.started_at) ps)

-- `alertTimeline`, of the alerts that `List` gives.
unfoldable pub alert_timeline : ℕ → ℕ → List Alert → List Point
unfolding count_alerts
alert_timeline minutes now alerts = count_alerts minutes now alerts (repeat minutes empty_point)
