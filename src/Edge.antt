-- ===== src/Edge.antt =====
-- internal/edge/edge.go: the policies, the token buckets and the evaluation of events at the edge.
-- Tokens are counted in 10^-9 of a token and times in nanoseconds, so that the refill of a whole
-- rate per second is exact. A call holds the engine's lock, and calls run one after another here.
pub mod Verdict
pub mod Rate
pub mod Counters
use sentinel_api.Base.{
  ℕ, suc, ◌+◌, ◌-◌, ◌*◌, ◌^◌, min, String, Bool, true, false, ◌&&◌, ◌||◌, not, Option, none, some,
  List, [], ◌∷◌, ◌++◌, map, pos, str_eq, is_blank, ltb, leb, ◌==◌, any, Map, lookup, insert, delete,
  if◌then◌else◌,
}
use sentinel_api.Event.{NormalizedEvent}
use sentinel_api.Event.Tag

pub data Kind : Type 0 where
  deny rate_limit waf : Kind

abbrev pub kind_text : Kind → String
kind_text deny = "deny"
kind_text rate_limit = "rate_limit"
kind_text waf = "waf"

abbrev pub kind_eq : Kind → Kind → Bool
kind_eq deny deny = true
kind_eq rate_limit rate_limit = true
kind_eq waf waf = true
kind_eq _ _ = false

-- A rate or burst of 0 stands for any that is not positive.
pub record Policy : Type 0 where
  pub source_id : String
  pub kind : Kind
  pub target_ip : String
  pub enforcement : String
  pub rate_per_sec : ℕ
  pub burst : ℕ
  pub expires_at : Option ℕ

abbrev pub default_rate : ℕ
default_rate = 2

abbrev pub default_burst : ℕ
default_burst = 5

abbrev pub waf_source_id : String
waf_source_id = "waf-managed-ruleset"

-- One token.
abbrev pub unit_token : ℕ
unit_token = 10 ^ 9

pub record Bucket : Type 0 where
  pub tokens : ℕ
  pub last : ℕ

-- `byReason` by name: the indices 0, 1 and 2 of `reasonIndex`.
pub record Engine : Type 0 where
  pub policies : Map Policy
  pub buckets : Map Bucket
  pub blocked : ℕ
  pub by_deny : ℕ
  pub by_rate_limit : ℕ
  pub by_waf : ℕ

unfoldable pub new_engine : Engine
new_engine = record {
  policies = [];
  buckets = [];
  blocked = 0;
  by_deny = 0;
  by_rate_limit = 0;
  by_waf = 0;
}

abbrev pub or_default : ℕ → ℕ → ℕ
or_default n d = if n == 0 then d else n

unfoldable pub install : Policy → Engine → Engine
install p e =
    let q = record p {
      rate_per_sec = or_default p.rate_per_sec default_rate;
      burst = or_default p.burst default_burst;
    } in
    if is_blank p.source_id then e else record e { policies = insert p.source_id q e.policies }

unfoldable pub remove : String → Engine → Engine
remove i e = record e {
  policies = delete i e.policies;
  buckets = if str_eq i waf_source_id then [] else e.buckets;
}

-- `p.ExpiresAt != nil && now.After(*p.ExpiresAt)`
abbrev pub is_expired : ℕ → Option ℕ → Bool
is_expired now none = false
is_expired now (some t) = ltb t now

unfoldable pub applies : Kind → String → ℕ → Policy → Bool
applies kind ip now p =
    kind_eq p.kind kind
    && (not (is_expired now p.expires_at) && (is_blank p.target_ip || str_eq p.target_ip ip))

-- The first policy, in the order that the map is walked in, that applies.
unfoldable pub match_policy : Kind → String → ℕ → List Policy → Option Policy
match_policy kind ip now [] = none
match_policy kind ip now (p ∷ ps) =
    let rest = match_policy kind ip now ps in if applies kind ip now p then some p else rest

-- The refill and the draw of one token.
unfoldable pub draw : Policy → ℕ → Bucket → Bool × Bucket
draw p now b =
    let refilled =
      if ltb b.last now
      then record b {
        tokens = min (p.burst * unit_token) (b.tokens + (now - b.last) * p.rate_per_sec);
        last = now;
      }
      else b in
    if leb unit_token refilled.tokens
    then (true, record refilled { tokens = refilled.tokens - unit_token })
    else (false, refilled)

-- A source without a bucket starts with a full one.
unfoldable pub bucket_of : Policy → ℕ → Option Bucket → Bucket
bucket_of p now none = record { tokens = p.burst * unit_token; last = now }
bucket_of p now (some b) = b

unfoldable pub allow : Policy → String → ℕ → Engine → Bool × Engine
allow p ip now e =
    let (ok, b) = draw p now (bucket_of p now (lookup ip e.buckets)) in
    (ok, record e { buckets = insert ip b e.buckets })

unfoldable pub is_attack : NormalizedEvent → Bool
is_attack ev =
    any
      (λ t.
        str_eq t Tag.sqli
        || (str_eq t Tag.webshell
            || (str_eq t Tag.brute_force || (str_eq t Tag.scan || str_eq t Tag.auth_failure))))
      ev.tags

abbrev pub values : Map Policy → List Policy
values = map (λ kv. kv.1)

-- The reason to block, from the rate limit that was found.
unfoldable pub decide_rate :
    Option Policy → Option Policy → NormalizedEvent → ℕ → Engine → Option Kind × Engine
decide_rate (some rate) w ev now e =
    let (ok, e') = allow rate ev.src_ip now e in (if ok then none else some rate_limit, e')
decide_rate none (some w) ev now e = (if is_attack ev then some waf else none, e)
decide_rate none none ev now e = (none, e)

-- The reason to block, from the denial that was found.
unfoldable pub decide :
    Option Policy
    → Option Policy
    → Option Policy
    → NormalizedEvent
    → ℕ
    → Engine
    → Option Kind × Engine
decide (some d) r w ev now e = (some deny, e)
decide none r w ev now e = decide_rate r w ev now e

abbrev pub status_of : Kind → ℕ
status_of rate_limit = 429
status_of _ = 403

abbrev pub contained_tag : Kind → String
contained_tag deny = "contained:deny"
contained_tag rate_limit = "contained:rate_limit"
contained_tag waf = "contained:waf"

unfoldable pub count_block : Kind → Engine → Engine
count_block deny e = record e { blocked = suc e.blocked; by_deny = suc e.by_deny }
count_block rate_limit e = record e { blocked = suc e.blocked; by_rate_limit = suc e.by_rate_limit }
count_block waf e = record e { blocked = suc e.blocked; by_waf = suc e.by_waf }

unfoldable pub enforce : NormalizedEvent → Option Kind × Engine → Bool × NormalizedEvent × Engine
enforce ev (none, e) = (false, ev, e)
enforce ev (some k, e) = (
  true,
  record ev { status = pos (status_of k); tags = ev.tags ++ Tag.waf_block ∷ contained_tag k ∷ [] },
  count_block k e,
)

-- `visit` is the order in which each search walks the policies: Go leaves it open.
module _ (visit : Kind → Map Policy → List Policy) where
  unfoldable pub eval : ℕ → NormalizedEvent → Engine → Bool × NormalizedEvent × Engine
  eval now ev e = enforce ev (
      decide (match_policy deny ev.src_ip now (visit deny e.policies))
        (match_policy rate_limit ev.src_ip now (visit rate_limit e.policies))
        (match_policy waf "" now (visit waf e.policies)) ev now e)

unfoldable pub active_policies : ℕ → List Policy → List Policy
active_policies now [] = []
active_policies now (p ∷ ps) =
    let rest = active_policies now ps in if is_expired now p.expires_at then rest else p ∷ rest
