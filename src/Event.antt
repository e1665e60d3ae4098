-- ===== src/Event.antt =====
-- internal/event/event.go: the normalised log event, its tags and the severities.
-- A Go string type is a data type with a constructor for each constant and one for any other text;
-- its `text` is the string, by which Go compares.
pub mod Tag
use sentinel_api.Base.{
  ℕ, String, Bool, true, false, ◌&&◌, Option, none, some, List, [], ◌∷◌, ℤ, str_eq, is_blank, any,
  Map, if◌then◌else◌,
}

pub data Source : Type 0 where
  cloudflare api_gateway nginx app ssh audit : Source
  custom : String → Source

abbrev pub source_text : Source → String
source_text cloudflare = "cloudflare"
source_text api_gateway = "api_gateway"
source_text nginx = "nginx"
source_text app = "app"
source_text ssh = "ssh"
source_text audit = "audit"
source_text (custom s) = s

abbrev pub source_eq : Source → Source → Bool
source_eq a b = str_eq (source_text a) (source_text b)

pub record Geo : Type 0 where
  pub country_code : String
  pub country_name : String
  pub city : String
  pub asn : String
  pub org : String
  pub isp : String

-- The receiver may be nil.
unfoldable pub is_zero : Option Geo → Bool
is_zero none = true
is_zero (some g) = is_blank g.country_code && is_blank g.asn

-- Times are nanoseconds since Go's zero time.
pub record NormalizedEvent : Type 0 where
  pub id : String
  pub timestamp : ℕ
  pub source : Source
  pub asset : String
  pub src_ip : String
  pub src_port : ℤ
  pub method : String
  pub path : String
  pub status : ℤ
  pub size : ℤ
  pub proto : String
  pub user_agent : String
  pub referer : String
  pub user : String
  pub message : String
  pub tags : List String
  pub geo : Option Geo
  pub extra : Map String

unfoldable pub has_tag : NormalizedEvent → String → Bool
has_tag e tag = any (λ t. str_eq t tag) e.tags

pub data Severity : Type 0 where
  critical high medium low : Severity
  unknown : String → Severity

abbrev pub severity_text : Severity → String
severity_text critical = "CRITICAL"
severity_text high = "HIGH"
severity_text medium = "MEDIUM"
severity_text low = "LOW"
severity_text (unknown s) = s

-- A text as a `Severity`.
unfoldable pub severity_of_text : String → Severity
severity_of_text s =
    if str_eq s "CRITICAL"
    then critical
    else if str_eq s "HIGH"
    then high
    else if str_eq s "MEDIUM"
    then medium
    else if str_eq s "LOW"
    then low
    else unknown s

abbrev pub severity_eq : Severity → Severity → Bool
severity_eq a b = str_eq (severity_text a) (severity_text b)

unfoldable pub rank : Severity → ℕ
rank critical = 4
rank high = 3
rank medium = 2
rank low = 1
rank (unknown s) = 0
