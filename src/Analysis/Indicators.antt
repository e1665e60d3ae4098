-- ===== src/Analysis/Indicators.antt =====
-- internal/analysis/analysis.go: `ExtractIOCs`. Go leaves open the order in which its maps are
-- walked: `walk` is that order. The confidence is in hundredths, and text is ASCII.
pub mod Tools
use Prim.Native.String.{◌++◌ as text_append}
use sentinel_api.Base.{
  ℕ, zero, suc, ◌+◌, ◌-◌, String, Bool, true, false, not, ◌&&◌, ◌||◌, Option, none, some, List, [],
  ◌∷◌, ◌++◌, map, str_eq, is_blank, ltb, leb, ◌==◌, length, take, any, Map, lookup, insert, lower,
  codes, slice_stable, if◌then◌else◌,
}
use sentinel_api.Event.{NormalizedEvent, Geo}
use sentinel_api.Alerts.Model.{Alert}

pub record Ioc : Type 0 where
  pub type : String
  pub value : String
  pub count : ℕ
  pub confidence : ℕ
  pub tags : List String

-- The loop over the bytes of two texts of one length.
unfoldable pub same_fold : List ℕ → List ℕ → Bool
same_fold [] bs = true
same_fold (a ∷ rest_a) [] = true
same_fold (a ∷ rest_a) (b ∷ bs) =
    let rest = same_fold rest_a bs in if lower a == lower b then rest else false

unfoldable pub eq_fold : List ℕ → List ℕ → Bool
unfolding same_fold
eq_fold a b = if not (length a == length b) then false else same_fold a b

-- The loop from index `i`, where `s` is the text from there on; `none` is -1.
unfoldable pub index_from : ℕ → List ℕ → List ℕ → Option ℕ
unfolding eq_fold
index_from i [] sub = if leb (length sub) 0 then (if eq_fold [] sub then some i else none) else none
index_from i (c ∷ s) sub =
    let rest = index_from (suc i) s sub in
    if leb (length sub) (length (c ∷ s))
    then (if eq_fold (take (length sub) (c ∷ s)) sub then some i else rest)
    else none

unfoldable pub index_fold : List ℕ → List ℕ → Option ℕ
unfolding index_from
index_fold s sub = index_from 0 s sub

is_some : Option ℕ → Bool
is_some none = false
is_some (some i) = true

-- `contains` of this package.
unfoldable pub contains_text : List ℕ → List ℕ → Bool
unfolding index_fold is_some
contains_text s sub = ltb 0 (length sub) && is_some (index_fold s sub)

-- The arguments stand as in the source.
unfoldable pub contains_fold : List ℕ → List ℕ → Bool
unfolding contains_text
contains_fold s sub = leb (length sub) (length s) && contains_text sub s

abbrev pub tools : List String
tools = "dirbuster" ∷ "gobuster" ∷ "nikto" ∷ "sqlmap" ∷ "zgrab" ∷ "nmap" ∷ []

unfoldable pub tool_confidence : String → ℕ
unfolding contains_fold
tool_confidence ua = if any (λ t. contains_fold (codes ua) (codes t)) tools then 95 else 70

unfoldable pub type_rank : String → ℕ
type_rank t =
    if str_eq t "ipv4"
    then 0
    else if str_eq t "user_agent"
    then 1
    else if str_eq t "asn"
    then 2
    else 3

unfoldable pub ioc_before : Ioc → Ioc → Bool
unfolding type_rank
ioc_before x y =
    if not (str_eq x.type y.type)
    then ltb (type_rank x.type) (type_rank y.type)
    else ltb y.count x.count

unfoldable pub sort_iocs : List Ioc → List Ioc
unfolding ioc_before
sort_iocs out = slice_stable ioc_before out

abbrev or_zero : Option ℕ → ℕ
or_zero none = 0
or_zero (some n) = n

-- `if key != "" { m[key]++ }`
unfoldable pub tick : String → Map ℕ → Map ℕ
tick k m = if is_blank k then m else insert k (or_zero (lookup k m) + 1) m

-- `if g != nil && g.ASN != "" { set["AS"+g.ASN] = struct{}{} }`; a set is a map to 1.
unfoldable pub tick_asn : Option Geo → Map ℕ → Map ℕ
tick_asn none m = m
tick_asn (some g) m = if is_blank g.asn then m else insert (text_append "AS" g.asn) 1 m

unfoldable pub count_events : List NormalizedEvent → Map ℕ × Map ℕ × Map ℕ → Map ℕ × Map ℕ × Map ℕ
unfolding tick tick_asn
count_events [] m = m
count_events (e ∷ evs) (uas, paths, asns) =
    count_events evs (tick e.user_agent uas, tick e.path paths, tick_asn e.geo asns)

abbrev source_ioc : Alert → List Ioc
source_ioc a =
    if is_blank a.src_ip
    then []
    else record {
      type = "ipv4";
      value = a.src_ip;
      count = a.count;
      confidence = a.confidence;
      tags = "source" ∷ [];
    }
      ∷ []

abbrev ua_ioc : String × ℕ → Ioc
ua_ioc (ua, n) = record {
  type = "user_agent";
  value = ua;
  count = n;
  confidence = tool_confidence ua;
  tags = [];
}

abbrev path_ioc : String × ℕ → Ioc
path_ioc (p, n) = record {
  type = "path";
  value = p;
  count = n;
  confidence = 60;
  tags = "targeted" ∷ [];
}

abbrev asn_ioc : String × ℕ → Ioc
asn_ioc (asn, n) = record {
  type = "asn";
  value = asn;
  count = 1;
  confidence = 80;
  tags = "infrastructure" ∷ [];
}

unfoldable pub extract_iocs : (Map ℕ → List (String × ℕ)) → Alert → List NormalizedEvent → List Ioc
unfolding count_events tick_asn sort_iocs
extract_iocs walk a evs =
    let (uas, paths, asns) = count_events evs ([], [], []) in
    sort_iocs (
      source_ioc a
      ++ (map ua_ioc (walk uas)
          ++ (map path_ioc (walk paths) ++ map asn_ioc (walk (tick_asn a.geo asns)))))
