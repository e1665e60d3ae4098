-- ===== src/Enrich.antt =====
-- internal/enrich/geo.go: where an address comes from. `net.ParseIP` is the parameter `address`, the
-- tests of an address that `isPrivate` calls are the four that follow, and `net.ParseCIDR` with
-- `Contains` is `range_of`; `none` is an address or a range that does not parse.
use sentinel_api.Base.{
  String, Bool, true, false, ◌||◌, Option, none, some, List, [], ◌∷◌, chars, text, trim_space,
  is_blank, if◌then◌else◌,
}
use sentinel_api.Event.{Geo}

pub record AsnBlock : Type 0 where
  pub cidr : String
  pub geo : Geo

abbrev block : String → String → String → String → String → String → String → AsnBlock
block cidr code name city asn org isp = record {
  cidr = cidr;
  geo = record {
    country_code = code;
    country_name = name;
    city = city;
    asn = asn;
    org = org;
    isp = isp;
  };
}

abbrev pub demo_table : List AsnBlock
demo_table =
    block "32.122.0.0/16" "NL" "Netherlands" "Amsterdam" "14061" "DigitalOcean, LLC" "DigitalOcean"
    ∷ block "203.0.113.0/24" "US" "United States" "Test" "13335" "Cloudflare, Inc." "Cloudflare"
    ∷ block "198.51.100.0/24" "DE" "Germany" "Frankfurt" "24940" "Hetzner Online GmbH" "Hetzner"
    ∷ block "185.220.0.0/16" "SE" "Sweden" "Stockholm" "1239" "Rackner-AB" "Rackner"
    ∷ block "104.223.0.0/16" "US" "United States" "Fremont" "40021" "QuadraNet Enterprises LLC"
        "QuadraNet"
    ∷ block "45.55.0.0/16" "US" "United States" "San Francisco" "14061" "DigitalOcean, LLC"
        "DigitalOcean"
    ∷ block "89.187.160.0/19" "RO" "Romania" "Bucharest" "51167" "Contabo GmbH" "Contabo"
    ∷ block "162.159.0.0/16" "US" "United States" "San Francisco" "13335" "Cloudflare, Inc."
        "Cloudflare"
    ∷ block "91.108.4.0/22" "RU" "Russian Federation" "Moscow" "20764" "CJSC RASCOM" "RASCOM"
    ∷ block "41.60.0.0/16" "NG" "Nigeria" "Lagos" "37645" "Layer3" "Layer3"
    ∷ block "105.112.0.0/16" "NG" "Nigeria" "Lagos" "29465" "MTN Nigeria" "MTN"
    ∷ block "197.210.0.0/16" "NG" "Nigeria" "Abuja" "29465" "MTN Nigeria" "MTN"
    ∷ block "154.120.0.0/16" "GH" "Ghana" "Accra" "30969" "Ghana Internet" "GCI"
    ∷ block "102.88.0.0/16" "ZA" "South Africa" "Johannesburg" "36944" "SEACOM" "SEACOM"
    ∷ block "212.9.0.0/16" "GB" "United Kingdom" "London" "20860" "Iomart" "Iomart"
    ∷ []

abbrev pub unknown_geo : Geo
unknown_geo = record {
  country_code = "XX";
  country_name = "Unknown";
  city = "";
  asn = "";
  org = "";
  isp = "";
}

module _ {Ip : Type 0} (address : String → Option Ip)
    (is_reserved is_loopback is_link_local is_unspecified : Ip → Bool)
    (range_of : String → Option (Ip → Bool)) where
  -- What is no address counts as private.
  unfoldable pub is_private : Option Ip → Bool
  is_private none = true
  is_private (some p) = is_reserved p || (is_loopback p || (is_link_local p || is_unspecified p))

  abbrev holds : Option (Ip → Bool) → Ip → Bool
  holds none p = false
  holds (some inside) p = inside p

  -- The first range that holds the address.
  unfoldable pub find_block : List AsnBlock → Ip → Geo
  find_block [] p = unknown_geo
  find_block (b ∷ blocks) p =
      let rest = find_block blocks p in if holds (range_of b.cidr) p then b.geo else rest

  -- `Lookup` of the static resolver.
  unfoldable pub lookup_geo : List AsnBlock → String → Option Geo
  unfolding is_private find_block trim_space
  lookup_geo table raw =
      let ip = text (trim_space (chars raw)) in
      let p = address ip in
      let found : Option Geo = elim p [ none ↦ none | some a ↦ some (find_block table a) ] in
      if is_blank ip || is_private p then none else found
