-- ===== src/Tests/Containment.antt =====
-- internal/containment/containment.go: a block that is deployed and outlives its end.
use sentinel_api.Base.{
  String, Option, none, some, [], ◌∷◌, ◌≡◌, refl, arith, pos, lookup, insert, chars, digits_value,
}
use sentinel_api.Containment.{
  get_found, resolve, Containment, Items, block_ip, Lifetime, lasting, expired, active, get,
}
use sentinel_api.Containment.Life.{here, onward, gets, control_lem}
use sentinel_api.Containment.Keeps.{Follows}
use sentinel_api.Containment.Duration.{parse_duration}
use sentinel_api.Containment.Duration.Days.{wrapped_days, day_text, parse_duration_days}

-- Stands for `ParseDuration`.
abbrev pub an_hour : String → Option Lifetime
an_hour s = some (lasting (pos 3600))

abbrev pub block : Containment
block = record {
  id = "c1";
  type = block_ip;
  target_ip = "9.9.9.9";
  direction = "Inbound";
  duration = "1h";
  enforcement = "";
  status = active;
  alert_ids = [];
  note = "";
  deployed_at = 100;
  expires_at = some 3700;
  revoked_at = none;
}

abbrev one_block : Items
one_block = ("c1", block) ∷ []

abbrev expired_block : Items
expired_block = ("c1", record block { status = expired }) ∷ []

control_lem_example : (d : Containment) × (lookup "c1" expired_block ≡ some d) × Follows block d
unfolding get get_found resolve lookup insert
control_lem_example =
    control_lem one_block expired_block "c1" block
      (onward here (gets 5000 "c1" (record block { status = expired }) expired_block refl)) refl

parse_duration_days_example :
    parse_duration (λ s. none) "106752d" ≡ some (lasting (wrapped_days 106752))
unfolding digits_value day_text
parse_duration_days_example =
    parse_duration_days (λ s. none) (chars "106752") 106752 (omega arith)
      (refl, (refl, (refl, (refl, (refl, (refl, tt)))))) refl (omega arith)
