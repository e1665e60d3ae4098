-- ===== src/Event/Tag.antt =====
-- internal/event/event.go: the tags that the ingest paths attach and the rules read.
use sentinel_api.Base.{String}

abbrev pub waf_block : String
waf_block = "waf_block"

abbrev pub soft_404 : String
soft_404 = "soft_404"

abbrev pub brute_force : String
brute_force = "brute_force"

abbrev pub sqli : String
sqli = "sqli"

abbrev pub webshell : String
webshell = "webshell"

abbrev pub auth_failure : String
auth_failure = "auth_failure"

abbrev pub db_query : String
db_query = "db_query"

abbrev pub scan : String
scan = "scan"
