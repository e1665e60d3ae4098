-- ===== src/Config.antt =====
-- internal/config/config.go and internal/logging/logger.go: the configuration and the level of the log.
-- viper is a parameter: whether its file is read, what `Unmarshal` fills in over its defaults, and what
-- `GetString` gives for the address of the database. A rate is in hundredths of an event a second.
use sentinel_api.Base.{
  ℕ, ◌*◌, ◌^◌, String, Bool, true, false, Option, none, some, List, [], ◌∷◌, ◌≡◌, refl, subst,
  is_blank, to_lower, same_text, codes, if◌then◌else◌, Bool-cases, inl, inr,
}

pub record Config : Type 0 where
  pub host : String
  pub port : ℕ
  pub store_kind : String
  pub database_url : String
  pub sim_enabled : Bool
  pub sim_rate : ℕ
  pub sim_jitter : ℕ
  pub maxmind_db_path : String
  pub tail_paths : List String
  pub tail_asset : String
  pub assets : List String
  pub ingest_token : String

-- `Default`
unfoldable pub default_config : Config
default_config = record {
  host = "0.0.0.0";
  port = 3000;
  store_kind = "memory";
  database_url = "";
  sim_enabled = true;
  sim_rate = 1800;
  sim_jitter = 150 * 10 ^ 6;
  maxmind_db_path = "";
  tail_paths = [];
  tail_asset = "";
  assets = "api-gw-01" ∷ "api-gw-02" ∷ "www-01" ∷ "auth-svc-01" ∷ "Internal-DB-01" ∷ [];
  ingest_token = "";
}

-- The defaults that `Load` gives to viper.
unfoldable pub viper_defaults : Config
unfolding default_config
viper_defaults = record default_config { tail_asset = "api-gw-01" }

-- How reading the file ended: a missing file is no error.
pub data Reading : Type 0 where
  found missing broken : Reading

unfoldable pub completed : String → Config → Config
completed url c =
    let c = if is_blank c.store_kind then record c { store_kind = "memory" } else c in
    if is_blank c.database_url then record c { database_url = url } else c

-- `Load`; `none` is an error.
unfoldable pub load : Reading → (Config → Config → Option Config) → String → Option Config
unfolding viper_defaults default_config completed
load broken unmarshal url = none
load reading unmarshal url = elim (unmarshal viper_defaults default_config) [
  | none ↦ none
  | some c ↦ some (completed url c)
]

pub data Level : Type 0 where
  debug info warn error trace : Level

-- The level that logging.New sets.
unfoldable pub level_of : String → Level
unfolding same_text
level_of s =
    let named : String → Bool = λ n. same_text (to_lower s) (codes n) in
    if named "debug"
    then debug
    else if named "warn"
    then warn
    else if named "error"
    then error
    else if named "trace"
    then trace
    else info

completed-kind : (url : String) (c : Config) → is_blank (completed url c).store_kind ≡ false
unfolding completed
completed-kind url c = elim (Bool-cases (is_blank c.store_kind)) [
  | inl h ↦ rw h (with_url (record c { store_kind = "memory" }) refl)
  | inr h ↦ rw h (with_url c h)
]
  where
    with_url :
        (d : Config)
        → is_blank d.store_kind ≡ false
        → is_blank
            (if is_blank d.database_url then record d { database_url = url } else d).store_kind
          ≡ false
    with_url d k = elim (Bool-cases (is_blank d.database_url)) [ inl h ↦ rw h k | inr h ↦ rw h k ]

filled-kind :
    (url : String) (o : Option Config) (c : Config)
    → elim o [ none ↦ none | some d ↦ some (completed url d) ] ≡ some c
    → is_blank c.store_kind ≡ false
filled-kind url none c k = absurd cc
filled-kind url (some d) c k =
    let e : completed url d ≡ c = cc in
    subst (λ x. is_blank x.store_kind ≡ false) e (completed-kind url d)

-- A configuration that is loaded names a kind of store.
pub load-kind :
    (reading : Reading) (unmarshal : Config → Config → Option Config) (url : String) (c : Config)
    → load reading unmarshal url ≡ some c
    → is_blank c.store_kind ≡ false
unfolding load
load-kind broken unmarshal url c h = absurd cc
load-kind found unmarshal url c h = filled-kind url (unmarshal viper_defaults default_config) c h
load-kind missing unmarshal url c h = filled-kind url (unmarshal viper_defaults default_config) c h
