-- ===== src/Cmd/Config.antt =====
-- cmd/config.go: the settings and how they are loaded. What `env.Parse` makes of the tags of a field
-- is a parameter.
use mytonstorage_gateway.Common.{
  Bool, Option, [], false, if◌then◌else◌, none, some, true, ℕ, ℤ, ◌==◌,
}
use mytonstorage_gateway.Models.{Result, err, ok, wrap}
use mytonstorage_gateway.Text.{Bytes, text}

-- The tags of a field: `env`, `envDefault` and `required:"true"`.
pub record Tag : Type 0 where
  pub env : Bytes
  pub env_default : Option Bytes
  pub is_required : Bool

abbrev pub defaulted : Bytes → Bytes → Tag
defaulted name value = record { env = name; env_default = some value; is_required = false }

abbrev pub required : Bytes → Tag
required name = record { env = name; env_default = none; is_required = true }

-- The field of a tag, by its type.
pub record Environment : Type 0 where
  pub string_field : Tag → Result Bytes
  pub uint8_field : Tag → Result ℕ
  pub int_field : Tag → Result ℤ

pub record System : Type 0 where
  pub port : Bytes
  pub access_tokens : Bytes
  pub log_level : ℕ

pub record TonStorage : Type 0 where
  pub base_url : Bytes
  pub login : Bytes
  pub password : Bytes
  pub bags_path : Bytes

pub record RemoteTonStorageCache : Type 0 where
  pub max_cache_entries : ℤ

pub record MetricsConfig : Type 0 where
  pub namespace : Bytes
  pub server_subsystem : Bytes
  pub workers_subsystem : Bytes
  pub db_subsystem : Bytes

pub record Postgress : Type 0 where
  pub host : Bytes
  pub port : Bytes
  pub user : Bytes
  pub password : Bytes
  pub name : Bytes

pub record TemplatesConfig : Type 0 where
  pub path : Bytes

pub record Config : Type 0 where
  pub system : System
  pub ton_storage : TonStorage
  pub remote_ton_storage_cache : RemoteTonStorageCache
  pub metrics : MetricsConfig
  pub db : Postgress
  pub templates : TemplatesConfig

infixl 20 ◌>>=◌
abbrev pub ◌>>=◌ : {A B : Type 0} → Result A → (A → Result B) → Result B
ok a >>= f = f a
err e >>= f = err e

-- The tags of the fields
abbrev pub port_tag : Tag
port_tag = defaulted (text "SYSTEM_PORT") (text "9093")

abbrev pub access_tokens_tag : Tag
access_tokens_tag = defaulted (text "SYSTEM_ACCESS_TOKENS") []

abbrev pub log_level_tag : Tag
log_level_tag = defaulted (text "SYSTEM_LOG_LEVEL") (text "1")

abbrev pub max_cache_entries_tag : Tag
max_cache_entries_tag = defaulted (text "REMOTE_TON_STORAGE_CACHE_MAX_ENTRIES") (text "1000")

module _ (e : Environment) where
  -- `env.Parse` on each struct
  unfoldable pub parse_system : Result System
  parse_system = do
    port ← e.string_field port_tag
    access_tokens ← e.string_field access_tokens_tag
    log_level ← e.uint8_field log_level_tag
    ok (record { port = port; access_tokens = access_tokens; log_level = log_level })

  unfoldable pub parse_ton_storage : Result TonStorage
  parse_ton_storage = do
    base_url ← e.string_field (required (text "TON_STORAGE_BASE_URL"))
    login ← e.string_field (required (text "TON_STORAGE_LOGIN"))
    password ← e.string_field (required (text "TON_STORAGE_PASSWORD"))
    bags_path ← e.string_field (defaulted (text "TON_STORAGE_BAGS_PATH") (text "/bags"))
    ok (record { base_url = base_url; login = login; password = password; bags_path = bags_path })

  unfoldable pub parse_remote_cache : Result RemoteTonStorageCache
  parse_remote_cache = do
    max_cache_entries ← e.int_field max_cache_entries_tag
    ok (record { max_cache_entries = max_cache_entries })

  unfoldable pub parse_metrics : Result MetricsConfig
  parse_metrics = do
    namespace ← e.string_field (defaulted (text "NAMESPACE") (text "ton-storage"))
    http_server ← e.string_field (defaulted (text "SERVER_SUBSYSTEM") (text "mtpo-server"))
    workers ← e.string_field (defaulted (text "WORKERS_SUBSYSTEM") (text "mtpo-workers"))
    db ← e.string_field (defaulted (text "DB_SUBSYSTEM") (text "mtpo-db"))
    ok (record {
      namespace = namespace;
      server_subsystem = http_server;
      workers_subsystem = workers;
      db_subsystem = db;
    })

  unfoldable pub parse_db : Result Postgress
  parse_db = do
    host ← e.string_field (required (text "DB_HOST"))
    port ← e.string_field (required (text "DB_PORT"))
    user ← e.string_field (required (text "DB_USER"))
    password ← e.string_field (required (text "DB_PASSWORD"))
    name ← e.string_field (required (text "DB_NAME"))
    ok (record { host = host; port = port; user = user; password = password; name = name })

  unfoldable pub parse_templates : Result TemplatesConfig
  parse_templates = do
    path ← e.string_field (defaulted (text "TEMPLATES_PATH") (text "../templates"))
    ok (record { path = path })

  -- An error is the end of the process, by `log.Fatalf`.
  abbrev pub fatal : {A : Type 0} → Bytes → Result A → Result A
  fatal m (ok a) = ok a
  fatal m (err f) = err (wrap m f)

  unfoldable pub load_config : Result Config
  load_config = do
    system ← fatal (text "Failed to parse system config: ") parse_system
    ton_storage ← fatal (text "Failed to parse TONStorage config: ") parse_ton_storage
    metrics ← fatal (text "Failed to parse metrics config: ") parse_metrics
    cache ← fatal (text "Failed to parse remote TON Storage cache config: ") parse_remote_cache
    db ← fatal (text "Failed to parse db config: ") parse_db
    templates ← fatal (text "Failed to parse templates config: ") parse_templates
    ok (record {
      system = system;
      ton_storage = ton_storage;
      remote_ton_storage_cache = cache;
      metrics = metrics;
      db = db;
      templates = templates;
    })

pub data Level : Type 0 where
  level_debug level_info level_warn level_error : Level

-- The map `logLevels`
unfoldable pub log_levels : ℕ → Option Level
log_levels n =
    if n == 0
    then some level_debug
    else if n == 1
    then some level_info
    else if n == 2
    then some level_warn
    else if n == 3
    then some level_error
    else none

-- The level that `run` gives the logger.
unfoldable pub log_level_of : Config → Level
log_level_of config = elim (log_levels config.system.log_level) [
  | some level ↦ level
  | none ↦ level_info
]
