-- ===== src/Query/Config.antt =====
-- services/query/repository.go, `OpenRepository`, up to the connection, and config.go: the options
-- that the process is set up with.
use kube_cost.Prelude.{
  ℕ, ◌*◌, String, Bool, false, Option, none, some, str_eq, if◌then◌else◌, ltb, ◌≡◌, refl, arith,
}
use kube_cost.Wire.{ℤ, pos, negsuc}
use kube_cost.Gateway.{second}

pub record ClickHouseConfig : Type 0 where
  pub address : String
  pub database : String
  pub username : String
  pub password : String
  pub secure : Bool
  pub dial_timeout : ℤ
  pub max_open_conns : ℤ
  pub max_idle_conns : ℤ

-- `clickhouse.Options`, less the compression, which is always LZ4; `secure` asks for TLS 1.2.
pub record Options : Type 0 where
  pub address : String
  pub database : String
  pub username : String
  pub password : String
  pub dial_timeout : ℕ
  pub max_open_conns : ℕ
  pub max_idle_conns : ℕ
  pub conn_max_lifetime : ℕ
  pub secure : Bool

-- A value that is not positive has its default.
abbrev pub or_default : ℤ → ℕ → ℕ
or_default (negsuc n) fallback = fallback
or_default (pos n) fallback = if ltb 0 n then n else fallback

abbrev pub options_of : ClickHouseConfig → Options
options_of c = record {
  address = c.address;
  database = if str_eq c.database "" then "kube_cost" else c.database;
  username = c.username;
  password = c.password;
  dial_timeout = or_default c.dial_timeout (5 * second);
  max_open_conns = or_default c.max_open_conns 10;
  max_idle_conns = or_default c.max_idle_conns 5;
  conn_max_lifetime = 3600 * second;
  secure = c.secure;
}

-- None is the error "ClickHouse address is required".
unfoldable pub open_options : ClickHouseConfig → Option Options
open_options c = if str_eq c.address "" then none else some (options_of c)

-- os.Getenv, strings.TrimSpace, strconv.ParseBool and time.ParseDuration.
pub record Process : Type 0 where
  pub getenv : String → String
  pub trim_space : String → String
  pub parse_bool : String → Option Bool
  pub parse_duration : String → Option ℤ

unfoldable pub value_or_default : Process → String → String → String
value_or_default p name fallback =
    let value = p.trim_space (p.getenv name) in if str_eq value "" then fallback else value

unfoldable pub bool_value : Process → String → Bool → Bool
bool_value p name fallback =
    let value = p.trim_space (p.getenv name) in
    if str_eq value "" then fallback else elim (p.parse_bool value) [ none ↦ fallback | some b ↦ b ]

unfoldable pub duration_value : Process → String → ℤ → ℤ
duration_value p name fallback =
    let value = p.trim_space (p.getenv name) in
    if str_eq value ""
    then fallback
    else elim (p.parse_duration value) [ none ↦ fallback | some d ↦ d ]

-- `QUERY_FRESHNESS_WINDOW`, ten minutes unless it is set.
abbrev pub freshness_window : Process → ℤ
freshness_window p = duration_value p "QUERY_FRESHNESS_WINDOW" (pos (600 * second))

-- The fields that are not set are zero.
unfoldable pub config_from_env : Process → ClickHouseConfig
config_from_env p = record {
  address = value_or_default p "CLICKHOUSE_ADDRESS" "localhost:9000";
  database = value_or_default p "CLICKHOUSE_DATABASE" "kube_cost";
  username = p.getenv "CLICKHOUSE_USERNAME";
  password = p.getenv "CLICKHOUSE_PASSWORD";
  secure = bool_value p "CLICKHOUSE_SECURE" false;
  dial_timeout = pos 0;
  max_open_conns = pos 0;
  max_idle_conns = pos 0;
}

value_named :
    (p : Process) (name fallback : String)
    → str_eq fallback "" ≡ false
    → str_eq (value_or_default p name fallback) "" ≡ false
unfolding value_or_default
value_named p name fallback h = ground (arith, h)

-- The environment always gives options: the address is never empty, and the connections and the time
-- to dial have their defaults.
pub config_from_env-open :
    (p : Process)
    → (options : Options) × (open_options (config_from_env p) ≡ some options)
      × (options.dial_timeout ≡ 5 * second)
      × (options.max_open_conns ≡ 10)
      × (options.max_idle_conns ≡ 5)
unfolding open_options config_from_env
config_from_env-open p =
    let named = value_named p "CLICKHOUSE_ADDRESS" "localhost:9000" refl in
    (options_of (config_from_env p), rw named refl, refl, refl, refl)
