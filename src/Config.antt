-- ===== src/Config.antt =====
-- internal/config/file.go: the configuration, and its validation.
pub mod Durations
pub mod Files
pub mod Load
pub mod Cli
pub mod Validity
use metricz_exporter.Base.{
  ℕ, suc, ℤ, Bool, true, false, not, ◌&&◌, ◌||◌, if◌then◌else◌, eqb, String, string_key, str_eq,
  codes, Option, none, some, List, [], ◌∷◌,
}
use metricz_exporter.Base.Map
use metricz_exporter.Base.Map.{Map}
use metricz_exporter.Metrics.{Float64}
use metricz_exporter.Storage.{Duration}

pub record AuthConfig : Type 0 where
  pub user : String
  pub pass : String

pub record PublicConfig : Type 0 where
  pub public_cache_ttl : Duration
  pub enabled : Bool
  pub public_cors : Bool

pub record IngestConfig : Type 0 where
  pub transaction_ttl : Duration
  pub garbage_collector_ttl : Duration
  pub max_body_size : ℤ
  pub max_staging_size : ℤ
  pub overwrite_instance_id : Bool

pub record StaleConfig : Type 0 where
  pub stale_multiplier : Float64
  pub min_stale_age : Duration

pub record GeoIpConfig : Type 0 where
  pub path : String
  pub url : String
  pub max_age : Duration

pub record PrometheusConfig : Type 0 where
  pub extra_labels : Map String String
  pub disable_go_collector : Bool
  pub disable_process_collector : Bool

pub record PublicExportConfig : Type 0 where
  pub values : List String
  pub labels : List String
  pub labels_exclude : List String

pub record A2sConfig : Type 0 where
  pub address : String
  pub poll_interval : Duration
  pub deadline_timeout : Duration
  pub buffer_size : ℕ

pub record RconConfig : Type 0 where
  pub address : String
  pub password : String
  pub poll_interval : Duration
  pub keepalive_timeout : Duration
  pub deadline_timeout : Duration
  pub buffer_size : ℕ
  pub login_attempts : ℤ

pub record ServerDefinition : Type 0 where
  pub a2s : Option A2sConfig
  pub rcon : Option RconConfig
  pub instance_id : String

pub record Logger : Type 0 where
  pub level : String
  pub format : String
  pub output : String

pub record AppConfig : Type 0 where
  pub prometheus : PrometheusConfig
  pub logger : Logger
  pub auth : AuthConfig
  pub listen_addr : String
  pub geo_ip : GeoIpConfig
  pub ingest : IngestConfig
  pub public : PublicConfig
  pub stale : StaleConfig

pub record Config : Type 0 where
  pub public_export : PublicExportConfig
  pub servers : List ServerDefinition
  pub app : AppConfig

pub data ConfigError : Type 0 where
  -- server at index i
  empty_instance_id : ℕ → ConfigError
  duplicate_instance_id : String → ConfigError
  a2s_address_empty rcon_address_empty rcon_password_empty : String → ConfigError
  extra_label_empty : ConfigError
  extra_label_reserved extra_label_prefix extra_label_invalid : String → ConfigError

-- An error, or nil.
infixr 20 ◌then_check◌
abbrev pub ◌then_check◌ : Option ConfigError → Option ConfigError → Option ConfigError
none then_check next = next
some e then_check next = some e

abbrev pub error_if : Bool → ConfigError → Option ConfigError
error_if true e = some e
error_if false e = none

unfoldable pub validate_a2s : String → Option A2sConfig → Option ConfigError
validate_a2s id none = none
validate_a2s id (some a2s) = error_if (str_eq a2s.address "") (a2s_address_empty id)

unfoldable pub validate_rcon : String → Option RconConfig → Option ConfigError
validate_rcon id none = none
validate_rcon id (some rcon) =
    error_if (str_eq rcon.address "") (rcon_address_empty id)
    then_check error_if (str_eq rcon.password "") (rcon_password_empty id)

-- seenIDs[id]
unfoldable pub seen : String → List String → Bool
seen id [] = false
seen id (j ∷ ids) = str_eq j id || seen id ids

-- The loop over the servers, with the index and the ids seen.
unfoldable pub validate_servers : ℕ → List String → List ServerDefinition → Option ConfigError
unfolding validate_a2s validate_rcon seen
validate_servers i ids [] = none
validate_servers i ids (srv ∷ servers) =
    error_if (str_eq srv.instance_id "") (empty_instance_id i)
    then_check (error_if (seen srv.instance_id ids) (duplicate_instance_id srv.instance_id)
        then_check (validate_a2s srv.instance_id srv.a2s
            then_check (validate_rcon srv.instance_id srv.rcon
                then_check validate_servers (suc i) (srv.instance_id ∷ ids) servers)))

-- The deny set.
abbrev pub is_denied : String → Bool
is_denied k = str_eq k "job" || str_eq k "instance" || str_eq k "le" || str_eq k "quantile"

-- strings.HasPrefix(k, "__")
unfoldable pub has_reserved_prefix : List ℕ → Bool
has_reserved_prefix (a ∷ b ∷ _) = eqb a b'_' && eqb b b'_'
has_reserved_prefix _ = false

-- `is_valid_label` is IsValidLabelName under UTF8Validation, of github.com/prometheus/common.
unfoldable pub validate_extra_labels : (String → Bool) → Map String String → Option ConfigError
unfolding has_reserved_prefix
validate_extra_labels is_valid_label [] = none
validate_extra_labels is_valid_label ((k, v) ∷ labels) =
    error_if (str_eq k "" || str_eq v "") extra_label_empty
    then_check (error_if (is_denied k) (extra_label_reserved k)
        then_check (error_if (has_reserved_prefix (codes k)) (extra_label_prefix k)
            then_check (error_if (not (is_valid_label k)) (extra_label_invalid k)
                then_check validate_extra_labels is_valid_label labels)))

unfoldable pub validate : (String → Bool) → Config → Option ConfigError
unfolding validate_servers validate_extra_labels
validate is_valid_label cfg =
    validate_servers 0 [] cfg.servers
    then_check validate_extra_labels is_valid_label cfg.app.prometheus.extra_labels
