-- ===== src/Config/Services.antt =====
-- The configuration of logging, metrics and the API. A Go map is a list of its entries, in the order
-- in which it is iterated.
use Prim.Native.String.{String}
use text.Mathlib.Text.{◌==◌ as str_eq}
use chain_indexor.Prelude.{
  ℕ, ℤ, is_zero, is_negative, ◌==◌, Bool, false, not, ◌&&◌, Option, none, some, List, [], ◌∷◌, any,
  codes, same_text, to_lower, trim_space, if◌then◌else◌,
}
use chain_indexor.Types.{ConfigError, Result, ok, Done, ◌>>◌}
use chain_indexor.Config.Database.{is_unset, or_default, refuse_if, seconds}

pub record LoggingConfig : Type 0 where
  pub default_level : String
  pub development : Bool
  pub component_levels : List (String × String)

pub record MetricsConfig : Type 0 where
  pub enabled : Bool
  pub listen_address : String
  pub path : String

pub record ApiConfig : Type 0 where
  pub enabled : Bool
  pub listen_address : String
  pub read_timeout : ℤ
  pub write_timeout : ℤ
  pub idle_timeout : ℤ
  pub cors_enabled : Bool
  pub allowed_origins : List String

-- internal/common/parse.go
unfoldable pub to_lower_with_trim : String → List ℕ
unfolding to_lower trim_space
to_lower_with_trim s = to_lower (trim_space (codes s))

abbrev pub one_of : List String → List ℕ → Bool
one_of names text = any (λ name. same_text (codes name) text) names

-- `ValidLogLevels` of internal/logger/logger.go
abbrev pub valid_log_levels : List String
valid_log_levels = "debug" ∷ "info" ∷ "warn" ∷ "error" ∷ []

-- `AllComponents` of internal/common/components.go
abbrev pub all_components : List String
all_components =
    "downloader" ∷ "log-fetcher" ∷ "sync-manager" ∷ "reorg-detector" ∷ "log-store" ∷ "maintenance"
    ∷ "api" ∷ []

unfoldable pub is_level : String → Bool
unfolding to_lower_with_trim same_text
is_level s = one_of valid_log_levels (to_lower_with_trim s)

unfoldable pub is_component : String → Bool
unfolding to_lower_with_trim same_text
is_component s = one_of all_components (to_lower_with_trim s)

unfoldable pub logging_defaults : LoggingConfig → LoggingConfig
logging_defaults l = record l { default_level = or_default is_unset "info" l.default_level }

abbrev pub check_levels : List (String × String) → Result Done
check_levels [] = ok tt
check_levels ((component, level) ∷ rest) = do
  refuse_if (not (is_component component)) ConfigError.component_unknown
  refuse_if (not (is_level level)) ConfigError.component_level_unknown
  check_levels rest

unfoldable pub logging_validate : LoggingConfig → Result Done
unfolding is_level is_component
logging_validate l = do
  refuse_if (not (is_unset l.default_level) && not (is_level l.default_level))
      ConfigError.default_level_unknown
  check_levels l.component_levels

unfoldable pub level_of : String → List (String × String) → Option String
level_of component [] = none
level_of component ((c, level) ∷ rest) =
    let later = level_of component rest in if str_eq c component then some level else later

unfoldable pub get_component_level : LoggingConfig → String → List ℕ
unfolding level_of to_lower_with_trim
get_component_level l component = elim (level_of component l.component_levels) [
  | some level ↦ codes level
  | none ↦ to_lower_with_trim l.default_level
]

unfoldable pub metrics_defaults : MetricsConfig → MetricsConfig
metrics_defaults m = record {
  enabled = m.enabled;
  listen_address = or_default is_unset ":9090" m.listen_address;
  path = or_default is_unset "/metrics" m.path;
}

abbrev begins_with_slash : List ℕ → Bool
begins_with_slash [] = false
begins_with_slash (c ∷ cs) = c == b'/'

unfoldable pub metrics_validate : MetricsConfig → Result Done
metrics_validate m =
    if m.enabled
    then (do
      refuse_if (is_unset m.listen_address) ConfigError.listen_address_required
      refuse_if (is_unset m.path) ConfigError.path_required
      refuse_if (not (begins_with_slash (codes m.path))) ConfigError.path_without_slash)
    else ok tt

unfoldable pub api_defaults : ApiConfig → ApiConfig
api_defaults a = record {
  enabled = a.enabled;
  listen_address = or_default is_unset ":8080" a.listen_address;
  read_timeout = or_default is_zero (seconds 30) a.read_timeout;
  write_timeout = or_default is_zero (seconds 30) a.write_timeout;
  idle_timeout = or_default is_zero (seconds 120) a.idle_timeout;
  cors_enabled = a.cors_enabled;
  allowed_origins = a.allowed_origins;
}

unfoldable pub api_validate : ApiConfig → Result Done
api_validate a =
    if a.enabled
    then (do
      refuse_if (is_unset a.listen_address) ConfigError.listen_address_required
      refuse_if (is_negative a.read_timeout) ConfigError.read_timeout_negative
      refuse_if (is_negative a.write_timeout) ConfigError.write_timeout_negative
      refuse_if (is_negative a.idle_timeout) ConfigError.idle_timeout_negative)
    else ok tt
