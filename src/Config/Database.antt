-- ===== src/Config/Database.antt =====
-- The configuration of the downloader, its database, its maintenance and its retries. A duration is
-- a number of nanoseconds; `F` stands for `float64`, of which the code only tests a value.
use Prim.Native.String.{String}
use text.Mathlib.Text.{◌==◌ as str_eq}
use chain_indexor.Prelude.{
  ℕ, ℤ, pos, is_zero, is_negative, is_positive, ◌*◌, ◌==◌, Bool, true, false, not, ◌||◌, Option,
  none, some, if◌then◌else◌,
}
use chain_indexor.Types.{ConfigError, Error, Result, ok, err, Done, ◌>>◌}
use chain_indexor.LogStore.Retention.{RetentionPolicy}

pub record Floats (F : Type 0) : Type 0 where
  pub is_zero_float : F → Bool
  pub below_one : F → Bool
  pub two : F

abbrev pub is_unset : String → Bool
is_unset s = str_eq s ""

-- A field that is not set takes its default.
unfoldable pub or_default {ℓ} : {A : Type ℓ} → (A → Bool) → A → A → A
or_default unset default a = if unset a then default else a

-- if a condition { return an error }
abbrev pub refuse_if : Bool → ConfigError → Result Done
refuse_if true e = err (Error.invalid_config e)
refuse_if false e = ok tt

-- A part that may be left out.
abbrev pub on_some {ℓ} : {A : Type ℓ} → (A → A) → Option A → Option A
on_some f none = none
on_some f (some a) = some (f a)

abbrev pub check_some {ℓ} : {A : Type ℓ} → (A → Result Done) → Option A → Result Done
check_some f none = ok tt
check_some f (some a) = f a

abbrev pub seconds : ℕ → ℤ
seconds n = pos (n * 1_000_000_000)

pub record RetryConfig (F : Type 0) : Type 0 where
  pub max_attempts : ℤ
  pub initial_backoff : ℤ
  pub max_backoff : ℤ
  pub backoff_multiplier : F

pub record DatabaseConfig : Type 0 where
  pub path : String
  pub journal_mode : String
  pub synchronous : String
  pub busy_timeout : ℤ
  pub cache_size : ℤ
  pub max_open_connections : ℤ
  pub max_idle_connections : ℤ
  pub enable_foreign_keys : Bool

pub record MaintenanceConfig : Type 0 where
  pub enabled : Bool
  pub check_interval : ℤ
  pub vacuum_on_startup : Bool
  pub wal_checkpoint_mode : String

pub record DownloaderConfig (F : Type 0) : Type 0 where
  pub rpc_url : String
  pub chunk_size : ℕ
  pub finality : String
  pub finalized_lag : ℕ
  pub retry : Option (RetryConfig F)
  pub db : DatabaseConfig
  pub retention_policy : Option RetentionPolicy
  pub maintenance : Option MaintenanceConfig

unfoldable pub retry_defaults : {F : Type 0} → Floats F → RetryConfig F → RetryConfig F
retry_defaults fl r = record {
  max_attempts = or_default is_zero (pos 5) r.max_attempts;
  initial_backoff = or_default is_zero (seconds 1) r.initial_backoff;
  max_backoff = or_default is_zero (seconds 30) r.max_backoff;
  backoff_multiplier = or_default fl.is_zero_float fl.two r.backoff_multiplier;
}

unfoldable pub retry_validate : {F : Type 0} → Floats F → RetryConfig F → Result Done
retry_validate fl r = do
  refuse_if (is_negative r.max_attempts) ConfigError.max_attempts_negative
  refuse_if (not (is_positive r.initial_backoff)) ConfigError.initial_backoff_not_positive
  refuse_if (not (is_positive r.max_backoff)) ConfigError.max_backoff_not_positive
  refuse_if (fl.below_one r.backoff_multiplier) ConfigError.multiplier_below_one

unfoldable pub database_defaults : DatabaseConfig → DatabaseConfig
database_defaults d = record {
  path = d.path;
  journal_mode = or_default is_unset "WAL" d.journal_mode;
  synchronous = or_default is_unset "NORMAL" d.synchronous;
  busy_timeout = or_default is_zero (pos 5000) d.busy_timeout;
  cache_size = or_default is_zero (pos 10000) d.cache_size;
  max_open_connections = or_default is_zero (pos 25) d.max_open_connections;
  max_idle_connections = or_default is_zero (pos 5) d.max_idle_connections;
  enable_foreign_keys = d.enable_foreign_keys;
}

unfoldable pub maintenance_defaults : MaintenanceConfig → MaintenanceConfig
maintenance_defaults m = record {
  enabled = m.enabled;
  check_interval = or_default is_zero (seconds 1800) m.check_interval;
  vacuum_on_startup = m.vacuum_on_startup;
  wal_checkpoint_mode = or_default is_unset "TRUNCATE" m.wal_checkpoint_mode;
}

unfoldable pub is_checkpoint_mode : String → Bool
is_checkpoint_mode s =
    str_eq s "PASSIVE" || str_eq s "FULL" || str_eq s "RESTART" || str_eq s "TRUNCATE"

unfoldable pub maintenance_validate : MaintenanceConfig → Result Done
unfolding is_checkpoint_mode
maintenance_validate m =
    if is_unset m.wal_checkpoint_mode
    then ok tt
    else refuse_if (not (is_checkpoint_mode m.wal_checkpoint_mode))
        ConfigError.checkpoint_mode_unknown

unfoldable pub downloader_defaults :
    {F : Type 0} → Floats F → DownloaderConfig F → DownloaderConfig F
unfolding maintenance_defaults retry_defaults database_defaults or_default
downloader_defaults fl d = record {
  rpc_url = d.rpc_url;
  chunk_size = or_default (λ n. n == 0) 5000 d.chunk_size;
  finality = or_default is_unset "finalized" d.finality;
  finalized_lag = d.finalized_lag;
  retry = on_some (retry_defaults fl) d.retry;
  db = database_defaults d.db;
  retention_policy = d.retention_policy;
  maintenance = on_some maintenance_defaults d.maintenance;
}

unfoldable pub is_finality : String → Bool
is_finality s = str_eq s "finalized" || str_eq s "safe" || str_eq s "latest"

unfoldable pub is_journal_mode : String → Bool
is_journal_mode s =
    is_unset s
    || str_eq s "WAL"
    || str_eq s "DELETE"
    || str_eq s "TRUNCATE"
    || str_eq s "PERSIST"
    || str_eq s "MEMORY"

unfoldable pub is_synchronous : String → Bool
is_synchronous s = is_unset s || str_eq s "FULL" || str_eq s "NORMAL" || str_eq s "OFF"

-- The checks of `Config.Validate` on the downloader.
unfoldable pub downloader_validate : {F : Type 0} → Floats F → DownloaderConfig F → Result Done
unfolding is_finality is_journal_mode is_synchronous maintenance_validate retry_validate
downloader_validate fl d = do
  refuse_if (is_unset d.rpc_url) ConfigError.rpc_url_required
  refuse_if (not (is_finality d.finality)) ConfigError.finality_unknown
  refuse_if (is_unset d.db.path) ConfigError.db_path_required
  refuse_if (not (is_journal_mode d.db.journal_mode)) ConfigError.journal_mode_unknown
  refuse_if (not (is_synchronous d.db.synchronous)) ConfigError.synchronous_unknown
  check_some maintenance_validate d.maintenance
  check_some (retry_validate fl) d.retry
