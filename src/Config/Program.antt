-- ===== src/Config/Program.antt =====
-- The configuration of the whole program.
use Prim.Native.String.{String}
use text.Mathlib.Text.{◌==◌ as str_eq}
use chain_indexor.Prelude.{ℕ, suc, Bool, true, false, Option, List, [], ◌∷◌, map, any}
use chain_indexor.Types.{ConfigError, Result, ok, Done, ◌>>◌}
use chain_indexor.Config.Database.{
  Floats, is_unset, refuse_if, on_some, check_some, DatabaseConfig, DownloaderConfig,
  database_defaults, downloader_defaults, downloader_validate,
}
use chain_indexor.Config.Services.{
  LoggingConfig, MetricsConfig, ApiConfig, logging_defaults, logging_validate, metrics_defaults,
  metrics_validate, api_defaults, api_validate,
}

pub record ContractConfig : Type 0 where
  pub address : String
  pub events : List String

pub record IndexerConfig : Type 0 where
  pub name : String
  pub type_name : String
  pub start_block : ℕ
  pub db : DatabaseConfig
  pub contracts : List ContractConfig

pub record Config (F : Type 0) : Type 0 where
  pub downloader : DownloaderConfig F
  pub indexers : List IndexerConfig
  pub logging : Option LoggingConfig
  pub metrics : Option MetricsConfig
  pub api : Option ApiConfig

unfoldable pub indexer_defaults : IndexerConfig → IndexerConfig
unfolding database_defaults
indexer_defaults i = record i { db = database_defaults i.db }

unfoldable pub apply_defaults : {F : Type 0} → Floats F → Config F → Config F
unfolding downloader_defaults indexer_defaults logging_defaults metrics_defaults api_defaults
apply_defaults fl c = record {
  downloader = downloader_defaults fl c.downloader;
  indexers = map indexer_defaults c.indexers;
  logging = on_some logging_defaults c.logging;
  metrics = on_some metrics_defaults c.metrics;
  api = on_some api_defaults c.api;
}

abbrev pub is_empty_list {ℓ} : {A : Type ℓ} → List A → Bool
is_empty_list [] = true
is_empty_list (_ ∷ _) = false

-- The contracts of the indexer at position `i`, from its contract at position `j` on.
abbrev pub check_contracts : ℕ → ℕ → List ContractConfig → Result Done
check_contracts i j [] = ok tt
check_contracts i j (c ∷ cs) = do
  refuse_if (is_unset c.address) (ConfigError.address_required i j)
  refuse_if (is_empty_list c.events) (ConfigError.no_events i j)
  check_contracts i (suc j) cs

-- The indexers from position `i` on; `seen` holds the names before it.
abbrev pub check_indexers : ℕ → List String → List IndexerConfig → Result Done
check_indexers i seen [] = ok tt
check_indexers i seen (x ∷ xs) = do
  refuse_if (is_unset x.name) (ConfigError.name_required i)
  refuse_if (any (λ name. str_eq name x.name) seen) (ConfigError.duplicate_name i)
  refuse_if (is_unset x.db.path) (ConfigError.indexer_db_path_required i)
  refuse_if (is_empty_list x.contracts) (ConfigError.no_contracts i)
  check_contracts i 0 x.contracts
  check_indexers (suc i) (x.name ∷ seen) xs

unfoldable pub validate : {F : Type 0} → Floats F → Config F → Result Done
unfolding downloader_validate logging_validate metrics_validate api_validate
validate fl c = do
  downloader_validate fl c.downloader
  check_some logging_validate c.logging
  check_some metrics_validate c.metrics
  check_some api_validate c.api
  refuse_if (is_empty_list c.indexers) ConfigError.no_indexers
  check_indexers 0 [] c.indexers

-- internal/config/loader.go
unfoldable pub process_config : {F : Type 0} → Floats F → Config F → Result (Config F)
unfolding apply_defaults validate
process_config fl c = let defaulted = apply_defaults fl c in validate fl defaulted >> ok defaulted
