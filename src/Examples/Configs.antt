-- ===== src/Examples/Configs.antt =====
-- Configurations that pkg/config/config.go processes.
use chain_indexor.Prelude.{ℕ, codes, ltb, ◌==◌, pos, true, false, [], ◌∷◌, none, some, ◌≡◌, refl}
use chain_indexor.Types.{ok, err, ConfigError, Error}
use chain_indexor.Config.Database.{Floats, DatabaseConfig}
use chain_indexor.Config.Services.{get_component_level}
use chain_indexor.Config.Program.{IndexerConfig, Config, apply_defaults, process_config}
use chain_indexor.Config.Accepted.{Accepted, process_config-Accepted}

-- Numbers in tenths.
abbrev tenths : Floats ℕ
tenths = record { is_zero_float = λ n. n == 0; below_one = λ n. ltb n 10; two = 20 }

abbrev database : DatabaseConfig
database = record {
  path = "/data/chain.db";
  journal_mode = "";
  synchronous = "";
  busy_timeout = pos 0;
  cache_size = pos 0;
  max_open_connections = pos 0;
  max_idle_connections = pos 0;
  enable_foreign_keys = false;
}

abbrev erc20 : IndexerConfig
erc20 = record {
  name = "erc20";
  type_name = "erc20";
  start_block = 18_000_000;
  db = database;
  contracts =
      record {
        address = "0xdac17f958d2ee523a2206206994597c13d831ec7";
        events = "Transfer(address,address,uint256)" ∷ [];
      }
      ∷ [];
}

abbrev minimal : Config ℕ
minimal = record {
  downloader = record {
    rpc_url = "http://localhost:8545";
    chunk_size = 0;
    finality = "safe";
    finalized_lag = 0;
    retry = some (record {
      max_attempts = pos 0;
      initial_backoff = pos 0;
      max_backoff = pos 0;
      backoff_multiplier = 15;
    });
    db = database;
    retention_policy = none;
    maintenance = some (record {
      enabled = true;
      check_interval = pos 0;
      vacuum_on_startup = true;
      wal_checkpoint_mode = "";
    });
  };
  indexers = erc20 ∷ [];
  logging = some (record {
    default_level = "";
    development = false;
    component_levels = (" Downloader", "DEBUG") ∷ [];
  });
  metrics = none;
  api = none;
}

minimal_is_accepted : process_config tenths minimal ≡ ok (apply_defaults tenths minimal)
unfolding process_config
minimal_is_accepted = refl

process_config-Accepted_example : Accepted (apply_defaults tenths minimal)
process_config-Accepted_example =
    process_config-Accepted tenths minimal (apply_defaults tenths minimal) minimal_is_accepted

-- Two indexers of one name.
twice_is_refused :
    process_config tenths (record minimal { indexers = erc20 ∷ erc20 ∷ [] })
    ≡ err (Error.invalid_config (ConfigError.duplicate_name 1))
unfolding process_config
twice_is_refused = refl

-- An accepted level of a component is not found under the component's name.
level_is_lost :
    get_component_level
      (record {
        default_level = "info";
        development = false;
        component_levels = (" Downloader", "DEBUG") ∷ [];
      })
      "downloader"
    ≡ codes "info"
unfolding get_component_level
level_is_lost = refl
