-- ===== src/Types.antt =====
-- The chain data that the components exchange (go-ethereum's `common.Address`, `common.Hash`,
-- `types.Log`, `types.Header`), and the errors that they return.
use chain_indexor.Prelude.{ℕ, Bool, List, ◌≡◌, refl}

-- A 20-byte address and a 32-byte hash, read as numbers: the program only compares them. The zero
-- value `common.Hash{}` is 0.
abbrev pub Address : Type 0
Address = ℕ

abbrev pub Hash : Type 0
Hash = ℕ

abbrev pub zero_hash : Hash
zero_hash = 0

-- `types.Log` of go-ethereum; `log_data` is its byte string `Data`.
pub record Log : Type 0 where
  pub address : Address
  pub topics : List Hash
  pub log_data : List ℕ
  pub block_number : ℕ
  pub tx_hash : Hash
  pub tx_index : ℕ
  pub block_hash : Hash
  pub block_timestamp : ℕ
  pub index : ℕ
  pub removed : Bool

-- The parts of `types.Header` that the program reads: `Number`, `Hash()` and `ParentHash`.
pub record Header : Type 0 where
  pub number : ℕ
  pub hash : Hash
  pub parent_hash : Hash

-- What `Validate` of pkg/config/config.go refuses; the numbers are the positions in its messages.
pub data ConfigError : Type 0 where
  rpc_url_required finality_unknown db_path_required journal_mode_unknown : ConfigError
  synchronous_unknown checkpoint_mode_unknown max_attempts_negative : ConfigError
  initial_backoff_not_positive max_backoff_not_positive multiplier_below_one : ConfigError
  default_level_unknown component_unknown component_level_unknown : ConfigError
  listen_address_required path_required path_without_slash : ConfigError
  read_timeout_negative write_timeout_negative idle_timeout_negative : ConfigError
  no_indexers : ConfigError
  name_required duplicate_name indexer_db_path_required no_contracts : ℕ → ConfigError
  address_required no_events : ℕ → ℕ → ConfigError

-- An error value. Wrapping by `fmt.Errorf("...: %w", err)` keeps what `errors.As` finds, so it is
-- not written. `db_error` and `rpc_error` are any error of the database and of the node.
pub data Error : Type 0 where
  db_error : ℕ → Error
  rpc_error : ℕ → Error
  data_error : List ℕ → Error  -- an `rpc.DataError`, with the bytes of its error data
  reorg_detected : ℕ → Error  -- `reorg.ReorgDetectedError`, with its `FirstReorgBlock`
  unique_violation : Error  -- an SQL UNIQUE or PRIMARY KEY constraint does not hold
  null_value : Error  -- an SQL NULL is scanned into a number
  no_rows : Error  -- `sql.ErrNoRows`
  panicked : Error  -- an index out of range, or a nil pointer
  length_mismatch : Error
  cannot_split : ℕ → Error
  invalid_finality : Error
  unknown_mode : Error
  indexer_failed : ℕ → Error
  invalid_config : ConfigError → Error
  cancelled : Error
  out_of_fuel : Error  -- of the model: a recursion without a bound did not end within its fuel

pub data Result {ℓ} (A : Type ℓ) : Type ℓ where
  ok : A → Result A
  err : Error → Result A

infixl 5 ◌>>=◌ ◌>>◌
abbrev pub ◌>>=◌ {ℓ κ} : {A : Type ℓ} {B : Type κ} → Result A → (A → Result B) → Result B
ok a >>= f = f a
err e >>= f = err e

-- The result of a call that returns only an error.
abbrev pub Done : Type 0
Done = Unit {0}

abbrev pub ◌>>◌ {ℓ} : {B : Type ℓ} → Result Done → Result B → Result B
m >> k = m >>= λ _. k

-- A chain that returns came from a first part that returned.
pub >>=-ok {ℓ κ} :
    {A : Type ℓ} {B : Type κ} (m : Result A) (f : A → Result B) (b : B)
    → (m >>= f) ≡ ok b
    → (a : A) × (m ≡ ok a) × (f a ≡ ok b)
>>=-ok (ok a) f b h = (a, refl, h)
>>=-ok (err e) f b h = cc
