-- ===== src/Tables.antt =====
-- internal/fetcher/store/types.go and the tables of internal/migrations/002: the rows of the log
-- store's database, what its SQL statements mean, and the conversion of logs. `id` and `created_at`
-- are left out: no query reads them.
pub mod Convert
use chain_indexor.Prelude.{
  ℕ, Bool, true, false, not, ◌&&◌, List, [], ◌∷◌, ◌++◌, Option, none, some, ltb, leb, ◌==◌, any,
  if◌then◌else◌,
}
use chain_indexor.Types.{Address, Hash, Log, Error, Result, ok, err, Done}

pub record DbLog : Type 0 where
  pub address : Address
  pub block_number : ℕ
  pub block_hash : Hash
  pub tx_hash : Hash
  pub tx_index : ℕ
  pub log_index : ℕ
  pub topic0 : Option Hash
  pub topic1 : Option Hash
  pub topic2 : Option Hash
  pub topic3 : Option Hash
  pub log_data : List ℕ

pub record DbCoverage : Type 0 where
  pub address : Address
  pub from_block : ℕ
  pub to_block : ℕ

pub record DbTopicCoverage : Type 0 where
  pub address : Address
  pub topic0 : Hash
  pub from_block : ℕ
  pub to_block : ℕ

-- The three tables of the log store.
pub record Store : Type 0 where
  pub event_logs : List DbLog
  pub log_coverage : List DbCoverage
  pub topic_coverage : List DbTopicCoverage

-- The statements that the log store sends. Any of them may fail: the outcome of each in one call
-- of an operation is an argument, `Faults`.
pub data Stmt : Type 0 where
  begin_tx commit_tx select_coverage count_blocks select_range count_rows : Stmt
  delete_logs update_coverage delete_coverage update_topic_coverage delete_topic_coverage : Stmt
  select_logs : Stmt
  select_oldest : Address → Stmt
  select_topic_coverage : Address → Hash → Stmt
  insert_log : DbLog → Stmt
  insert_coverage : Address → Stmt
  insert_topic_coverage : Address → Hash → Stmt

abbrev pub Faults : Type 0
Faults = Stmt → Option Error

-- No statement fails.
abbrev pub no_faults : Faults
no_faults _ = none

abbrev pub fails_with {ℓ} : {A : Type ℓ} → Option Error → A → Result A
fails_with none a = ok a
fails_with (some e) a = err e

-- A statement that gives `a`, unless it fails.
abbrev pub exec {ℓ} : {A : Type ℓ} → Faults → Stmt → A → Result A
exec faults stmt a = fails_with (faults stmt) a

-- A statement whose rows are not read.
abbrev pub run : Faults → Stmt → Result Done
run faults stmt = exec faults stmt tt

-- UNIQUE(address, block_number, tx_hash, log_index)
abbrev pub same_log : DbLog → DbLog → Bool
same_log a b =
    a.address == b.address
    && a.block_number == b.block_number
    && a.tx_hash == b.tx_hash
    && a.log_index == b.log_index

-- UNIQUE(address, from_block, to_block)
abbrev pub same_coverage : DbCoverage → DbCoverage → Bool
same_coverage a b =
    a.address == b.address && a.from_block == b.from_block && a.to_block == b.to_block

-- UNIQUE(address, topic0, from_block, to_block)
abbrev pub same_topic_coverage : DbTopicCoverage → DbTopicCoverage → Bool
same_topic_coverage a b =
    a.address == b.address
    && a.topic0 == b.topic0
    && a.from_block == b.from_block
    && a.to_block == b.to_block

module _ {ℓ} {A : Type ℓ} (same : A → A → Bool) where
  -- A UNIQUE constraint holds of the rows.
  abbrev pub unique : List A → Bool
  unique [] = true
  unique (x ∷ xs) = not (any (same x) xs) && unique xs

  -- INSERT ... ON CONFLICT DO NOTHING
  abbrev pub insert_or_ignore : A → List A → List A
  insert_or_ignore x rows = if any (same x) rows then rows else rows ++ x ∷ []

  -- UPDATE: the rows after it, unless they break the constraint.
  abbrev pub update_rows : List A → Result (List A)
  update_rows rows = if unique rows then ok rows else err Error.unique_violation

-- `ethLogToDbLog`: the topic at a position, if the log has that many.
abbrev pub nth : List Hash → ℕ → Option Hash
nth [] i = none
nth (t ∷ ts) ℕ.zero = some t
nth (t ∷ ts) (ℕ.suc i) = nth ts i

unfoldable pub eth_log_to_db_log : Log → DbLog
eth_log_to_db_log log = record {
  address = log.address;
  block_number = log.block_number;
  block_hash = log.block_hash;
  tx_hash = log.tx_hash;
  tx_index = log.tx_index;
  log_index = log.index;
  topic0 = nth log.topics 0;
  topic1 = nth log.topics 1;
  topic2 = nth log.topics 2;
  topic3 = nth log.topics 3;
  log_data = log.log_data;
}

-- append(topics, *t), if t is not nil
abbrev pub append_topic : List Hash → Option Hash → List Hash
append_topic topics none = topics
append_topic topics (some t) = topics ++ t ∷ []

unfoldable pub db_log_to_eth_log : DbLog → Log
db_log_to_eth_log row = record {
  address = row.address;
  topics =
      append_topic (append_topic (append_topic (append_topic [] row.topic0) row.topic1) row.topic2)
        row.topic3;
  log_data = row.log_data;
  block_number = row.block_number;
  block_hash = row.block_hash;
  tx_hash = row.tx_hash;
  tx_index = row.tx_index;
  index = row.log_index;
  block_timestamp = 0;
  removed = false;
}
