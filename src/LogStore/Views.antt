-- ===== src/LogStore/Views.antt =====
-- What the rows of the log store say of one block, and its well-formed states.
use chain_indexor.Prelude.{ℕ, ◌≤◌, ◌<◌, Bool, true, ◌&&◌, ◌≡◌, List, leb, ◌==◌, any, All, max_u64}
use chain_indexor.Types.{Address, Hash}
use chain_indexor.Tables.{
  DbCoverage, DbTopicCoverage, Store, same_log, same_coverage, same_topic_coverage, unique,
}

abbrev pub row_covers : Address → ℕ → DbCoverage → Bool
row_covers a b c = c.address == a && leb c.from_block b && leb b c.to_block

-- Some row says that the block was downloaded for the address.
abbrev pub log_covered : List DbCoverage → Address → ℕ → Bool
log_covered rows a b = any (row_covers a b) rows

abbrev pub topic_row_covers : Address → Hash → ℕ → DbTopicCoverage → Bool
topic_row_covers a t b c = c.address == a && c.topic0 == t && leb c.from_block b && leb b c.to_block

-- Some row says that the block was downloaded for the address and the topic.
abbrev pub topic_covered : List DbTopicCoverage → Address → Hash → ℕ → Bool
topic_covered rows a t b = any (topic_row_covers a t b) rows

abbrev pub IsRange : ℕ → ℕ → Type 0
IsRange from to = (from ≤ to) × (to < max_u64)

-- The UNIQUE constraints of the schema hold, and no recorded range is empty or ends at the last
-- number of a word.
pub record IsWellFormed (s : Store) : Type 0 where
  pub logs_unique : unique same_log s.event_logs ≡ true
  pub coverage_unique : unique same_coverage s.log_coverage ≡ true
  pub topics_unique : unique same_topic_coverage s.topic_coverage ≡ true
  pub coverage_ranges : All (λ c. IsRange c.from_block c.to_block) s.log_coverage
  pub topic_ranges : All (λ c. IsRange c.from_block c.to_block) s.topic_coverage
