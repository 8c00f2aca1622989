-- ===== src/LogStore/Valid.antt =====
-- The well-formedness of the store under its operations.
use chain_indexor.Prelude.{ℕ, ◌≤◌, true, ◌≡◌, List, [], All, max_u64}
use chain_indexor.Types.{Address, Hash, Log}
use chain_indexor.Tables.{DbTopicCoverage, Store, Faults, same_topic_coverage, unique}
use chain_indexor.LogStore.{store_logs_internal, handle_reorg, prune_logs_before_block}
use chain_indexor.LogStore.Views.{IsRange}

-- The topic rows of a well-formed store.
record TopicsValid (rows : List DbTopicCoverage) : Type 0 where
  is_unique : unique same_topic_coverage rows ≡ true
  ranges : All (λ c. IsRange c.from_block c.to_block) rows

-- What can happen to the store: a store of a non-empty range, a reorg, a prune.
pub data Change : Store → Store → Type 0 where
  stored :
      (faults : Faults) (xs : List Address) (tss : List (List Hash)) (logs : List Log) (from to : ℕ)
      (s : Store)
      → IsRange from to
      → Change s (store_logs_internal faults xs tss logs from to s).1
  reorged :
      (faults : Faults) (b : ℕ) (s : Store) → b ≤ max_u64 → Change s (handle_reorg faults b s).1
  pruned : (faults : Faults) (b : ℕ) (s : Store) → Change s (prune_logs_before_block faults b s).1

pub data Changes (s : Store) : Store → Type 0 where
  start : Changes s s
  then_change : {t u : Store} → Changes s t → Change t u → Changes s u

abbrev pub empty_store : Store
empty_store = record { event_logs = []; log_coverage = []; topic_coverage = [] }
