-- ===== src/Examples/Store.antt =====
-- The log store at concrete inputs: stores and reads.
use chain_indexor.Prelude.{
  some, ℕ, ◌+◌, ◌≡◌, refl, ap, arith, true, not, ◌&&◌, ◌||◌, leb, List, [], ◌∷◌, elem, Ordered, In,
  Bool, ◌*◌, false, length, keep,
}
use chain_indexor.Types.{Log, Done, Result, ok}
use chain_indexor.Coverage.{CoverageRange, covers, get_missing_ranges}
use chain_indexor.Tables.{DbTopicCoverage, Store, no_faults, eth_log_to_db_log, db_log_to_eth_log}
use chain_indexor.Tables.Convert.{db_log_to_eth_log-eth_log_to_db_log}
use chain_indexor.LogStore.{get_logs, store_logs_internal, log_within}
use chain_indexor.LogStore.Views.{log_covered, topic_covered, IsWellFormed}
use chain_indexor.LogStore.Reads.{get_missing_ranges-get_logs, before, in_request, get_logs_lem}
use chain_indexor.LogStore.Storing.{listed, store_logs_internal_covered}
use chain_indexor.LogStore.RoundTrip.{get_logs-store_logs_internal}
use chain_indexor.LogStore.Valid.{Change, Changes, empty_store}
use chain_indexor.LogStore.Gaps.{get_unsynced_topics, oldest_block}
use chain_indexor.LogStore.Gaps.Missing.{get_unsynced_topics_complete}
use chain_indexor.Unsynced.{new_unsynced_topics}

abbrev transfer : ℕ → Log
transfer n = record {
  address = 7;
  topics = 70 ∷ 71 ∷ [];
  log_data = 1 ∷ 2 ∷ [];
  block_number = n;
  block_hash = n + 1000;
  tx_hash = n + 2000;
  tx_index = 0;
  index = 3;
  block_timestamp = n * 12;
  removed = false;
}

-- The store after blocks 10 to 19 of the address 7 with the topic 70.
abbrev stored_once : Store
stored_once = record {
  event_logs = eth_log_to_db_log (transfer 12) ∷ eth_log_to_db_log (transfer 15) ∷ [];
  log_coverage = record { address = 7; from_block = 10; to_block = 19 } ∷ [];
  topic_coverage = record { address = 7; topic0 = 70; from_block = 10; to_block = 19 } ∷ [];
}

abbrev store_once : Result Done × Store
store_once =
    store_logs_internal no_faults (7 ∷ []) ((70 ∷ []) ∷ []) (transfer 12 ∷ transfer 15 ∷ []) 10 19
      empty_store

store_once_ok : store_once ≡ (ok tt, stored_once)
unfolding store_logs_internal eth_log_to_db_log
store_once_ok = refl

db_log_to_eth_log-eth_log_to_db_log_example :
    db_log_to_eth_log (eth_log_to_db_log (transfer 12))
    ≡ record (transfer 12) { block_timestamp = 0; removed = false }
db_log_to_eth_log-eth_log_to_db_log_example =
    db_log_to_eth_log-eth_log_to_db_log (transfer 12) (omega arith)

store_logs_internal_covered_example :
    (log_covered store_once.1.log_coverage 7 15
      ≡ (log_covered [] 7 15 || (elem 7 (7 ∷ []) && leb 10 15 && leb 15 19)))
    × (topic_covered store_once.1.topic_coverage 7 70 15 ≡ (
        topic_covered [] 7 70 15
        || (listed 7 70 (7 ∷ []) ((70 ∷ []) ∷ []) && leb 10 15 && leb 15 19)))
store_logs_internal_covered_example =
    store_logs_internal_covered no_faults (7 ∷ []) ((70 ∷ []) ∷ []) (transfer 12 ∷ transfer 15 ∷ [])
      10 19 empty_store 7 70 15 (ap (λ p. p.0) store_once_ok)

stored_once-IsWellFormed : IsWellFormed stored_once
unfolding eth_log_to_db_log
stored_once-IsWellFormed = record {
  logs_unique = refl;
  coverage_unique = refl;
  topics_unique = refl;
  coverage_ranges = ((omega arith, omega arith), tt);
  topic_ranges = ((omega arith, omega arith), tt);
}

-- The log of a block without the fields that have no column.
abbrev read_back : ℕ → Log
read_back n = record (transfer n) { block_timestamp = 0; removed = false }

abbrev read_once : List Log × List CoverageRange
read_once = (read_back 12 ∷ read_back 15 ∷ [], record { from_block = 10; to_block = 19 } ∷ [])

read_once_ok : get_logs no_faults stored_once 7 5 25 ≡ ok read_once
unfolding get_logs eth_log_to_db_log db_log_to_eth_log
read_once_ok = refl

get_missing_ranges-get_logs_example :
    covers (get_missing_ranges 5 25 read_once.1) 22
    ≡ (leb 22 25 && leb 5 22 && not (log_covered stored_once.log_coverage 7 22))
get_missing_ranges-get_logs_example =
    get_missing_ranges-get_logs no_faults stored_once 7 5 25 22 {logs = read_once.0}
      {coverage = read_once.1} stored_once-IsWellFormed read_once_ok

get_logs_lem_example :
    Ordered before read_once.0
    × ((p : Log → Bool)
        → length (keep p read_once.0)
          ≡ length
              (keep (λ r. in_request 7 5 25 r && p (db_log_to_eth_log r)) stored_once.event_logs))
get_logs_lem_example =
    get_logs_lem no_faults stored_once 7 5 25 {logs = read_once.0} {coverage = read_once.1}
      read_once_ok

get_logs-store_logs_internal_example : In (read_back 15) read_once.0
unfolding eth_log_to_db_log store_logs_internal get_logs db_log_to_eth_log
get_logs-store_logs_internal_example =
    get_logs-store_logs_internal no_faults no_faults (7 ∷ []) ((70 ∷ []) ∷ []) (transfer 12 ∷ [])
      (transfer 15) [] 10 19 5 25 empty_store {logs = read_once.0} {coverage = read_once.1} refl
      refl refl refl (omega arith) (omega arith) (omega arith) refl

abbrev one_store : Changes empty_store store_once.1
one_store = Changes.then_change Changes.start (
    Change.stored no_faults (7 ∷ []) ((70 ∷ []) ∷ []) (transfer 12 ∷ transfer 15 ∷ []) 10 19
      empty_store (omega arith, omega arith))

get_unsynced_topics_complete_example : topic_covered stored_once.topic_coverage 7 70 14 ≡ true
unfolding get_unsynced_topics chain_indexor.LogStore.Gaps.has_complete_coverage
    chain_indexor.LogStore.Gaps.oldest_block chain_indexor.Unsynced.contains_topic
get_unsynced_topics_complete_example =
    get_unsynced_topics_complete no_faults stored_once (7 ∷ []) ((70 ∷ []) ∷ []) 18
      new_unsynced_topics 7 70 14 refl refl refl (omega arith) (omega arith)

abbrev coverage_from : ℕ → DbTopicCoverage
coverage_from n = record { address = 7; topic0 = 70; from_block = n; to_block = 99 }

least_is_oldest :
    oldest_block 7 (coverage_from 30 ∷ coverage_from 10 ∷ coverage_from 20 ∷ []) ≡ some 10
unfolding oldest_block
least_is_oldest = refl
