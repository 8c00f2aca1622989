-- ===== src/Examples/Indexers.antt =====
-- The coordinator and the downloader at concrete inputs.
use chain_indexor.Prelude.{
  ◌+◌, ◌*◌, ℕ, ◌≡◌, ◌+◌, ◌&&◌, ◌||◌, refl, arith, false, some, List, [], ◌∷◌, any, leb, keep,
  length, u64_sub, inl,
}
use chain_indexor.Types.{Log, Error, Result, ok, err, Done}
use chain_indexor.Unsynced.{lookup}
use chain_indexor.LogStore.Storing.{listed}
use chain_indexor.Fetcher.{FetchMode, FetchResult, FetchState, FetchEnv, fetch_next}
use chain_indexor.SyncManager.{SyncState, no_sync_faults}
use chain_indexor.Coordinator.{
  handle_reorg, Indexer, IndexerCoordinator, new_indexer_coordinator, or_empty, register_indexer,
  routed_logs,
}
use chain_indexor.Coordinator.Registered.{wants, routed_logs-register_all}
use chain_indexor.Downloader.{Downloader, new_downloader, Turn, Session, route, take_turn}
use chain_indexor.Downloader.Register.{asks, IsAligned, register_all-listed}
use chain_indexor.Downloader.Turns.{RolledBack, rolled_back, take_turn_reorg}
use chain_indexor.Downloader.Progress.{LogsFirst, take_turn_fetched, take_turn_reorg_repeats}
use chain_indexor.Examples.Chain.{chain, view, log_14, stale_rows}
use chain_indexor.Examples.Fetches.{config, heads_at, env, fresh}
use chain_indexor.Coordinator.Registered
use chain_indexor.Downloader.Register

abbrev transfers : Indexer
transfers = record { id = 1; name = 1; start_block = 5; events_to_index = (7, 70 ∷ []) ∷ [] }

abbrev everything : Indexer
everything = record { id = 2; name = 2; start_block = 20; events_to_index = (7, []) ∷ (8, []) ∷ [] }

routed_logs-register_all_example :
    or_empty (
      lookup 1 (
        routed_logs
          (Registered.register_all (transfers ∷ everything ∷ []) new_indexer_coordinator)
          (log_14 ∷ [])))
    ≡ keep (λ l. wants transfers.events_to_index l && leb 5 l.block_number) (log_14 ∷ [])
routed_logs-register_all_example =
    routed_logs-register_all (transfers ∷ everything ∷ []) transfers (log_14 ∷ [])
      ((λ h. refl), ((λ h. cc), tt)) (inl refl)

register_all-listed_example :
    IsAligned (Register.register_all (transfers ∷ everything ∷ []) new_downloader)
    × (listed 7 70
          (Register.register_all (transfers ∷ everything ∷ []) new_downloader).addresses
          (Register.register_all (transfers ∷ everything ∷ []) new_downloader).topics
        ≡ (listed 7 70 [] []
            || any (λ ix. asks 7 70 ix.events_to_index) (transfers ∷ everything ∷ [])))
unfolding new_downloader
register_all-listed_example =
    register_all-listed (transfers ∷ everything ∷ []) new_downloader 7 70 refl

-- The indexers' state counts the logs that they were handed.
abbrev count : ℕ → List Log → ℕ → Result Done × ℕ
count i logs n = (ok tt, n + length logs)

abbrev refuse : ℕ → List Log → ℕ → Result Done × ℕ
refuse i logs n = (err (Error.indexer_failed i), n)

abbrev no_rollback : ℕ → ℕ → ℕ → Result Done × ℕ
no_rollback i b n = (ok tt, n)

abbrev turn_with : FetchEnv → (ℕ → List Log → ℕ → Result Done × ℕ) → Turn ℕ
turn_with e on_logs = record {
  is_cancelled = false;
  fetch_env = e;
  heads = heads_at 20 ∷ [];
  now = 1000;
  sync_faults = no_sync_faults;
  state_faults = no_sync_faults;
  on_logs = on_logs;
  on_reorg = no_rollback;
}

abbrev at_13 : SyncState
at_13 = record {
  last_indexed_block = 13;
  last_indexed_block_hash = 113;
  last_indexed_timestamp = 900;
  mode = FetchMode.backfill;
}

abbrev session_13 : Session ℕ
session_13 = record {
  state = at_13;
  last_indexed_block = 13;
  fetcher = fresh;
  row = some at_13;
  world = 0;
}

abbrev ic : IndexerCoordinator
ic = record {
  address_topics = (7, (70, 1 ∷ []) ∷ []) ∷ [];
  address_all_topics = [];
  indexers = transfers ∷ [];
  start_blocks = (1, 5) ∷ [];
}

ic_registered : ic ≡ register_indexer transfers new_indexer_coordinator
unfolding register_indexer new_indexer_coordinator
ic_registered = refl

abbrev result_14 : FetchResult
result_14 = record {
  logs = log_14 ∷ [];
  headers = view 14 ∷ view 15 ∷ view 16 ∷ [];
  from_block = 14;
  to_block = 16;
}

abbrev fetched_13 : FetchState
fetched_13 = (fetch_next config env (heads_at 20 ∷ []) 13 13 fresh).1

fetched_13_ok : fetch_next config env (heads_at 20 ∷ []) 13 13 fresh ≡ (ok result_14, fetched_13)
unfolding fetch_next chain_indexor.Fetcher.fetch_backfill
    chain_indexor.LogStore.Gaps.get_unsynced_topics chain_indexor.Unsynced.is_empty
    chain_indexor.LogStore.Gaps.has_complete_coverage chain_indexor.Unsynced.add_topic
    chain_indexor.Unsynced.should_catch_up chain_indexor.Fetcher.get_finalized_block
    chain_indexor.Fetcher.fetch_range chain_indexor.Fetcher.active_filter
    chain_indexor.Fetcher.fetch_logs_with_retry chain_indexor.LogStore.Retention.store_logs
    chain_indexor.LogStore.store_logs_internal chain_indexor.Detector.verify_and_record_blocks
    chain_indexor.Detector.get_stored_block chain_indexor.Detector.prune_finalized
    chain_indexor.Detector.get_stored_blocks_after chain_indexor.Detector.verify_non_finalized
    chain_indexor.Detector.block_numbers chain_indexor.Detector.check_chain
    chain_indexor.Detector.check_logs chain_indexor.Detector.check_stored
    chain_indexor.Detector.finish chain_indexor.Detector.log_block_hash
    chain_indexor.Detector.non_finalized_numbers chain_indexor.Detector.prune_old_blocks
    chain_indexor.Detector.record_blocks chain_indexor.Detector.record_range
    chain_indexor.Fetcher.fetch_live chain_indexor.LogStore.Gaps.addresses_loop
    chain_indexor.LogStore.Gaps.complete_loop chain_indexor.LogStore.Gaps.oldest_block
    chain_indexor.LogStore.Gaps.topics_loop
    chain_indexor.LogStore.Retention.apply_retention_if_needed
    chain_indexor.LogStore.Retention.is_enabled chain_indexor.LogStore.count_distinct
    chain_indexor.LogStore.insert_addresses chain_indexor.LogStore.insert_log
    chain_indexor.LogStore.insert_logs chain_indexor.LogStore.insert_topics
    chain_indexor.Tables.eth_log_to_db_log chain_indexor.Unsynced.insert lookup
    chain_indexor.LogStore.handle_reorg
fetched_13_ok = refl

abbrev after_13 : Session ℕ
after_13 = (take_turn ic config 13 (turn_with env count) session_13).1

after_13_ok : take_turn ic config 13 (turn_with env count) session_13 ≡ (ok tt, after_13)
unfolding fetch_next chain_indexor.Fetcher.fetch_backfill
    chain_indexor.LogStore.Gaps.get_unsynced_topics chain_indexor.Unsynced.is_empty
    chain_indexor.LogStore.Gaps.has_complete_coverage chain_indexor.Unsynced.add_topic
    chain_indexor.Unsynced.should_catch_up chain_indexor.Fetcher.get_finalized_block
    chain_indexor.Fetcher.fetch_range chain_indexor.Fetcher.active_filter
    chain_indexor.Fetcher.fetch_logs_with_retry chain_indexor.LogStore.Retention.store_logs
    chain_indexor.LogStore.store_logs_internal chain_indexor.Detector.verify_and_record_blocks
    chain_indexor.Detector.get_stored_block chain_indexor.Detector.prune_finalized
    chain_indexor.Detector.get_stored_blocks_after chain_indexor.Detector.verify_non_finalized
    chain_indexor.Detector.block_numbers chain_indexor.Detector.check_chain
    chain_indexor.Detector.check_logs chain_indexor.Detector.check_stored
    chain_indexor.Detector.finish chain_indexor.Detector.log_block_hash
    chain_indexor.Detector.non_finalized_numbers chain_indexor.Detector.prune_old_blocks
    chain_indexor.Detector.record_blocks chain_indexor.Detector.record_range
    chain_indexor.Fetcher.fetch_live chain_indexor.LogStore.Gaps.addresses_loop
    chain_indexor.LogStore.Gaps.complete_loop chain_indexor.LogStore.Gaps.oldest_block
    chain_indexor.LogStore.Gaps.topics_loop
    chain_indexor.LogStore.Retention.apply_retention_if_needed
    chain_indexor.LogStore.Retention.is_enabled chain_indexor.LogStore.count_distinct
    chain_indexor.LogStore.insert_addresses chain_indexor.LogStore.insert_log
    chain_indexor.LogStore.insert_logs chain_indexor.LogStore.insert_topics
    chain_indexor.Tables.eth_log_to_db_log chain_indexor.Unsynced.insert lookup
    chain_indexor.LogStore.handle_reorg take_turn chain_indexor.Coordinator.handle_logs
    chain_indexor.Coordinator.handle_reorg chain_indexor.Coordinator.interested_indexers routed_logs
    chain_indexor.Downloader.downloader_handle_reorg chain_indexor.SyncManager.get_state
    chain_indexor.SyncManager.reset chain_indexor.SyncManager.save_checkpoint
    chain_indexor.SyncManager.set_mode
after_13_ok = refl

take_turn_fetched_example :
    LogsFirst ic
      (turn_with env count)
      result_14
      (ok tt)
      (record session_13 { fetcher = fetched_13 })
      after_13
take_turn_fetched_example =
    take_turn_fetched ic (turn_with env count) config 13 session_13 after_13 at_13 result_14
      fetched_13 (ok tt) refl refl fetched_13_ok after_13_ok

-- The rows of the blocks 12 and 13 are of another chain.
abbrev session_stale : Session ℕ
session_stale = record session_13 { fetcher = record fresh { blocks = stale_rows } }

abbrev stale_fetch : FetchState
stale_fetch = (fetch_next config env (heads_at 20 ∷ []) 13 13 session_stale.fetcher).1

stale_fetch_reorg :
    fetch_next config env (heads_at 20 ∷ []) 13 13 session_stale.fetcher
    ≡ (err (Error.reorg_detected 12), stale_fetch)
unfolding fetch_next chain_indexor.Fetcher.fetch_backfill
    chain_indexor.LogStore.Gaps.get_unsynced_topics chain_indexor.Unsynced.is_empty
    chain_indexor.LogStore.Gaps.has_complete_coverage chain_indexor.Unsynced.add_topic
    chain_indexor.Unsynced.should_catch_up chain_indexor.Fetcher.get_finalized_block
    chain_indexor.Fetcher.fetch_range chain_indexor.Fetcher.active_filter
    chain_indexor.Fetcher.fetch_logs_with_retry chain_indexor.LogStore.Retention.store_logs
    chain_indexor.LogStore.store_logs_internal chain_indexor.Detector.verify_and_record_blocks
    chain_indexor.Detector.get_stored_block chain_indexor.Detector.prune_finalized
    chain_indexor.Detector.get_stored_blocks_after chain_indexor.Detector.verify_non_finalized
    chain_indexor.Detector.block_numbers chain_indexor.Detector.check_chain
    chain_indexor.Detector.check_logs chain_indexor.Detector.check_stored
    chain_indexor.Detector.finish chain_indexor.Detector.log_block_hash
    chain_indexor.Detector.non_finalized_numbers chain_indexor.Detector.prune_old_blocks
    chain_indexor.Detector.record_blocks chain_indexor.Detector.record_range
    chain_indexor.Fetcher.fetch_live chain_indexor.LogStore.Gaps.addresses_loop
    chain_indexor.LogStore.Gaps.complete_loop chain_indexor.LogStore.Gaps.oldest_block
    chain_indexor.LogStore.Gaps.topics_loop
    chain_indexor.LogStore.Retention.apply_retention_if_needed
    chain_indexor.LogStore.Retention.is_enabled chain_indexor.LogStore.count_distinct
    chain_indexor.LogStore.insert_addresses chain_indexor.LogStore.insert_log
    chain_indexor.LogStore.insert_logs chain_indexor.LogStore.insert_topics
    chain_indexor.Tables.eth_log_to_db_log chain_indexor.Unsynced.insert lookup
    chain_indexor.LogStore.handle_reorg
stale_fetch_reorg = refl

abbrev after_reorg : Session ℕ
after_reorg = (take_turn ic config 13 (turn_with env count) session_stale).1

after_reorg_ok : take_turn ic config 13 (turn_with env count) session_stale ≡ (ok tt, after_reorg)
unfolding fetch_next chain_indexor.Fetcher.fetch_backfill
    chain_indexor.LogStore.Gaps.get_unsynced_topics chain_indexor.Unsynced.is_empty
    chain_indexor.LogStore.Gaps.has_complete_coverage chain_indexor.Unsynced.add_topic
    chain_indexor.Unsynced.should_catch_up chain_indexor.Fetcher.get_finalized_block
    chain_indexor.Fetcher.fetch_range chain_indexor.Fetcher.active_filter
    chain_indexor.Fetcher.fetch_logs_with_retry chain_indexor.LogStore.Retention.store_logs
    chain_indexor.LogStore.store_logs_internal chain_indexor.Detector.verify_and_record_blocks
    chain_indexor.Detector.get_stored_block chain_indexor.Detector.prune_finalized
    chain_indexor.Detector.get_stored_blocks_after chain_indexor.Detector.verify_non_finalized
    chain_indexor.Detector.block_numbers chain_indexor.Detector.check_chain
    chain_indexor.Detector.check_logs chain_indexor.Detector.check_stored
    chain_indexor.Detector.finish chain_indexor.Detector.log_block_hash
    chain_indexor.Detector.non_finalized_numbers chain_indexor.Detector.prune_old_blocks
    chain_indexor.Detector.record_blocks chain_indexor.Detector.record_range
    chain_indexor.Fetcher.fetch_live chain_indexor.LogStore.Gaps.addresses_loop
    chain_indexor.LogStore.Gaps.complete_loop chain_indexor.LogStore.Gaps.oldest_block
    chain_indexor.LogStore.Gaps.topics_loop
    chain_indexor.LogStore.Retention.apply_retention_if_needed
    chain_indexor.LogStore.Retention.is_enabled chain_indexor.LogStore.count_distinct
    chain_indexor.LogStore.insert_addresses chain_indexor.LogStore.insert_log
    chain_indexor.LogStore.insert_logs chain_indexor.LogStore.insert_topics
    chain_indexor.Tables.eth_log_to_db_log chain_indexor.Unsynced.insert lookup
    chain_indexor.LogStore.handle_reorg take_turn chain_indexor.Coordinator.handle_logs
    chain_indexor.Coordinator.handle_reorg chain_indexor.Coordinator.interested_indexers routed_logs
    chain_indexor.Downloader.downloader_handle_reorg chain_indexor.SyncManager.get_state
    chain_indexor.SyncManager.reset chain_indexor.SyncManager.save_checkpoint
    chain_indexor.SyncManager.set_mode
after_reorg_ok = refl

take_turn_reorg_example :
    RolledBack ic (turn_with env count) 12 session_stale after_reorg
    × (after_reorg.last_indexed_block ≡ u64_sub 12 1)
take_turn_reorg_example =
    take_turn_reorg ic (turn_with env count) config 13 session_stale after_reorg at_13 stale_fetch
      12 refl refl stale_fetch_reorg after_reorg_ok

-- In the next turn the node has finalized the stale rows' blocks.
abbrev env_20 : FetchEnv
env_20 = record env { chain = record chain { finalized = ok (view 20) } }

abbrev result_12 : FetchResult
result_12 = record { logs = log_14 ∷ []; headers = []; from_block = 12; to_block = 14 }

abbrev next_fetch : FetchState
next_fetch =
    (fetch_next config env_20 (heads_at 20 ∷ []) after_reorg.last_indexed_block 13
      after_reorg.fetcher).1

next_fetch_ok :
    fetch_next config env_20
      (heads_at 20 ∷ [])
      after_reorg.last_indexed_block
      13
      after_reorg.fetcher
    ≡ (ok result_12, next_fetch)
unfolding fetch_next chain_indexor.Fetcher.fetch_backfill
    chain_indexor.LogStore.Gaps.get_unsynced_topics chain_indexor.Unsynced.is_empty
    chain_indexor.LogStore.Gaps.has_complete_coverage chain_indexor.Unsynced.add_topic
    chain_indexor.Unsynced.should_catch_up chain_indexor.Fetcher.get_finalized_block
    chain_indexor.Fetcher.fetch_range chain_indexor.Fetcher.active_filter
    chain_indexor.Fetcher.fetch_logs_with_retry chain_indexor.LogStore.Retention.store_logs
    chain_indexor.LogStore.store_logs_internal chain_indexor.Detector.verify_and_record_blocks
    chain_indexor.Detector.get_stored_block chain_indexor.Detector.prune_finalized
    chain_indexor.Detector.get_stored_blocks_after chain_indexor.Detector.verify_non_finalized
    chain_indexor.Detector.block_numbers chain_indexor.Detector.check_chain
    chain_indexor.Detector.check_logs chain_indexor.Detector.check_stored
    chain_indexor.Detector.finish chain_indexor.Detector.log_block_hash
    chain_indexor.Detector.non_finalized_numbers chain_indexor.Detector.prune_old_blocks
    chain_indexor.Detector.record_blocks chain_indexor.Detector.record_range
    chain_indexor.Fetcher.fetch_live chain_indexor.LogStore.Gaps.addresses_loop
    chain_indexor.LogStore.Gaps.complete_loop chain_indexor.LogStore.Gaps.oldest_block
    chain_indexor.LogStore.Gaps.topics_loop
    chain_indexor.LogStore.Retention.apply_retention_if_needed
    chain_indexor.LogStore.Retention.is_enabled chain_indexor.LogStore.count_distinct
    chain_indexor.LogStore.insert_addresses chain_indexor.LogStore.insert_log
    chain_indexor.LogStore.insert_logs chain_indexor.LogStore.insert_topics
    chain_indexor.Tables.eth_log_to_db_log chain_indexor.Unsynced.insert lookup
    chain_indexor.LogStore.handle_reorg take_turn chain_indexor.Coordinator.handle_logs
    chain_indexor.Coordinator.handle_reorg chain_indexor.Coordinator.interested_indexers routed_logs
    chain_indexor.Downloader.downloader_handle_reorg chain_indexor.SyncManager.get_state
    chain_indexor.SyncManager.reset chain_indexor.SyncManager.save_checkpoint
    chain_indexor.SyncManager.set_mode
next_fetch_ok = refl

abbrev after_next : Session ℕ
after_next = (take_turn ic config 13 (turn_with env_20 count) after_reorg).1

after_next_ok : take_turn ic config 13 (turn_with env_20 count) after_reorg ≡ (ok tt, after_next)
unfolding fetch_next chain_indexor.Fetcher.fetch_backfill
    chain_indexor.LogStore.Gaps.get_unsynced_topics chain_indexor.Unsynced.is_empty
    chain_indexor.LogStore.Gaps.has_complete_coverage chain_indexor.Unsynced.add_topic
    chain_indexor.Unsynced.should_catch_up chain_indexor.Fetcher.get_finalized_block
    chain_indexor.Fetcher.fetch_range chain_indexor.Fetcher.active_filter
    chain_indexor.Fetcher.fetch_logs_with_retry chain_indexor.LogStore.Retention.store_logs
    chain_indexor.LogStore.store_logs_internal chain_indexor.Detector.verify_and_record_blocks
    chain_indexor.Detector.get_stored_block chain_indexor.Detector.prune_finalized
    chain_indexor.Detector.get_stored_blocks_after chain_indexor.Detector.verify_non_finalized
    chain_indexor.Detector.block_numbers chain_indexor.Detector.check_chain
    chain_indexor.Detector.check_logs chain_indexor.Detector.check_stored
    chain_indexor.Detector.finish chain_indexor.Detector.log_block_hash
    chain_indexor.Detector.non_finalized_numbers chain_indexor.Detector.prune_old_blocks
    chain_indexor.Detector.record_blocks chain_indexor.Detector.record_range
    chain_indexor.Fetcher.fetch_live chain_indexor.LogStore.Gaps.addresses_loop
    chain_indexor.LogStore.Gaps.complete_loop chain_indexor.LogStore.Gaps.oldest_block
    chain_indexor.LogStore.Gaps.topics_loop
    chain_indexor.LogStore.Retention.apply_retention_if_needed
    chain_indexor.LogStore.Retention.is_enabled chain_indexor.LogStore.count_distinct
    chain_indexor.LogStore.insert_addresses chain_indexor.LogStore.insert_log
    chain_indexor.LogStore.insert_logs chain_indexor.LogStore.insert_topics
    chain_indexor.Tables.eth_log_to_db_log chain_indexor.Unsynced.insert lookup
    chain_indexor.LogStore.handle_reorg take_turn chain_indexor.Coordinator.handle_logs
    chain_indexor.Coordinator.handle_reorg chain_indexor.Coordinator.interested_indexers routed_logs
    chain_indexor.Downloader.downloader_handle_reorg chain_indexor.SyncManager.get_state
    chain_indexor.SyncManager.reset chain_indexor.SyncManager.save_checkpoint
    chain_indexor.SyncManager.set_mode
after_next_ok = refl

take_turn_reorg_repeats_example :
    (route ic (turn_with env_20 count) (log_14 ∷ []) after_reorg.world ≡ (ok tt, after_next.world))
    × (after_next.row ≡ some (rolled_back 1000 12))
    × (after_next.last_indexed_block ≡ u64_sub 12 1)
take_turn_reorg_repeats_example =
    take_turn_reorg_repeats ic (turn_with env count) (turn_with env_20 count) config 13
      session_stale after_reorg after_next at_13 stale_fetch next_fetch 12 result_12 refl refl refl
      (omega arith) stale_fetch_reorg after_reorg_ok next_fetch_ok refl after_next_ok

abbrev two_indexers : IndexerCoordinator
two_indexers = record ic { indexers = transfers ∷ record transfers { id = 2 } ∷ [] }

-- Both are rolled back, and after an error no further one.
both_are_rolled_back :
    (handle_reorg (λ i b w. (ok tt, w + i * b)) two_indexers 10 0 ≡ (ok tt, 30))
    × (handle_reorg (λ i b w. (err (Error.db_error i), w + i * b)) two_indexers 10 0
        ≡ (err (Error.db_error 1), 10))
unfolding handle_reorg
both_are_rolled_back = (refl, refl)
