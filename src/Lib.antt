-- ===== src/Lib.antt =====
-- ChainIndexor: a program that reads event logs from an Ethereum node, keeps them in SQLite, and
-- hands them to indexers.
--
-- The parts and how they interact. An indexer names the addresses, topics and the start block it
-- wants. The downloader (internal/downloader/downloader.go) gathers these into a filter, and runs a
-- loop: each turn asks the log fetcher (internal/fetcher/log_fetcher.go) for the next range of
-- blocks, gives the logs to the coordinator (internal/indexer/indexer_coordinator.go), which routes
-- them to the indexers, and saves a checkpoint (internal/downloader/sync_manager.go). The fetcher asks
-- the node for logs, stores them in the log store (internal/fetcher/store/log_store.go) with the
-- ranges it has covered, and has the reorg detector (internal/reorg/reorg_detector.go) compare the
-- recorded block hashes with the chain. A reorg is an error that travels up: the fetcher drops the
-- cached logs, the downloader rolls back the indexers and the checkpoint.
--
-- The files and the code they model, each with its theorems in child modules:
--   Types: go-ethereum's logs and headers, the errors (pkg/reorg/errors.go) and results.
--   Coverage: pkg/fetcher/store/coverage_range.go (IsCovered, GetMissingRanges).
--   Unsynced: pkg/fetcher/store/types.go (UnsyncedTopics and its methods).
--   Tables: internal/fetcher/store/types.go, the conversion of logs, and what SQL statements mean.
--   LogStore: log_store.go (GetLogs, storeLogsInternal, HandleReorg, pruneLogsBeforeBlock);
--     LogStore.Retention: applyRetentionIfNeeded, calculateBlocksToFreeSpace, StoreLogs;
--     LogStore.Gaps: hasCompleteCoverage, GetUnsyncedTopics;
--     LogStore.Refinement: the log store as sets of downloaded blocks, without rows.
--   Detector: reorg_detector.go (VerifyAndRecordBlocks and the queries it makes).
--   Rpc.Number: internal/common/parse.go and toBlockNumArg of internal/rpc/client.go;
--     Rpc.Errors: internal/rpc/errors.go; Rpc.Retry: internal/rpc/retry.go;
--     Rpc.Client: the getters and batch calls of internal/rpc/client.go.
--   Finality: internal/types/block_finality.go.
--   Fetcher: log_fetcher.go (FetchNext and what it calls), pkg/fetcher/fetcher.go.
--   SyncManager: sync_manager.go, with the row of pkg/downloader/sync_manager.go.
--   Coordinator: indexer_coordinator.go.
--   Downloader: downloader.go (RegisterIndexer, getDownloaderStartBlock, handleReorg, Download).
--   Config: pkg/config/config.go (defaults and validation) and processConfig of
--     internal/config/loader.go. The downloader and the retries take their configuration from it.
--   Maintenance: internal/db/maintenance.go (RunMaintenance, the worker, Start, the metrics);
--     Maintenance.Lock: the operation lock, the goroutines that take it, wait for
--     it, or query without it, as a state machine.
--   Codegen: internal/codegen/parser.go; Codegen.Types: internal/codegen/types.go.
--   EventHelpers: internal/indexer/event_helpers.go (SampleBlockRange, InterpolateTimestamp).
--   Prelude: lists, sorting, texts, Boolean tests and 64-bit words for all of them.
--   Examples: the theorems at concrete inputs, and runs.
--
-- State and errors. A table is a list of rows, a transaction works on a copy that is dropped unless
-- it commits, and an operation takes the state and returns a result with the new state. Which
-- statements fail is an argument (Faults, Outcomes, SyncFaults). An error keeps what `errors.As`
-- finds in it; wrapping is left out. A uint64 is a natural number with its wrap-around written out.
-- SQL statements are read from their text and from the schema in internal/migrations.
--
-- Parameters, which stand for code outside of the repository: the answers of the node (GetLogs,
-- Heads, ChainView), meddler's Save, the size of the database, the handlers of the indexers, the
-- clock. The floating-point estimate of the bytes that a block frees, the length of the waits between
-- retries, and the floating-point numbers of the configuration are parameters as well.
--
-- Fuel. `fetch_logs_with_retry` recurses on fuel: 65, since a range of 64-bit numbers is halved at
-- most 64 times where the midpoint does not wrap around, that is where the start and the end add up to
-- at most 2^64 - 1. With a midpoint that wraps around, or a suggested range, the source's own recursion
-- need not end, and no fuel stands for it. The waiting of `fetchLive` and the loop of `Download` run over a list of answers, and
-- end as cancelled when it is used up. A batch of block numbers is taken in as many chunks as it has
-- numbers at most, and the element types of an array type are at most as many as it has characters.
--
-- Simplifications. The goroutines of storeLogsInternal run in the order of the source, those of
-- HandleLogs in the order of the grouped indexers; a Go map is iterated in the order of a list. SQLite's
-- signed 64-bit integers are natural numbers, and a range that ends at the last 64-bit number, on which
-- the loop over block numbers would not end, is not treated. The batches of headers
-- that the reorg detector and the fetcher read hold no nil pointer.
-- The operations of the stores are taken apart from the operation lock, which Maintenance.Lock has by
-- itself. Texts are ASCII where the program looks for letters and white space. Metrics, other than
-- those of the maintenance runs, and log output are left out.
--
-- Not modelled: migrations and converters, the base indexer with its queries and the
-- helpers that format them, the HTTP API, the
-- registry of indexers, the templates and the output of the code generator, logging, and the commands:
-- they are I/O, generated code or glue around the parts above.
pub mod Prelude
pub mod Types
pub mod Coverage
pub mod Unsynced
pub mod Tables
pub mod LogStore
pub mod Detector
pub mod Rpc
pub mod Finality
pub mod Fetcher
pub mod SyncManager
pub mod Coordinator
pub mod Downloader
pub mod Examples
pub mod Config
pub mod Maintenance
pub mod Codegen
pub mod EventHelpers
