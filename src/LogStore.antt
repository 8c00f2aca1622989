-- ===== src/LogStore.antt =====
-- internal/fetcher/store/log_store.go: the cache of logs and of the block ranges that it holds. An
-- operation takes the outcomes of its SQL statements and the store, and returns its result and the
-- new store. A transaction works on a copy, which an error rolls back. The operation lock, the
-- metrics and the log messages are left out; the goroutines of `storeLogsInternal` share one
-- transaction, which runs one statement at a time, and are modelled in the order of the source.
pub mod Views
pub mod Gaps
pub mod Retention
pub mod Reorgs
pub mod Storing
pub mod Reads
pub mod RoundTrip
pub mod Valid
pub mod Refinement
use chain_indexor.Prelude.{
  ℕ, Bool, true, false, not, ◌&&◌, ◌||◌, List, [], ◌∷◌, ◌++◌, map, Option, none, some, ltb, leb,
  ◌==◌, any, keep, length, order_by, u64_sub, if◌then◌else◌,
}
use chain_indexor.Types.{Address, Hash, Log, Error, Result, ok, err, ◌>>=◌, ◌>>◌, Done}
use chain_indexor.Coverage.{CoverageRange}
use chain_indexor.Tables.{
  DbLog, DbCoverage, DbTopicCoverage, Store, Stmt, Faults, exec, run, same_log, same_coverage,
  same_topic_coverage, unique, insert_or_ignore, update_rows, eth_log_to_db_log, db_log_to_eth_log,
}

-- What a transaction leaves: its copy if it commits, the store as it was if it is rolled back.
abbrev pub in_tx {ℓ} : {A : Type ℓ} → Store → Result (A × Store) → Result A × Store
in_tx s (ok (a, s')) = (ok a, s')
in_tx s (err e) = (err e, s)

-- ORDER BY from_block ASC
abbrev pub by_from_block : CoverageRange → CoverageRange → Bool
by_from_block a b = leb a.from_block b.from_block

-- ORDER BY block_number ASC, log_index ASC
abbrev pub by_position : DbLog → DbLog → Bool
by_position a b =
    ltb a.block_number b.block_number
    || (a.block_number == b.block_number && leb a.log_index b.log_index)

abbrev pub to_range : DbCoverage → CoverageRange
to_range c = record { from_block = c.from_block; to_block = c.to_block }

-- WHERE address = ? AND from_block <= ? AND to_block >= ?
abbrev pub overlaps : Address → ℕ → ℕ → DbCoverage → Bool
overlaps address from to c = c.address == address && leb c.from_block to && leb from c.to_block

-- WHERE address = ? AND block_number >= ? AND block_number <= ?
abbrev pub log_within : Address → ℕ → ℕ → DbLog → Bool
log_within address from to l =
    l.address == address && leb from l.block_number && leb l.block_number to

unfoldable pub get_logs : Faults → Store → Address → ℕ → ℕ → Result (List Log × List CoverageRange)
get_logs faults s address from to = do
  coverage ←
      exec faults Stmt.select_coverage
        (order_by by_from_block (map to_range (keep (overlaps address from to) s.log_coverage)))
  rows ←
      exec faults Stmt.select_logs
        (order_by by_position (keep (log_within address from to) s.event_logs))
  ok (map db_log_to_eth_log rows, coverage)

-- An insert that fails, by the UNIQUE constraint or for any other reason, is passed over.
unfoldable pub insert_log : Faults → DbLog → List DbLog → List DbLog
insert_log faults row rows = elim (run faults (Stmt.insert_log row)) [
  | ok _ ↦ insert_or_ignore same_log row rows
  | err _ ↦ rows
]

unfoldable pub insert_logs : Faults → List Log → List DbLog → List DbLog
unfolding insert_log
insert_logs faults [] rows = rows
insert_logs faults (log ∷ logs) rows =
    insert_logs faults logs (insert_log faults (eth_log_to_db_log log) rows)

-- The topics of one address.
unfoldable pub insert_topics :
    Faults → Address → ℕ → ℕ → List Hash → List DbTopicCoverage → Result (List DbTopicCoverage)
insert_topics faults address from to [] rows = ok rows
insert_topics faults address from to (topic ∷ topics) rows = do
  rows' ← exec faults (Stmt.insert_topic_coverage address topic) (
      insert_or_ignore same_topic_coverage
        (record { address = address; topic0 = topic; from_block = from; to_block = to }) rows)
  insert_topics faults address from to topics rows'

-- The goroutines that record coverage, one for each address; `topics[i]` exists, since the caller
-- compared the lengths.
unfoldable pub insert_addresses :
    Faults → ℕ → ℕ → List Address → List (List Hash) → Store → Result Store
unfolding insert_topics
insert_addresses faults from to [] tss s = ok s
insert_addresses faults from to (a ∷ addresses) [] s = err Error.panicked
insert_addresses faults from to (a ∷ addresses) (ts ∷ tss) s = do
  coverage ← exec faults (Stmt.insert_coverage a) (
      insert_or_ignore same_coverage (record { address = a; from_block = from; to_block = to })
        s.log_coverage)
  topic_rows ← insert_topics faults a from to ts s.topic_coverage
  insert_addresses faults from to addresses tss
      (record s { log_coverage = coverage; topic_coverage = topic_rows })

unfoldable pub store_logs_internal :
    Faults → List Address → List (List Hash) → List Log → ℕ → ℕ → Store → Result Done × Store
unfolding insert_logs insert_addresses
store_logs_internal faults addresses topics logs from to s = in_tx s do
  run faults Stmt.begin_tx
  let with_logs = record s { event_logs = insert_logs faults logs s.event_logs }
  s' ← insert_addresses faults from to addresses topics with_logs
  exec faults Stmt.commit_tx (tt, s')

-- UPDATE ... SET to_block = fromBlock-1 WHERE from_block < fromBlock AND to_block >= fromBlock
abbrev pub truncate : ℕ → DbCoverage → DbCoverage
truncate b c =
    if ltb c.from_block b && leb b c.to_block then record c { to_block = u64_sub b 1 } else c

abbrev pub truncate_topic : ℕ → DbTopicCoverage → DbTopicCoverage
truncate_topic b c =
    if ltb c.from_block b && leb b c.to_block then record c { to_block = u64_sub b 1 } else c

unfoldable pub handle_reorg : Faults → ℕ → Store → Result Done × Store
handle_reorg faults b s = in_tx s do
  run faults Stmt.begin_tx
  logs ← exec faults Stmt.delete_logs (keep (λ l. ltb l.block_number b) s.event_logs)
  run faults Stmt.update_coverage
  updated ← update_rows same_coverage (map (truncate b) s.log_coverage)
  coverage ← exec faults Stmt.delete_coverage (keep (λ c. ltb c.from_block b) updated)
  run faults Stmt.update_topic_coverage
  topics_updated ← update_rows same_topic_coverage (map (truncate_topic b) s.topic_coverage)
  topics ← exec faults Stmt.delete_topic_coverage (keep (λ c. ltb c.from_block b) topics_updated)
  exec faults Stmt.commit_tx
      (tt, record { event_logs = logs; log_coverage = coverage; topic_coverage = topics })

-- SELECT COUNT(DISTINCT block_number)
unfoldable pub count_distinct : List DbLog → ℕ
count_distinct [] = 0
count_distinct (l ∷ ls) =
    let rest = count_distinct ls in
    if any (λ m. m.block_number == l.block_number) ls then rest else ℕ.suc rest

unfoldable pub prune_logs_before_block : Faults → ℕ → Store → Result ℕ × Store
unfolding count_distinct
prune_logs_before_block faults b s = in_tx s do
  run faults Stmt.begin_tx
  blocks ←
      exec faults Stmt.count_blocks (count_distinct (keep (λ l. ltb l.block_number b) s.event_logs))
  logs ← exec faults Stmt.delete_logs (keep (λ l. leb b l.block_number) s.event_logs)
  coverage ← exec faults Stmt.delete_coverage (keep (λ c. leb b c.to_block) s.log_coverage)
  topics ← exec faults Stmt.delete_topic_coverage (keep (λ c. leb b c.to_block) s.topic_coverage)
  exec faults Stmt.commit_tx
      (blocks, record { event_logs = logs; log_coverage = coverage; topic_coverage = topics })
