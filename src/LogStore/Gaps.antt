-- ===== src/LogStore/Gaps.antt =====
-- `GetUnsyncedTopics` and `hasCompleteCoverage` of log_store.go.
pub mod Complete
pub mod Missing
use chain_indexor.Prelude.{
  ℕ, ◌+◌, Bool, true, false, not, ◌&&◌, List, [], ◌∷◌, map, Option, none, some, ltb, leb, ◌==◌,
  keep, order_by, u64_add, min, if◌then◌else◌,
}
use chain_indexor.Types.{Address, Hash, Error, Result, ok, err, ◌>>=◌}
use chain_indexor.Coverage.{CoverageRange}
use chain_indexor.Unsynced.{UnsyncedTopics, new_unsynced_topics, add_topic}
use chain_indexor.Tables.{DbTopicCoverage, Store, Stmt, Faults, exec}
use chain_indexor.LogStore.{by_from_block}

-- currentBlock, moved past a coverage.
abbrev pub covered_up_to : ℕ → CoverageRange → ℕ
covered_up_to current c = if leb current c.to_block then u64_add c.to_block 1 else current

-- The loop of `hasCompleteCoverage`.
unfoldable pub complete_loop : ℕ → ℕ → List CoverageRange → Bool
complete_loop to current [] = ltb to current
complete_loop to current (c ∷ cs) =
    let rest = complete_loop to (covered_up_to current c) cs in
    if ltb current c.from_block
    then false
    else if ltb to (covered_up_to current c)
    then true
    else rest

unfoldable pub has_complete_coverage : List CoverageRange → ℕ → ℕ → Bool
unfolding complete_loop
has_complete_coverage [] from to = false
has_complete_coverage (c ∷ cs) from to = complete_loop to from (c ∷ cs)

-- SELECT MIN(from_block) FROM topic_coverage WHERE address = ?
abbrev pub min_from : ℕ → Option ℕ → ℕ
min_from b none = b
min_from b (some m) = min b m

unfoldable pub oldest_block : Address → List DbTopicCoverage → Option ℕ
oldest_block address [] = none
oldest_block address (c ∷ cs) =
    let rest = oldest_block address cs in
    if c.address == address then some (min_from c.from_block rest) else rest

-- The first block to check: the oldest one, or 0 if there is no row.
abbrev pub start_block : Option ℕ → ℕ
start_block none = 0
start_block (some b) = if ltb 0 b then b else 0

-- `!errors.Is(err, sql.ErrNoRows)`: that error leaves the oldest block NULL.
abbrev pub oldest_or_null : Result (Option ℕ) → Result (Option ℕ)
oldest_or_null (err Error.no_rows) = ok none
oldest_or_null r = r

-- WHERE address = ? AND topic0 = ? AND to_block >= ? AND from_block <= ?
abbrev pub topic_overlaps : Address → Hash → ℕ → ℕ → DbTopicCoverage → Bool
topic_overlaps address topic start up_to c =
    c.address == address && c.topic0 == topic && leb start c.to_block && leb c.from_block up_to

abbrev pub to_topic_range : DbTopicCoverage → CoverageRange
to_topic_range c = record { from_block = c.from_block; to_block = c.to_block }

abbrev pub topic_query : Address → Hash → ℕ → ℕ → List DbTopicCoverage → List CoverageRange
topic_query address topic start up_to rows =
    order_by by_from_block
      (map to_topic_range (keep (topic_overlaps address topic start up_to) rows))

abbrev pub last_to : CoverageRange → List CoverageRange → ℕ
last_to c [] = c.to_block
last_to c (d ∷ ds) = last_to d ds

-- From the first block of the first row to the last block of the last one.
abbrev pub outline : List CoverageRange → CoverageRange
outline [] = record { from_block = 0; to_block = 0 }
outline (c ∷ cs) = record { from_block = c.from_block; to_block = last_to c cs }

-- The round of the inner loop for one topic, with the rows that the query gave.
abbrev pub check_topic :
    Address → Hash → ℕ → ℕ → UnsyncedTopics → List CoverageRange → UnsyncedTopics
check_topic address topic start up_to result rows =
    if has_complete_coverage rows start up_to
    then result
    else add_topic result address topic (outline rows)

unfoldable pub topics_loop :
    Faults → Store → Address → ℕ → ℕ → List Hash → UnsyncedTopics → Result UnsyncedTopics
topics_loop faults s address start up_to [] result = ok result
topics_loop faults s address start up_to (topic ∷ topics) result = do
  rows ←
      exec faults (Stmt.select_topic_coverage address topic)
        (topic_query address topic start up_to s.topic_coverage)
  topics_loop faults s address start up_to topics
      (check_topic address topic start up_to result rows)

-- `topics[i]` panics where there are fewer topic lists than addresses.
unfoldable pub addresses_loop :
    Faults → Store → ℕ → List Address → List (List Hash) → UnsyncedTopics → Result UnsyncedTopics
unfolding topics_loop
addresses_loop faults s up_to [] tss result = ok result
addresses_loop faults s up_to (a ∷ xs) [] result = err Error.panicked
addresses_loop faults s up_to (a ∷ xs) (ts ∷ tss) result = do
  oldest ← oldest_or_null (exec faults (Stmt.select_oldest a) (oldest_block a s.topic_coverage))
  result' ← topics_loop faults s a (start_block oldest) up_to ts result
  addresses_loop faults s up_to xs tss result'

unfoldable pub get_unsynced_topics :
    Faults → Store → List Address → List (List Hash) → ℕ → Result UnsyncedTopics
unfolding addresses_loop
get_unsynced_topics faults s addresses topics up_to =
    addresses_loop faults s up_to addresses topics new_unsynced_topics
