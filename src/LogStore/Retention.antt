-- ===== src/LogStore/Retention.antt =====
-- The retention policy of log_store.go, and `StoreLogs`, which applies it. `DBTotalSize` and the
-- floating-point estimate of the bytes that deleting one block frees are arguments.
pub mod Bounds
use chain_indexor.Prelude.{
  ℕ, ◌+◌, ◌*◌, ◌/◌, Bool, false, not, ◌&&◌, ◌||◌, List, [], ◌∷◌, Option, none, some, ltb, leb, ◌==◌,
  length, u64_add, u64_sub, u64_mul, signed_div, is_negative_word, min, max, if◌then◌else◌,
}
use chain_indexor.Types.{Address, Hash, Log, Error, Result, ok, err, ◌>>=◌, ◌>>◌, Done}
use chain_indexor.Tables.{DbCoverage, Store, Stmt, Faults, exec, run}
use chain_indexor.LogStore.{store_logs_internal, prune_logs_before_block}

-- pkg/config/config.go; the policy may be absent.
pub record RetentionPolicy : Type 0 where
  pub max_db_size_mb : ℕ
  pub max_blocks : ℕ

unfoldable pub is_enabled : Option RetentionPolicy → Bool
is_enabled none = false
is_enabled (some p) = ltb 0 p.max_db_size_mb || ltb 0 p.max_blocks

-- internal/common/parse.go
abbrev pub bytes_in_mb : ℕ
bytes_in_mb = 1048576

unfoldable pub mb_to_bytes : ℕ → ℕ
mb_to_bytes mb = u64_mul mb bytes_in_mb

unfoldable pub bytes_to_mb : ℕ → ℕ
bytes_to_mb bytes = bytes / bytes_in_mb

abbrev widen : DbCoverage → Option (ℕ × ℕ) → ℕ × ℕ
widen c none = (c.from_block, c.to_block)
widen c (some (lo, hi)) = (min c.from_block lo, max c.to_block hi)

-- SELECT MIN(from_block), MAX(to_block) FROM log_coverage: two NULLs for an empty table.
unfoldable pub coverage_bounds : List DbCoverage → Option (ℕ × ℕ)
coverage_bounds [] = none
coverage_bounds (c ∷ cs) = some (widen c (coverage_bounds cs))

-- `Scan(&oldestBlock, &newestBlock)`
abbrev scan_bounds : Option (ℕ × ℕ) → Result (ℕ × ℕ)
scan_bounds none = err Error.null_value
scan_bounds (some p) = ok p

unfoldable pub block_bounds : Faults → Store → Result (ℕ × ℕ)
unfolding coverage_bounds
block_bounds faults s = do
  bounds ← exec faults Stmt.select_range (coverage_bounds s.log_coverage)
  scan_bounds bounds

-- The rows in the three tables, with the weights of the source.
abbrev weighted_rows : Store → ℕ
weighted_rows s = length s.event_logs * 3 + length s.log_coverage * 1 + length s.topic_coverage * 1

-- The arguments are the three row counts, the number of blocks and the average bytes of a weighted
-- row; the estimate is an int64, as a 64-bit word.
abbrev pub Estimate : Type 0
Estimate = ℕ → ℕ → ℕ → ℕ → ℕ → ℕ

-- The number of blocks to delete, from the bytes to free and the bytes that a block frees.
unfoldable pub blocks_to_delete : ℕ → ℕ → ℕ → ℕ
blocks_to_delete total_blocks target_bytes freed_per_block =
    let per_block =
      if freed_per_block == 0 || is_negative_word freed_per_block then 1 else freed_per_block in
    let blocks = signed_div target_bytes per_block in
    let with_margin = u64_add blocks (blocks / 10) in
    let at_least = if with_margin == 0 then total_blocks / 10 else with_margin in
    if ltb total_blocks at_least then total_blocks else at_least

unfoldable pub calculate_blocks_to_free_space : Faults → Estimate → ℕ → ℕ → Store → Result ℕ
unfolding block_bounds mb_to_bytes blocks_to_delete
calculate_blocks_to_free_space faults estimate current_mb max_mb s = do
  (oldest, newest) ← block_bounds faults s
  let total_blocks = u64_add (u64_sub newest oldest) 1
  let target_bytes = mb_to_bytes (u64_sub current_mb max_mb)
  let total_bytes = mb_to_bytes current_mb
  if oldest == 0 && newest == 0 then ok 0 else do
    run faults Stmt.count_rows
    if length s.event_logs == 0
        then ok 0
        else ok (
            u64_add oldest (
              blocks_to_delete total_blocks target_bytes (
                estimate (length s.event_logs) (length s.log_coverage) (length s.topic_coverage)
                  total_blocks (total_bytes / weighted_rows s))))

-- `!errors.Is(err, sql.ErrNoRows)`: that error leaves both numbers 0.
abbrev unless_no_rows : Result (ℕ × ℕ) → Result (ℕ × ℕ)
unless_no_rows (err Error.no_rows) = ok (0, 0)
unless_no_rows r = r

-- The threshold by age.
unfoldable pub prune_by_age : Faults → RetentionPolicy → Store → Result ℕ
unfolding block_bounds
prune_by_age faults p s =
    if ltb 0 p.max_blocks
    then (do
      (oldest, newest) ← unless_no_rows (block_bounds faults s)
      ok (
          if ltb oldest newest && ltb p.max_blocks (u64_sub newest oldest)
          then u64_sub newest p.max_blocks
          else 0))
    else ok 0

-- The threshold by age, raised by the one that the size asks for.
unfoldable pub prune_by_size : Faults → Estimate → Result ℕ → RetentionPolicy → ℕ → Store → Result ℕ
unfolding calculate_blocks_to_free_space bytes_to_mb
prune_by_size faults estimate size_bytes p by_age s =
    if ltb 0 p.max_db_size_mb
    then (do
      bytes ← size_bytes
      let size_mb = bytes_to_mb bytes
      if leb p.max_db_size_mb size_mb
          then (do
            by_size ← calculate_blocks_to_free_space faults estimate size_mb p.max_db_size_mb s
            ok (if ltb by_age by_size then by_size else by_age))
          else ok by_age)
    else ok by_age

abbrev prune_at : Faults → Result ℕ → Store → Result ℕ × Store
prune_at faults (err e) s = (err e, s)
prune_at faults (ok threshold) s =
    if threshold == 0 then (ok 0, s) else prune_logs_before_block faults threshold s

unfoldable pub apply_retention_if_needed :
    Faults → Estimate → Result ℕ → Option RetentionPolicy → Store → Result ℕ × Store
unfolding prune_by_age prune_by_size
apply_retention_if_needed faults estimate size_bytes none s = (ok 0, s)
apply_retention_if_needed faults estimate size_bytes (some p) s =
    if is_enabled (some p)
    then prune_at faults
        (prune_by_age faults p s >>= λ by_age. prune_by_size faults estimate size_bytes p by_age s)
        s
    else (ok 0, s)

-- What the store operation runs with besides its arguments.
pub record StoreConfig : Type 0 where
  pub retention_policy : Option RetentionPolicy
  pub size_bytes : Result ℕ
  pub estimate : Estimate

-- An error of the retention policy is logged and dropped.
abbrev pub after_store : Faults → StoreConfig → Result Done × Store → Result Done × Store
after_store faults cfg (err e, s) = (err e, s)
after_store faults cfg (ok _, s) =
    (ok tt, (apply_retention_if_needed faults cfg.estimate cfg.size_bytes cfg.retention_policy s).1)

unfoldable pub store_logs :
    Faults
    → Faults
    → StoreConfig
    → List Address
    → List (List Hash)
    → List Log
    → ℕ
    → ℕ
    → Store
    → Result Done × Store
store_logs faults retention_faults cfg addresses topics logs from to s =
    if not (length addresses == length topics)
    then (err Error.length_mismatch, s)
    else if length addresses == 0
    then (ok tt, s)
    else after_store retention_faults cfg
        (store_logs_internal faults addresses topics logs from to s)
