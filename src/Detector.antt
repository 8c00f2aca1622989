-- ===== src/Detector.antt =====
-- internal/reorg/reorg_detector.go: block hashes are recorded and compared with the chain. What
-- the node answers to the three calls of `VerifyAndRecordBlocks` is an argument, `ChainView`, as is
-- meddler's `Save`; a transaction works on a copy of the table, which is dropped unless it commits.
pub mod Success
pub mod Detection
pub mod Stuck
pub mod Table
use chain_indexor.Prelude.{
  ℕ, zero, suc, ◌+◌, ◌-◌, Bool, true, false, ◌&&◌, List, [], ◌∷◌, ◌++◌, map, Option, none, some,
  ltb, leb, ◌==◌, keep, find, order_by, u64_add, if◌then◌else◌,
}
use chain_indexor.Types.{Hash, zero_hash, Log, Header, Error, Result, ok, err, ◌>>=◌, ◌>>◌, Done}

-- A row of `block_hashes`, whose PRIMARY KEY is the block number.
pub record StoredBlock : Type 0 where
  pub block_number : ℕ
  pub block_hash : Hash
  pub parent_hash : Hash

pub data Query : Type 0 where
  begin_tx commit_tx select_finalized select_after delete_old : Query

abbrev pub Outcomes : Type 0
Outcomes = Query → Option Error

abbrev pub all_succeed : Outcomes
all_succeed _ = none

abbrev pub fails_with {ℓ} : {A : Type ℓ} → Option Error → A → Result A
fails_with none a = ok a
fails_with (some e) a = err e

abbrev pub exec {ℓ} : {A : Type ℓ} → Outcomes → Query → A → Result A
exec outcomes query a = fails_with (outcomes query) a

-- The node's answers: `GetFinalizedBlockHeader`, and `BatchGetBlockHeaders` for the stored blocks
-- and for the new range. The chain may change between the calls.
pub record ChainView : Type 0 where
  pub finalized : Result Header
  pub stored_headers : List ℕ → Result (List Header)
  pub range_headers : List ℕ → Result (List Header)

-- meddler.Save(tx, "block_hashes", block)
abbrev pub Save : Type 0
Save = StoredBlock → List StoredBlock → Result (List StoredBlock)

-- getStoredBlockTx; the caller goes on from `sql.ErrNoRows` with the zero value.
abbrev pub zero_block : StoredBlock
zero_block = record { block_number = 0; block_hash = zero_hash; parent_hash = zero_hash }

abbrev pub block_or_zero : Option StoredBlock → StoredBlock
block_or_zero none = zero_block
block_or_zero (some b) = b

abbrev pub tolerate_no_rows : Result StoredBlock → Result StoredBlock
tolerate_no_rows (err Error.no_rows) = ok zero_block
tolerate_no_rows r = r

unfoldable pub get_stored_block : Outcomes → ℕ → List StoredBlock → Result StoredBlock
get_stored_block outcomes n blocks =
    exec outcomes Query.select_finalized (block_or_zero (find (λ b. b.block_number == n) blocks))

-- pruneOldBlocksTx
unfoldable pub prune_old_blocks : Outcomes → ℕ → List StoredBlock → Result (List StoredBlock)
prune_old_blocks outcomes keep_from blocks =
    exec outcomes Query.delete_old (keep (λ b. leb keep_from b.block_number) blocks)

-- ORDER BY block_number ASC
abbrev pub by_number : StoredBlock → StoredBlock → Bool
by_number a b = leb a.block_number b.block_number

unfoldable pub get_stored_blocks_after : Outcomes → ℕ → List StoredBlock → Result (List StoredBlock)
get_stored_blocks_after outcomes n blocks =
    exec outcomes Query.select_after (order_by by_number (keep (λ b. ltb n b.block_number) blocks))

-- Each header against the stored block at its position; past the last block the access panics.
unfoldable pub check_stored : List Header → List StoredBlock → Result Done
check_stored [] blocks = ok tt
check_stored (h ∷ hs) [] = err Error.panicked
check_stored (h ∷ hs) (b ∷ bs) =
    let rest = check_stored hs bs in
    if b.block_hash == h.hash then rest else err (Error.reorg_detected h.number)

unfoldable pub verify_non_finalized : ChainView → List StoredBlock → Result Done
unfolding check_stored
verify_non_finalized chain [] = ok tt
verify_non_finalized chain (b ∷ bs) =
    chain.stored_headers (map (λ x. x.block_number) (b ∷ bs)) >>= λ headers.
    check_stored headers (b ∷ bs)

-- The numbers above the finalized block among `count` numbers from `from`.
unfoldable pub non_finalized_numbers : ℕ → ℕ → ℕ → List ℕ
non_finalized_numbers finalized from zero = []
non_finalized_numbers finalized from (suc count) =
    let rest = non_finalized_numbers finalized (suc from) count in
    if ltb finalized from then from ∷ rest else rest

-- Step 3. `make` panics where its capacity, `toBlock-fromBlock+1`, wraps around.
unfoldable pub block_numbers : ℕ → ℕ → ℕ → Result (List ℕ)
unfolding non_finalized_numbers
block_numbers finalized from to =
    if ltb (to + 1) from
    then err Error.panicked
    else ok (non_finalized_numbers finalized from (to + 1 - from))

-- `logBlockHashes`: the hash of the last log of the block, for a block that is not finalized.
unfoldable pub log_block_hash : ℕ → List Log → ℕ → Option Hash
log_block_hash finalized [] n = none
log_block_hash finalized (l ∷ ls) n =
    let here =
      if ltb finalized l.block_number && l.block_number == n then some l.block_hash else none in
    elim (log_block_hash finalized ls n) [ some h ↦ some h | none ↦ here ]

abbrev pub agrees : Option Hash → Hash → Bool
agrees none h = true
agrees (some g) h = g == h

-- Step 3b.
unfoldable pub check_logs : ℕ → List Log → List Header → Result Done
unfolding log_block_hash
check_logs finalized logs [] = ok tt
check_logs finalized logs (h ∷ hs) =
    let rest = check_logs finalized logs hs in
    if agrees (log_block_hash finalized logs h.number) h.hash
    then rest
    else err (Error.reorg_detected h.number)

-- Step 3c.
unfoldable pub check_chain : List Header → Result Done
check_chain [] = ok tt
check_chain (h ∷ []) = ok tt
check_chain (h ∷ g ∷ hs) =
    let rest = check_chain (g ∷ hs) in
    if g.parent_hash == h.hash then rest else err (Error.reorg_detected g.number)

abbrev pub to_stored_block : Header → StoredBlock
to_stored_block h = record {
  block_number = h.number;
  block_hash = h.hash;
  parent_hash = h.parent_hash;
}

-- recordBlocksTx
unfoldable pub record_blocks : Save → List Header → List StoredBlock → Result (List StoredBlock)
record_blocks save [] blocks = ok blocks
record_blocks save (h ∷ hs) blocks =
    save (to_stored_block h) blocks >>= λ blocks'. record_blocks save hs blocks'

-- The table after step 1.
unfoldable pub prune_finalized :
    Outcomes → Header → StoredBlock → List StoredBlock → Result (List StoredBlock)
unfolding prune_old_blocks
prune_finalized outcomes fin cached blocks =
    if cached.block_hash == fin.hash
    then prune_old_blocks outcomes (u64_add fin.number 1) blocks
    else ok blocks

-- Steps 3a to 4, and the commit.
unfoldable pub record_range :
    Outcomes
    → Save
    → ChainView
    → ℕ
    → List Log
    → List ℕ
    → List StoredBlock
    → Result (List Header × List StoredBlock)
unfolding check_logs check_chain record_blocks
record_range outcomes save chain finalized logs numbers blocks = do
  headers ← chain.range_headers numbers
  check_logs finalized logs headers
  check_chain headers
  blocks' ← record_blocks save headers blocks
  exec outcomes Query.commit_tx (headers, blocks')

-- Without a block to record the function returns before the commit, and its transaction is rolled
-- back: `blocks` are those of before the call.
unfoldable pub finish :
    Outcomes
    → Save
    → ChainView
    → ℕ
    → List Log
    → List ℕ
    → List StoredBlock
    → List StoredBlock
    → Result (List Header × List StoredBlock)
unfolding record_range
finish outcomes save chain finalized logs [] blocks pruned = ok ([], blocks)
finish outcomes save chain finalized logs (n ∷ ns) blocks pruned =
    record_range outcomes save chain finalized logs (n ∷ ns) pruned

abbrev pub in_tx :
    List StoredBlock
    → Result (List Header × List StoredBlock)
    → Result (List Header) × List StoredBlock
in_tx blocks (ok (headers, blocks')) = (ok headers, blocks')
in_tx blocks (err e) = (err e, blocks)

unfoldable pub verify_and_record_blocks :
    Outcomes
    → Save
    → ChainView
    → List Log
    → ℕ
    → ℕ
    → List StoredBlock
    → Result (List Header) × List StoredBlock
verify_and_record_blocks outcomes save chain logs from to blocks = in_tx blocks do
  exec outcomes Query.begin_tx tt
  fin ← chain.finalized
  cached ← tolerate_no_rows (get_stored_block outcomes fin.number blocks)
  pruned ← prune_finalized outcomes fin cached blocks
  later ← get_stored_blocks_after outcomes fin.number pruned
  verify_non_finalized chain later
  numbers ← block_numbers fin.number from to
  finish outcomes save chain fin.number logs numbers blocks pruned
