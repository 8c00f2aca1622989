-- ===== src/Detector/Table.antt =====
-- The table of block hashes after a successful call.
use chain_indexor.Prelude.{
  ℕ, zero, suc, ◌+◌, ◌-◌, ◌≤◌, ◌≡◌, ◌⊎◌, ◌∙◌, ap, refl, List, [], ◌∷◌, ◌++◌, map, arith, leb, keep,
  u64_add, inl, inr, Bool-cases, ltb, leb→le, true, ◌<◌, ◌==◌, ◌≢◌, find, if◌then◌else◌, Option,
  none, some,
}
use mathlib.Core.List.{append-nil, append_assoc}
use chain_indexor.Types.{Log, Header, ok, >>=-ok, err, Error, Result, Hash, zero_hash}
use chain_indexor.Detector.{
  StoredBlock, Outcomes, Query, get_stored_block, tolerate_no_rows, block_or_zero, fails_with,
  ChainView, Save, prune_old_blocks, prune_finalized, block_numbers, non_finalized_numbers,
  to_stored_block, record_blocks, finish, verify_and_record_blocks,
}
use chain_indexor.Detector.Success.{verify_and_record_blocks_ok, record_range_checked}

-- What the program relies on of meddler's `Save`, for a row type without a `pk` column: a save that
-- succeeds has inserted the row.
abbrev pub SaveInserts : Save → Type 0
SaveInserts save =
    (b : StoredBlock) (rows rows' : List StoredBlock)
    → save b rows ≡ ok rows'
    → rows' ≡ rows ++ b ∷ []

record_blocks_appends :
    (save : Save) (hs : List Header) (rows rows' : List StoredBlock)
    → SaveInserts save
    → record_blocks save hs rows ≡ ok rows'
    → rows' ≡ rows ++ map to_stored_block hs
unfolding record_blocks
record_blocks_appends save [] rows rows' s h = rw append-nil (ground arith)
record_blocks_appends save (g ∷ gs) rows rows' s h =
    let (mid, p, q) = >>=-ok (save (to_stored_block g) rows) _ rows' h in
    record_blocks_appends save gs mid rows' s q
    ∙ ap (λ r. r ++ map to_stored_block gs) (s (to_stored_block g) rows mid p)
    ∙ append_assoc rows (to_stored_block g ∷ []) (map to_stored_block gs)

non_finalized_numbers_nil :
    (finalized from count : ℕ)
    → from + count ≤ finalized + 1
    → non_finalized_numbers finalized from count ≡ []
unfolding non_finalized_numbers
non_finalized_numbers_nil finalized from zero h = refl
non_finalized_numbers_nil finalized from (suc count) h =
    ground (arith, non_finalized_numbers_nil finalized (suc from) count)

block_numbers_finalized :
    (finalized from to : ℕ) (numbers : List ℕ)
    → to ≤ finalized
    → block_numbers finalized from to ≡ ok numbers
    → numbers ≡ []
unfolding block_numbers
block_numbers_finalized finalized from to numbers h e =
    ground (arith, non_finalized_numbers_nil finalized from (to + 1 - from))

finish_nil :
    (outcomes : Outcomes) (save : Save) (chain : ChainView) (finalized : ℕ) (logs : List Log)
    (numbers : List ℕ) (blocks pruned : List StoredBlock) (headers : List Header)
    (blocks' : List StoredBlock)
    → numbers ≡ []
    → finish outcomes save chain finalized logs numbers blocks pruned ≡ ok (headers, blocks')
    → (headers ≡ []) × (blocks' ≡ blocks)
unfolding finish
finish_nil outcomes save chain finalized logs [] blocks pruned headers blocks' n h = ground arith
finish_nil outcomes save chain finalized logs (m ∷ ms) blocks pruned headers blocks' n h = cc

not_nil : (m : ℕ) (ms : List ℕ) → ¬ (m ∷ ms ≡ [])
not_nil m ms h = cc

block_numbers_empty :
    (finalized from to : ℕ) (numbers : List ℕ)
    → ltb to from ≡ true
    → block_numbers finalized from to ≡ ok numbers
    → numbers ≡ []
unfolding block_numbers
block_numbers_empty finalized from to numbers b e =
    ground (arith, non_finalized_numbers_nil (from + to) from (to + 1 - from))

-- No number of the range is above the finalized block.
non_finalized_numbers_none :
    (finalized from count : ℕ)
    → non_finalized_numbers finalized from (suc count) ≡ []
    → from + count ≤ finalized
unfolding non_finalized_numbers
non_finalized_numbers_none finalized from zero h = ground arith
non_finalized_numbers_none finalized from (suc count) h =
    ground (arith, non_finalized_numbers_none finalized (suc from) count)

block_numbers_none :
    (finalized from to : ℕ)
    → block_numbers finalized from to ≡ ok []
    → (to ≤ finalized) ⊎ (to < from)
unfolding block_numbers
block_numbers_none finalized from to h = elim (Bool-cases (ltb to from)) [
  | inl b ↦ inr (ground arith)
  | inr b ↦ inl (
      let more : to + 1 - from ≡ suc (to - from) = ground arith in
      let none_left : non_finalized_numbers finalized from (to + 1 - from) ≡ [] = ground arith in
      let last = non_finalized_numbers_none finalized from (to - from) (rw more at none_left) in
      ground arith)
]

block_numbers_some :
    (finalized from to m : ℕ) (ms : List ℕ)
    → block_numbers finalized from to ≡ ok (m ∷ ms)
    → (finalized < to) × (from ≤ to)
block_numbers_some finalized from to m ms h = (
  elim (Bool-cases (leb to finalized)) [
    | inl b ↦ absurd (
        not_nil m ms (block_numbers_finalized finalized from to (m ∷ ms) (leb→le to finalized b) h))
    | inr b ↦ ground arith
  ],
  elim (Bool-cases (ltb to from)) [
    | inl b ↦ absurd (not_nil m ms (block_numbers_empty finalized from to (m ∷ ms) b h))
    | inr b ↦ ground arith
  ],
)

finish_cases :
    (outcomes : Outcomes) (save : Save) (chain : ChainView) (finalized : ℕ) (logs : List Log)
    (from to : ℕ) (numbers : List ℕ) (blocks pruned : List StoredBlock) (headers : List Header)
    (blocks' : List StoredBlock)
    → SaveInserts save
    → block_numbers finalized from to ≡ ok numbers
    → finish outcomes save chain finalized logs numbers blocks pruned ≡ ok (headers, blocks')
    → (((to ≤ finalized) ⊎ (to < from)) × (headers ≡ []) × (blocks' ≡ blocks))
      ⊎ ((finalized < to) × (from ≤ to) × (blocks' ≡ pruned ++ map to_stored_block headers))
finish_cases outcomes save chain finalized logs from to [] blocks pruned headers blocks' s n h =
    let (none_left, same) =
      finish_nil outcomes save chain finalized logs [] blocks pruned headers blocks' refl h in
    inl (block_numbers_none finalized from to n, none_left, same)
finish_cases outcomes save chain finalized logs from to (m ∷ ms) blocks pruned headers blocks' s n
      h =
    let (_, _, _, r) =
      record_range_checked outcomes save chain finalized logs (m ∷ ms) pruned headers blocks'
        (unfold finish in h) in
    let (above, some_block) = block_numbers_some finalized from to m ms n in
    inr (above, some_block, record_blocks_appends save headers pruned blocks' s r)

-- The hash in the row of a block, and the zero hash where there is no row.
abbrev pub recorded_hash : ℕ → List StoredBlock → Hash
recorded_hash n [] = zero_hash
recorded_hash n (b ∷ bs) =
    let rest = recorded_hash n bs in if b.block_number == n then b.block_hash else rest

-- The rows that stay when the block `fin` is finalized: those above it, if the table agrees about
-- its hash, and otherwise all.
abbrev pub unpruned : Header → List StoredBlock → List StoredBlock
unpruned fin blocks =
    if recorded_hash fin.number blocks == fin.hash
    then keep (λ b. leb (u64_add fin.number 1) b.block_number) blocks
    else blocks

found_hash :
    (n : ℕ) (blocks : List StoredBlock)
    → (block_or_zero (find (λ b. b.block_number == n) blocks)).block_hash ≡ recorded_hash n blocks
found_hash n [] = refl
found_hash n (b ∷ bs) = elim (Bool-cases (b.block_number == n)) [
  | inl e ↦ rw e refl
  | inr e ↦ rw e (found_hash n bs)
]

-- The row that step 1 compares, unless the SELECT says that there is none.
tolerate_no_rows_ok :
    (r : Result StoredBlock) (b : StoredBlock)
    → r ≢ err Error.no_rows
    → tolerate_no_rows r ≡ ok b
    → r ≡ ok b
tolerate_no_rows_ok (ok a) b n h = h
tolerate_no_rows_ok (err e) b n h = ground arith

get_stored_block_hash :
    (outcomes : Outcomes) (n : ℕ) (blocks : List StoredBlock) (cached : StoredBlock)
    → outcomes Query.select_finalized ≢ some Error.no_rows
    → tolerate_no_rows (get_stored_block outcomes n blocks) ≡ ok cached
    → cached.block_hash ≡ recorded_hash n blocks
unfolding get_stored_block
get_stored_block_hash outcomes n blocks cached f h = go (outcomes Query.select_finalized) f h
  where
    b : StoredBlock
    b = block_or_zero (find (λ b. b.block_number == n) blocks)

    go :
        (o : Option Error)
        → o ≢ some Error.no_rows
        → tolerate_no_rows (fails_with o b) ≡ ok cached
        → cached.block_hash ≡ recorded_hash n blocks
    go none f h = ground (arith, found_hash n blocks)
    go (some e) f h = ground arith

prune_finalized_ok :
    (outcomes : Outcomes) (fin : Header) (cached : StoredBlock) (blocks pruned : List StoredBlock)
    → cached.block_hash ≡ recorded_hash fin.number blocks
    → prune_finalized outcomes fin cached blocks ≡ ok pruned
    → pruned ≡ unpruned fin blocks
unfolding prune_finalized prune_old_blocks
prune_finalized_ok outcomes fin cached blocks pruned c h = ground arith

-- A successful call for a range of finalized blocks returns no header and leaves the table as it
-- was: what step 1 pruned is rolled back.
pub verify_and_record_blocks_finalized :
    (outcomes : Outcomes) (save : Save) (chain : ChainView) (logs : List Log) (from to : ℕ)
    (blocks : List StoredBlock) (fin : Header) (headers : List Header)
    → chain.finalized ≡ ok fin
    → to ≤ fin.number
    → (verify_and_record_blocks outcomes save chain logs from to blocks).0 ≡ ok headers
    → (headers ≡ [])
      × ((verify_and_record_blocks outcomes save chain logs from to blocks).1 ≡ blocks)
verify_and_record_blocks_finalized outcomes save chain logs from to blocks fin headers f t h =
    let (fin', cached, pruned, numbers, g, _, _, _, n, e) =
      verify_and_record_blocks_ok outcomes save chain logs from to blocks headers h in
    let same : fin.number ≡ fin'.number = ground arith in
    let none_left = block_numbers_finalized fin'.number from to numbers (omega arith) n in
    finish_nil outcomes save chain fin'.number logs numbers blocks pruned headers
      (verify_and_record_blocks outcomes save chain logs from to blocks).1 none_left e

-- Where `Save` inserts and the SELECT of the finalized row does not fail with `sql.ErrNoRows`, which
-- only a missing row gives, a successful call for a range without a block above the finalized one
-- leaves the table as it was and returns no header. For any other range it leaves the rows that
-- pruning keeps, followed by the returned headers in their order. Pruning keeps the rows above the
-- finalized block, if the row of that block has its hash (a missing row counts as the zero hash), and
-- otherwise all rows.
pub verify_and_record_blocks_table :
    (outcomes : Outcomes) (save : Save) (chain : ChainView) (logs : List Log) (from to : ℕ)
    (blocks : List StoredBlock) (headers : List Header)
    → SaveInserts save
    → outcomes Query.select_finalized ≢ some Error.no_rows
    → (verify_and_record_blocks outcomes save chain logs from to blocks).0 ≡ ok headers
    → let blocks' = (verify_and_record_blocks outcomes save chain logs from to blocks).1 in
      (fin : Header) × (chain.finalized ≡ ok fin)
      × ((((to ≤ fin.number) ⊎ (to < from)) × (headers ≡ []) × (blocks' ≡ blocks))
          ⊎ ((fin.number < to)
              × (from ≤ to)
              × (blocks' ≡ unpruned fin blocks ++ map to_stored_block headers)))
verify_and_record_blocks_table outcomes save chain logs from to blocks headers s r h =
    let (fin, cached, pruned, numbers, f, c, p, _, n, e) =
      verify_and_record_blocks_ok outcomes save chain logs from to blocks headers h in
    let same = get_stored_block_hash outcomes fin.number blocks cached r c in
    let kept = prune_finalized_ok outcomes fin cached blocks pruned same p in
    (
      fin,
      f,
      elim (finish_cases outcomes save chain fin.number logs from to numbers blocks pruned headers
          (verify_and_record_blocks outcomes save chain logs from to blocks).1 s n e) [
            | inl left ↦ inl left
            | inr (above, some_block, recorded) ↦
                inr (above, some_block, recorded ∙ ap (λ r. r ++ map to_stored_block headers) kept)
          ],
    )
