-- ===== src/Examples/Chain.antt =====
-- The reorg detector at concrete inputs.
use chain_indexor.Prelude.{
  false, some, ◌≢◌, ℕ, ◌≡◌, ◌⊎◌, ◌≤◌, ◌<◌, ◌+◌, ◌++◌, map, ap, refl, arith, true, List, [], ◌∷◌, In,
  inl, inr, All,
}
use chain_indexor.Types.{Log, Header, Error, ok, err}
use chain_indexor.Detector.{
  StoredBlock, Outcomes, Query, all_succeed, ChainView, Save, to_stored_block,
  verify_and_record_blocks,
}
use chain_indexor.Detector.Detection.{stale, verify_and_record_blocks_detects}
use chain_indexor.Detector.Success.{Consistent, verify_and_record_blocks-Consistent}
use chain_indexor.Detector.Stuck.{Call, SeesStale, calls, IsErr, calls_stuck}
use chain_indexor.Detector.Table.{
  SaveInserts, unpruned, verify_and_record_blocks_finalized, verify_and_record_blocks_table,
}

-- A chain whose block `n` has the hash `n + 100`.
abbrev pub view : ℕ → Header
view n = record { number = n; hash = n + 100; parent_hash = n + 99 }

abbrev pub chain : ChainView
chain = record {
  finalized = ok (view 10);
  stored_headers = λ ns. ok (map view ns);
  range_headers = λ ns. ok (map view ns);
}

abbrev row : ℕ → StoredBlock
row n = record { block_number = n; block_hash = n + 100; parent_hash = n + 99 }

-- The rows of the blocks 12 and 13 are of another chain.
abbrev stale_row : ℕ → StoredBlock
stale_row n = record { block_number = n; block_hash = n + 500; parent_hash = n + 499 }

abbrev pub stale_rows : List StoredBlock
stale_rows = row 11 ∷ stale_row 13 ∷ stale_row 12 ∷ []

abbrev pub save_last : Save
save_last b rows = ok (rows ++ b ∷ [])

stale_rows_reported :
    verify_and_record_blocks all_succeed save_last chain [] 14 15 stale_rows
    ≡ (err (Error.reorg_detected 12), stale_rows)
unfolding verify_and_record_blocks chain_indexor.Detector.get_stored_block
    chain_indexor.Detector.prune_finalized chain_indexor.Detector.get_stored_blocks_after
    chain_indexor.Detector.verify_non_finalized
stale_rows_reported = refl

verify_and_record_blocks_detects_example :
    (c : StoredBlock) × (verify_and_record_blocks all_succeed save_last chain [] 14 15 stale_rows
      ≡ (err (Error.reorg_detected c.block_number), stale_rows))
    × In c stale_rows
    × (10 < c.block_number)
    × (stale view c ≡ true)
    × ((d : StoredBlock)
        → In d stale_rows
        → 10 < d.block_number
        → stale view d ≡ true
        → c.block_number ≤ d.block_number)
verify_and_record_blocks_detects_example =
    verify_and_record_blocks_detects save_last chain view [] 14 15 stale_rows (view 10)
      (stale_row 13) ((λ n. refl), (λ ns. refl)) refl (omega arith) (inr (inl refl)) (omega arith)
      refl

abbrev pub log_14 : Log
log_14 = record {
  address = 7;
  topics = 70 ∷ [];
  log_data = [];
  block_number = 14;
  block_hash = 114;
  tx_hash = 1;
  tx_index = 0;
  index = 0;
  block_timestamp = 0;
  removed = false;
}

abbrev fresh_rows : List StoredBlock
fresh_rows = row 11 ∷ row 13 ∷ []

fresh_rows_recorded :
    verify_and_record_blocks all_succeed save_last chain (log_14 ∷ []) 14 15 fresh_rows
    ≡ (ok (view 14 ∷ view 15 ∷ []), fresh_rows ++ row 14 ∷ row 15 ∷ [])
unfolding verify_and_record_blocks chain_indexor.Detector.get_stored_block
    chain_indexor.Detector.prune_finalized chain_indexor.Detector.get_stored_blocks_after
    chain_indexor.Detector.verify_non_finalized chain_indexor.Detector.block_numbers
    chain_indexor.Detector.finish
fresh_rows_recorded = refl

verify_and_record_blocks-Consistent_example :
    (fin : Header) × (chain.finalized ≡ ok fin)
    × Consistent fin.number (log_14 ∷ []) (view 14 ∷ view 15 ∷ [])
verify_and_record_blocks-Consistent_example =
    verify_and_record_blocks-Consistent all_succeed save_last chain (log_14 ∷ []) 14 15 fresh_rows
      (view 14 ∷ view 15 ∷ []) (ap (λ p. p.0) fresh_rows_recorded)

save_last-SaveInserts : SaveInserts save_last
save_last-SaveInserts b rows rows' h = ground arith

succeeds_with_rows : all_succeed Query.select_finalized ≢ some Error.no_rows
succeeds_with_rows h = cc

-- The table agrees with the chain about the finalized block, whose row is pruned with those below.
abbrev agreeing_rows : List StoredBlock
agreeing_rows = row 9 ∷ row 10 ∷ row 13 ∷ []

agreeing_rows_recorded :
    verify_and_record_blocks all_succeed save_last chain (log_14 ∷ []) 14 15 agreeing_rows
    ≡ (ok (view 14 ∷ view 15 ∷ []), row 13 ∷ row 14 ∷ row 15 ∷ [])
unfolding verify_and_record_blocks chain_indexor.Detector.get_stored_block
    chain_indexor.Detector.prune_finalized chain_indexor.Detector.get_stored_blocks_after
    chain_indexor.Detector.verify_non_finalized chain_indexor.Detector.block_numbers
    chain_indexor.Detector.finish
agreeing_rows_recorded = refl

verify_and_record_blocks_table_example :
    let blocks' =
      (verify_and_record_blocks all_succeed save_last chain (log_14 ∷ []) 14 15 agreeing_rows).1 in
    (fin : Header) × (chain.finalized ≡ ok fin)
    × ((((15 ≤ fin.number) ⊎ (15 < 14)) × (view 14 ∷ view 15 ∷ [] ≡ []) × (blocks' ≡ agreeing_rows))
        ⊎ ((fin.number < 15)
            × (14 ≤ 15)
            × (blocks'
                ≡ unpruned fin agreeing_rows ++ map to_stored_block (view 14 ∷ view 15 ∷ []))))
verify_and_record_blocks_table_example =
    verify_and_record_blocks_table all_succeed save_last chain (log_14 ∷ []) 14 15 agreeing_rows
      (view 14 ∷ view 15 ∷ []) save_last-SaveInserts succeeds_with_rows
      (ap (λ p. p.0) agreeing_rows_recorded)

abbrev no_headers : List Header
no_headers = []

-- The table holds the finalized block, so that step 1 prunes the rows up to it.
abbrev old_rows : List StoredBlock
old_rows = row 9 ∷ row 10 ∷ row 11 ∷ []

verify_and_record_blocks_finalized_example :
    (no_headers ≡ [])
    × ((verify_and_record_blocks all_succeed save_last chain [] 5 8 old_rows).1 ≡ old_rows)
unfolding verify_and_record_blocks chain_indexor.Detector.get_stored_block
    chain_indexor.Detector.prune_finalized chain_indexor.Detector.get_stored_blocks_after
    chain_indexor.Detector.verify_non_finalized chain_indexor.Detector.block_numbers
    chain_indexor.Detector.finish
verify_and_record_blocks_finalized_example =
    verify_and_record_blocks_finalized all_succeed save_last chain [] 5 8 old_rows (view 10)
      no_headers refl (omega arith) refl

abbrev next_call : ℕ → Call
next_call n = record {
  outcomes = all_succeed;
  save = save_last;
  chain = chain;
  logs = [];
  from = n;
  to = n + 1;
}

sees_stale : (n : ℕ) → SeesStale (stale_row 13) (next_call n)
sees_stale n = record {
  view = view;
  answers = ((λ n. refl), (λ ns. refl));
  fin = view 10;
  is_finalized = refl;
  above = omega arith;
  below_max = omega arith;
  is_stale = refl;
}

calls_stuck_example :
    ((calls (next_call 12 ∷ next_call 12 ∷ []) stale_rows).0 ≡ stale_rows)
    × All IsErr (calls (next_call 12 ∷ next_call 12 ∷ []) stale_rows).1
calls_stuck_example =
    calls_stuck (stale_row 13) (next_call 12 ∷ next_call 12 ∷ []) stale_rows (inr (inl refl))
      (sees_stale 12, (sees_stale 12, tt))
