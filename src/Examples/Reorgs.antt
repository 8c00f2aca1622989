-- ===== src/Examples/Reorgs.antt =====
-- Reorgs of the log store at concrete inputs.
use chain_indexor.Prelude.{ℕ, ◌≡◌, refl, arith, ◌&&◌, ltb, some, none, [], ◌∷◌, keep, ◌+◌}
use chain_indexor.Types.{Error, ok, err}
use chain_indexor.Tables.{DbLog, Store, Stmt, Faults, no_faults}
use chain_indexor.LogStore.{handle_reorg}
use chain_indexor.LogStore.Views.{log_covered, topic_covered}
use chain_indexor.LogStore.Reorgs.{handle_reorg_lem, handle_reorg_conflict}

abbrev row_at : ℕ → DbLog
row_at n = record {
  address = 7;
  block_number = n;
  block_hash = n + 1000;
  tx_hash = n + 2000;
  tx_index = 0;
  log_index = 3;
  topic0 = some 70;
  topic1 = none;
  topic2 = none;
  topic3 = none;
  log_data = [];
}

abbrev pub three_logs : Store
three_logs = record {
  event_logs = row_at 12 ∷ row_at 15 ∷ row_at 25 ∷ [];
  log_coverage =
      record { address = 7; from_block = 10; to_block = 19 }
      ∷ record { address = 7; from_block = 20; to_block = 29 }
      ∷ [];
  topic_coverage = record { address = 7; topic0 = 70; from_block = 10; to_block = 19 } ∷ [];
}

three_logs_reorg : handle_reorg no_faults 15 three_logs ≡ (
  ok tt,
  record {
    event_logs = row_at 12 ∷ [];
    log_coverage = record { address = 7; from_block = 10; to_block = 14 } ∷ [];
    topic_coverage = record { address = 7; topic0 = 70; from_block = 10; to_block = 14 } ∷ [];
  },
)
unfolding handle_reorg
three_logs_reorg = refl

handle_reorg_lem_example :
    let s' = (handle_reorg no_faults 15 three_logs).1 in
    (s'.event_logs ≡ keep (λ l. ltb l.block_number 15) three_logs.event_logs)
    × ((a n : ℕ)
        → log_covered s'.log_coverage a n ≡ (log_covered three_logs.log_coverage a n && ltb n 15))
    × ((a t n : ℕ)
        → topic_covered s'.topic_coverage a t n
          ≡ (topic_covered three_logs.topic_coverage a t n && ltb n 15))
unfolding handle_reorg
handle_reorg_lem_example = handle_reorg_lem no_faults 15 three_logs (omega arith) refl

abbrev commit_fails : Faults
commit_fails Stmt.commit_tx = some (Error.db_error 5)
commit_fails _ = none

-- Two ranges of one address that begin at the same block.
abbrev overlapping : Store
overlapping = record {
  event_logs = row_at 12 ∷ [];
  log_coverage =
      record { address = 7; from_block = 10; to_block = 19 }
      ∷ record { address = 7; from_block = 10; to_block = 29 }
      ∷ [];
  topic_coverage = [];
}

handle_reorg_conflict_example :
    handle_reorg no_faults 15 overlapping ≡ (err Error.unique_violation, overlapping)
handle_reorg_conflict_example =
    handle_reorg_conflict 15 overlapping [] (record { address = 7; from_block = 10; to_block = 19 })
      [] (record { address = 7; from_block = 10; to_block = 29 }) [] (omega arith) refl refl refl
      (omega arith) (omega arith) (omega arith)
