-- ===== src/Examples/Histories.antt =====
-- A history of the log store at concrete inputs.
use chain_indexor.Prelude.{List, [], ◌∷◌, ◌≡◌, refl, some, none, arith}
use chain_indexor.Types.{Error, ok, err}
use chain_indexor.Tables.{Stmt, Faults, no_faults}
use chain_indexor.LogStore.Valid.{empty_store}
use chain_indexor.LogStore.Refinement.{Op, view, play, results, Behaves, play-Behaves}

-- The commit fails.
abbrev no_commit : Faults
no_commit Stmt.commit_tx = some (Error.db_error 1)
no_commit _ = none

abbrev store_10_to_19 : Op
store_10_to_19 = Op.store (7 ∷ []) ((70 ∷ []) ∷ []) [] 10 19

abbrev history : List (Faults × Op)
history =
    (no_commit, Op.store (7 ∷ []) ((70 ∷ []) ∷ []) [] 1 9)
    ∷ (no_faults, store_10_to_19)
    ∷ (no_faults, Op.reorg 15)
    ∷ (no_faults, Op.prune 12)
    ∷ []

history-results :
    results history empty_store
    ≡ (Op.store (7 ∷ []) ((70 ∷ []) ∷ []) [] 1 9, err (Error.db_error 1))
      ∷ (store_10_to_19, ok tt)
      ∷ (Op.reorg 15, ok tt)
      ∷ (Op.prune 12, ok tt)
      ∷ []
unfolding chain_indexor.LogStore.store_logs_internal chain_indexor.LogStore.handle_reorg
    chain_indexor.LogStore.prune_logs_before_block
history-results = refl

play-Behaves_example :
    Behaves (results history empty_store) (view empty_store) (view (play history empty_store))
play-Behaves_example = play-Behaves history empty_store (tt, (tt, (omega arith, (tt, tt))))
