-- ===== src/SyncManager.antt =====
-- internal/downloader/sync_manager.go: the checkpoint in the table `sync_state`, whose only row has
-- the id 1. The table is `none` when that row is missing; `now` is what the clock says.
pub mod Saved
use chain_indexor.Prelude.{ℕ, Option, none, some, ◌≡◌, refl}
use chain_indexor.Types.{Hash, zero_hash, Error, Result, ok, err, ◌>>=◌, Done}
use chain_indexor.Fetcher.{FetchMode}

pub record SyncState : Type 0 where
  pub last_indexed_block : ℕ
  pub last_indexed_block_hash : Hash
  pub last_indexed_timestamp : ℕ
  pub mode : FetchMode

pub data SyncQuery : Type 0 where
  select_last select_state update_state : SyncQuery

abbrev pub SyncFaults : Type 0
SyncFaults = SyncQuery → Option Error

abbrev pub no_sync_faults : SyncFaults
no_sync_faults _ = none

abbrev row_or_no_rows : Option Error → Option SyncState → Result SyncState
row_or_no_rows (some e) row = err e
row_or_no_rows none none = err Error.no_rows
row_or_no_rows none (some s) = ok s

-- meddler.Update(db, "sync_state", &state): an UPDATE by id, which changes nothing where there is no
-- row.
abbrev update_row : Option Error → SyncState → Option SyncState → Result Done × Option SyncState
update_row (some e) s row = (err e, row)
update_row none s none = (ok tt, none)
update_row none s (some _) = (ok tt, some s)

unfoldable pub get_last_indexed_block : SyncFaults → Option SyncState → Result ℕ
get_last_indexed_block faults row =
    row_or_no_rows (faults SyncQuery.select_last) row >>= λ s. ok s.last_indexed_block

unfoldable pub get_state : SyncFaults → Option SyncState → Result SyncState
get_state faults row = row_or_no_rows (faults SyncQuery.select_state) row

unfoldable pub save_checkpoint :
    SyncFaults → ℕ → ℕ → Hash → FetchMode → Option SyncState → Result Done × Option SyncState
save_checkpoint faults now block_num block_hash mode row =
    update_row (faults SyncQuery.update_state)
      (record {
        last_indexed_block = block_num;
        last_indexed_block_hash = block_hash;
        last_indexed_timestamp = now;
        mode = mode;
      })
      row

abbrev with_mode :
    SyncFaults → FetchMode → Option SyncState → Result SyncState → Result Done × Option SyncState
with_mode faults mode row (err e) = (err e, row)
with_mode faults mode row (ok s) =
    update_row (faults SyncQuery.update_state) (record s { mode = mode }) row

unfoldable pub set_mode : SyncFaults → FetchMode → Option SyncState → Result Done × Option SyncState
unfolding get_state
set_mode faults mode row = with_mode faults mode row (get_state faults row)

unfoldable pub reset : SyncFaults → ℕ → ℕ → Option SyncState → Result Done × Option SyncState
reset faults now start_block row =
    update_row (faults SyncQuery.update_state)
      (record {
        last_indexed_block = start_block;
        last_indexed_block_hash = zero_hash;
        last_indexed_timestamp = now;
        mode = FetchMode.backfill;
      })
      row
