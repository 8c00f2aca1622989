-- ===== src/SyncManager/Saved.antt =====
-- What the operations on the checkpoint leave in its row.
use chain_indexor.Prelude.{ℕ, Option, none, some, ◌≡◌, sym, ap, Option-cases, inl, inr}
use chain_indexor.Types.{Hash, zero_hash, Error, ok, err}
use chain_indexor.Fetcher.{FetchMode}
use chain_indexor.SyncManager.{
  SyncState, SyncQuery, SyncFaults, row_or_no_rows, update_row, get_state, save_checkpoint,
  set_mode, reset,
}

update_row_ok :
    (f : Option Error) (s old : SyncState) (row' : Option SyncState)
    → update_row f s (some old) ≡ (ok tt, row')
    → row' ≡ some s
update_row_ok none s old row' h = sym (ap (λ p. p.1) h)
update_row_ok (some e) s old row' h = cc

update_row_err :
    (f : Option Error) (s : SyncState) (row row' : Option SyncState) (e : Error)
    → update_row f s row ≡ (err e, row')
    → row' ≡ row
update_row_err none s none row' e h = cc
update_row_err none s (some old) row' e h = cc
update_row_err (some f) s row row' e h = sym (ap (λ p. p.1) h)

pub set_mode_ok :
    (faults : SyncFaults) (m : FetchMode) (old : SyncState) (row' : Option SyncState)
    → set_mode faults m (some old) ≡ (ok tt, row')
    → row' ≡ some (record old { mode = m })
unfolding set_mode get_state
set_mode_ok faults m old row' h = elim (Option-cases (faults SyncQuery.select_state)) [
  | inl n ↦
      update_row_ok (faults SyncQuery.update_state) (record old { mode = m }) old row' (rw n at h)
  | inr (e, p) ↦ cc
]

pub reset_ok :
    (faults : SyncFaults) (now b : ℕ) (old : SyncState) (row' : Option SyncState)
    → reset faults now b (some old) ≡ (ok tt, row')
    → row'
      ≡ some (record {
        last_indexed_block = b;
        last_indexed_block_hash = zero_hash;
        last_indexed_timestamp = now;
        mode = FetchMode.backfill;
      })
unfolding reset
reset_ok faults now b old row' h = update_row_ok (faults SyncQuery.update_state) _ old row' h

pub save_checkpoint_ok :
    (faults : SyncFaults) (now b : ℕ) (hash : Hash) (m : FetchMode) (old : SyncState)
    (row' : Option SyncState)
    → save_checkpoint faults now b hash m (some old) ≡ (ok tt, row')
    → row'
      ≡ some (record {
        last_indexed_block = b;
        last_indexed_block_hash = hash;
        last_indexed_timestamp = now;
        mode = m;
      })
unfolding save_checkpoint
save_checkpoint_ok faults now b hash m old row' h =
    update_row_ok (faults SyncQuery.update_state) _ old row' h

-- A checkpoint that cannot be saved leaves the row.
pub save_checkpoint_err :
    (faults : SyncFaults) (now b : ℕ) (hash : Hash) (m : FetchMode) (row row' : Option SyncState)
    (e : Error)
    → save_checkpoint faults now b hash m row ≡ (err e, row')
    → row' ≡ row
unfolding save_checkpoint
save_checkpoint_err faults now b hash m row row' e h =
    update_row_err (faults SyncQuery.update_state) _ row row' e h

row_ok :
    (f : Option Error) (row : Option SyncState) (state : SyncState)
    → row_or_no_rows f row ≡ ok state
    → row ≡ some state
row_ok none none state h = cc
row_ok none (some old) state h = cc
row_ok (some e) row state h = cc

-- The state that is read is the row.
pub get_state_ok :
    (faults : SyncFaults) (row : Option SyncState) (state : SyncState)
    → get_state faults row ≡ ok state
    → row ≡ some state
unfolding get_state
get_state_ok faults row state h = row_ok (faults SyncQuery.select_state) row state h
