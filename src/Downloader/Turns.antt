-- ===== src/Downloader/Turns.antt =====
-- What one turn of the loop of `Download` leaves: the checkpoint, the indexers and the mode.
use chain_indexor.Prelude.{
  ℕ, false, ◌≡◌, ◌⊎◌, refl, sym, ap, ◌∙◌, Option, some, u64_sub, Option-cases, inl, inr,
}
use chain_indexor.Types.{zero_hash, Error, Result, ok, err, Done}
use chain_indexor.Fetcher.{FetchMode, LogFetcherConfig, FetchResult, FetchState, fetch_next}
use chain_indexor.SyncManager.{SyncState, SyncQuery, get_state, set_mode, reset}
use chain_indexor.SyncManager.Saved.{set_mode_ok, reset_ok}
use chain_indexor.Coordinator.{IndexerCoordinator, handle_reorg}
use chain_indexor.Downloader.{
  Turn, Session, after_set_mode, after_reset, after_rollback, downloader_handle_reorg, resume,
  after_reorg, failed_fetch, last_hash, route, take_turn,
}

-- The row that a rollback to the block before `first` leaves.
abbrev pub rolled_back : ℕ → ℕ → SyncState
rolled_back now first = record {
  last_indexed_block = u64_sub first 1;
  last_indexed_block_hash = zero_hash;
  last_indexed_timestamp = now;
  mode = FetchMode.backfill;
}

abbrev pub checkpoint : ℕ → FetchResult → FetchMode → SyncState
checkpoint now result mode = record {
  last_indexed_block = result.to_block;
  last_indexed_block_hash = last_hash zero_hash result.headers;
  last_indexed_timestamp = now;
  mode = mode;
}

module _ {ℓ} {W : Type ℓ} (ic : IndexerCoordinator) (turn : Turn W) where
  -- A handled reorg has rolled back every indexer, and left the row at the block before the reorg.
  abbrev pub RolledBack : ℕ → Session W → Session W → Type ℓ
  RolledBack first s s' =
      (handle_reorg turn.on_reorg ic first s.world ≡ (ok tt, s'.world))
      × (s'.row ≡ some (rolled_back turn.now first))
      × (s'.fetcher.mode ≡ FetchMode.backfill)
      × (s'.state ≡ s.state)

  after_set_mode_ok :
      (s s' : Session W) (r : Result Done × Option SyncState)
      → after_set_mode r s ≡ (ok tt, s')
      → (r ≡ (ok tt, s'.row))
        × (s'.fetcher.mode ≡ FetchMode.backfill)
        × (s'.state ≡ s.state)
        × (s'.world ≡ s.world)
  after_set_mode_ok s s' (err e, row) h = cc
  after_set_mode_ok s s' (ok _, row) h =
      let q = sym (ap (λ p. p.1) h) in
      (
        ap (λ z. (ok tt, z.row)) (sym q),
        ap (λ z. z.fetcher.mode) q,
        ap (λ z. z.state) q,
        ap (λ z. z.world) q,
      )

  after_reset_ok :
      (s s' : Session W) (r : Result Done × Option SyncState)
      → after_reset turn r s ≡ (ok tt, s')
      → (row : Option SyncState) × (r ≡ (ok tt, row))
        × (after_set_mode (set_mode turn.sync_faults FetchMode.backfill row) s ≡ (ok tt, s'))
  after_reset_ok s s' (err e, row) h = cc
  after_reset_ok s s' (ok _, row) h = (row, refl, h)

  after_rollback_ok :
      (first : ℕ) (s s' : Session W) (r : Result Done × W)
      → after_rollback turn first r s ≡ (ok tt, s')
      → (w : W) × (r ≡ (ok tt, w))
        × (after_reset turn
              (reset turn.sync_faults turn.now (u64_sub first 1) s.row)
              (record s { world = w })
            ≡ (ok tt, s'))
  after_rollback_ok first s s' (err e, w) h = cc
  after_rollback_ok first s s' (ok _, w) h = (w, refl, h)

  pub downloader_handle_reorg_ok :
      (first : ℕ) (s s' : Session W) (state : SyncState)
      → s.row ≡ some state
      → downloader_handle_reorg ic turn first s ≡ (ok tt, s')
      → RolledBack first s s'
  unfolding downloader_handle_reorg
  downloader_handle_reorg_ok first s s' state r h =
      let (w, e, h1) = after_rollback_ok first s s' _ h in
      let (row, f, h2) = after_reset_ok (record s { world = w }) s' _ h1 in
      let (g, mode, state_same, world_same) = after_set_mode_ok (record s { world = w }) s' _ h2 in
      let row_is = reset_ok turn.sync_faults turn.now (u64_sub first 1) state row (rw r at f) in
      (
        e ∙ ap (λ z. (ok tt, z)) (sym world_same),
        set_mode_ok turn.sync_faults FetchMode.backfill (rolled_back turn.now first) s'.row
            (rw row_is at g),
        mode,
        state_same,
      )

  -- When the indexers do not handle the logs, the turn fails and the checkpoint stays.
  take_turn_failed :
      (cfg : LogFetcherConfig) (start : ℕ) (s : Session W) (result : FetchResult) (st : FetchState)
      (e : Error) (w : W)
      → turn.is_cancelled ≡ false
      → fetch_next cfg turn.fetch_env turn.heads s.last_indexed_block start s.fetcher
        ≡ (ok result, st)
      → route ic turn result.logs s.world ≡ (err e, w)
      → take_turn ic cfg start turn s ≡ (err e, record s { fetcher = st; world = w })
  unfolding take_turn
  take_turn_failed cfg start s result st e w c f r = rw (c, f, r) refl

  resume_ok :
      (r : Result SyncState) (s s' : Session W) (state : SyncState)
      → r ≡ ok state
      → resume r s ≡ (ok tt, s')
      → record s { last_indexed_block = state.last_indexed_block } ≡ s'
  resume_ok (err e) s s' state e' h = cc
  resume_ok (ok st) s s' state e h = cc

  get_state_row :
      (row : Option SyncState) (state : SyncState)
      → row ≡ some state
      → (get_state turn.state_faults row ≡ ok state)
        ⊎ ((e : Error) × (get_state turn.state_faults row ≡ err e))
  unfolding get_state
  get_state_row row state r = elim (Option-cases (turn.state_faults SyncQuery.select_state)) [
    | inl n ↦ inl (rw (n, r) refl)
    | inr (e, q) ↦ inr (e, rw q refl)
  ]

  resume_from :
      (s s' : Session W) (state : SyncState)
      → s.row ≡ some state
      → resume (get_state turn.state_faults s.row) s ≡ (ok tt, s')
      → record s { last_indexed_block = state.last_indexed_block } ≡ s'
  resume_from s s' state r h = elim (get_state_row s.row state r) [
    | inl g ↦ resume_ok _ s s' state g h
    | inr (e, g) ↦ cc
  ]

  after_reorg_ok :
      (s' : Session W) (r : Result Done × Session W)
      → after_reorg turn r ≡ (ok tt, s')
      → (s1 : Session W) × (r ≡ (ok tt, s1))
        × (resume (get_state turn.state_faults s1.row) s1 ≡ (ok tt, s'))
  after_reorg_ok s' (err e, s1) h = cc
  after_reorg_ok s' (ok _, s1) h = (s1, refl, h)

  resumed :
      (first : ℕ) (s s1 s' : Session W)
      → RolledBack first s s1
      → record s1 { last_indexed_block = u64_sub first 1 } ≡ s'
      → RolledBack first s s' × (s'.last_indexed_block ≡ u64_sub first 1)
  resumed first s s1 s' (called, row, mode, same) q = (
    (
      called ∙ ap (λ z. (ok tt, z.world)) q,
      ap (λ z. z.row) (sym q) ∙ row,
      ap (λ z. z.fetcher.mode) (sym q) ∙ mode,
      ap (λ z. z.state) (sym q) ∙ same,
    ),
    ap (λ z. z.last_indexed_block) (sym q),
  )

  -- A turn that meets a reorg and goes on has rolled back every indexer and the saved row, and goes
  -- on from the block before the reorg; the local `state` is the one of before.
  pub take_turn_reorg :
      (cfg : LogFetcherConfig) (start : ℕ) (s s' : Session W) (state : SyncState) (st : FetchState)
      (first : ℕ)
      → turn.is_cancelled ≡ false
      → s.row ≡ some state
      → fetch_next cfg turn.fetch_env turn.heads s.last_indexed_block start s.fetcher
        ≡ (err (Error.reorg_detected first), st)
      → take_turn ic cfg start turn s ≡ (ok tt, s')
      → RolledBack first s s' × (s'.last_indexed_block ≡ u64_sub first 1)
  unfolding take_turn
  take_turn_reorg cfg start s s' state st first c r f h =
      let h' : failed_fetch ic turn (Error.reorg_detected first) (record s { fetcher = st })
          ≡ (ok tt, s') =
        rw (c, f) at h in
      let (s1, e, g) = after_reorg_ok s' _ h' in
      let (called, row, mode, same) =
        downloader_handle_reorg_ok first (record s { fetcher = st }) s1 state r e in
      resumed first (record s { fetcher = st }) s1 s' (called, row, mode, same)
        (resume_from s1 s' (rolled_back turn.now first) row g)
