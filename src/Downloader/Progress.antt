-- ===== src/Downloader/Progress.antt =====
-- The checkpoint and the position of `Download` from turn to turn.
use chain_indexor.Prelude.{
  ℕ, ◌≤◌, ◌<◌, false, ◌≡◌, ◌⊎◌, refl, sym, ap, ◌∙◌, Option, some, arith, leb, u64_sub, Bool-cases,
  leb→le, inl, inr,
}
use chain_indexor.Types.{Error, Result, ok, err, Done}
use chain_indexor.Fetcher.{LogFetcherConfig, FetchResult, FetchState, fetch_next}
use chain_indexor.SyncManager.{SyncState}
use chain_indexor.SyncManager.Saved.{get_state_ok, save_checkpoint_ok, save_checkpoint_err}
use chain_indexor.Coordinator.{IndexerCoordinator}
use chain_indexor.Downloader.{
  Turn, Session, new_state, after_checkpoint, after_logs, route, take_turn, last_hash,
}
use chain_indexor.Downloader.Turns.{checkpoint, rolled_back, take_turn_reorg}
use chain_indexor.Types.{zero_hash}

module _ {ℓ} {W : Type ℓ} (ic : IndexerCoordinator) (turn : Turn W) where
  -- The turn saved a checkpoint at the end of the fetched range.
  abbrev pub Advanced : FetchResult → Session W → Session W → Type 0
  Advanced result s s' =
      (s.state.last_indexed_block ≤ result.from_block)
      × (s'.row ≡ some (checkpoint turn.now result s.fetcher.mode))
      × (s'.last_indexed_block ≡ result.to_block)

  -- The turn left the checkpoint and its own position alone.
  abbrev pub Repeated : FetchResult → Session W → Session W → Type 0
  Repeated result s s' =
      (result.from_block < s.state.last_indexed_block)
      × (s'.row ≡ s.row)
      × (s'.last_indexed_block ≡ s.last_indexed_block)

  new_state_ok :
      (r : Result SyncState) (s s' : Session W)
      → new_state r s ≡ (ok tt, s')
      → (s'.row ≡ s.row)
        × (s'.last_indexed_block ≡ s.last_indexed_block)
        × (s'.world ≡ s.world)
        × (r ≡ ok s'.state)
  new_state_ok (err e) s s' h = cc
  new_state_ok (ok state) s s' h =
      let q = sym (ap (λ p. p.1) h) in
      (
        ap (λ z. z.row) q,
        ap (λ z. z.last_indexed_block) q,
        ap (λ z. z.world) q,
        ap (λ z. ok z.state) (sym q),
      )

  after_checkpoint_ok :
      (result : FetchResult) (r : Result Done × Option SyncState) (s s' : Session W)
      → after_checkpoint turn result r s ≡ (ok tt, s')
      → (r ≡ (ok tt, s'.row))
        × (s'.last_indexed_block ≡ result.to_block)
        × (s'.world ≡ s.world)
        × (s'.row ≡ some s'.state)
  after_checkpoint_ok result (err e, row) s s' h = cc
  after_checkpoint_ok result (ok _, row) s s' h =
      let (same_row, last, world, state) =
        new_state_ok _ (record s { row = row; last_indexed_block = result.to_block }) s' h in
      (
        ap (λ z. (ok tt, z)) (sym same_row),
        last,
        world,
        same_row ∙ get_state_ok turn.state_faults row s'.state state,
      )

  after_logs_ok :
      (result : FetchResult) (r : Result Done × W) (s s' : Session W) (old : SyncState)
      → s.row ≡ some old
      → after_logs turn result r s ≡ (ok tt, s')
      → (r ≡ (ok tt, s'.world))
        × (s'.row ≡ some s'.state)
        × (Advanced result s s' ⊎ Repeated result s s')
  after_logs_ok result (err e, w) s s' old o h = cc
  after_logs_ok result (ok _, w) s s' old o h =
      elim (Bool-cases (leb s.state.last_indexed_block result.from_block)) [
        | inl t ↦
            let (saved, last, world, row) =
              after_checkpoint_ok result _ (record s { world = w }) s' (rw t at h) in
            let q =
              save_checkpoint_ok turn.sync_faults turn.now result.to_block
                (last_hash zero_hash result.headers) s.fetcher.mode old s'.row (rw o at saved) in
            (ap (λ z. (ok tt, z)) (sym world), row, inl (omega (arith, leb→le _ _ t), q, last))
        | inr n ↦
            let (row, last, world, state) =
              new_state_ok _ (record s { world = w }) s' (rw n at h) in
            (
              ap (λ z. (ok tt, z)) (sym world),
              row ∙ get_state_ok turn.state_faults s.row s'.state state,
              inr (ground arith, row, last),
            )
      ]

  -- A turn that fetched a result and goes on.
  take_turn_ok :
      (cfg : LogFetcherConfig) (start : ℕ) (s s' : Session W) (old : SyncState)
      (result : FetchResult) (st : FetchState)
      → turn.is_cancelled ≡ false
      → s.row ≡ some old
      → fetch_next cfg turn.fetch_env turn.heads s.last_indexed_block start s.fetcher
        ≡ (ok result, st)
      → take_turn ic cfg start turn s ≡ (ok tt, s')
      → (route ic turn result.logs s.world ≡ (ok tt, s'.world))
        × (s'.row ≡ some s'.state)
        × (Advanced result (record s { fetcher = st }) s' ⊎ Repeated result s s')
  unfolding take_turn
  take_turn_ok cfg start s s' old result st c o f h =
      after_logs_ok result (route ic turn result.logs s.world) (record s { fetcher = st }) s' old o
        (rw (c, f) at h)

  abbrev error_or : Error → Result Done → Error
  error_or e (ok _) = e
  error_or e (err f) = f

  new_state_err :
      (r : Result SyncState) (s s' : Session W) (e : Error) → new_state r s ≡ (err e, s') → s' ≡ s
  new_state_err (ok state) s s' e h = cc
  new_state_err (err f) s s' e h = sym (ap (λ p. p.1) h)

  -- The row of a turn that fails after the logs: as it was, or with the checkpoint.
  abbrev pub OldOrSaved : FetchResult → Session W → Session W → Type 0
  OldOrSaved result s s' =
      (s'.row ≡ s.row) ⊎ (s'.row ≡ some (checkpoint turn.now result s.fetcher.mode))

  after_checkpoint_err :
      (result : FetchResult) (r : Result Done × Option SyncState) (s s' : Session W) (e : Error)
      → ((f : Error) (row : Option SyncState) → r ≡ (err f, row) → row ≡ s.row)
      → ((row : Option SyncState)
          → r ≡ (ok tt, row)
          → row ≡ some (checkpoint turn.now result s.fetcher.mode))
      → after_checkpoint turn result r s ≡ (err e, s')
      → (s'.world ≡ s.world) × OldOrSaved result s s'
  after_checkpoint_err result (err f, row) s s' e k l h =
      let q = sym (ap (λ p. p.1) h) in (ap (λ z. z.world) q, inl (ap (λ z. z.row) q ∙ k f row refl))
  after_checkpoint_err result (ok _, row) s s' e k l h =
      let q =
        new_state_err _ (record s { row = row; last_indexed_block = result.to_block }) s' e h in
      (ap (λ z. z.world) q, inr (ap (λ z. z.row) q ∙ l row refl))

  after_logs_err :
      (result : FetchResult) (r : Result Done × W) (s s' : Session W) (old : SyncState) (e : Error)
      → s.row ≡ some old
      → after_logs turn result r s ≡ (err e, s')
      → ((r ≡ (err e, s'.world))
          × (s'.row ≡ s.row)
          × (s'.last_indexed_block ≡ s.last_indexed_block))
        ⊎ ((r ≡ (ok tt, s'.world)) × OldOrSaved result s s')
  after_logs_err result (err f, w) s s' old e o h =
      let q = sym (ap (λ p. p.1) h) in
      let same : f ≡ e = ap (λ p. error_or e p.0) h in
      inl (
        rw same (ap (λ z. (err e, z.world)) (sym q)),
        ap (λ z. z.row) q,
        ap (λ z. z.last_indexed_block) q,
      )
  after_logs_err result (ok _, w) s s' old e o h =
      elim (Bool-cases (leb s.state.last_indexed_block result.from_block)) [
        | inl t ↦
            let hash = last_hash zero_hash result.headers in
            let (world, row) =
              after_checkpoint_err result _ (record s { world = w }) s' e
                (λ f row k.
                  save_checkpoint_err turn.sync_faults turn.now result.to_block hash s.fetcher.mode
                    s.row row f k)
                (λ row k.
                  save_checkpoint_ok turn.sync_faults turn.now result.to_block hash s.fetcher.mode
                    old row (rw o at k))
                (rw t at h) in
            inr (ap (λ z. (ok tt, z)) (sym world), row)
        | inr n ↦
            let q = new_state_err _ (record s { world = w }) s' e (rw n at h) in
            inr (ap (λ z. (ok tt, z.world)) (sym q), inl (ap (λ z. z.row) q))
      ]

  -- The row and the position of a turn against what the indexers made of its logs.
  abbrev pub LogsFirst : FetchResult → Result Done → Session W → Session W → Type ℓ
  LogsFirst result r s s' =
      ((e : Error) × (route ic turn result.logs s.world ≡ (err e, s'.world))
        × (r ≡ err e)
        × (s'.row ≡ s.row)
        × (s'.last_indexed_block ≡ s.last_indexed_block))
      ⊎ ((route ic turn result.logs s.world ≡ (ok tt, s'.world))
          × (((r ≡ ok tt)
                × (s'.row ≡ some s'.state)
                × (Advanced result s s' ⊎ Repeated result s s'))
              ⊎ ((e : Error) × (r ≡ err e) × OldOrSaved result s s')))

  -- What a turn that is not cancelled, where there is a saved row, does with a result that it
  -- fetched: it hands the logs out first. If that fails, the turn fails with the same error, and
  -- neither the saved row nor the position has moved. If it succeeds, then either the turn succeeds
  -- too, holds the saved row in `state`, and has saved a checkpoint at the end of the range, where
  -- the block of the old `state` is not after the range's start, or left the row and its position
  -- alone, where it is; or the turn fails, and the row is as it was or has that checkpoint.
  pub take_turn_fetched :
      (cfg : LogFetcherConfig) (start : ℕ) (s s' : Session W) (old : SyncState)
      (result : FetchResult) (st : FetchState) (r : Result Done)
      → turn.is_cancelled ≡ false
      → s.row ≡ some old
      → fetch_next cfg turn.fetch_env turn.heads s.last_indexed_block start s.fetcher
        ≡ (ok result, st)
      → take_turn ic cfg start turn s ≡ (r, s')
      → LogsFirst result r (record s { fetcher = st }) s'
  unfolding take_turn
  take_turn_fetched cfg start s s' old result st (ok _) c o f h =
      let (handled, row, moved) = take_turn_ok cfg start s s' old result st c o f h in
      inr (handled, inl (refl, row, moved))
  take_turn_fetched cfg start s s' old result st (err e) c o f h =
      elim (after_logs_err result (route ic turn result.logs s.world) (record s { fetcher = st }) s'
        old e o (rw (c, f) at h)) [
          | inl (failed, row, last) ↦ inl (e, failed, refl, row, last)
          | inr (handled, row) ↦ inr (handled, inr (e, refl, row))
        ]

-- After a turn that met a reorg, the next turn compares with the `state` of before: where the reorg
-- lies before the block saved then, the range that starts at the reorg is handed to the indexers
-- while neither the saved row nor the position moves, so that the position is still the block before
-- the reorg.
pub take_turn_reorg_repeats {ℓ} :
    {W : Type ℓ} (ic : IndexerCoordinator) (turn next : Turn W) (cfg : LogFetcherConfig) (start : ℕ)
    (s s1 s2 : Session W) (old : SyncState) (st st1 : FetchState) (first : ℕ) (result : FetchResult)
    → turn.is_cancelled ≡ false
    → next.is_cancelled ≡ false
    → s.row ≡ some old
    → first < s.state.last_indexed_block
    → fetch_next cfg turn.fetch_env turn.heads s.last_indexed_block start s.fetcher
      ≡ (err (Error.reorg_detected first), st)
    → take_turn ic cfg start turn s ≡ (ok tt, s1)
    → fetch_next cfg next.fetch_env next.heads s1.last_indexed_block start s1.fetcher
      ≡ (ok result, st1)
    → result.from_block ≡ first
    → take_turn ic cfg start next s1 ≡ (ok tt, s2)
    → (route ic next result.logs s1.world ≡ (ok tt, s2.world))
      × (s2.row ≡ some (rolled_back turn.now first))
      × (s2.last_indexed_block ≡ u64_sub first 1)
take_turn_reorg_repeats ic turn next cfg start s s1 s2 old st st1 first result c n o b f h f1 e h1 =
    let ((called, row, mode, same), last) =
      take_turn_reorg ic turn cfg start s s1 old st first c o f h in
    let (handled, synced, moved) =
      take_turn_ok ic next cfg start s1 s2 (rolled_back turn.now first) result st1 n row f1 h1 in
    elim moved [
      | inl (le, _, _) ↦ absurd (omega (arith, ap (λ z. z.last_indexed_block) same))
      | inr (_, row2, last2) ↦ (handled, row2 ∙ row, last2 ∙ last)
    ]
