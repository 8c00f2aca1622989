-- ===== src/Downloader.antt =====
-- internal/downloader/downloader.go: the filter that the indexers register, and the loop of
-- `Download`. What the node, the database, the clock and the indexers answer in one turn of the loop
-- is an argument, `Turn`; the loop runs over a list of turns, at whose end the context is cancelled.
pub mod Register
pub mod Turns
pub mod Progress
use Prim.Native.String.{String}
use chain_indexor.Prelude.{
  ℕ, zero, suc, Bool, true, false, ◌&&◌, List, [], ◌∷◌, ◌++◌, Option, none, some, ltb, leb, ◌==◌,
  any, max_u64, u64_sub, if◌then◌else◌,
}
use chain_indexor.Types.{Address, Hash, zero_hash, Log, Header, Error, Result, ok, err, Done}
use chain_indexor.Unsynced.{lookup, insert}
use chain_indexor.Finality.{BlockFinality, parse_block_finality}
use chain_indexor.Fetcher.{
  FetchMode, LogFetcherConfig, FetchResult, Heads, FetchEnv, FetchState, fetch_next,
}
use chain_indexor.Config.Database.{DownloaderConfig}
use chain_indexor.SyncManager.{SyncState, SyncFaults, get_state, save_checkpoint, set_mode, reset}
use chain_indexor.Coordinator.{
  Indexer, IndexerCoordinator, new_indexer_coordinator, register_indexer, handle_logs, handle_reorg,
  indexer_start_blocks,
}

pub record Downloader : Type 0 where
  pub coordinator : IndexerCoordinator
  pub addresses : List Address
  pub topics : List (List Hash)
  pub address_start_blocks : List (Address × ℕ)

unfoldable pub new_downloader : Downloader
unfolding new_indexer_coordinator
new_downloader = record {
  coordinator = new_indexer_coordinator;
  addresses = [];
  topics = [];
  address_start_blocks = [];
}

-- indexOfAddressLocked; `none` is -1.
abbrev pub next_index : Option ℕ → Option ℕ
next_index none = none
next_index (some n) = some (suc n)

unfoldable pub index_of_address : Address → List Address → Option ℕ
index_of_address a [] = none
index_of_address a (x ∷ xs) =
    let rest = next_index (index_of_address a xs) in if x == a then some 0 else rest

abbrev add_new_topic : Hash → List Hash → List Hash
add_new_topic t ts = if any (λ u. u == t) ts then ts else ts ++ t ∷ []

abbrev pub add_topics : List Hash → List Hash → List Hash
add_topics [] ts = ts
add_topics (t ∷ new) ts = add_topics new (add_new_topic t ts)

abbrev pub add_topics_at : ℕ → List Hash → List (List Hash) → List (List Hash)
add_topics_at n new [] = []
add_topics_at zero new (ts ∷ tss) = add_topics new ts ∷ tss
add_topics_at (suc n) new (ts ∷ tss) = ts ∷ add_topics_at n new tss

abbrev pub min_start : ℕ → Option ℕ → ℕ
min_start start none = start
min_start start (some old) = if ltb start old then start else old

abbrev pub register_at : Option ℕ → Address → List Hash → Downloader → Downloader
register_at none a new d = record d {
  addresses = d.addresses ++ a ∷ [];
  topics = d.topics ++ add_topics new [] ∷ [];
}
register_at (some n) a new d = record d { topics = add_topics_at n new d.topics }

unfoldable pub register_address : ℕ → Address → List Hash → Downloader → Downloader
unfolding insert lookup index_of_address
register_address start a new d =
    let started = record d {
      address_start_blocks =
          insert a (min_start start (lookup a d.address_start_blocks)) d.address_start_blocks;
    } in
    register_at (index_of_address a d.addresses) a new started

abbrev pub register_events : ℕ → List (Address × List Hash) → Downloader → Downloader
register_events start [] d = d
register_events start ((a, ts) ∷ es) d = register_events start es (register_address start a ts d)

-- `RegisterIndexer`.
unfoldable pub register : Indexer → Downloader → Downloader
unfolding register_address register_indexer
register ix d =
    let filtered = register_events ix.start_block ix.events_to_index d in
    record filtered { coordinator = register_indexer ix filtered.coordinator }

abbrev pub least : List ℕ → ℕ → ℕ
least [] m = m
least (b ∷ bs) m = least bs (if ltb b m then b else m)

abbrev pub least_or_zero : List ℕ → ℕ
least_or_zero [] = 0
least_or_zero (b ∷ bs) = least (b ∷ bs) max_u64

unfoldable pub get_downloader_start_block : Downloader → ℕ
unfolding indexer_start_blocks
get_downloader_start_block d = least_or_zero (indexer_start_blocks d.coordinator)

module _ {ℓ} (W : Type ℓ) where
  -- What is outside of the program in one turn of the loop.
  pub record Turn : Type ℓ where
    pub is_cancelled : Bool
    pub fetch_env : FetchEnv
    pub heads : List Heads
    pub now : ℕ
    pub sync_faults : SyncFaults
    pub state_faults : SyncFaults  -- of the `GetState` that ends the turn
    pub on_logs : ℕ → List Log → W → Result Done × W
    pub on_reorg : ℕ → ℕ → W → Result Done × W

  -- The local variables of `Download` (`state`, `lastIndexedBlock`), the log fetcher, the row of
  -- `sync_state` and the indexers' state.
  pub record Session : Type ℓ where
    pub state : SyncState
    pub last_indexed_block : ℕ
    pub fetcher : FetchState
    pub row : Option SyncState
    pub world : W

-- The hash of the last header, where there is one.
abbrev last_hash : Hash → List Header → Hash
last_hash h [] = h
last_hash h (x ∷ xs) = last_hash x.hash xs

module _ {ℓ} {W : Type ℓ} where
  abbrev after_set_mode : Result Done × Option SyncState → Session W → Result Done × Session W
  after_set_mode (err e, row) s = (err e, record s { row = row })
  after_set_mode (ok _, row) s =
      (ok tt, record s { row = row; fetcher = record s.fetcher { mode = FetchMode.backfill } })

  abbrev after_reset : Turn W → Result Done × Option SyncState → Session W → Result Done × Session W
  after_reset turn (err e, row) s = (err e, record s { row = row })
  after_reset turn (ok _, row) s =
      after_set_mode (set_mode turn.sync_faults FetchMode.backfill row) s

  abbrev after_rollback : Turn W → ℕ → Result Done × W → Session W → Result Done × Session W
  after_rollback turn first (err e, w) s = (err e, record s { world = w })
  after_rollback turn first (ok _, w) s =
      after_reset turn (reset turn.sync_faults turn.now (u64_sub first 1) s.row)
        (record s { world = w })

  -- `handleReorg`.
  unfoldable pub downloader_handle_reorg :
      IndexerCoordinator → Turn W → ℕ → Session W → Result Done × Session W
  unfolding handle_reorg reset set_mode
  downloader_handle_reorg ic turn first s =
      after_rollback turn first (handle_reorg turn.on_reorg ic first s.world) s

  -- The turn goes on from the saved state, which is read into a variable of its own.
  abbrev resume : Result SyncState → Session W → Result Done × Session W
  resume (err e) s = (err e, s)
  resume (ok state) s = (ok tt, record s { last_indexed_block = state.last_indexed_block })

  abbrev after_reorg : Turn W → Result Done × Session W → Result Done × Session W
  after_reorg turn (err e, s) = (err e, s)
  after_reorg turn (ok _, s) = resume (get_state turn.state_faults s.row) s

  abbrev failed_fetch : IndexerCoordinator → Turn W → Error → Session W → Result Done × Session W
  failed_fetch ic turn (Error.reorg_detected b) s =
      after_reorg turn (downloader_handle_reorg ic turn b s)
  failed_fetch ic turn e s = (err e, s)

  abbrev new_state : Result SyncState → Session W → Result Done × Session W
  new_state (err e) s = (err e, s)
  new_state (ok state) s = (ok tt, record s { state = state })

  abbrev after_checkpoint :
      Turn W → FetchResult → Result Done × Option SyncState → Session W → Result Done × Session W
  after_checkpoint turn result (err e, row) s = (err e, record s { row = row })
  after_checkpoint turn result (ok _, row) s =
      new_state (get_state turn.state_faults row)
        (record s { row = row; last_indexed_block = result.to_block })

  -- The checkpoint is only saved from the last saved block on.
  abbrev after_logs : Turn W → FetchResult → Result Done × W → Session W → Result Done × Session W
  after_logs turn result (err e, w) s = (err e, record s { world = w })
  after_logs turn result (ok _, w) s =
      let handled = record s { world = w } in
      if leb s.state.last_indexed_block result.from_block
      then after_checkpoint turn result
          (save_checkpoint turn.sync_faults turn.now result.to_block
            (last_hash zero_hash result.headers) s.fetcher.mode s.row)
          handled
      else new_state (get_state turn.state_faults s.row) handled

  abbrev pub route : IndexerCoordinator → Turn W → List Log → W → Result Done × W
  route ic turn [] w = (ok tt, w)
  route ic turn (l ∷ ls) w = handle_logs turn.on_logs ic (l ∷ ls) w

  abbrev after_fetch_next :
      IndexerCoordinator
      → Turn W
      → Result FetchResult × FetchState
      → Session W
      → Result Done × Session W
  after_fetch_next ic turn (err e, st) s = failed_fetch ic turn e (record s { fetcher = st })
  after_fetch_next ic turn (ok result, st) s =
      after_logs turn result (route ic turn result.logs s.world) (record s { fetcher = st })

  -- One turn of the loop of `Download`.
  unfoldable pub take_turn :
      IndexerCoordinator → LogFetcherConfig → ℕ → Turn W → Session W → Result Done × Session W
  unfolding fetch_next get_state save_checkpoint handle_logs downloader_handle_reorg
  take_turn ic cfg start turn s =
      if turn.is_cancelled
      then (err Error.cancelled, s)
      else after_fetch_next ic turn
          (fetch_next cfg turn.fetch_env turn.heads s.last_indexed_block start s.fetcher) s

  unfoldable pub download_loop :
      IndexerCoordinator
      → LogFetcherConfig
      → ℕ
      → List (Turn W)
      → Session W
      → Result Done × Session W
  unfolding take_turn
  download_loop ic cfg start [] s = (err Error.cancelled, s)
  download_loop ic cfg start (turn ∷ turns) s =
      let (r, s') = take_turn ic cfg start turn s in
      elim r [ err e ↦ (err e, s') | ok _ ↦ download_loop ic cfg start turns s' ]

-- The block to go on from: the saved one, or the one before the first start block.
abbrev pub first_block : ℕ → ℕ → ℕ
first_block saved start =
    if saved == 0 then (if ltb 0 start then u64_sub start 1 else saved) else saved

abbrev pub fetcher_config :
    {F : Type 0} → DownloaderConfig F → BlockFinality → Downloader → LogFetcherConfig
fetcher_config cfg finality d = record {
  chunk_size = cfg.chunk_size;
  finality = finality;
  finalized_lag = cfg.finalized_lag;
  addresses = d.addresses;
  topics = d.topics;
  address_start_blocks = d.address_start_blocks;
}

module _ {ℓ} {W : Type ℓ} where
  -- The session before the first turn; a new log fetcher is in backfill mode.
  abbrev pub first_session : Downloader → FetchState → Option SyncState → W → SyncState → Session W
  first_session d st row w state = record {
    state = state;
    last_indexed_block = first_block state.last_indexed_block (get_downloader_start_block d);
    fetcher = record st { mode = FetchMode.backfill };
    row = row;
    world = w;
  }

  abbrev start_session :
      Downloader
      → FetchState
      → Option SyncState
      → W
      → Result BlockFinality
      → Result SyncState
      → Result (BlockFinality × Session W)
  start_session d st row w (err e) state = err e
  start_session d st row w (ok f) (err e) = err e
  start_session d st row w (ok f) (ok state) = ok (f, first_session d st row w state)

  abbrev run_session :
      {F : Type 0}
      → DownloaderConfig F
      → Downloader
      → List (Turn W)
      → Result (BlockFinality × Session W)
      → Result Done × Option (Session W)
  run_session cfg d turns (err e) = (err e, none)
  run_session cfg d turns (ok (f, s)) =
      let (r, s') =
        download_loop d.coordinator (fetcher_config cfg f d) (get_downloader_start_block d) turns
          s in
      (r, some s')

  -- `Download`; there is no session when it fails before its loop.
  unfoldable pub download :
      {F : Type 0}
      → DownloaderConfig F
      → Downloader
      → SyncFaults
      → List (Turn W)
      → FetchState
      → Option SyncState
      → W
      → Result Done × Option (Session W)
  unfolding get_downloader_start_block parse_block_finality get_state download_loop
  download cfg d faults turns st row w =
      run_session cfg d turns
        (start_session d st row w (parse_block_finality cfg.finality) (get_state faults row))
