-- ===== src/Fetcher.antt =====
-- internal/fetcher/log_fetcher.go: logs are fetched for a range of blocks, stored, and checked
-- against the chain. What the node and the database answer in one call of `FetchNext` is an
-- argument, `FetchEnv`; the state is the mode, the log store and the table of block hashes.
pub mod Retry
pub mod Ranges
pub mod Active
pub mod Recorded
use chain_indexor.Prelude.{
  ℕ, zero, suc, ◌/◌, Bool, true, false, not, ◌&&◌, Option, none, some, List, [], ◌∷◌, ltb, leb,
  ◌==◌, length, min, max, u64_add, u64_sub, if◌then◌else◌,
}
use chain_indexor.Types.{Address, Hash, Log, Header, Error, Result, ok, err, ◌>>=◌, Done}
use chain_indexor.Unsynced.{
  UnsyncedTopics, lookup, is_empty, should_catch_up, get_addresses_and_topics,
}
use chain_indexor.Tables.{Store, Faults}
use chain_indexor.LogStore.{handle_reorg}
use chain_indexor.LogStore.Retention.{StoreConfig, store_logs}
use chain_indexor.LogStore.Gaps.{get_unsynced_topics}
use chain_indexor.Detector.{StoredBlock, Outcomes, ChainView, Save, verify_and_record_blocks}
use chain_indexor.Rpc.Errors.{is_too_many_results_error, parse_suggested_block_range}
use chain_indexor.Finality.{BlockFinality}

-- pkg/fetcher/fetcher.go; a mode is a string, and `other` is none of the two constants.
pub data FetchMode : Type 0 where
  backfill live : FetchMode
  other : ℕ → FetchMode

pub record LogFetcherConfig : Type 0 where
  pub chunk_size : ℕ
  pub finality : BlockFinality
  pub finalized_lag : ℕ
  pub addresses : List Address
  pub topics : List (List Hash)
  pub address_start_blocks : List (Address × ℕ)

pub record FetchResult : Type 0 where
  pub logs : List Log
  pub headers : List Header
  pub from_block : ℕ
  pub to_block : ℕ

-- What the node answers when it is asked for the newest blocks.
pub record Heads : Type 0 where
  pub finalized_head : Result Header
  pub safe_head : Result Header
  pub latest_head : Result Header
  pub header_at : ℕ → Result Header

-- `eth_getLogs` by the filter's range, addresses and topics.
abbrev pub GetLogs : Type 0
GetLogs = ℕ → ℕ → List Address → List (List Hash) → Result (List Log)

pub record FetchEnv : Type 0 where
  pub rpc_logs : GetLogs
  pub store_faults : Faults
  pub retention_faults : Faults
  pub store_config : StoreConfig
  pub reorg_faults : Faults
  pub unsynced_faults : Faults
  pub outcomes : Outcomes
  pub save : Save
  pub chain : ChainView

pub record FetchState : Type 0 where
  pub mode : FetchMode
  pub store : Store
  pub blocks : List StoredBlock

-- Without its header the "latest" case reads a nil pointer before it looks at the error.
abbrev with_lag : ℕ → Heads → Result Header → Result Header
with_lag lag heads (err e) = err Error.panicked
with_lag lag heads (ok h) =
    if ltb 0 lag && leb lag h.number
    then heads.header_at (u64_sub h.number lag)
    else heads.header_at 0

abbrev head_by : BlockFinality → ℕ → Heads → Result Header
head_by BlockFinality.finalized lag heads = heads.finalized_head
head_by BlockFinality.safe lag heads = heads.safe_head
head_by BlockFinality.latest lag heads = with_lag lag heads heads.latest_head
head_by (BlockFinality.other _) lag heads = err Error.invalid_finality

unfoldable pub get_finalized_block : LogFetcherConfig → Heads → Result Header
get_finalized_block cfg heads = head_by cfg.finality cfg.finalized_lag heads

-- The range to ask for after an error: the suggested one, or the first half.
abbrev pub half_range : ℕ → ℕ → Result (ℕ × ℕ)
half_range from to =
    let mid = u64_add from to / 2 in
    if mid == from then err (Error.cannot_split from) else ok (from, mid)

abbrev pub suggested_or_half : ℕ → ℕ → Option (ℕ × ℕ) → Result (ℕ × ℕ)
suggested_or_half from to (some range) = ok range
suggested_or_half from to none = half_range from to

abbrev if_too_many : Error → ℕ → ℕ → Option (List ℕ) → Result (ℕ × ℕ)
if_too_many e from to none = err e
if_too_many e from to (some text) = suggested_or_half from to (parse_suggested_block_range text)

unfoldable pub next_range : Error → ℕ → ℕ → Result (ℕ × ℕ)
next_range e from to = if_too_many e from to (is_too_many_results_error e)

-- `fetchLogsWithRetry`, on fuel for its recursion; the node's answer is given for the addresses
-- and topics of the call.
unfoldable pub fetch_logs_with_retry :
    ℕ → (ℕ → ℕ → Result (List Log)) → ℕ → ℕ → Result (List Log × ℕ × ℕ)
fetch_logs_with_retry zero answer from to = err Error.out_of_fuel
fetch_logs_with_retry (suc fuel) answer from to = elim (answer from to) [
  | ok logs ↦ ok (logs, from, to)
  | err e ↦ elim (next_range e from to) [
    | err e' ↦ err e'
    | ok (from', to') ↦ fetch_logs_with_retry fuel answer from' to'
  ]
]

-- A range of 64-bit numbers is halved at most 64 times.
abbrev pub retry_fuel : ℕ
retry_fuel = 65

abbrev has_started : Option ℕ → ℕ → Bool
has_started none from = true
has_started (some start) from = leb start from

-- The addresses that have reached their start block, each with the entry of `lf.cfg.Topics` at its
-- position among `addresses`.
unfoldable pub active_filter :
    List (Address × ℕ)
    → ℕ
    → List Address
    → List (List Hash)
    → Result (List Address × List (List Hash))
unfolding lookup
active_filter starts from [] tss = ok ([], [])
active_filter starts from (a ∷ xs) [] =
    let rest = active_filter starts from xs [] in
    if has_started (lookup a starts) from then err Error.panicked else rest
active_filter starts from (a ∷ xs) (ts ∷ tss) =
    let rest = active_filter starts from xs tss in
    if has_started (lookup a starts) from then (rest >>= λ p. ok (a ∷ p.0, ts ∷ p.1)) else rest

-- Logs are only asked for where there is an active address.
abbrev pub fetch_active :
    GetLogs → ℕ → ℕ → List Address → List (List Hash) → Result (List Log × ℕ × ℕ)
fetch_active rpc_logs from to [] tss = ok ([], from, to)
fetch_active rpc_logs from to (a ∷ xs) tss =
    fetch_logs_with_retry retry_fuel (λ f t. rpc_logs f t (a ∷ xs) tss) from to

-- A reorg drops the cached logs; an error in that is logged and dropped.
abbrev drop_cached : Faults → Error → Store → Store
drop_cached faults (Error.reorg_detected b) s = (handle_reorg faults b s).1
drop_cached faults _ s = s

abbrev pub after_verify :
    FetchEnv
    → List Log
    → ℕ
    → ℕ
    → FetchState
    → Result (List Header) × List StoredBlock
    → Result FetchResult × FetchState
after_verify env logs new_from new_to st (ok headers, blocks) = (
  ok (record { logs = logs; headers = headers; from_block = new_from; to_block = new_to }),
  record st { blocks = blocks },
)
after_verify env logs new_from new_to st (err e, blocks) =
    (err e, record st { store = drop_cached env.reorg_faults e st.store; blocks = blocks })

abbrev pub after_store :
    FetchEnv
    → List Log
    → ℕ
    → ℕ
    → ℕ
    → ℕ
    → FetchState
    → Result Done × Store
    → Result FetchResult × FetchState
after_store env logs from to new_from new_to st (err e, s) = (err e, record st { store = s })
after_store env logs from to new_from new_to st (ok _, s) =
    after_verify env logs new_from new_to (record st { store = s })
      (verify_and_record_blocks env.outcomes env.save env.chain logs from to st.blocks)

abbrev pub after_fetch :
    FetchEnv
    → List Address
    → List (List Hash)
    → ℕ
    → ℕ
    → FetchState
    → Result (List Log × ℕ × ℕ)
    → Result FetchResult × FetchState
after_fetch env xs tss from to st (err e) = (err e, st)
after_fetch env xs tss from to st (ok (logs, new_from, new_to)) =
    after_store env logs from to new_from new_to st (
      store_logs env.store_faults env.retention_faults env.store_config xs tss logs from to
        st.store)

abbrev pub after_filter :
    FetchEnv
    → ℕ
    → ℕ
    → FetchState
    → Result (List Address × List (List Hash))
    → Result FetchResult × FetchState
after_filter env from to st (err e) = (err e, st)
after_filter env from to st (ok (xs, tss)) =
    after_fetch env xs tss from to st (fetch_active env.rpc_logs from to xs tss)

-- `fetchRange`; its parameter `topics` is only used for a capacity.
unfoldable pub fetch_range :
    LogFetcherConfig
    → FetchEnv
    → ℕ
    → ℕ
    → List Address
    → List (List Hash)
    → FetchState
    → Result FetchResult × FetchState
fetch_range cfg env from to addresses topics st =
    after_filter env from to st (active_filter cfg.address_start_blocks from addresses cfg.topics)

-- The end of a chunk in live mode.
abbrev pub live_end : ℕ → ℕ → ℕ → ℕ
live_end chunk from finalized =
    if ltb chunk (u64_add (u64_sub finalized from) 1)
    then u64_sub (u64_add from chunk) 1
    else finalized

-- `fetchLive`: each wait takes the next answer of the node; when there is none the context was
-- cancelled.
unfoldable pub fetch_live :
    LogFetcherConfig → FetchEnv → List Heads → ℕ → FetchState → Result FetchResult × FetchState
fetch_live cfg env [] last st = (err Error.cancelled, st)
fetch_live cfg env (heads ∷ more) last st =
    let wait = fetch_live cfg env more last st in
    let from = u64_add last 1 in
    elim (get_finalized_block cfg heads) [
      | err e ↦ (err e, st)
      | ok h ↦
          if ltb h.number from
          then wait
          else fetch_range cfg env from (live_end cfg.chunk_size from h.number) cfg.addresses
              cfg.topics st
    ]

-- The range of a catch-up, from the last block that every unsynced topic has.
abbrev pub catch_up_range : LogFetcherConfig → ℕ → ℕ → ℕ → ℕ × ℕ
catch_up_range cfg last start last_covered =
    let from = max start (u64_add last_covered 1) in
    (from, min (u64_sub (u64_add from cfg.chunk_size) 1) last)

abbrev pub catch_up :
    LogFetcherConfig
    → FetchEnv
    → ℕ
    → ℕ
    → List Address × List (List Hash) × ℕ
    → FetchState
    → Result FetchResult × FetchState
catch_up cfg env last start (xs, tss, last_covered) st =
    let (from, to) = catch_up_range cfg last start last_covered in
    fetch_range cfg env from to xs tss st

-- The end of a chunk in backfill mode.
abbrev pub backfill_end : ℕ → ℕ → ℕ → ℕ
backfill_end chunk from finalized = min (u64_sub (u64_add from chunk) 1) finalized

abbrev pub backfill_from :
    LogFetcherConfig
    → FetchEnv
    → List Heads
    → ℕ
    → FetchState
    → Result Header
    → Result FetchResult × FetchState
backfill_from cfg env more last st (err e) = (err e, st)
backfill_from cfg env more last st (ok h) =
    let from = u64_add last 1 in
    if leb h.number from
    then fetch_live cfg env more last (record st { mode = FetchMode.live })
    else fetch_range cfg env from (backfill_end cfg.chunk_size from h.number) cfg.addresses
        cfg.topics st

abbrev pub backfill_heads :
    LogFetcherConfig → FetchEnv → List Heads → ℕ → FetchState → Result FetchResult × FetchState
backfill_heads cfg env [] last st = (err Error.cancelled, st)
backfill_heads cfg env (heads ∷ more) last st =
    backfill_from cfg env more last st (get_finalized_block cfg heads)

unfoldable pub fetch_backfill :
    LogFetcherConfig → FetchEnv → List Heads → ℕ → ℕ → FetchState → Result FetchResult × FetchState
fetch_backfill cfg env heads last start st =
    elim (get_unsynced_topics env.unsynced_faults st.store cfg.addresses cfg.topics last) [
      | err e ↦ (err e, st)
      | ok ut ↦
          if not (is_empty ut) && should_catch_up ut last start
          then catch_up cfg env last start (get_addresses_and_topics ut) st
          else backfill_heads cfg env heads last st
    ]

abbrev pub next_in_mode :
    FetchMode
    → LogFetcherConfig
    → FetchEnv
    → List Heads
    → ℕ
    → ℕ
    → FetchState
    → Result FetchResult × FetchState
next_in_mode FetchMode.backfill cfg env heads last start st =
    fetch_backfill cfg env heads last start st
next_in_mode FetchMode.live cfg env heads last start st = fetch_live cfg env heads last st
next_in_mode (FetchMode.other _) cfg env heads last start st = (err Error.unknown_mode, st)

unfoldable pub fetch_next :
    LogFetcherConfig → FetchEnv → List Heads → ℕ → ℕ → FetchState → Result FetchResult × FetchState
fetch_next cfg env heads last start st = next_in_mode st.mode cfg env heads last start st
