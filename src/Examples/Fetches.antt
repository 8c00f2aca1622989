-- ===== src/Examples/Fetches.antt =====
-- The log fetcher at concrete inputs.
use chain_indexor.Prelude.{
  keep, length, codes, true, map, ℕ, ◌≡◌, ◌≢◌, ◌+◌, ◌&&◌, refl, ap, sym, ◌∙◌, arith, elem, some,
  none, List, [], ◌∷◌, inl, inr, ltb, if◌then◌else◌, Bool-cases,
}
use chain_indexor.Types.{Address, Hash, Log, Header, Error, Result, ok, err}
use chain_indexor.Tables.{no_faults}
use chain_indexor.LogStore.Storing.{listed}
use chain_indexor.LogStore.Valid.{empty_store}
use chain_indexor.Detector.{all_succeed}
use chain_indexor.Finality.{BlockFinality}
use chain_indexor.Rpc.Errors.{is_too_many_results_error, parse_suggested_block_range}
use chain_indexor.Fetcher.{
  FetchMode, LogFetcherConfig, FetchResult, Heads, FetchEnv, FetchState, get_finalized_block,
  active_filter, fetch_logs_with_retry, retry_fuel, fetch_next, fetch_range,
}
use chain_indexor.Fetcher.Retry.{
  NoSuggestion, RealErrors, RetryResult, fetch_logs_with_retry_ends, fetch_logs_with_retry_loops,
}
use chain_indexor.Fetcher.Ranges.{HeadsFit, Fetches, fetch_next-Fetches}
use chain_indexor.Fetcher.Recorded.{fetch_range-covered}
use chain_indexor.LogStore.Views.{log_covered}
use chain_indexor.Fetcher.Active.{started, zip, active_filter-listed}
use chain_indexor.Examples.Chain.{chain, view, save_last, log_14}

-- A node that answers ranges of at most ten blocks, and suggests no range.
abbrev plain : List ℕ
plain = codes "Query returned more than 20000 results"

abbrev ten_blocks : ℕ → ℕ → Result (List Log)
ten_blocks from to = if ltb (from + 9) to then err (Error.data_error plain) else ok []

abbrev failed : Error → Result (List Log)
failed e = err e

abbrev no_logs : Result (List Log)
no_logs = ok []

plain_too_many : is_too_many_results_error (Error.data_error plain) ≡ some plain
unfolding is_too_many_results_error
plain_too_many = refl

plain_no_range : parse_suggested_block_range plain ≡ none
unfolding parse_suggested_block_range
plain_no_range = refl

some-injective : (a b : List ℕ) → some a ≡ some b → a ≡ b
some-injective a b h = ap (λ o. elim o [ none ↦ a | some x ↦ x ]) h

err-injective : (a b : Error) → failed a ≡ failed b → a ≡ b
err-injective a b h = ap (λ (o : Result (List Log)). elim o [ ok _ ↦ a | err x ↦ x ]) h

plain_text :
    (e : Error) (text : List ℕ)
    → Error.data_error plain ≡ e
    → is_too_many_results_error e ≡ some text
    → plain ≡ text
plain_text e text q s =
    some-injective plain text (sym plain_too_many ∙ (ap is_too_many_results_error q ∙ s))

ok≢err : {e : Error} → no_logs ≢ failed e
ok≢err h = cc

ten_blocks-NoSuggestion : NoSuggestion ten_blocks
ten_blocks-NoSuggestion from to e text a s = elim (Bool-cases (ltb (from + 9) to)) [
  | inl t ↦
      ap parse_suggested_block_range
        (sym (plain_text e text (err-injective (Error.data_error plain) e (rw t at a)) s))
      ∙ plain_no_range
  | inr n ↦ absurd (ok≢err (rw n at a))
]

not_out_of_fuel : failed (Error.data_error plain) ≢ failed Error.out_of_fuel
not_out_of_fuel h = cc

ten_blocks-RealErrors : RealErrors ten_blocks
ten_blocks-RealErrors from to h = elim (Bool-cases (ltb (from + 9) to)) [
  | inl t ↦ not_out_of_fuel (rw t at h)
  | inr n ↦ ok≢err (rw n at h)
]

-- 14 to 40 is split to 14 to 27, and that to 14 to 20.
ten_blocks_split : fetch_logs_with_retry retry_fuel ten_blocks 14 40 ≡ ok ([], 14, 20)
unfolding fetch_logs_with_retry chain_indexor.Fetcher.next_range is_too_many_results_error
    parse_suggested_block_range
ten_blocks_split = refl

fetch_logs_with_retry_ends_example :
    RetryResult ten_blocks 14 40 (fetch_logs_with_retry retry_fuel ten_blocks 14 40)
fetch_logs_with_retry_ends_example =
    fetch_logs_with_retry_ends ten_blocks 14 40 ten_blocks-NoSuggestion ten_blocks-RealErrors
      (omega arith) (omega arith)

-- A node that suggests the range 1 to 2 for that range.
abbrev same_range : List ℕ
same_range = codes "Query returned more than 20000 results. Try with this block range [0x1, 0x2]."

fetch_logs_with_retry_loops_example :
    fetch_logs_with_retry 1000 (λ from to. err (Error.data_error same_range)) 1 2
    ≡ err Error.out_of_fuel
unfolding is_too_many_results_error parse_suggested_block_range
fetch_logs_with_retry_loops_example =
    fetch_logs_with_retry_loops (λ from to. err (Error.data_error same_range)) 1 2
      (Error.data_error same_range) same_range refl refl refl 1000

abbrev pub config : LogFetcherConfig
config = record {
  chunk_size = 3;
  finality = BlockFinality.finalized;
  finalized_lag = 0;
  addresses = 7 ∷ [];
  topics = (70 ∷ []) ∷ [];
  address_start_blocks = (7, 5) ∷ [];
}

abbrev pub heads_at : ℕ → Heads
heads_at n = record {
  finalized_head = ok (view n);
  safe_head = ok (view n);
  latest_head = ok (view n);
  header_at = λ k. ok (view k);
}

abbrev logs_14 : ℕ → ℕ → List Address → List (List Hash) → Result (List Log)
logs_14 from to xs tss = ok (log_14 ∷ [])

abbrev pub env : FetchEnv
env = record {
  rpc_logs = logs_14;
  store_faults = no_faults;
  retention_faults = no_faults;
  store_config = record { retention_policy = none; size_bytes = ok 0; estimate = λ a b c d e. 0 };
  reorg_faults = no_faults;
  unsynced_faults = no_faults;
  outcomes = all_succeed;
  save = save_last;
  chain = chain;
}

abbrev pub fresh : FetchState
fresh = record { mode = FetchMode.backfill; store = empty_store; blocks = [] }

head_number : (h : Header) → ok (view 20) ≡ ok h → 20 ≡ h.number
head_number h e = ap (λ (o : Result Header). elim o [ ok x ↦ x.number | err _ ↦ 20 ]) e

config-HeadsFit : HeadsFit config (heads_at 20 ∷ [])
unfolding get_finalized_block
config-HeadsFit hd h (inl e) q = omega (arith, head_number h (ap (λ x. x.finalized_head) e ∙ q))
config-HeadsFit hd h (inr i) q = absurd i

fetch_next-Fetches_example :
    Fetches config env
      (heads_at 20 ∷ [])
      13
      fresh
      (fetch_next config env (heads_at 20 ∷ []) 13 5 fresh)
fetch_next-Fetches_example =
    fetch_next-Fetches config env (heads_at 20 ∷ []) 13 5 fresh (omega arith) (omega arith)
      config-HeadsFit

-- The start block of the address 9 is the first block of the range.
abbrev some_starts : List (ℕ × ℕ)
some_starts = (8, 20) ∷ (9, 10) ∷ []

abbrev all_topics : List (List ℕ)
all_topics = (70 ∷ []) ∷ (80 ∷ []) ∷ (90 ∷ []) ∷ []

abbrev active_topics : List (List ℕ)
active_topics = (70 ∷ []) ∷ (90 ∷ []) ∷ []

abbrev all_addresses : List ℕ
all_addresses = 7 ∷ 8 ∷ 9 ∷ []

abbrev active_addresses : List ℕ
active_addresses = 7 ∷ 9 ∷ []

active_filter-listed_example :
    (length active_addresses ≡ length active_topics)
    × (zip active_addresses active_topics
        ≡ keep (λ p. started some_starts 10 p.0) (zip all_addresses all_topics))
    × ((a t : ℕ)
        → (elem a active_addresses ≡ (elem a all_addresses && started some_starts 10 a))
          × (listed a t active_addresses active_topics
              ≡ (listed a t all_addresses all_topics && started some_starts 10 a)))
unfolding active_filter
active_filter-listed_example =
    active_filter-listed some_starts 10 all_addresses all_topics active_addresses active_topics refl
      refl

-- The node answers at most ten blocks at a time.
abbrev narrow : FetchEnv
narrow = record env { rpc_logs = λ from to xs tss. ten_blocks from to }

abbrev narrow_fetch : Result FetchResult × FetchState
narrow_fetch = fetch_range config narrow 14 25 (7 ∷ []) ((70 ∷ []) ∷ []) fresh

-- Of the blocks 14 to 25 the logs of 14 to 19 are fetched.
abbrev narrow_result : FetchResult
narrow_result = record {
  logs = [];
  headers = map view (14 ∷ 15 ∷ 16 ∷ 17 ∷ 18 ∷ 19 ∷ 20 ∷ 21 ∷ 22 ∷ 23 ∷ 24 ∷ 25 ∷ []);
  from_block = 14;
  to_block = 19;
}

narrow_fetch_ok : narrow_fetch ≡ (ok narrow_result, narrow_fetch.1)
unfolding fetch_range active_filter fetch_logs_with_retry chain_indexor.Fetcher.next_range
    is_too_many_results_error parse_suggested_block_range
    chain_indexor.LogStore.Retention.store_logs chain_indexor.LogStore.store_logs_internal
    chain_indexor.Detector.verify_and_record_blocks chain_indexor.Detector.get_stored_block
    chain_indexor.Detector.prune_finalized chain_indexor.Detector.get_stored_blocks_after
    chain_indexor.Detector.verify_non_finalized chain_indexor.Detector.block_numbers
    chain_indexor.Detector.finish
narrow_fetch_ok = refl

fetch_range-covered_example : log_covered narrow_fetch.1.store.log_coverage 7 25 ≡ true
unfolding active_filter
fetch_range-covered_example =
    fetch_range-covered config narrow 14 25 (7 ∷ []) (7 ∷ []) ((70 ∷ []) ∷ []) ((70 ∷ []) ∷ [])
      fresh narrow_fetch.1 narrow_result 7 25 refl refl narrow_fetch_ok refl (omega arith)
      (omega arith)
