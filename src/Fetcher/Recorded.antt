-- ===== src/Fetcher/Recorded.antt =====
-- What `fetchRange` of internal/fetcher/log_fetcher.go records as covered.
use chain_indexor.Prelude.{
  ℕ, ◌≤◌, Bool, true, false, ◌≡◌, refl, sym, ap, ◌∙◌, arith, List, [], ◌∷◌, none, elem, length,
  ◌==◌, if◌then◌else◌, not, le→leb, suc, ◌||◌,
}
use chain_indexor.Types.{Address, Hash, Log, Header, Error, Result, ok, err, Done}
use chain_indexor.Tables.{Store, Faults}
use chain_indexor.LogStore.{store_logs_internal}
use chain_indexor.LogStore.Views.{log_covered}
use chain_indexor.LogStore.Retention.{
  StoreConfig, store_logs, after_store as after_internal, apply_retention_if_needed,
}
use chain_indexor.LogStore.Storing.{store_logs_internal_covered}
use chain_indexor.Detector.{StoredBlock, verify_and_record_blocks}
use chain_indexor.Fetcher.{
  LogFetcherConfig, FetchResult, FetchEnv, FetchState, active_filter, fetch_active, after_verify,
  after_store, after_fetch, after_filter, fetch_range,
}

after_verify_store :
    (env : FetchEnv) (logs : List Log) (from to : ℕ) (st st' : FetchState) (r : FetchResult)
    (o : Result (List Header) × List StoredBlock)
    → after_verify env logs from to st o ≡ (ok r, st')
    → st'.store ≡ st.store
after_verify_store env logs from to st st' r (ok headers, blocks) h = cc
after_verify_store env logs from to st st' r (err e, blocks) h = cc

after_store_ok :
    (env : FetchEnv) (logs : List Log) (from to new_from new_to : ℕ) (st st' : FetchState)
    (r : FetchResult) (o : Result Done × Store)
    → after_store env logs from to new_from new_to st o ≡ (ok r, st')
    → o ≡ (ok tt, st'.store)
after_store_ok env logs from to new_from new_to st st' r (err e, s) h = cc
after_store_ok env logs from to new_from new_to st st' r (ok _, s) h =
    let e =
      after_verify_store env logs new_from new_to (record st { store = s }) st' r
        (verify_and_record_blocks env.outcomes env.save env.chain logs from to st.blocks) h in
    ap (λ s. (ok tt, s)) (sym e)

after_fetch_ok :
    (env : FetchEnv) (xs : List Address) (tss : List (List Hash)) (from to : ℕ)
    (st st' : FetchState) (r : FetchResult) (o : Result (List Log × ℕ × ℕ))
    → after_fetch env xs tss from to st o ≡ (ok r, st')
    → (logs : List Log) × (store_logs env.store_faults env.retention_faults env.store_config xs tss
          logs from to st.store
        ≡ (ok tt, st'.store))
after_fetch_ok env xs tss from to st st' r (err e) h = cc
after_fetch_ok env xs tss from to st st' r (ok (logs, new_from, new_to)) h = (
  logs,
  after_store_ok env logs from to new_from new_to st st' r
      (store_logs env.store_faults env.retention_faults env.store_config xs tss logs from to
        st.store)
      h,
)

after_internal_ok :
    (faults : Faults) (cfg : StoreConfig) (o : Result Done × Store) (s' : Store)
    → cfg.retention_policy ≡ none
    → after_internal faults cfg o ≡ (ok tt, s')
    → o ≡ (ok tt, s')
unfolding apply_retention_if_needed
after_internal_ok faults cfg (err e, s) s' p h = cc
after_internal_ok faults cfg (ok _, s) s' p h =
    let q =
      ap (λ policy. (apply_retention_if_needed faults cfg.estimate cfg.size_bytes policy s).1) p in
    cc

not_short : (n : ℕ) → (suc n == 0) ≡ false
not_short n = ground arith

last_branch :
    (e : Error) (b c : Bool) (s s' : Store) (o : Result Done × Store)
    → c ≡ false
    → (if not b then (err e, s) else if c then (ok tt, s) else o) ≡ (ok tt, s')
    → o ≡ (ok tt, s')
last_branch e true false s s' o q h = h
last_branch e true true s s' o q h = cc
last_branch e false c s s' o q h = cc

store_logs_ok :
    (faults retention_faults : Faults) (cfg : StoreConfig) (xs : List Address)
    (tss : List (List Hash)) (logs : List Log) (from to : ℕ) (s s' : Store) (a : Address)
    → cfg.retention_policy ≡ none
    → elem a xs ≡ true
    → store_logs faults retention_faults cfg xs tss logs from to s ≡ (ok tt, s')
    → store_logs_internal faults xs tss logs from to s ≡ (ok tt, s')
unfolding store_logs
store_logs_ok faults retention_faults cfg [] tss logs from to s s' a p m h = ground arith
store_logs_ok faults retention_faults cfg (x ∷ xs) tss logs from to s s' a p m h =
    after_internal_ok retention_faults cfg (store_logs_internal faults (x ∷ xs) tss logs from to s)
      s' p
      (last_branch Error.length_mismatch (length (x ∷ xs) == length tss) (length (x ∷ xs) == 0) s s'
        _ (not_short (length xs)) h)

or_true : (b : Bool) → (b || true) ≡ true
or_true true = refl
or_true false = refl

-- If `fetchRange` returns, no retention policy is set, and an address is among those that have
-- started, then every block of the range that was asked for is recorded as downloaded for the
-- address, also where the logs of a smaller range were fetched.
pub fetch_range-covered :
    (cfg : LogFetcherConfig) (env : FetchEnv) (from to : ℕ) (addresses xs : List Address)
    (topics tss : List (List Hash)) (st st' : FetchState) (r : FetchResult) (a n : ℕ)
    → env.store_config.retention_policy ≡ none
    → active_filter cfg.address_start_blocks from addresses cfg.topics ≡ ok (xs, tss)
    → fetch_range cfg env from to addresses topics st ≡ (ok r, st')
    → elem a xs ≡ true
    → from ≤ n
    → n ≤ to
    → log_covered st'.store.log_coverage a n ≡ true
unfolding fetch_range
fetch_range-covered cfg env from to addresses xs topics tss st st' r a n p f h m lo hi =
    let fetched = ap (λ o. after_filter env from to st o) (sym f) ∙ h in
    let (logs, stored) =
      after_fetch_ok env xs tss from to st st' r (fetch_active env.rpc_logs from to xs tss)
        fetched in
    let e =
      store_logs_ok env.store_faults env.retention_faults env.store_config xs tss logs from to
        st.store st'.store a p m stored in
    let covered =
      store_logs_internal_covered env.store_faults xs tss logs from to st.store a 0 n
        (ap (λ o. o.0) e) in
    ap (λ s. log_covered s.log_coverage a n) (sym (ap (λ o. o.1) e))
    ∙ covered.0
    ∙ rw (m, le→leb from n lo, le→leb n to hi) (or_true (log_covered st.store.log_coverage a n))
