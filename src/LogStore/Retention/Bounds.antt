-- ===== src/LogStore/Retention/Bounds.antt =====
-- How far the retention policy prunes, and the results of `StoreLogs`.
use chain_indexor.Prelude.{
  ℕ, ◌+◌, ◌-◌, ◌/◌, ◌≤◌, ◌<◌, ◌≡◌, ◌≢◌, refl, some, List, [], ◌∷◌, arith, leb, ◌==◌, keep, length,
  max_u64, u64_add, u64_sub, Bool-cases, inl, inr,
}
use chain_indexor.Types.{Address, Hash, Log, Error, Result, ok, err, Done, >>=-ok, ◌>>=◌}
use chain_indexor.Tables.{DbLog, Store, Faults}
use chain_indexor.LogStore.{store_logs_internal, prune_logs_before_block}
use chain_indexor.LogStore.Storing.{store_logs_internal_rollback}
use chain_indexor.LogStore.Reorgs.{prune_logs_before_block_cases}
use chain_indexor.LogStore.Retention.{
  RetentionPolicy, StoreConfig, Estimate, is_enabled, coverage_bounds, block_bounds, mb_to_bytes,
  weighted_rows, prune_at, after_store, blocks_to_delete, calculate_blocks_to_free_space,
  prune_by_age, prune_by_size, apply_retention_if_needed, store_logs,
}

-- At most all blocks are deleted.
blocks_to_delete-le : (total target freed : ℕ) → blocks_to_delete total target freed ≤ total
unfolding blocks_to_delete
blocks_to_delete-le total target freed = ground arith

block_bounds_ok :
    (faults : Faults) (s : Store) (oldest newest : ℕ) (r : ℕ × ℕ)
    → coverage_bounds s.log_coverage ≡ some (oldest, newest)
    → block_bounds faults s ≡ ok r
    → r ≡ (oldest, newest)
unfolding block_bounds
block_bounds_ok faults s oldest newest r b e = ground arith

-- The threshold that the size asks for is 0, or lies at most one block past the newest covered
-- one, whatever the estimate says.
pub calculate_blocks_to_free_space-le :
    (faults : Faults) (estimate : Estimate) (current_mb max_mb oldest newest p : ℕ) (s : Store)
    → coverage_bounds s.log_coverage ≡ some (oldest, newest)
    → oldest ≤ newest
    → newest < max_u64
    → calculate_blocks_to_free_space faults estimate current_mb max_mb s ≡ ok p
    → p ≤ newest + 1
unfolding calculate_blocks_to_free_space
calculate_blocks_to_free_space-le faults estimate current_mb max_mb oldest newest p s b h m e =
    let (r, q, e') = >>=-ok (block_bounds faults s) _ p e in
    let total = u64_add (u64_sub newest oldest) 1 in
    ground (
      arith,
      block_bounds_ok faults s oldest newest r b q,
      blocks_to_delete-le total (mb_to_bytes (u64_sub current_mb max_mb)) (
          estimate (length s.event_logs) (length s.log_coverage) (length s.topic_coverage) total
            (mb_to_bytes current_mb / weighted_rows s)),
    )

-- Enough for the policy by age alone.
abbrev pub by_age_only : ℕ → RetentionPolicy
by_age_only blocks = record { max_db_size_mb = 0; max_blocks = blocks }

prune_by_age-le :
    (faults : Faults) (blocks oldest newest p : ℕ) (s : Store)
    → coverage_bounds s.log_coverage ≡ some (oldest, newest)
    → newest ≤ max_u64
    → prune_by_age faults (by_age_only blocks) s ≡ ok p
    → p ≤ newest - blocks
unfolding prune_by_age block_bounds
prune_by_age-le faults blocks oldest newest p s b h e = ground arith

keep-keep_le :
    (n m : ℕ) (rows : List DbLog)
    → m ≤ n
    → keep (λ l. leb n l.block_number) (keep (λ l. leb m l.block_number) rows)
      ≡ keep (λ l. leb n l.block_number) rows
keep-keep_le n m [] h = refl
keep-keep_le n m (r ∷ rs) h = ground (arith, keep-keep_le n m rs)

prune_keeps :
    (faults : Faults) (n m : ℕ) (s : Store)
    → m ≤ n
    → keep (λ l. leb n l.block_number) (prune_logs_before_block faults m s).1.event_logs
      ≡ keep (λ l. leb n l.block_number) s.event_logs
prune_keeps faults n m s h = elim (prune_logs_before_block_cases faults m s) [
  | inl e ↦ rw e
  | inr e ↦ rw e (keep-keep_le n m s.event_logs h)
]

-- What a threshold leaves of the newest blocks.
prune_at_keeps :
    (faults : Faults) (n : ℕ) (r : Result ℕ) (s : Store)
    → ((p : ℕ) → r ≡ ok p → p ≤ n)
    → keep (λ l. leb n l.block_number) (prune_at faults r s).1.event_logs
      ≡ keep (λ l. leb n l.block_number) s.event_logs
prune_at_keeps faults n (err e) s h = refl
prune_at_keeps faults n (ok p) s h = elim (Bool-cases (p == 0)) [
  | inl e ↦ rw e
  | inr e ↦ rw e (prune_keeps faults n p s (h p refl))
]

by_age_only_le :
    (faults : Faults) (estimate : Estimate) (size : Result ℕ) (blocks oldest newest p : ℕ)
    (s : Store)
    → coverage_bounds s.log_coverage ≡ some (oldest, newest)
    → newest ≤ max_u64
    → (prune_by_age faults (by_age_only blocks) s >>= λ by_age.
        prune_by_size faults estimate size (by_age_only blocks) by_age s)
      ≡ ok p
    → p ≤ newest - blocks
unfolding prune_by_size
by_age_only_le faults estimate size blocks oldest newest p s b h e =
    let (q, f, g) = >>=-ok (prune_by_age faults (by_age_only blocks) s) _ p e in
    ground (arith, prune_by_age-le faults blocks oldest newest q s b h f)

-- Whatever statements fail, a policy by age alone removes no log of the newest `blocks` covered blocks
-- or of the block before them: what the table holds of them after the call is what it held before.
pub apply_retention_keeps_newest :
    (faults : Faults) (estimate : Estimate) (size : Result ℕ) (blocks oldest newest : ℕ) (s : Store)
    → coverage_bounds s.log_coverage ≡ some (oldest, newest)
    → newest ≤ max_u64
    → keep
        (λ l. leb (newest - blocks) l.block_number)
        (apply_retention_if_needed faults estimate size (some (by_age_only blocks)) s).1.event_logs
      ≡ keep (λ l. leb (newest - blocks) l.block_number) s.event_logs
unfolding apply_retention_if_needed
apply_retention_keeps_newest faults estimate size blocks oldest newest s b h =
    elim (Bool-cases (is_enabled (some (by_age_only blocks)))) [
      | inl e ↦ rw e (
          prune_at_keeps faults (newest - blocks) _ s
            (λ p. by_age_only_le faults estimate size blocks oldest newest p s b h))
      | inr e ↦ rw e
    ]

after_store_result :
    (faults : Faults) (cfg : StoreConfig) (r : Result Done × Store)
    → (after_store faults cfg r).0 ≡ r.0
after_store_result faults cfg (ok _, s) = refl
after_store_result faults cfg (err e, s) = refl

after_store_err :
    (faults : Faults) (cfg : StoreConfig) (r : Result Done × Store) (e : Error)
    → r.0 ≡ err e
    → (after_store faults cfg r).1 ≡ r.1
after_store_err faults cfg (ok _, s) e h = cc
after_store_err faults cfg (err _, s) e h = refl

-- What `StoreLogs` returns: an error for lists of different lengths; without addresses, success
-- with nothing stored; otherwise the result of the transaction, whatever becomes of the retention
-- policy, and after an error the store is as it was.
pub store_logs_lem :
    (faults retention_faults : Faults) (cfg : StoreConfig) (xs : List Address)
    (tss : List (List Hash)) (logs : List Log) (from to : ℕ) (s : Store)
    → (length xs ≢ length tss
        → store_logs faults retention_faults cfg xs tss logs from to s
          ≡ (err Error.length_mismatch, s))
      × (length xs ≡ 0
          → length tss ≡ 0
          → store_logs faults retention_faults cfg xs tss logs from to s ≡ (ok tt, s))
      × (0 < length xs
          → length xs ≡ length tss
          → ((store_logs faults retention_faults cfg xs tss logs from to s).0
              ≡ (store_logs_internal faults xs tss logs from to s).0)
            × ((e : Error)
                → (store_logs faults retention_faults cfg xs tss logs from to s).0 ≡ err e
                → (store_logs faults retention_faults cfg xs tss logs from to s).1 ≡ s))
unfolding store_logs
store_logs_lem faults retention_faults cfg xs tss logs from to s = (
  λ n. ground arith,
  λ h k. ground arith,
  λ h k. (
    ground (
      arith,
      after_store_result retention_faults cfg (store_logs_internal faults xs tss logs from to s),
    ),
    λ e q. ground (
      arith,
      after_store_result retention_faults cfg (store_logs_internal faults xs tss logs from to s),
      after_store_err retention_faults cfg (store_logs_internal faults xs tss logs from to s) e,
      store_logs_internal_rollback faults xs tss logs from to s {e = e},
    ),
  ),
)
