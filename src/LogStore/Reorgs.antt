-- ===== src/LogStore/Reorgs.antt =====
-- `HandleReorg` and the pruning of old blocks.
use chain_indexor.Prelude.{
  ℕ, ◌≤◌, ◌<◌, Bool, true, false, ◌&&◌, ◌≡◌, refl, List, [], ◌∷◌, ◌++◌, map, arith, ltb, leb, any,
  keep, All, All-keep, any-map, ◌+◌, ◌⊎◌, max_u64,
}
use chain_indexor.Types.{Error, Result, ok, err, Done}
use chain_indexor.Tables.{
  DbCoverage, DbTopicCoverage, Store, Faults, no_faults, same_log, same_coverage,
  same_topic_coverage, unique,
}
use chain_indexor.Tables.Convert.{unique-keep}
use chain_indexor.LogStore.{truncate, truncate_topic, handle_reorg, prune_logs_before_block}
use chain_indexor.LogStore.Views.{log_covered, topic_covered, IsRange, IsWellFormed}

log_covered-truncate :
    (b : ℕ) (rows : List DbCoverage) (a n : ℕ)
    → b ≤ max_u64
    → log_covered (keep (λ c. ltb c.from_block b) (map (truncate b) rows)) a n
      ≡ (log_covered rows a n && ltb n b)
log_covered-truncate b [] a n h = refl
log_covered-truncate b (c ∷ cs) a n h = ground (arith, log_covered-truncate b cs a n)

topic_covered-truncate :
    (b : ℕ) (rows : List DbTopicCoverage) (a t n : ℕ)
    → b ≤ max_u64
    → topic_covered (keep (λ c. ltb c.from_block b) (map (truncate_topic b) rows)) a t n
      ≡ (topic_covered rows a t n && ltb n b)
topic_covered-truncate b [] a t n h = refl
topic_covered-truncate b (c ∷ cs) a t n h = ground (arith, topic_covered-truncate b cs a t n)

-- The store after a successful call.
abbrev reorged : ℕ → Store → Store
reorged b s = record {
  event_logs = keep (λ l. ltb l.block_number b) s.event_logs;
  log_coverage = keep (λ c. ltb c.from_block b) (map (truncate b) s.log_coverage);
  topic_coverage = keep (λ c. ltb c.from_block b) (map (truncate_topic b) s.topic_coverage);
}

handle_reorg_ok :
    (faults : Faults) (b : ℕ) (s : Store)
    → (handle_reorg faults b s).0 ≡ ok tt
    → ((handle_reorg faults b s).1 ≡ reorged b s)
      × (unique same_coverage (map (truncate b) s.log_coverage) ≡ true)
      × (unique same_topic_coverage (map (truncate_topic b) s.topic_coverage) ≡ true)
unfolding handle_reorg
handle_reorg_ok faults b s h = ground arith

-- After a reorg from block `b` was handled, the stored logs are those of the blocks below `b`, in
-- their order, and a block is recorded as downloaded, for an address and for a topic, exactly when
-- it was before and lies below `b`.
pub handle_reorg_lem :
    (faults : Faults) (b : ℕ) (s : Store)
    → b ≤ max_u64
    → (handle_reorg faults b s).0 ≡ ok tt
    → let s' = (handle_reorg faults b s).1 in
      (s'.event_logs ≡ keep (λ l. ltb l.block_number b) s.event_logs)
      × ((a n : ℕ) → log_covered s'.log_coverage a n ≡ (log_covered s.log_coverage a n && ltb n b))
      × ((a t n : ℕ)
          → topic_covered s'.topic_coverage a t n
            ≡ (topic_covered s.topic_coverage a t n && ltb n b))
handle_reorg_lem faults b s h e = rw ((handle_reorg_ok faults b s e).0) (
  refl,
  λ a n. log_covered-truncate b s.log_coverage a n h,
  λ a t n. topic_covered-truncate b s.topic_coverage a t n h,
)

-- A transaction of the store that returns an error has changed nothing.
pub handle_reorg_rollback :
    (faults : Faults) (b : ℕ) (s : Store) {e : Error}
    → (handle_reorg faults b s).0 ≡ err e
    → (handle_reorg faults b s).1 ≡ s
unfolding handle_reorg
handle_reorg_rollback faults b s h = ground arith

any-here {ℓ} :
    {A : Type ℓ} (p : A → Bool) (xs : List A) (x : A) (ys : List A)
    → p x ≡ true
    → any p (xs ++ x ∷ ys) ≡ true
any-here p [] x ys h = ground arith
any-here p (y ∷ xs) x ys h = ground (arith, any-here p xs x ys)

not_unique {ℓ} :
    {A : Type ℓ} (same : A → A → Bool) (f : A → A) (xs : List A) (x : A) (ys : List A) (y : A)
    (zs : List A)
    → same (f x) (f y) ≡ true
    → unique same (map f (xs ++ x ∷ (ys ++ y ∷ zs))) ≡ false
not_unique same f [] x ys y zs h =
    ground (arith, any-map (same (f x)) f (ys ++ y ∷ zs), any-here (λ z. same (f x) (f z)) ys y zs)
not_unique same f (w ∷ xs) x ys y zs h = ground (arith, not_unique same f xs x ys y zs)

-- Two coverage rows of one address that begin at the same block below `b` and both reach `b` or
-- the block before it: the update gives them one range, the UNIQUE constraint refuses it, and the
-- reorg is not applied, though no statement fails by itself.
pub handle_reorg_conflict :
    (b : ℕ) (s : Store) (xs : List DbCoverage) (c : DbCoverage) (ys : List DbCoverage)
    (d : DbCoverage) (zs : List DbCoverage)
    → b ≤ max_u64
    → s.log_coverage ≡ xs ++ c ∷ (ys ++ d ∷ zs)
    → c.address ≡ d.address
    → c.from_block ≡ d.from_block
    → c.from_block < b
    → b ≤ c.to_block + 1
    → b ≤ d.to_block + 1
    → handle_reorg no_faults b s ≡ (err Error.unique_violation, s)
unfolding handle_reorg
handle_reorg_conflict b s xs c ys d zs h e ha hf hb hc hd =
    ground (arith, not_unique same_coverage (truncate b) xs c ys d zs (ground arith))

ranges-truncate :
    (b : ℕ) (rows : List DbCoverage)
    → b ≤ max_u64
    → All (λ c. IsRange c.from_block c.to_block) rows
    → All (λ c. IsRange c.from_block c.to_block) (map (truncate b) rows)
ranges-truncate b [] h r = r
ranges-truncate b (c ∷ cs) h r = (ground arith, ranges-truncate b cs h r.1)

ranges-truncate_topic :
    (b : ℕ) (rows : List DbTopicCoverage)
    → b ≤ max_u64
    → All (λ c. IsRange c.from_block c.to_block) rows
    → All (λ c. IsRange c.from_block c.to_block) (map (truncate_topic b) rows)
ranges-truncate_topic b [] h r = r
ranges-truncate_topic b (c ∷ cs) h r = (ground arith, ranges-truncate_topic b cs h r.1)

reorged-IsWellFormed :
    (b : ℕ) (s : Store)
    → b ≤ max_u64
    → IsWellFormed s
    → unique same_coverage (map (truncate b) s.log_coverage) ≡ true
    → unique same_topic_coverage (map (truncate_topic b) s.topic_coverage) ≡ true
    → IsWellFormed (reorged b s)
reorged-IsWellFormed b s h w u v = record {
  logs_unique = unique-keep same_log _ s.event_logs w.logs_unique;
  coverage_unique = unique-keep same_coverage _ (map (truncate b) s.log_coverage) u;
  topics_unique = unique-keep same_topic_coverage _ (map (truncate_topic b) s.topic_coverage) v;
  coverage_ranges =
      All-keep (λ c. IsRange c.from_block c.to_block) _ (map (truncate b) s.log_coverage)
        (ranges-truncate b s.log_coverage h w.coverage_ranges);
  topic_ranges =
      All-keep (λ c. IsRange c.from_block c.to_block) _ (map (truncate_topic b) s.topic_coverage)
        (ranges-truncate_topic b s.topic_coverage h w.topic_ranges);
}

pub handle_reorg-IsWellFormed :
    (faults : Faults) (b : ℕ) (s : Store)
    → b ≤ max_u64
    → IsWellFormed s
    → IsWellFormed (handle_reorg faults b s).1
handle_reorg-IsWellFormed faults b s h w = go (handle_reorg faults b s).0 refl
  where
    go :
        (r : Result Done)
        → (handle_reorg faults b s).0 ≡ r
        → IsWellFormed (handle_reorg faults b s).1
    go (err e) p = rw (handle_reorg_rollback faults b s p) w
    go (ok _) p =
        let (e, u, v) = handle_reorg_ok faults b s p in rw e (reorged-IsWellFormed b s h w u v)

-- A prune leaves the store as it was, or removes exactly the logs below `b` and the coverage rows
-- that end below it.
pub prune_logs_before_block_cases :
    (faults : Faults) (b : ℕ) (s : Store)
    → ((prune_logs_before_block faults b s).1 ≡ s)
      ⊎ ((prune_logs_before_block faults b s).1 ≡ record {
        event_logs = keep (λ l. leb b l.block_number) s.event_logs;
        log_coverage = keep (λ c. leb b c.to_block) s.log_coverage;
        topic_coverage = keep (λ c. leb b c.to_block) s.topic_coverage;
      })
unfolding prune_logs_before_block
prune_logs_before_block_cases faults b s = ground arith
