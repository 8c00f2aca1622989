-- ===== src/LogStore/Reads.antt =====
-- What `GetLogs` returns.
use chain_indexor.Prelude.{
  ℕ, ◌≤◌, refl, length, Bool, true, not, ◌&&◌, ◌||◌, ◌≡◌, ◌∙◌, List, [], ◌∷◌, map, arith, ltb, leb,
  ◌==◌, any-map, any-keep, any_congr, any-order_by, insert_sorted, order_by, Ordered,
  Ordered-order_by, keep, All, All-keep, Bool-cases, inl, inr,
}
use chain_indexor.Types.{Log, ok}
use chain_indexor.Coverage.{CoverageRange, get_missing_ranges, in_range, covers, FromSorted}
use chain_indexor.Coverage.Missing.{get_missing_ranges-complement}
use chain_indexor.Tables.{DbLog, DbCoverage, Store, Faults, db_log_to_eth_log}
use chain_indexor.LogStore.{by_from_block, by_position, to_range, overlaps, log_within, get_logs}
use chain_indexor.LogStore.Views.{log_covered, IsRange, IsWellFormed}

FromSorted-insert_sorted :
    (lo : ℕ) (r : CoverageRange) (rs : List CoverageRange)
    → lo ≤ r.from_block
    → IsRange r.from_block r.to_block
    → FromSorted lo rs
    → FromSorted lo (insert_sorted by_from_block r rs)
FromSorted-insert_sorted lo r [] h v s = (h, v.0, v.1, tt)
FromSorted-insert_sorted lo r (x ∷ xs) h v s = elim (Bool-cases (leb r.from_block x.from_block)) [
  | inl e ↦ rw e (h, v.0, v.1, (ground arith, s.1, s.2, s.3))
  | inr e ↦ rw e (s.0, s.1, s.2, FromSorted-insert_sorted x.from_block r xs (ground arith) v s.3)
]

-- The rows of a well-formed store, put in order.
FromSorted-order_by :
    (rows : List DbCoverage)
    → All (λ c. IsRange c.from_block c.to_block) rows
    → FromSorted 0 (order_by by_from_block (map to_range rows))
FromSorted-order_by [] h = tt
FromSorted-order_by (c ∷ cs) h =
    FromSorted-insert_sorted 0 (to_range c) _ (omega arith) h.0 (FromSorted-order_by cs h.1)

-- Inside the requested range the query loses no row.
covers-query :
    (rows : List DbCoverage) (a from to b : ℕ)
    → from ≤ b
    → b ≤ to
    → covers (order_by by_from_block (map to_range (keep (overlaps a from to) rows))) b
      ≡ log_covered rows a b
covers-query rows a from to b lo hi =
    any-order_by by_from_block (in_range b) _
    ∙ any-map (in_range b) to_range _
    ∙ any-keep (λ c. in_range b (to_range c)) (overlaps a from to) rows
    ∙ any_congr _ _ rows (λ c. ground arith)

get_logs_coverage :
    (faults : Faults) (s : Store) (a from to : ℕ) {logs : List Log} {coverage : List CoverageRange}
    → get_logs faults s a from to ≡ ok (logs, coverage)
    → coverage ≡ order_by by_from_block (map to_range (keep (overlaps a from to) s.log_coverage))
unfolding get_logs
get_logs_coverage faults s a from to h = ground arith

-- The coverage that `GetLogs` returns for a well-formed store leads `GetMissingRanges` to exactly
-- the blocks of the request that the store does not record for the address.
pub get_missing_ranges-get_logs :
    (faults : Faults) (s : Store) (a from to b : ℕ) {logs : List Log}
    {coverage : List CoverageRange}
    → IsWellFormed s
    → get_logs faults s a from to ≡ ok (logs, coverage)
    → covers (get_missing_ranges from to coverage) b
      ≡ (leb b to && leb from b && not (log_covered s.log_coverage a b))
get_missing_ranges-get_logs faults s a from to b w h = rw (get_logs_coverage faults s a from to h) (
    ground (
      arith,
      get_missing_ranges-complement from to b
          (order_by by_from_block (map to_range (keep (overlaps a from to) s.log_coverage)))
          (FromSorted-order_by (keep (overlaps a from to) s.log_coverage) (
            All-keep (λ c. IsRange c.from_block c.to_block) (overlaps a from to) s.log_coverage
              w.coverage_ranges)),
      covers-query s.log_coverage a from to b,
    ))

-- The rows are those of the address and the range, in the order of block and index.
pub get_logs_rows :
    (faults : Faults) (s : Store) (a from to : ℕ) {logs : List Log} {coverage : List CoverageRange}
    → get_logs faults s a from to ≡ ok (logs, coverage)
    → logs ≡ map db_log_to_eth_log (order_by by_position (keep (log_within a from to) s.event_logs))
unfolding get_logs
get_logs_rows faults s a from to h = ground arith

-- A log comes before another: by its block, then by its index.
abbrev pub before : Log → Log → Bool
before l m =
    ltb l.block_number m.block_number || (l.block_number == m.block_number && leb l.index m.index)

Ordered-map :
    (rows : List DbLog) → Ordered by_position rows → Ordered before (map db_log_to_eth_log rows)
unfolding db_log_to_eth_log
Ordered-map [] h = tt
Ordered-map (r ∷ rs) h = (go rs h.0, Ordered-map rs h.1)
  where
    go :
        (ys : List DbLog)
        → All (λ y. by_position r y ≡ true) ys
        → All (λ y. before (db_log_to_eth_log r) y ≡ true) (map db_log_to_eth_log ys)
    go [] k = tt
    go (y ∷ ys) k = (k.0, go ys k.1)

-- The WHERE clause, read off the query: the address, and a block not before `from` and not after `to`.
abbrev pub in_request : ℕ → ℕ → ℕ → DbLog → Bool
in_request a from to r =
    r.address == a && not (ltb r.block_number from) && not (ltb to r.block_number)

how_many-map :
    (p : Log → Bool) (rows : List DbLog)
    → length (keep p (map db_log_to_eth_log rows))
      ≡ length (keep (λ r. p (db_log_to_eth_log r)) rows)
how_many-map p [] = refl
how_many-map p (r ∷ rs) = ground (arith, how_many-map p rs)

how_many-insert_sorted :
    (p : DbLog → Bool) (r : DbLog) (rows : List DbLog)
    → length (keep p (insert_sorted by_position r rows)) ≡ length (keep p (r ∷ rows))
how_many-insert_sorted p r [] = refl
how_many-insert_sorted p r (x ∷ xs) = elim (Bool-cases (by_position r x)) [
  | inl e ↦ rw e
  | inr e ↦ rw e (ground (arith, how_many-insert_sorted p r xs))
]

how_many-order_by :
    (p : DbLog → Bool) (rows : List DbLog)
    → length (keep p (order_by by_position rows)) ≡ length (keep p rows)
how_many-order_by p [] = refl
how_many-order_by p (r ∷ rs) =
    ground (arith, how_many-order_by p rs, how_many-insert_sorted p r (order_by by_position rs))

how_many-log_within :
    (p : DbLog → Bool) (a from to : ℕ) (rows : List DbLog)
    → length (keep p (keep (log_within a from to) rows))
      ≡ length (keep (λ r. in_request a from to r && p r) rows)
how_many-log_within p a from to [] = refl
how_many-log_within p a from to (r ∷ rs) = ground (arith, how_many-log_within p a from to rs)

-- `GetLogs` returns the logs in the order of block and index, and as many of them pass a test as
-- there are stored rows that pass it, converted, among those of the address whose block is neither
-- before nor after the request: each row is returned once, and no other one.
pub get_logs_lem :
    (faults : Faults) (s : Store) (a from to : ℕ) {logs : List Log} {coverage : List CoverageRange}
    → get_logs faults s a from to ≡ ok (logs, coverage)
    → Ordered before logs
      × ((p : Log → Bool)
          → length (keep p logs)
            ≡ length (keep (λ r. in_request a from to r && p (db_log_to_eth_log r)) s.event_logs))
get_logs_lem faults s a from to h = rw (get_logs_rows faults s a from to h) (
  Ordered-map _ (
      Ordered-order_by by_position (λ x y e. ground arith) (λ x y z e f. ground arith)
        (keep (log_within a from to) s.event_logs)),
  λ p.
      how_many-map p _
      ∙ how_many-order_by (λ r. p (db_log_to_eth_log r)) _
      ∙ how_many-log_within (λ r. p (db_log_to_eth_log r)) a from to s.event_logs,
)
