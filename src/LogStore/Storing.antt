-- ===== src/LogStore/Storing.antt =====
-- What `storeLogsInternal` records.
use chain_indexor.Prelude.{
  elem, ℕ, Bool, true, false, ◌&&◌, ◌||◌, ◌≡◌, ◌∙◌, refl, List, [], ◌∷◌, arith, leb, ◌==◌, any,
  any-append, Bool-cases, inl, inr,
}
use chain_indexor.Types.{Address, Hash, Log, Error, Result, ok, err}
use chain_indexor.Tables.{
  DbCoverage, DbTopicCoverage, Store, Faults, same_coverage, same_topic_coverage, insert_or_ignore,
}
use chain_indexor.LogStore.{insert_logs, insert_topics, insert_addresses, store_logs_internal}
use chain_indexor.LogStore.Views.{row_covers, log_covered, topic_row_covers, topic_covered}

-- The topics of some occurrence of the address hold the topic.
abbrev pub listed : Address → Hash → List Address → List (List Hash) → Bool
listed a t [] tss = false
listed a t (x ∷ xs) [] = false
listed a t (x ∷ xs) (ts ∷ tss) = x == a && elem t ts || listed a t xs tss

log_covered-insert :
    (c : DbCoverage) (rows : List DbCoverage) (a n : ℕ)
    → log_covered (insert_or_ignore same_coverage c rows) a n
      ≡ (log_covered rows a n || row_covers a n c)
log_covered-insert c rows a n = elim (Bool-cases (any (same_coverage c) rows)) [
  | inl e ↦ rw e (go rows e)
  | inr e ↦ rw e (any-append (row_covers a n) rows (c ∷ []) ∙ ground arith)
]
  where
    go :
        (xs : List DbCoverage)
        → any (same_coverage c) xs ≡ true
        → log_covered xs a n ≡ (log_covered xs a n || row_covers a n c)
    go [] h = cc
    go (x ∷ xs) h = ground (arith, go xs)

topic_covered-insert :
    (c : DbTopicCoverage) (rows : List DbTopicCoverage) (a t n : ℕ)
    → topic_covered (insert_or_ignore same_topic_coverage c rows) a t n
      ≡ (topic_covered rows a t n || topic_row_covers a t n c)
topic_covered-insert c rows a t n = elim (Bool-cases (any (same_topic_coverage c) rows)) [
  | inl e ↦ rw e (go rows e)
  | inr e ↦ rw e (any-append (topic_row_covers a t n) rows (c ∷ []) ∙ ground arith)
]
  where
    go :
        (xs : List DbTopicCoverage)
        → any (same_topic_coverage c) xs ≡ true
        → topic_covered xs a t n ≡ (topic_covered xs a t n || topic_row_covers a t n c)
    go [] h = cc
    go (x ∷ xs) h = ground (arith, go xs)

insert_topics_covered :
    (faults : Faults) (x from to : ℕ) (ts : List Hash) (rows rows' : List DbTopicCoverage)
    (a t n : ℕ)
    → insert_topics faults x from to ts rows ≡ ok rows'
    → topic_covered rows' a t n
      ≡ (topic_covered rows a t n || (x == a && elem t ts && leb from n && leb n to))
unfolding insert_topics
insert_topics_covered faults x from to [] rows rows' a t n h = ground arith
insert_topics_covered faults x from to (u ∷ ts) rows rows' a t n h =
    let c : DbTopicCoverage = record {
      address = x;
      topic0 = u;
      from_block = from;
      to_block = to;
    } in
    ground (
      arith,
      topic_covered-insert c rows a t n,
      insert_topics_covered faults x from to ts (insert_or_ignore same_topic_coverage c rows) rows'
          a t n,
    )

-- One round of the loop over the addresses.
pub insert_addresses_step :
    (faults : Faults) (from to x : ℕ) (xs : List Address) (ts : List Hash) (tss : List (List Hash))
    (s s' : Store)
    → insert_addresses faults from to (x ∷ xs) (ts ∷ tss) s ≡ ok s'
    → (rows : List DbTopicCoverage) × (insert_topics faults x from to ts s.topic_coverage ≡ ok rows)
      × (insert_addresses faults from to xs tss (record s {
        log_coverage =
            insert_or_ignore same_coverage
              (record { address = x; from_block = from; to_block = to })
              s.log_coverage;
        topic_coverage = rows;
      })
          ≡ ok s')
unfolding insert_addresses
insert_addresses_step faults from to x xs ts tss s s' h =
    go (insert_topics faults x from to ts s.topic_coverage) refl
  where
    go :
        (r : Result (List DbTopicCoverage))
        → insert_topics faults x from to ts s.topic_coverage ≡ r
        → (rows : List DbTopicCoverage) × (insert_topics faults x from to ts s.topic_coverage
            ≡ ok rows)
          × (insert_addresses faults from to xs tss (record s {
            log_coverage =
                insert_or_ignore same_coverage
                  (record { address = x; from_block = from; to_block = to })
                  s.log_coverage;
            topic_coverage = rows;
          })
              ≡ ok s')
    go (ok rows) e = (rows, e, ground arith)
    go (err x) e = ground arith

pub insert_addresses_covered :
    (faults : Faults) (from to : ℕ) (xs : List Address) (tss : List (List Hash)) (s s' : Store)
    (a t n : ℕ)
    → insert_addresses faults from to xs tss s ≡ ok s'
    → (s'.event_logs ≡ s.event_logs)
      × (log_covered s'.log_coverage a n
          ≡ (log_covered s.log_coverage a n || (elem a xs && leb from n && leb n to)))
      × (topic_covered s'.topic_coverage a t n
          ≡ (topic_covered s.topic_coverage a t n || (listed a t xs tss && leb from n && leb n to)))
insert_addresses_covered faults from to [] tss s s' a t n h =
    unfold insert_addresses in ground arith
insert_addresses_covered faults from to (x ∷ xs) [] s s' a t n h =
    unfold insert_addresses in ground arith
insert_addresses_covered faults from to (x ∷ xs) (ts ∷ tss) s s' a t n h =
    let (rows, e, next) = insert_addresses_step faults from to x xs ts tss s s' h in
    let c : DbCoverage = record { address = x; from_block = from; to_block = to } in
    let s₁ : Store = record s {
      log_coverage = insert_or_ignore same_coverage c s.log_coverage;
      topic_coverage = rows;
    } in
    ground (
      arith,
      log_covered-insert c s.log_coverage a n,
      insert_topics_covered faults x from to ts s.topic_coverage rows a t n e,
      insert_addresses_covered faults from to xs tss s₁ s' a t n next,
    )

pub store_logs_internal_ok :
    (faults : Faults) (xs : List Address) (tss : List (List Hash)) (logs : List Log) (from to : ℕ)
    (s : Store)
    → (store_logs_internal faults xs tss logs from to s).0 ≡ ok tt
    → insert_addresses faults from to xs tss
        (record s { event_logs = insert_logs faults logs s.event_logs })
      ≡ ok (store_logs_internal faults xs tss logs from to s).1
unfolding store_logs_internal
store_logs_internal_ok faults xs tss logs from to s h = ground arith

-- A store that fails has changed nothing.
pub store_logs_internal_rollback :
    (faults : Faults) (xs : List Address) (tss : List (List Hash)) (logs : List Log) (from to : ℕ)
    (s : Store) {e : Error}
    → (store_logs_internal faults xs tss logs from to s).0 ≡ err e
    → (store_logs_internal faults xs tss logs from to s).1 ≡ s
unfolding store_logs_internal
store_logs_internal_rollback faults xs tss logs from to s h = ground arith

-- After a successful store, a block is recorded for an address, and for a topic, exactly when it
-- was before, or lies in the stored range and the call names the address, and the topic with it.
pub store_logs_internal_covered :
    (faults : Faults) (xs : List Address) (tss : List (List Hash)) (logs : List Log) (from to : ℕ)
    (s : Store) (a t n : ℕ)
    → (store_logs_internal faults xs tss logs from to s).0 ≡ ok tt
    → let s' = (store_logs_internal faults xs tss logs from to s).1 in
      (log_covered s'.log_coverage a n
        ≡ (log_covered s.log_coverage a n || (elem a xs && leb from n && leb n to)))
      × (topic_covered s'.topic_coverage a t n
          ≡ (topic_covered s.topic_coverage a t n || (listed a t xs tss && leb from n && leb n to)))
store_logs_internal_covered faults xs tss logs from to s a t n h =
    let (_, p, q) =
      insert_addresses_covered faults from to xs tss
        (record s { event_logs = insert_logs faults logs s.event_logs })
        (store_logs_internal faults xs tss logs from to s).1 a t n
        (store_logs_internal_ok faults xs tss logs from to s h) in
    (p, q)
