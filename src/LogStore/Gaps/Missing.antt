-- ===== src/LogStore/Gaps/Missing.antt =====
-- `GetUnsyncedTopics` of log_store.go, combination by combination.
use chain_indexor.Prelude.{
  elem, ℕ, ◌≤◌, Bool, true, false, ◌&&◌, ◌≡◌, ◌∙◌, sym, refl, Option, none, some, List, [], ◌∷◌,
  arith, ◌==◌, ==_iff, any-map, any-keep, any_congr, any-order_by, keep, map, Bool-cases, inl, inr,
}
use mathlib.Core.Path.{subst}
use mathlib.Core.Bool.{true≢false}
use chain_indexor.Types.{Address, Hash, Error, ok, >>=-ok}
use chain_indexor.Coverage.{CoverageRange, in_range, covers}
use chain_indexor.Unsynced.{UnsyncedTopics, contains_topic, new_unsynced_topics}
use chain_indexor.Unsynced.Bounds.{contains_topic-add_topic}
use chain_indexor.Tables.{DbTopicCoverage, Store, Stmt, Faults, exec, fails_with}
use chain_indexor.LogStore.{by_from_block}
use chain_indexor.LogStore.Gaps.{
  has_complete_coverage, oldest_block, oldest_or_null, start_block, topic_overlaps, to_topic_range,
  topic_query, outline, check_topic, topics_loop, addresses_loop, get_unsynced_topics,
}
use chain_indexor.LogStore.Gaps.Complete.{has_complete_coverage_sound}
use chain_indexor.LogStore.Storing.{listed}
use chain_indexor.LogStore.Views.{topic_covered}

-- Inside the checked range the query loses no row.
covers-topic_query :
    (rows : List DbTopicCoverage) (a t start up_to b : ℕ)
    → start ≤ b
    → b ≤ up_to
    → covers (topic_query a t start up_to rows) b ≡ topic_covered rows a t b
covers-topic_query rows a t start up_to b lo hi =
    any-order_by by_from_block (in_range b)
      (map to_topic_range (keep (topic_overlaps a t start up_to) rows))
    ∙ any-map (in_range b) to_topic_range (keep (topic_overlaps a t start up_to) rows)
    ∙ any-keep (λ c. in_range b (to_topic_range c)) (topic_overlaps a t start up_to) rows
    ∙ any_congr _ _ rows (λ c. ground arith)

oldest_or_null_start :
    (fault : Option Error) (stored o : Option ℕ)
    → oldest_or_null (fails_with fault stored) ≡ ok o
    → start_block o ≤ start_block stored
oldest_or_null_start none stored o h = ground arith
oldest_or_null_start (some e) stored o h = ground arith

false_back : (x y : Bool) → (x ≡ true → y ≡ true) → y ≡ false → x ≡ false
false_back true y f h = cc (f refl)
false_back false y f h = refl

module _ (faults : Faults) (s : Store) (up_to : ℕ) (b u : ℕ) where
  -- One round of the loop over the addresses: it checks from the oldest block, or from 0.
  addresses_loop_next :
      (a : ℕ) (xs : List Address) (ts : List Hash) (tss : List (List Hash)) (r r' : UnsyncedTopics)
      → addresses_loop faults s up_to (a ∷ xs) (ts ∷ tss) r ≡ ok r'
      → (o : Option ℕ) × (r₁ : UnsyncedTopics) × (start_block o
          ≤ start_block (oldest_block a s.topic_coverage))
        × (topics_loop faults s a (start_block o) up_to ts r ≡ ok r₁)
        × (addresses_loop faults s up_to xs tss r₁ ≡ ok r')
  unfolding addresses_loop
  addresses_loop_next a xs ts tss r r' e =
      let (o, p, q) =
        >>=-ok
          (oldest_or_null (exec faults (Stmt.select_oldest a) (oldest_block a s.topic_coverage))) _
          r' e in
      let (r₁, x, y) = >>=-ok (topics_loop faults s a (start_block o) up_to ts r) _ r' q in
      (
        o,
        r₁,
        oldest_or_null_start (faults (Stmt.select_oldest a)) (oldest_block a s.topic_coverage) o p,
        x,
        y,
      )

  check_topic_mono :
      (a t start : ℕ) (r : UnsyncedTopics) (rows : List CoverageRange)
      → contains_topic r b u ≡ true
      → contains_topic (check_topic a t start up_to r rows) b u ≡ true
  check_topic_mono a t start r rows h =
      ground (arith, contains_topic-add_topic r a b t u (outline rows))

  topics_loop_next :
      (a start t : ℕ) (ts : List Hash) (r r' : UnsyncedTopics)
      → topics_loop faults s a start up_to (t ∷ ts) r ≡ ok r'
      → topics_loop faults s a start up_to ts
          (check_topic a t start up_to r (topic_query a t start up_to s.topic_coverage))
        ≡ ok r'
  unfolding topics_loop
  topics_loop_next a start t ts r r' e = ground arith

  topics_loop_mono :
      (a start : ℕ) (ts : List Hash) (r r' : UnsyncedTopics)
      → topics_loop faults s a start up_to ts r ≡ ok r'
      → contains_topic r b u ≡ true
      → contains_topic r' b u ≡ true
  topics_loop_mono a start [] r r' e h = unfold topics_loop in ground arith
  topics_loop_mono a start (t ∷ ts) r r' e h =
      let rows = topic_query a t start up_to s.topic_coverage in
      topics_loop_mono a start ts (check_topic a t start up_to r rows) r'
        (topics_loop_next a start t ts r r' e) (check_topic_mono a t start r rows h)

  -- A topic of the list that is not recorded has complete coverage.
  topics_loop_complete :
      (start : ℕ) (ts : List Hash) (r r' : UnsyncedTopics)
      → topics_loop faults s b start up_to ts r ≡ ok r'
      → elem u ts ≡ true
      → contains_topic r' b u ≡ false
      → has_complete_coverage (topic_query b u start up_to s.topic_coverage) start up_to ≡ true
  topics_loop_complete start [] r r' e m n = cc
  topics_loop_complete start (t ∷ ts) r r' e m n =
      let rows = topic_query b t start up_to s.topic_coverage in
      let next = topics_loop_next b start t ts r r' e in
      elim (Bool-cases (t == u)) [
        | inl here ↦
            subst
              (λ v.
                has_complete_coverage (topic_query b v start up_to s.topic_coverage) start up_to
                ≡ true)
              ((==_iff t u).0 here)
              (elim (Bool-cases (has_complete_coverage rows start up_to)) [
                | inl c ↦ c
                | inr c ↦ absurd (
                    true≢false (
                      sym (
                        topics_loop_mono b start ts (check_topic b t start up_to r rows) r' next
                          (rw c (contains_topic-add_topic r b b t u (outline rows) ∙ ground arith)))
                      ∙ n))
              ])
        | inr other ↦
            topics_loop_complete start ts (check_topic b t start up_to r rows) r' next
              (ground arith) n
      ]

  addresses_loop_mono :
      (xs : List Address) (tss : List (List Hash)) (r r' : UnsyncedTopics)
      → addresses_loop faults s up_to xs tss r ≡ ok r'
      → contains_topic r b u ≡ true
      → contains_topic r' b u ≡ true
  addresses_loop_mono [] tss r r' e h = unfold addresses_loop in ground arith
  addresses_loop_mono (a ∷ xs) [] r r' e h = unfold addresses_loop in cc
  addresses_loop_mono (a ∷ xs) (ts ∷ tss) r r' e h =
      let (o, r₁, _, p, q) = addresses_loop_next a xs ts tss r r' e in
      addresses_loop_mono xs tss r₁ r' q (topics_loop_mono a (start_block o) ts r r₁ p h)

  first_round :
      (n a : ℕ) (ts : List Hash) (r r₁ : UnsyncedTopics) (o : Option ℕ)
      → a ≡ b
      → topics_loop faults s a (start_block o) up_to ts r ≡ ok r₁
      → start_block o ≤ start_block (oldest_block a s.topic_coverage)
      → elem u ts ≡ true
      → contains_topic r₁ b u ≡ false
      → start_block (oldest_block b s.topic_coverage) ≤ n
      → n ≤ up_to
      → topic_covered s.topic_coverage b u n ≡ true
  first_round n a ts r r₁ o e p start m c lo hi =
      let p' = rw e at p in
      let start' : start_block o ≤ start_block (oldest_block b s.topic_coverage) = rw e at start in
      sym (covers-topic_query s.topic_coverage b u (start_block o) up_to n (omega arith) hi)
      ∙ has_complete_coverage_sound (topic_query b u (start_block o) up_to s.topic_coverage)
          (start_block o) up_to n (topics_loop_complete (start_block o) ts r r₁ p' m c)
          (omega arith) hi

  addresses_loop_complete :
      (n : ℕ) (xs : List Address) (tss : List (List Hash)) (r r' : UnsyncedTopics)
      → addresses_loop faults s up_to xs tss r ≡ ok r'
      → listed b u xs tss ≡ true
      → contains_topic r' b u ≡ false
      → start_block (oldest_block b s.topic_coverage) ≤ n
      → n ≤ up_to
      → topic_covered s.topic_coverage b u n ≡ true
  addresses_loop_complete n [] tss r r' e m c lo hi = cc
  addresses_loop_complete n (a ∷ xs) [] r r' e m c lo hi = cc
  addresses_loop_complete n (a ∷ xs) (ts ∷ tss) r r' e m c lo hi =
      let (o, r₁, start, p, q) = addresses_loop_next a xs ts tss r r' e in
      elim (Bool-cases (a == b && elem u ts)) [
        | inl here ↦
            first_round n a ts r r₁ o ((==_iff a b).0 (ground arith)) p start (ground arith)
              (false_back (contains_topic r₁ b u) (contains_topic r' b u)
                (addresses_loop_mono xs tss r₁ r' q) c)
              lo hi
        | inr other ↦ addresses_loop_complete n xs tss r₁ r' q (ground arith) c lo hi
      ]

-- A combination of the request that the result does not contain has a topic coverage row over
-- every block from the oldest one that the store has for the address, up to the given block.
pub get_unsynced_topics_complete :
    (faults : Faults) (s : Store) (addresses : List Address) (topics : List (List Hash)) (up_to : ℕ)
    (ut : UnsyncedTopics) (a t n : ℕ)
    → get_unsynced_topics faults s addresses topics up_to ≡ ok ut
    → listed a t addresses topics ≡ true
    → contains_topic ut a t ≡ false
    → start_block (oldest_block a s.topic_coverage) ≤ n
    → n ≤ up_to
    → topic_covered s.topic_coverage a t n ≡ true
unfolding get_unsynced_topics
get_unsynced_topics_complete faults s addresses topics up_to ut a t n e m c lo hi =
    addresses_loop_complete faults s up_to a t n addresses topics new_unsynced_topics ut e m c lo hi
