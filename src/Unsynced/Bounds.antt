-- ===== src/Unsynced/Bounds.antt =====
-- What `add_topic` records, and the block from which a catch-up starts.
use chain_indexor.Prelude.{
  ℕ, ◌≤◌, ◌<◌, Bool, true, false, ◌&&◌, ◌||◌, ◌≡◌, refl, List, [], ◌∷◌, some, arith, ltb, ◌==◌,
  max_u64, if◌then◌else◌, any, Bool-cases, inl, inr,
}
use chain_indexor.Types.{Address, Hash}
use chain_indexor.Coverage.{CoverageRange}
use chain_indexor.Unsynced.{
  UnsyncedTopics, TopicMap, contains_topic, lookup, insert, is_empty, should_catch_up,
  topic_coverage, topics_of, add_topic, min_covered, min_covered_all, get_addresses_and_topics,
}

pub lookup-insert {ℓ} :
    {V : Type ℓ} (at key : ℕ) (value : V) (entries : List (ℕ × V))
    → lookup key (insert at value entries) ≡ (if at == key then some value else lookup key entries)
unfolding lookup insert
lookup-insert at key value [] = refl
lookup-insert at key value (entry ∷ entries) = ground (arith, lookup-insert at key value entries)

-- Recording a combination sets its coverage, and changes that of no other combination.
topic_coverage-add_topic :
    (ut : UnsyncedTopics) (a b : Address) (t u : Hash) (c : CoverageRange)
    → topic_coverage (add_topic ut a t c) b u
      ≡ (if (a == b) && (t == u) then some c else topic_coverage ut b u)
unfolding topic_coverage add_topic
topic_coverage-add_topic ut a b t u c = ground (
  arith,
  lookup-insert a b (insert t c (topics_of (lookup a ut.addr_to_topic_coverage)))
      ut.addr_to_topic_coverage,
  lookup-insert t u c (topics_of (lookup a ut.addr_to_topic_coverage)),
)

insert-not-nil {ℓ} :
    {V : Type ℓ} (k : ℕ) (v : V) (m : List (ℕ × V))
    → (e : ℕ × V) × (rest : List (ℕ × V)) × (insert k v m ≡ e ∷ rest)
unfolding insert
insert-not-nil k v [] = ((k, v), [], refl)
insert-not-nil k v ((j, w) ∷ m) = elim (Bool-cases (j == k)) [
  | inl e ↦ ((k, v), m, rw e)
  | inr e ↦ ((j, w), insert k v m, rw e)
]

pub is_empty-add_topic :
    (ut : UnsyncedTopics) (a : Address) (t : Hash) (c : CoverageRange)
    → is_empty (add_topic ut a t c) ≡ false
unfolding is_empty add_topic
is_empty-add_topic ut a t c = rw (
    (insert-not-nil a (insert t c (topics_of (lookup a ut.addr_to_topic_coverage)))
      ut.addr_to_topic_coverage).2)

min_covered-le : (acc : ℕ) (m : TopicMap) → min_covered acc m ≤ acc
unfolding min_covered
min_covered-le acc [] = omega arith
min_covered-le acc ((h, c) ∷ m) =
    ground (arith, min_covered-le (if ltb c.to_block acc then c.to_block else acc) m)

min_covered_all-le : (acc : ℕ) (m : List (Address × TopicMap)) → min_covered_all acc m ≤ acc
unfolding min_covered_all
min_covered_all-le acc [] = omega arith
min_covered_all-le acc ((h, topics) ∷ m) =
    omega (arith, min_covered-le acc topics, min_covered_all-le (min_covered acc topics) m)

-- Some topic is covered only below `n`.
abbrev behind : ℕ → TopicMap → Bool
behind n m = any (λ t. ltb t.1.to_block n) m

min_covered-lt : (n acc : ℕ) (m : TopicMap) → behind n m ≡ true → min_covered acc m < n
unfolding min_covered
min_covered-lt n acc [] h = cc
min_covered-lt n acc ((t, c) ∷ m) h = ground (
  arith,
  min_covered-lt n (if ltb c.to_block acc then c.to_block else acc) m,
  min_covered-le (if ltb c.to_block acc then c.to_block else acc) m,
)

min_covered_all-lt :
    (n acc : ℕ) (m : List (Address × TopicMap))
    → any (λ e. behind n e.1) m ≡ true
    → min_covered_all acc m < n
unfolding min_covered_all
min_covered_all-lt n acc [] h = cc
min_covered_all-lt n acc ((a, topics) ∷ m) h = ground (
  arith,
  min_covered-lt n acc topics,
  min_covered_all-lt n (min_covered acc topics) m,
  min_covered_all-le (min_covered acc topics) m,
)

-- A catch-up is asked for only past the start block, and then the returned minimum is below the
-- last indexed block.
pub should_catch_up-min :
    (ut : UnsyncedTopics) (last start : ℕ)
    → should_catch_up ut last start ≡ true
    → (start < last) × ((get_addresses_and_topics ut).2 < last)
unfolding should_catch_up get_addresses_and_topics
should_catch_up-min ut last start h =
    ground (arith, min_covered_all-lt last max_u64 ut.addr_to_topic_coverage)

-- A recorded combination is contained, and so is what was contained before, and nothing else.
pub contains_topic-add_topic :
    (ut : UnsyncedTopics) (a b : Address) (t u : Hash) (c : CoverageRange)
    → contains_topic (add_topic ut a t c) b u ≡ (((a == b) && (t == u)) || contains_topic ut b u)
unfolding contains_topic
contains_topic-add_topic ut a b t u c = ground (arith, topic_coverage-add_topic ut a b t u c)
