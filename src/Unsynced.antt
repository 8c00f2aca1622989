-- ===== src/Unsynced.antt =====
-- pkg/fetcher/store/types.go: the address-topic combinations that are not synced yet. A Go map is
-- an association list without duplicate keys, in the order in which the keys were added; Go's own
-- iteration order is unspecified.
pub mod Bounds
use chain_indexor.Prelude.{
  ℕ, Bool, true, false, ◌||◌, List, [], ◌∷◌, map, Option, none, some, ltb, leb, ◌==◌, any, min,
  max_u64, if◌then◌else◌,
}
use chain_indexor.Types.{Address, Hash}
use chain_indexor.Coverage.{CoverageRange}

abbrev pub TopicMap : Type 0
TopicMap = List (Hash × CoverageRange)

pub record UnsyncedTopics : Type 0 where
  pub addr_to_topic_coverage : List (Address × TopicMap)

abbrev pub new_unsynced_topics : UnsyncedTopics
new_unsynced_topics = record { addr_to_topic_coverage = [] }

-- m[k], and m[k] = v, for a map keyed by numbers.
module _ {ℓ} {V : Type ℓ} where
  unfoldable pub lookup : ℕ → List (ℕ × V) → Option V
  lookup k [] = none
  lookup k ((j, v) ∷ m) = let rest = lookup k m in if j == k then some v else rest

  unfoldable pub insert : ℕ → V → List (ℕ × V) → List (ℕ × V)
  insert k v [] = (k, v) ∷ []
  insert k v ((j, w) ∷ m) = let rest = insert k v m in if j == k then (k, v) ∷ m else (j, w) ∷ rest

unfoldable pub is_empty : UnsyncedTopics → Bool
is_empty ut = elim ut.addr_to_topic_coverage [ [] ↦ true | _ ∷ _ ↦ false ]

-- Both loops return at the first coverage that ends below `last_indexed_block`.
unfoldable pub should_catch_up : UnsyncedTopics → ℕ → ℕ → Bool
should_catch_up ut last_indexed_block downloader_start_block =
    if leb last_indexed_block downloader_start_block
    then false
    else any (λ e. any (λ t. ltb t.1.to_block last_indexed_block) e.1) ut.addr_to_topic_coverage

unfoldable pub contains_address : UnsyncedTopics → Address → Bool
unfolding lookup
contains_address ut address = elim (lookup address ut.addr_to_topic_coverage) [
  | none ↦ false
  | some _ ↦ true
]

unfoldable pub topic_coverage : UnsyncedTopics → Address → Hash → Option CoverageRange
unfolding lookup
topic_coverage ut address topic = elim (lookup address ut.addr_to_topic_coverage) [
  | none ↦ none
  | some topics ↦ lookup topic topics
]

unfoldable pub contains_topic : UnsyncedTopics → Address → Hash → Bool
unfolding topic_coverage
contains_topic ut address topic = elim (topic_coverage ut address topic) [
  | none ↦ false
  | some _ ↦ true
]

-- The inner map of the address, made on its first use.
abbrev pub topics_of : Option TopicMap → TopicMap
topics_of none = []
topics_of (some topics) = topics

unfoldable pub add_topic : UnsyncedTopics → Address → Hash → CoverageRange → UnsyncedTopics
unfolding lookup insert
add_topic ut address topic coverage = record {
  addr_to_topic_coverage =
      insert address (insert topic coverage (topics_of (lookup address ut.addr_to_topic_coverage)))
        ut.addr_to_topic_coverage;
}

-- The minimum over the topics of one address, from a start value.
unfoldable pub min_covered : ℕ → TopicMap → ℕ
min_covered acc [] = acc
min_covered acc ((_, c) ∷ m) = min_covered (if ltb c.to_block acc then c.to_block else acc) m

unfoldable pub min_covered_all : ℕ → List (Address × TopicMap) → ℕ
unfolding min_covered
min_covered_all acc [] = acc
min_covered_all acc ((_, topics) ∷ m) = min_covered_all (min_covered acc topics) m

abbrev key {ℓ} : {V : Type ℓ} → ℕ × V → ℕ
key e = e.0

unfoldable pub get_addresses_and_topics : UnsyncedTopics → List Address × List (List Hash) × ℕ
unfolding min_covered_all
get_addresses_and_topics ut =
    let m = ut.addr_to_topic_coverage in
    (map key m, map (λ e. map key e.1) m, min_covered_all max_u64 m)
