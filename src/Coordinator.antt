-- ===== src/Coordinator.antt =====
-- internal/indexer/indexer_coordinator.go: logs and reorgs are routed to the registered indexers. An
-- indexer is what its methods `StartBlock`, `EventsToIndex` and `GetName` answer, with an identity
-- that stands for the pointer; its `HandleLogs` and `HandleReorg` are arguments, which change
-- the indexers' state `W`.
pub mod Routing
pub mod Registered
use chain_indexor.Prelude.{
  elem, ℕ, Bool, true, false, ◌||◌, List, [], ◌∷◌, ◌++◌, map, Option, none, some, leb, ◌==◌, any,
  keep, find, if◌then◌else◌,
}
use chain_indexor.Types.{Address, Hash, Log, Error, Result, ok, err, Done}
use chain_indexor.Unsynced.{lookup, insert}

pub record Indexer : Type 0 where
  pub id : ℕ
  pub name : ℕ
  pub start_block : ℕ
  pub events_to_index : List (Address × List Hash)

pub record IndexerCoordinator : Type 0 where
  pub address_topics : List (Address × List (Hash × List ℕ))
  pub address_all_topics : List (Address × List ℕ)
  pub indexers : List Indexer
  pub start_blocks : List (ℕ × ℕ)

unfoldable pub new_indexer_coordinator : IndexerCoordinator
new_indexer_coordinator = record {
  address_topics = [];
  address_all_topics = [];
  indexers = [];
  start_blocks = [];
}

-- A missing slice, or map, is the empty one.
abbrev pub or_empty {ℓ} : {A : Type ℓ} → Option (List A) → List A
or_empty none = []
or_empty (some xs) = xs

-- m[k] = append(m[k], x)
abbrev pub append_at {ℓ} : {A : Type ℓ} → ℕ → A → List (ℕ × List A) → List (ℕ × List A)
append_at k x m = insert k (or_empty (lookup k m) ++ x ∷ []) m

abbrev pub route_topics : ℕ → List Hash → List (Hash × List ℕ) → List (Hash × List ℕ)
route_topics i [] m = m
route_topics i (t ∷ ts) m = route_topics i ts (append_at t i m)

abbrev pub route_address : ℕ → Address × List Hash → IndexerCoordinator → IndexerCoordinator
route_address i (a, []) ic = record ic { address_all_topics = append_at a i ic.address_all_topics }
route_address i (a, t ∷ ts) ic = record ic {
  address_topics =
      insert a (route_topics i (t ∷ ts) (or_empty (lookup a ic.address_topics))) ic.address_topics;
}

abbrev pub route_events : ℕ → List (Address × List Hash) → IndexerCoordinator → IndexerCoordinator
route_events i [] ic = ic
route_events i (e ∷ es) ic = route_events i es (route_address i e ic)

unfoldable pub register_indexer : Indexer → IndexerCoordinator → IndexerCoordinator
unfolding insert lookup
register_indexer ix ic =
    let routed =
      route_events ix.id ix.events_to_index
        (record ic { start_blocks = insert ix.id ix.start_block ic.start_blocks }) in
    record routed { indexers = routed.indexers ++ ix ∷ [] }

-- A set of indexers.
abbrev pub add_to_set : List ℕ → List ℕ → List ℕ
add_to_set [] set = set
add_to_set (i ∷ is) set = add_to_set is (if elem i set then set else i ∷ set)

-- The indexers registered for the first topic of a log.
abbrev pub topic_indexers : List Hash → List (Hash × List ℕ) → List ℕ
topic_indexers [] m = []
topic_indexers (t ∷ ts) m = or_empty (lookup t m)

unfoldable pub interested_indexers : IndexerCoordinator → Log → List ℕ
unfolding lookup
interested_indexers ic log =
    let all_topics = add_to_set (or_empty (lookup log.address ic.address_all_topics)) [] in
    add_to_set (topic_indexers log.topics (or_empty (lookup log.address ic.address_topics)))
      all_topics

abbrev pub add_log : Log → List ℕ → List (ℕ × List Log) → List (ℕ × List Log)
add_log log [] m = m
add_log log (i ∷ is) m = add_log log is (append_at i log m)

-- The logs of a batch by indexer.
abbrev pub group_logs : IndexerCoordinator → List Log → List (ℕ × List Log) → List (ℕ × List Log)
group_logs ic [] m = m
group_logs ic (log ∷ logs) m = group_logs ic logs (add_log log (interested_indexers ic log) m)

abbrev start_or_zero : Option ℕ → ℕ
start_or_zero none = 0
start_or_zero (some b) = b

abbrev pub filter_started : IndexerCoordinator → ℕ × List Log → ℕ × List Log
filter_started ic (i, logs) =
    (i, keep (λ log. leb (start_or_zero (lookup i ic.start_blocks)) log.block_number) logs)

-- The logs that each indexer is called with; an empty list is not handed on.
unfoldable pub routed_logs : IndexerCoordinator → List Log → List (ℕ × List Log)
unfolding insert lookup interested_indexers
routed_logs ic logs = map (filter_started ic) (group_logs ic logs [])

module _ {ℓ} {W : Type ℓ} where
  -- Every goroutine runs to its end, and the first error is returned: here in the order of the list.
  abbrev pub call_all :
      (ℕ → List Log → W → Result Done × W) → List (ℕ × List Log) → W → Result Done × W
  call_all handle [] w = (ok tt, w)
  call_all handle ((i, []) ∷ calls) w = call_all handle calls w
  call_all handle ((i, l ∷ ls) ∷ calls) w =
      let (r, w') = handle i (l ∷ ls) w in
      let rest = call_all handle calls w' in elim r [ ok _ ↦ rest | err e ↦ (err e, rest.1) ]

  unfoldable pub handle_logs :
      (ℕ → List Log → W → Result Done × W) → IndexerCoordinator → List Log → W → Result Done × W
  unfolding routed_logs
  handle_logs handle ic logs w = call_all handle (routed_logs ic logs) w

  abbrev pub roll_back_all : (ℕ → ℕ → W → Result Done × W) → List Indexer → ℕ → W → Result Done × W
  roll_back_all roll_back [] block_num w = (ok tt, w)
  roll_back_all roll_back (ix ∷ ixs) block_num w =
      let (r, w') = roll_back ix.id block_num w in
      elim r [ ok _ ↦ roll_back_all roll_back ixs block_num w' | err e ↦ (err e, w') ]

  unfoldable pub handle_reorg :
      (ℕ → ℕ → W → Result Done × W) → IndexerCoordinator → ℕ → W → Result Done × W
  handle_reorg roll_back ic block_num w = roll_back_all roll_back ic.indexers block_num w

unfoldable pub indexer_start_blocks : IndexerCoordinator → List ℕ
unfolding lookup
indexer_start_blocks ic = map (λ ix. start_or_zero (lookup ix.id ic.start_blocks)) ic.indexers

unfoldable pub get_by_name : ℕ → IndexerCoordinator → Option Indexer
get_by_name name ic = find (λ ix. ix.name == name) ic.indexers
