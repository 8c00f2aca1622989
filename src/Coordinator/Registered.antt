-- ===== src/Coordinator/Registered.antt =====
-- What the registrations leave in the routing tables, and with it which logs an indexer is handed.
use chain_indexor.Prelude.{
  elem, ℕ, Bool, true, false, ◌&&◌, ◌||◌, ◌≡◌, refl, sym, ap, ◌∙◌, List, [], ◌∷◌, some, arith, leb,
  ◌==◌, any, keep, if◌then◌else◌, All, In, Bool-cases, inl, inr, ==_iff,
}
use chain_indexor.Types.{Address, Hash, Log}
use chain_indexor.Unsynced.{lookup, insert}
use chain_indexor.Unsynced.Bounds.{lookup-insert}
use chain_indexor.Coordinator.{
  Indexer, IndexerCoordinator, new_indexer_coordinator, or_empty, append_at, route_topics,
  route_address, route_events, register_indexer, topic_indexers, routed_logs,
}
use chain_indexor.Coordinator.Routing.{elem-append_at, elem-interested_indexers, lookup-routed_logs}

-- A topic set takes a log whose first topic it has; the empty set takes every log.
abbrev pub takes_topics : List Hash → List Hash → Bool
takes_topics [] us = true
takes_topics (t ∷ ts) [] = false
takes_topics (t ∷ ts) (u ∷ us) = elem u (t ∷ ts)

abbrev pub wants : List (Address × List Hash) → Log → Bool
wants events log = any (λ e. (e.0 == log.address) && takes_topics e.1 log.topics) events

elem-route_topics :
    (x : ℕ) (ts : List Hash) (m : List (Hash × List ℕ)) (u i : ℕ)
    → elem i (or_empty (lookup u (route_topics x ts m)))
      ≡ (elem i (or_empty (lookup u m)) || (elem u ts && (x == i)))
elem-route_topics x [] m u i = ground arith
elem-route_topics x (t ∷ ts) m u i =
    rw (elem-route_topics x ts (append_at t x m) u i, elem-append_at t u x i m) (ground arith)

-- Whether the routing tables send a log to an indexer.
abbrev routes : IndexerCoordinator → Log → ℕ → Bool
routes ic log i =
    elem i (or_empty (lookup log.address ic.address_all_topics))
    || elem i (topic_indexers log.topics (or_empty (lookup log.address ic.address_topics)))

topic_routes :
    (x a t : ℕ) (ts : List Hash) (m : List (Address × List (Hash × List ℕ))) (us : List Hash)
    (b i : ℕ)
    → elem i (
        topic_indexers us
          (or_empty (lookup b (insert a (route_topics x (t ∷ ts) (or_empty (lookup a m))) m))))
      ≡ (elem i (topic_indexers us (or_empty (lookup b m)))
          || (((a == b) && takes_topics (t ∷ ts) us) && (x == i)))
topic_routes x a t ts m [] b i = ground arith
topic_routes x a t ts m (u ∷ us) b i = elim (Bool-cases (a == b)) [
  | inl e ↦
      rw
        (
          lookup-insert a b (route_topics x (t ∷ ts) (or_empty (lookup a m))) m,
          e,
          sym ((==_iff a b).0 e),
          elem-route_topics x (t ∷ ts) (or_empty (lookup a m)) u i,
        )
        (ground arith)
  | inr n ↦
      rw (lookup-insert a b (route_topics x (t ∷ ts) (or_empty (lookup a m))) m, n) (ground arith)
]

routes-route_address :
    (x : ℕ) (e : Address × List Hash) (ic : IndexerCoordinator) (log : Log) (i : ℕ)
    → routes (route_address x e ic) log i
      ≡ (routes ic log i || (((e.0 == log.address) && takes_topics e.1 log.topics) && (x == i)))
routes-route_address x (a, []) ic log i =
    rw (elem-append_at a log.address x i ic.address_all_topics) (ground arith)
routes-route_address x (a, t ∷ ts) ic log i =
    rw (topic_routes x a t ts ic.address_topics log.topics log.address i) (ground arith)

routes-route_events :
    (x : ℕ) (es : List (Address × List Hash)) (ic : IndexerCoordinator) (log : Log) (i : ℕ)
    → routes (route_events x es ic) log i ≡ (routes ic log i || (wants es log && (x == i)))
routes-route_events x [] ic log i = ground arith
routes-route_events x (e ∷ es) ic log i =
    rw (routes-route_events x es (route_address x e ic) log i, routes-route_address x e ic log i)
      (ground arith)

start_blocks-route_events :
    (x : ℕ) (es : List (Address × List Hash)) (ic : IndexerCoordinator)
    → (route_events x es ic).start_blocks ≡ ic.start_blocks
start_blocks-route_events x [] ic = refl
start_blocks-route_events x ((a, []) ∷ es) ic =
    start_blocks-route_events x es (route_address x (a, []) ic)
start_blocks-route_events x ((a, t ∷ ts) ∷ es) ic =
    start_blocks-route_events x es (route_address x (a, t ∷ ts) ic)

abbrev pub register_all : List Indexer → IndexerCoordinator → IndexerCoordinator
register_all [] ic = ic
register_all (ix ∷ ixs) ic = register_all ixs (register_indexer ix ic)

routes-register_all :
    (ixs : List Indexer) (ic : IndexerCoordinator) (log : Log) (i : ℕ)
    → routes (register_all ixs ic) log i
      ≡ (routes ic log i || any (λ ix. wants ix.events_to_index log && (ix.id == i)) ixs)
unfolding register_indexer
routes-register_all [] ic log i = ground arith
routes-register_all (ix ∷ ixs) ic log i =
    rw (routes-register_all ixs (register_indexer ix ic) log i) (
      ground (
        arith,
        routes-route_events ix.id ix.events_to_index
            (record ic { start_blocks = insert ix.id ix.start_block ic.start_blocks }) log i,
      ))

-- Two registered indexers with the identity of `ix` are the same pointer.
abbrev pub Same : Indexer → Indexer → Type 0
Same ix jx = (jx.id == ix.id) ≡ true → jx ≡ ix

module _ (ix : Indexer) (f : Indexer → Bool) where
  none_of_Same :
      (ixs : List Indexer)
      → All (Same ix) ixs
      → f ix ≡ false
      → any (λ jx. f jx && (jx.id == ix.id)) ixs ≡ false
  none_of_Same [] h n = refl
  none_of_Same (jx ∷ ixs) h n = elim (Bool-cases (jx.id == ix.id)) [
    | inl e ↦ ground (arith, none_of_Same ixs h.1 n, ap f (h.0 e))
    | inr d ↦ ground (arith, none_of_Same ixs h.1 n)
  ]

  any_of_Same :
      (ixs : List Indexer)
      → All (Same ix) ixs
      → In ix ixs
      → any (λ jx. f jx && (jx.id == ix.id)) ixs ≡ f ix
  any_of_Same [] h i = absurd i
  any_of_Same (jx ∷ ixs) h (inl e) =
      let q = (==_iff jx.id ix.id).1 (ap (λ k. k.id) e) in
      elim (Bool-cases (f ix)) [
        | inl t ↦ ground (arith, ap f e)
        | inr n ↦ ground (arith, ap f e, none_of_Same ixs h.1 n)
      ]
  any_of_Same (jx ∷ ixs) h (inr i) = elim (Bool-cases (jx.id == ix.id)) [
    | inl e ↦ ground (arith, any_of_Same ixs h.1 i, ap f (h.0 e))
    | inr d ↦ ground (arith, any_of_Same ixs h.1 i)
  ]

module _ (ix : Indexer) where
  start-register_indexer :
      (jx : Indexer) (ic : IndexerCoordinator)
      → lookup ix.id (register_indexer jx ic).start_blocks
        ≡ (if jx.id == ix.id then some jx.start_block else lookup ix.id ic.start_blocks)
  unfolding register_indexer
  start-register_indexer jx ic =
      ap (lookup ix.id) (
        start_blocks-route_events jx.id jx.events_to_index
          (record ic { start_blocks = insert jx.id jx.start_block ic.start_blocks }))
      ∙ lookup-insert jx.id ix.id jx.start_block ic.start_blocks

  start_stays :
      (ixs : List Indexer) (ic : IndexerCoordinator)
      → All (Same ix) ixs
      → lookup ix.id ic.start_blocks ≡ some ix.start_block
      → lookup ix.id (register_all ixs ic).start_blocks ≡ some ix.start_block
  start_stays [] ic h s = s
  start_stays (jx ∷ ixs) ic h s =
      let q : lookup ix.id (register_indexer jx ic).start_blocks ≡ some ix.start_block =
        elim (Bool-cases (jx.id == ix.id)) [
          | inl e ↦ ground (arith, ap (λ k. k.start_block) (h.0 e), start-register_indexer jx ic)
          | inr n ↦ ground (arith, start-register_indexer jx ic)
        ] in
      start_stays ixs (register_indexer jx ic) h.1 q

  start_registered :
      (ixs : List Indexer) (ic : IndexerCoordinator)
      → All (Same ix) ixs
      → In ix ixs
      → lookup ix.id (register_all ixs ic).start_blocks ≡ some ix.start_block
  start_registered [] ic h i = absurd i
  start_registered (jx ∷ ixs) ic h (inl e) =
      let q = (==_iff jx.id ix.id).1 (ap (λ k. k.id) e) in
      start_stays ixs (register_indexer jx ic) h.1
        (ground (arith, ap (λ k. k.start_block) e, start-register_indexer jx ic))
  start_registered (jx ∷ ixs) ic h (inr i) = start_registered ixs (register_indexer jx ic) h.1 i

keep_congr :
    {A : Type 0} (p q : A → Bool) (xs : List A) → ((x : A) → p x ≡ q x) → keep p xs ≡ keep q xs
keep_congr p q [] h = refl
keep_congr p q (x ∷ xs) h = ground (arith, h x, keep_congr p q xs h)

no_topic_indexers : (us : List Hash) (i : ℕ) → elem i (topic_indexers us []) ≡ false
unfolding lookup
no_topic_indexers [] i = refl
no_topic_indexers (u ∷ us) i = refl

-- A registered indexer is called with exactly the logs of the batch whose address it registered, with
-- the first topic in the address's topic set or any topic where that set is empty, and whose block
-- is not before its start block, each once and in the order of the batch.
pub routed_logs-register_all :
    (ixs : List Indexer) (ix : Indexer) (logs : List Log)
    → All (Same ix) ixs
    → In ix ixs
    → or_empty (lookup ix.id (routed_logs (register_all ixs new_indexer_coordinator) logs))
      ≡ keep (λ l. wants ix.events_to_index l && leb ix.start_block l.block_number) logs
unfolding new_indexer_coordinator lookup
routed_logs-register_all ixs ix logs h i =
    let ic = register_all ixs new_indexer_coordinator in
    let same = λ (l : Log).
      elem-interested_indexers ic l ix.id
      ∙ (routes-register_all ixs new_indexer_coordinator l ix.id
          ∙ (ap (λ b. b || any (λ jx. wants jx.events_to_index l && (jx.id == ix.id)) ixs)
                (no_topic_indexers l.topics ix.id)
              ∙ any_of_Same ix (λ jx. wants jx.events_to_index l) ixs h i)) in
    lookup-routed_logs ic logs ix.id
    ∙ keep_congr _ _ logs
        (λ l. rw (same l, start_registered ix ixs new_indexer_coordinator h i) refl)
