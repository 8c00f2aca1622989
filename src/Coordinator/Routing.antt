-- ===== src/Coordinator/Routing.antt =====
-- Which logs `HandleLogs` hands to an indexer, after the registrations.
use chain_indexor.Prelude.{
  elem, ℕ, Bool, true, false, not, ◌&&◌, ◌||◌, ◌≡◌, refl, sym, ap, ◌∙◌, List, [], ◌∷◌, ◌++◌, map,
  arith, leb, ◌==◌, any-append, keep, if◌then◌else◌, Bool-cases, inl, inr, ==_iff,
}
use mathlib.Core.List.{append-nil, append_assoc}
use chain_indexor.Types.{Log}
use chain_indexor.Unsynced.{lookup}
use chain_indexor.Unsynced.Bounds.{lookup-insert}
use chain_indexor.Coordinator.{
  IndexerCoordinator, or_empty, append_at, add_to_set, topic_indexers, interested_indexers, add_log,
  group_logs, start_or_zero, filter_started, routed_logs,
}

-- The lists of a map, after an element is appended to one of them.
lookup-append_at {ℓ} :
    {A : Type ℓ} (k j : ℕ) (x : A) (m : List (ℕ × List A))
    → or_empty (lookup j (append_at k x m))
      ≡ (if k == j then or_empty (lookup k m) ++ x ∷ [] else or_empty (lookup j m))
lookup-append_at k j x m = rw (lookup-insert k j (or_empty (lookup k m) ++ x ∷ []) m) ground arith

pub elem-append_at :
    (k j x i : ℕ) (m : List (ℕ × List ℕ))
    → elem i (or_empty (lookup j (append_at k x m)))
      ≡ (elem i (or_empty (lookup j m)) || ((k == j) && (x == i)))
elem-append_at k j x i m = elim (Bool-cases (k == j)) [
  | inl e ↦
      rw (lookup-append_at k j x m, e, sym ((==_iff k j).0 e))
        (ground (arith, any-append (λ y. y == i) (or_empty (lookup k m)) (x ∷ [])))
  | inr n ↦ rw (lookup-append_at k j x m, n) (ground arith)
]

elem-add_to_set : (i : ℕ) (is set : List ℕ) → elem i (add_to_set is set) ≡ (elem i is || elem i set)
elem-add_to_set i [] set = refl
elem-add_to_set i (j ∷ is) set = elim (Bool-cases (elem j set)) [
  | inl e ↦
      let q = λ (h : (j == i) ≡ true). sym (ap (λ n. elem n set) ((==_iff j i).0 h)) ∙ e in
      rw (e, elem-add_to_set i is set) (ground (arith, q))
  | inr n ↦ rw (n, elem-add_to_set i is (j ∷ set)) (ground arith)
]

abbrev pub distinct : List ℕ → Bool
distinct [] = true
distinct (i ∷ is) = not (elem i is) && distinct is

distinct-add_to_set : (is set : List ℕ) → distinct set ≡ true → distinct (add_to_set is set) ≡ true
distinct-add_to_set [] set h = h
distinct-add_to_set (i ∷ is) set h = elim (Bool-cases (elem i set)) [
  | inl e ↦ rw (e) (distinct-add_to_set is set h)
  | inr n ↦ rw (n) (distinct-add_to_set is (i ∷ set) (ground arith))
]

pub elem-interested_indexers :
    (ic : IndexerCoordinator) (log : Log) (i : ℕ)
    → elem i (interested_indexers ic log) ≡ (
        elem i (or_empty (lookup log.address ic.address_all_topics))
        || elem i (topic_indexers log.topics (or_empty (lookup log.address ic.address_topics))))
unfolding interested_indexers
elem-interested_indexers ic log i =
    let all_topics = or_empty (lookup log.address ic.address_all_topics) in
    let of_topic = topic_indexers log.topics (or_empty (lookup log.address ic.address_topics)) in
    rw (elem-add_to_set i of_topic (add_to_set all_topics []), elem-add_to_set i all_topics [])
      (ground arith)

interested_indexers-distinct :
    (ic : IndexerCoordinator) (log : Log) → distinct (interested_indexers ic log) ≡ true
unfolding interested_indexers
interested_indexers-distinct ic log =
    distinct-add_to_set
      (topic_indexers log.topics (or_empty (lookup log.address ic.address_topics)))
      (add_to_set (or_empty (lookup log.address ic.address_all_topics)) [])
      (distinct-add_to_set (or_empty (lookup log.address ic.address_all_topics)) [] refl)

lookup-add_log :
    (log : Log) (is : List ℕ) (m : List (ℕ × List Log)) (i : ℕ)
    → distinct is ≡ true
    → or_empty (lookup i (add_log log is m))
      ≡ (if elem i is then or_empty (lookup i m) ++ log ∷ [] else or_empty (lookup i m))
lookup-add_log log [] m i h = refl
lookup-add_log log (j ∷ is) m i h = elim (Bool-cases (j == i)) [
  | inl e ↦
      let q = (==_iff j i).0 e in
      let fresh : elem j is ≡ false = ground arith in
      let f = sym (ap (λ n. elem n is) q) ∙ fresh in
      rw
        (
          e,
          lookup-add_log log is (append_at j log m) i (ground arith),
          f,
          lookup-append_at j i log m,
          e,
          q,
        )
        refl
  | inr n ↦
      rw
        (
          n,
          lookup-add_log log is (append_at j log m) i (ground arith),
          lookup-append_at j i log m,
          n,
        )
        refl
]

-- The grouped logs of an indexer are the logs that interest it, in their order.
lookup-group_logs :
    (ic : IndexerCoordinator) (logs : List Log) (m : List (ℕ × List Log)) (i : ℕ)
    → or_empty (lookup i (group_logs ic logs m))
      ≡ or_empty (lookup i m) ++ keep (λ l. elem i (interested_indexers ic l)) logs
lookup-group_logs ic [] m i = sym (append-nil (or_empty (lookup i m)))
lookup-group_logs ic (l ∷ logs) m i = elim (Bool-cases (elem i (interested_indexers ic l))) [
  | inl e ↦
      rw
        (
          lookup-group_logs ic logs (add_log l (interested_indexers ic l) m) i,
          lookup-add_log l (interested_indexers ic l) m i (interested_indexers-distinct ic l),
          e,
        )
        (append_assoc (or_empty (lookup i m)) (l ∷ [])
          (keep (λ l. elem i (interested_indexers ic l)) logs))
  | inr n ↦
      rw
        (
          lookup-group_logs ic logs (add_log l (interested_indexers ic l) m) i,
          lookup-add_log l (interested_indexers ic l) m i (interested_indexers-distinct ic l),
          n,
        )
        refl
]

lookup-filter_started :
    (ic : IndexerCoordinator) (m : List (ℕ × List Log)) (i : ℕ)
    → or_empty (lookup i (map (filter_started ic) m))
      ≡ keep
          (λ l. leb (start_or_zero (lookup i ic.start_blocks)) l.block_number)
          (or_empty (lookup i m))
unfolding lookup
lookup-filter_started ic [] i = refl
lookup-filter_started ic ((j, ls) ∷ m) i = elim (Bool-cases (j == i)) [
  | inl e ↦ rw (e, (==_iff j i).0 e) refl
  | inr n ↦ rw n (lookup-filter_started ic m i)
]

keep-keep :
    {A : Type 0} (p q : A → Bool) (xs : List A) → keep p (keep q xs) ≡ keep (λ x. q x && p x) xs
keep-keep p q [] = refl
keep-keep p q (x ∷ xs) = ground (arith, keep-keep p q xs)

-- An indexer is called with the logs that interest it from its start block on, in their order.
pub lookup-routed_logs :
    (ic : IndexerCoordinator) (logs : List Log) (i : ℕ)
    → or_empty (lookup i (routed_logs ic logs))
      ≡ keep
          (λ l.
            elem i (interested_indexers ic l)
            && leb (start_or_zero (lookup i ic.start_blocks)) l.block_number)
          logs
unfolding routed_logs lookup
lookup-routed_logs ic logs i =
    let started = λ (l : Log). leb (start_or_zero (lookup i ic.start_blocks)) l.block_number in
    lookup-filter_started ic (group_logs ic logs []) i
    ∙ (ap (keep started) (lookup-group_logs ic logs [] i)
        ∙ keep-keep started (λ l. elem i (interested_indexers ic l)) logs)
