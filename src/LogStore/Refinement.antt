-- ===== src/LogStore/Refinement.antt =====
-- The log store of internal/fetcher/store/log_store.go as its clients see it: sets of downloaded
-- blocks, without rows.
use chain_indexor.Prelude.{
  ℕ, ◌≤◌, Bool, ◌&&◌, ◌||◌, ◌≡◌, refl, arith, List, [], ◌∷◌, All, elem, keep, ltb, leb, max_u64,
}
use chain_indexor.Types.{Address, Hash, Log, Error, Result, ok, err, Done}
use chain_indexor.Tables.{Store, DbCoverage, DbTopicCoverage, Faults}
use chain_indexor.LogStore.{store_logs_internal, handle_reorg, prune_logs_before_block}
use chain_indexor.LogStore.Views.{log_covered, topic_covered}
use chain_indexor.LogStore.Storing.{
  listed, store_logs_internal_covered, store_logs_internal_rollback,
}
use chain_indexor.LogStore.Reorgs.{handle_reorg_lem, handle_reorg_rollback}

-- What is downloaded for an address, and for an address and a topic.
pub record Spec : Type 0 where
  pub blocks : Address → ℕ → Bool
  pub topic_blocks : Address → Hash → ℕ → Bool

pub data Op : Type 0 where
  store : List Address → List (List Hash) → List Log → ℕ → ℕ → Op
  reorg : ℕ → Op
  prune : ℕ → Op

-- The blocks of a reorg are 64-bit numbers.
abbrev pub IsOp : Op → Type 0
IsOp (Op.reorg b) = b ≤ max_u64
IsOp _ = Unit

-- One set of blocks of the old and of the new state, under an operation that returned: a store adds
-- its range where it is `named`, a reorg takes the blocks from `b` on away, and a prune may take
-- blocks below `b` away.
abbrev pub Adds : Bool → ℕ → ℕ → (ℕ → Bool) → (ℕ → Bool) → Type 0
Adds named from to v w = (n : ℕ) → w n ≡ (v n || (named && leb from n && leb n to))

abbrev pub Cuts : ℕ → (ℕ → Bool) → (ℕ → Bool) → Type 0
Cuts b v w = (n : ℕ) → w n ≡ (v n && ltb n b)

abbrev pub Prunes : ℕ → (ℕ → Bool) → (ℕ → Bool) → Type 0
Prunes b v w = (n : ℕ) → w n ≡ (v n && (leb b n || w n))

abbrev pub Keeps : (ℕ → Bool) → (ℕ → Bool) → Type 0
Keeps v w = (n : ℕ) → w n ≡ v n

-- A relation that holds of the blocks of every address, and of every address and topic.
abbrev pub Each :
    (Address → (ℕ → Bool) → (ℕ → Bool) → Type 0)
    → (Address → Hash → (ℕ → Bool) → (ℕ → Bool) → Type 0)
    → Spec
    → Spec
    → Type 0
Each P Q v w =
    ((a : Address) → P a (v.blocks a) (w.blocks a))
    × ((a : Address) (t : Hash) → Q a t (v.topic_blocks a t) (w.topic_blocks a t))

-- What an operation with a result may do; one that fails does nothing.
abbrev pub Allowed : Op → Result Done → Spec → Spec → Type 0
Allowed op (err e) = Each (λ a. Keeps) (λ a t. Keeps)
Allowed (Op.store xs tss logs from to) (ok _) =
    Each (λ a. Adds (elem a xs) from to) (λ a t. Adds (listed a t xs tss) from to)
Allowed (Op.reorg b) (ok _) = Each (λ a. Cuts b) (λ a t. Cuts b)
Allowed (Op.prune b) (ok _) = Each (λ a. Prunes b) (λ a t. Prunes b)

abbrev forget : Result ℕ → Result Done
forget (ok n) = ok tt
forget (err e) = err e

-- The operation of the code.
abbrev pub perform : Faults → Op → Store → Result Done × Store
perform faults (Op.store xs tss logs from to) s = store_logs_internal faults xs tss logs from to s
perform faults (Op.reorg b) s = handle_reorg faults b s
perform faults (Op.prune b) s =
    (forget (prune_logs_before_block faults b s).0, (prune_logs_before_block faults b s).1)

abbrev pub view : Store → Spec
view s = record {
  blocks = log_covered s.log_coverage;
  topic_blocks = topic_covered s.topic_coverage;
}

-- A sequence of operations, with the store after it, and the results.
abbrev pub play : List (Faults × Op) → Store → Store
play [] s = s
play ((faults, op) ∷ rest) s = play rest (perform faults op s).1

abbrev pub results : List (Faults × Op) → Store → List (Op × Result Done)
results [] s = []
results ((faults, op) ∷ rest) s =
    (op, (perform faults op s).0) ∷ results rest (perform faults op s).1

-- The specification can go from one state to another with the operations and results.
abbrev pub Behaves : List (Op × Result Done) → Spec → Spec → Type 0
Behaves [] v w = Each (λ a. Keeps) (λ a t. Keeps) v w
Behaves ((op, r) ∷ rest) v w = (u : Spec) × Allowed op r v u × Behaves rest u w

abbrev pruned : ℕ → Store → Store
pruned b s = record {
  event_logs = keep (λ l. leb b l.block_number) s.event_logs;
  log_coverage = keep (λ c. leb b c.to_block) s.log_coverage;
  topic_coverage = keep (λ c. leb b c.to_block) s.topic_coverage;
}

prune_ok :
    (faults : Faults) (b : ℕ) (s : Store) (n : ℕ)
    → (prune_logs_before_block faults b s).0 ≡ ok n
    → (prune_logs_before_block faults b s).1 ≡ pruned b s
unfolding prune_logs_before_block
prune_ok faults b s n h = ground arith

prune_rollback :
    (faults : Faults) (b : ℕ) (s : Store) (e : Error)
    → (prune_logs_before_block faults b s).0 ≡ err e
    → (prune_logs_before_block faults b s).1 ≡ s
unfolding prune_logs_before_block
prune_rollback faults b s e h = ground arith

log_covered-prune :
    (b : ℕ) (rows : List DbCoverage) (a : Address)
    → Prunes b (log_covered rows a) (log_covered (keep (λ c. leb b c.to_block) rows) a)
log_covered-prune b [] a n = ground arith
log_covered-prune b (c ∷ rows) a n = ground (arith, log_covered-prune b rows a n)

topic_covered-prune :
    (b : ℕ) (rows : List DbTopicCoverage) (a : Address) (t : Hash)
    → Prunes b (topic_covered rows a t) (topic_covered (keep (λ c. leb b c.to_block) rows) a t)
topic_covered-prune b [] a t n = ground arith
topic_covered-prune b (c ∷ rows) a t n = ground (arith, topic_covered-prune b rows a t n)

-- The result of an operation, and that it is allowed.
abbrev Fits : Op → Store → Result Done × Store → Type 0
Fits op s out = Allowed op out.0 (view s) (view out.1)

same_view : (s s' : Store) → s' ≡ s → Each (λ a. Keeps) (λ a t. Keeps) (view s) (view s')
same_view s s' e = rw e (λ a n. refl, λ a t n. refl)

perform-Allowed :
    (faults : Faults) (op : Op) (s : Store) → IsOp op → Fits op s (perform faults op s)
perform-Allowed faults (Op.store xs tss logs from to) s _ =
    go (store_logs_internal faults xs tss logs from to s).0 refl
  where
    go :
        (r : Result Done)
        → (store_logs_internal faults xs tss logs from to s).0 ≡ r
        → Allowed
            (Op.store xs tss logs from to)
            r
            (view s)
            (view (store_logs_internal faults xs tss logs from to s).1)
    go (ok _) e = (
      λ a n. (store_logs_internal_covered faults xs tss logs from to s a 0 n e).0,
      λ a t n. (store_logs_internal_covered faults xs tss logs from to s a t n e).1,
    )
    go (err x) e = same_view s _ (store_logs_internal_rollback faults xs tss logs from to s e)
perform-Allowed faults (Op.reorg b) s m = go (handle_reorg faults b s).0 refl
  where
    go :
        (r : Result Done)
        → (handle_reorg faults b s).0 ≡ r
        → Allowed (Op.reorg b) r (view s) (view (handle_reorg faults b s).1)
    go (ok _) e =
        let (_, blocks, topic_blocks) = handle_reorg_lem faults b s m e in (blocks, topic_blocks)
    go (err x) e = same_view s _ (handle_reorg_rollback faults b s e)
perform-Allowed faults (Op.prune b) s _ = go (prune_logs_before_block faults b s).0 refl
  where
    go :
        (r : Result ℕ)
        → (prune_logs_before_block faults b s).0 ≡ r
        → Allowed (Op.prune b) (forget r) (view s) (view (prune_logs_before_block faults b s).1)
    go (ok k) e = rw (prune_ok faults b s k e) (
      λ a. log_covered-prune b s.log_coverage a,
      λ a t. topic_covered-prune b s.topic_coverage a t,
    )
    go (err x) e = same_view s _ (prune_rollback faults b s x e)

-- Whatever the outcomes of its SQL statements, a sequence of stores, reorgs and prunes on a store,
-- with the results that they return, is one that the specification allows: each operation takes
-- effect as a whole, as its result says, on the sets of downloaded blocks, and not at all where it
-- fails.
pub play-Behaves :
    (ops : List (Faults × Op)) (s : Store)
    → All (λ p. IsOp p.1) ops
    → Behaves (results ops s) (view s) (view (play ops s))
play-Behaves [] s _ = (λ a n. refl, λ a t n. refl)
play-Behaves ((faults, op) ∷ rest) s (m, ms) = (
  view (perform faults op s).1,
  perform-Allowed faults op s m,
  play-Behaves rest (perform faults op s).1 ms,
)
