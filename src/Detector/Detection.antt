-- ===== src/Detector/Detection.antt =====
-- The comparison of stored rows with the chain in `VerifyAndRecordBlocks`.
use chain_indexor.Prelude.{
  ℕ, ◌≤◌, ◌<◌, Bool, true, false, not, ◌≡◌, ◌∙◌, sym, ap, refl, List, [], ◌∷◌, map, arith, ltb, leb,
  ◌==◌, keep, find, order_by, Ordered, Ordered-order_by, In, All-In, leb→le, lt→ltb, ltb→lt,
  In-keep_inv, In-order_by_inv, In-keep, In-order_by, All, max_u64, u64_add, Bool-cases, inl, inr,
}
use mathlib.Core.Bool.{true≢false}
use chain_indexor.Types.{Log, Header, Error, Result, ok, err}
use chain_indexor.Detector.{
  StoredBlock, Outcomes, all_succeed, ChainView, Save, get_stored_block, block_or_zero,
  prune_old_blocks, prune_finalized, by_number, get_stored_blocks_after, check_stored,
  verify_non_finalized, in_tx, verify_and_record_blocks,
}

-- The node answers a batch with the header of each number, in order.
abbrev pub Answers : ChainView → (ℕ → Header) → Type 0
Answers chain view =
    ((n : ℕ) → (view n).number ≡ n) × ((ns : List ℕ) → chain.stored_headers ns ≡ ok (map view ns))

-- The chain has another block at the row's number.
abbrev pub stale : (ℕ → Header) → StoredBlock → Bool
stale view b = not (b.block_hash == (view b.block_number).hash)

abbrev answered : (ℕ → Header) → List StoredBlock → List Header
answered view bs = map view (map (λ b. b.block_number) bs)

-- `k` is the lowest number of a stale row.
abbrev pub LowestStale : (ℕ → Header) → List StoredBlock → ℕ → Type 0
LowestStale view bs k =
    ((c : StoredBlock) × In c bs × (c.block_number ≡ k) × (stale view c ≡ true))
    × ((d : StoredBlock) → In d bs → stale view d ≡ true → k ≤ d.block_number)

first_lowest :
    (view : ℕ → Header) (c : StoredBlock) (cs : List StoredBlock)
    → All (λ d. by_number c d ≡ true) cs
    → (d : StoredBlock) → In d (c ∷ cs)
    → stale view d ≡ true
    → c.block_number ≤ d.block_number
first_lowest view c cs o d (inl e) s = ground arith
first_lowest view c cs o d (inr i) s = leb→le _ _ (All-In (λ d. by_number c d ≡ true) d cs o i)

not_here :
    (view : ℕ → Header) (c d : StoredBlock) (cs : List StoredBlock)
    → stale view c ≡ false
    → stale view d ≡ true
    → In d (c ∷ cs)
    → In d cs
not_here view c d cs f s (inl e) = absurd (true≢false (sym s ∙ ap (stale view) (sym e) ∙ f))
not_here view c d cs f s (inr i) = i

check_stored_here :
    (view : ℕ → Header) (c : StoredBlock) (cs : List StoredBlock)
    → (view c.block_number).number ≡ c.block_number
    → stale view c ≡ true
    → check_stored (answered view (c ∷ cs)) (c ∷ cs) ≡ err (Error.reorg_detected c.block_number)
unfolding check_stored
check_stored_here view c cs n s = ground arith

check_stored_next :
    (view : ℕ → Header) (c : StoredBlock) (cs : List StoredBlock)
    → stale view c ≡ false
    → check_stored (answered view (c ∷ cs)) (c ∷ cs) ≡ check_stored (answered view cs) cs
unfolding check_stored
check_stored_next view c cs s = ground arith

check_stored-stale :
    (view : ℕ → Header) (b : StoredBlock) (bs : List StoredBlock)
    → ((n : ℕ) → (view n).number ≡ n)
    → Ordered by_number bs
    → In b bs
    → stale view b ≡ true
    → (k : ℕ) × (check_stored (answered view bs) bs ≡ err (Error.reorg_detected k))
      × LowestStale view bs k
check_stored-stale view b [] nums o i s = absurd i
check_stored-stale view b (c ∷ cs) nums o i s = elim (Bool-cases (stale view c)) [
  | inl here ↦ (
    c.block_number,
    check_stored_here view c cs (nums c.block_number) here,
    ((c, inl refl, refl, here), first_lowest view c cs o.0),
  )
  | inr fine ↦
      let (k, e, low) = check_stored-stale view b cs nums o.1 (not_here view c b cs fine s i) s in
      let (c', i', n', s') = low.0 in
      (
        k,
        check_stored_next view c cs fine ∙ e,
        ((c', inr i', n', s'), λ d j t. low.1 d (not_here view c d cs fine t j) t),
      )
]

-- The rows that are compared: those above the finalized block, in order.
abbrev pub compared : ℕ → List StoredBlock → List StoredBlock
compared finalized blocks = order_by by_number (keep (λ b. ltb finalized b.block_number) blocks)

keep-pruned :
    (n : ℕ) (blocks : List StoredBlock)
    → n < max_u64
    → keep (λ b. ltb n b.block_number) (keep (λ b. leb (u64_add n 1) b.block_number) blocks)
      ≡ keep (λ b. ltb n b.block_number) blocks
keep-pruned n [] h = refl
keep-pruned n (b ∷ bs) h = ground (arith, keep-pruned n bs)

kept-prune_finalized :
    (outcomes : Outcomes) (fin : Header) (cached : StoredBlock) (blocks pruned : List StoredBlock)
    → fin.number < max_u64
    → prune_finalized outcomes fin cached blocks ≡ ok pruned
    → keep (λ b. ltb fin.number b.block_number) pruned
      ≡ keep (λ b. ltb fin.number b.block_number) blocks
unfolding prune_finalized prune_old_blocks
kept-prune_finalized outcomes fin cached blocks pruned h e =
    ground (arith, keep-pruned fin.number blocks)

-- Pruning the finalized blocks removes none of the rows that are compared.
pub compared-prune_finalized :
    (outcomes : Outcomes) (fin : Header) (cached : StoredBlock) (blocks pruned : List StoredBlock)
    → fin.number < max_u64
    → prune_finalized outcomes fin cached blocks ≡ ok pruned
    → compared fin.number pruned ≡ compared fin.number blocks
compared-prune_finalized outcomes fin cached blocks pruned h e =
    ap (order_by by_number) (kept-prune_finalized outcomes fin cached blocks pruned h e)

verify_by_check :
    (chain : ChainView) (view : ℕ → Header) (bs : List StoredBlock) (k : ℕ) (b : StoredBlock)
    → ((ns : List ℕ) → chain.stored_headers ns ≡ ok (map view ns))
    → In b bs
    → check_stored (answered view bs) bs ≡ err (Error.reorg_detected k)
    → verify_non_finalized chain bs ≡ err (Error.reorg_detected k)
unfolding verify_non_finalized
verify_by_check chain view [] k b a i e = absurd i
verify_by_check chain view (c ∷ cs) k b a i e =
    rw (a (map (λ x. x.block_number) (c ∷ cs))) (unfold check_stored in e)

-- With a stale row the comparison returns the lowest stale number.
pub verify_non_finalized-stale :
    (chain : ChainView) (view : ℕ → Header) (finalized : ℕ) (blocks : List StoredBlock)
    (b : StoredBlock)
    → Answers chain view
    → In b blocks
    → finalized < b.block_number
    → stale view b ≡ true
    → (k : ℕ) × (verify_non_finalized chain (compared finalized blocks)
        ≡ err (Error.reorg_detected k))
      × LowestStale view (compared finalized blocks) k
verify_non_finalized-stale chain view finalized blocks b a i lt s =
    let later = compared finalized blocks in
    let j =
      In-order_by by_number b _
        (In-keep (λ d. ltb finalized d.block_number) b blocks (lt→ltb _ _ lt) i) in
    let (k, e, low) =
      check_stored-stale view b later a.0
        (Ordered-order_by by_number (λ x y h. ground arith) (λ x y z g h. ground arith)
          (keep (λ d. ltb finalized d.block_number) blocks))
        j s in
    (k, verify_by_check chain view later k b a.1 j e, low)

in_tx_err :
    (blocks : List StoredBlock) (r : Result (List Header × List StoredBlock)) (e : Error)
    → r ≡ err e
    → in_tx blocks r ≡ (err e, blocks)
in_tx_err blocks r e h = rw h

prune_finalized_succeeds :
    (fin : Header) (cached : StoredBlock) (blocks : List StoredBlock)
    → (pruned : List StoredBlock) × (prune_finalized all_succeed fin cached blocks ≡ ok pruned)
unfolding prune_finalized prune_old_blocks
prune_finalized_succeeds fin cached blocks = elim (Bool-cases (cached.block_hash == fin.hash)) [
  | inl e ↦ (keep (λ b. leb (u64_add fin.number 1) b.block_number) blocks, rw e)
  | inr e ↦ (blocks, rw e)
]

-- The call at a stale row, with no failing statement.
verify_steps :
    (save : Save) (chain : ChainView) (logs : List Log) (from to k : ℕ) (blocks : List StoredBlock)
    (fin : Header)
    → chain.finalized ≡ ok fin
    → fin.number < max_u64
    → verify_non_finalized chain (compared fin.number blocks) ≡ err (Error.reorg_detected k)
    → verify_and_record_blocks all_succeed save chain logs from to blocks
      ≡ (err (Error.reorg_detected k), blocks)
unfolding verify_and_record_blocks get_stored_block get_stored_blocks_after
verify_steps save chain logs from to k blocks fin f h e =
    let cached = block_or_zero (find (λ b. b.block_number == fin.number) blocks) in
    let (pruned, p) = prune_finalized_succeeds fin cached blocks in
    simp (f, p) (simp (compared-prune_finalized all_succeed fin cached blocks pruned h p, e))

-- Where a row above the finalized block is stale and no statement fails, the call reports the
-- lowest stale row above the finalized block as the first reorganised block, and leaves the table
-- as it was.
pub verify_and_record_blocks_detects :
    (save : Save) (chain : ChainView) (view : ℕ → Header) (logs : List Log) (from to : ℕ)
    (blocks : List StoredBlock) (fin : Header) (b : StoredBlock)
    → Answers chain view
    → chain.finalized ≡ ok fin
    → fin.number < max_u64
    → In b blocks
    → fin.number < b.block_number
    → stale view b ≡ true
    → (c : StoredBlock) × (verify_and_record_blocks all_succeed save chain logs from to blocks
        ≡ (err (Error.reorg_detected c.block_number), blocks))
      × In c blocks
      × (fin.number < c.block_number)
      × (stale view c ≡ true)
      × ((d : StoredBlock)
          → In d blocks
          → fin.number < d.block_number
          → stale view d ≡ true
          → c.block_number ≤ d.block_number)
verify_and_record_blocks_detects save chain view logs from to blocks fin b a f h i lt s =
    let above = λ (d : StoredBlock). ltb fin.number d.block_number in
    let (k, e, low) = verify_non_finalized-stale chain view fin.number blocks b a i lt s in
    let (c, j, n, t) = low.0 in
    let (j', above_c) =
      In-keep_inv above c blocks (In-order_by_inv by_number c (keep above blocks) j) in
    (
      c,
      verify_steps save chain logs from to c.block_number blocks fin f h
          (e ∙ ap (λ m. err (Error.reorg_detected m)) (sym n)),
      j',
      ltb→lt _ _ above_c,
      t,
      λ d q l u. omega (
        arith,
        n,
        low.1 d
            (In-order_by by_number d (keep above blocks) (In-keep above d blocks (lt→ltb _ _ l) q))
            u,
      ),
    )
