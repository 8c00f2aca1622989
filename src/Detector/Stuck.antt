-- ===== src/Detector/Stuck.antt =====
-- Sequences of calls of `VerifyAndRecordBlocks` while a stored row differs from the chain.
use chain_indexor.Prelude.{
  ℕ, ◌≤◌, ◌<◌, true, ◌≡◌, ◌∙◌, sym, ap, refl, List, [], ◌∷◌, arith, In, All, max_u64,
}
use chain_indexor.Types.{Log, Header, Error, Result, ok, err}
use chain_indexor.Detector.{StoredBlock, Outcomes, ChainView, Save, in_tx, verify_and_record_blocks}
use chain_indexor.Detector.Detection.{
  Answers, stale, compared-prune_finalized, verify_non_finalized-stale,
}
use chain_indexor.Detector.Success.{verify_and_record_blocks_ok}

-- One call, with what the node and the database answer in it.
pub record Call : Type 0 where
  pub outcomes : Outcomes
  pub save : Save
  pub chain : ChainView
  pub logs : List Log
  pub from : ℕ
  pub to : ℕ

abbrev pub call : Call → List StoredBlock → Result (List Header) × List StoredBlock
call c blocks = verify_and_record_blocks c.outcomes c.save c.chain c.logs c.from c.to blocks

-- During the call the row is above the finalized block, and the chain has another block there.
pub record SeesStale (b : StoredBlock) (c : Call) : Type 0 where
  pub view : ℕ → Header
  pub answers : Answers c.chain view
  pub fin : Header
  pub is_finalized : c.chain.finalized ≡ ok fin
  pub above : fin.number < b.block_number
  pub below_max : b.block_number ≤ max_u64
  pub is_stale : stale view b ≡ true

ok-injective : {A : Type 0} (a b : A) → ok a ≡ ok b → a ≡ b
ok-injective a b h = ground arith

call_not_ok :
    (c : Call) (b : StoredBlock) (blocks : List StoredBlock) (headers : List Header)
    → SeesStale b c
    → In b blocks
    → (call c blocks).0 ≡ ok headers
    → ⊥
call_not_ok c b blocks headers s i h =
    let (fin, cached, pruned, numbers, f, _, p, v, n, e) =
      verify_and_record_blocks_ok c.outcomes c.save c.chain c.logs c.from c.to blocks headers h in
    let same : s.fin ≡ fin = ok-injective s.fin fin (sym s.is_finalized ∙ f) in
    let above : fin.number < b.block_number =
      omega (arith, s.above, ap (λ (x : Header). x.number) same) in
    let below : fin.number < max_u64 = omega (arith, above, s.below_max) in
    let (k, q, _) =
      verify_non_finalized-stale c.chain s.view fin.number blocks b s.answers i above s.is_stale in
    cc (q, v, compared-prune_finalized c.outcomes fin cached blocks pruned below p)

in_tx_fails :
    (blocks : List StoredBlock) (r : Result (List Header × List StoredBlock))
    → ((headers : List Header) → (in_tx blocks r).0 ≡ ok headers → ⊥)
    → (e : Error) × (in_tx blocks r ≡ (err e, blocks))
in_tx_fails blocks (ok (hs, bs)) f = absurd (f hs refl)
in_tx_fails blocks (err e) f = (e, refl)

call_fails :
    (c : Call) (b : StoredBlock) (blocks : List StoredBlock)
    → SeesStale b c
    → In b blocks
    → (e : Error) × (call c blocks ≡ (err e, blocks))
call_fails c b blocks s i =
    unfold verify_and_record_blocks in
    in_tx_fails blocks _ (λ headers. call_not_ok c b blocks headers s i)

-- Calls one after another, each on the table that the one before it left.
pub calls : List Call → List StoredBlock → List StoredBlock × List (Result (List Header))
calls [] blocks = (blocks, [])
calls (c ∷ cs) blocks =
    let (result, blocks') = call c blocks in
    let (last, results) = calls cs blocks' in (last, result ∷ results)

calls_next :
    (c : Call) (cs : List Call) (blocks : List StoredBlock) (e : Error)
    → call c blocks ≡ (err e, blocks)
    → calls (c ∷ cs) blocks ≡ ((calls cs blocks).0, err e ∷ (calls cs blocks).1)
unfolding calls
calls_next c cs blocks e q = rw q

abbrev pub IsErr : Result (List Header) → Type 0
IsErr (ok _) = ⊥
IsErr (err _) = Unit

-- However many calls are made while a stored row stays above the finalized block and differs from
-- the chain: all of them fail, and the table never changes.
pub calls_stuck :
    (b : StoredBlock) (cs : List Call) (blocks : List StoredBlock)
    → In b blocks
    → All (SeesStale b) cs
    → ((calls cs blocks).0 ≡ blocks) × All IsErr (calls cs blocks).1
calls_stuck b [] blocks i s = unfold calls in (refl, tt)
calls_stuck b (c ∷ cs) blocks i s =
    let (e, q) = call_fails c b blocks s.0 i in
    let (same, errs) = calls_stuck b cs blocks i s.1 in
    rw (calls_next c cs blocks e q) (same, (tt, errs))
