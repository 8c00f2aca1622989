-- ===== src/Detector/Success.antt =====
-- Successful calls of `VerifyAndRecordBlocks`.
use chain_indexor.Prelude.{
  ℕ, ◌<◌, Bool, true, false, ◌≡◌, refl, none, some, List, [], ◌∷◌, ◌++◌, arith, ◌==◌, any, In, inl,
  inr,
}
use mathlib.Core.Path.{subst}
use chain_indexor.Types.{Log, Header, Result, ok, err, Done, >>=-ok}
use chain_indexor.Detector.{
  StoredBlock, Query, Outcomes, exec, ChainView, Save, get_stored_block, tolerate_no_rows,
  prune_finalized, get_stored_blocks_after, verify_non_finalized, block_numbers, log_block_hash,
  agrees, check_logs, check_chain, record_blocks, record_range, finish, in_tx,
  verify_and_record_blocks,
}
use chain_indexor.Detector.Detection.{compared}

in_tx_ok :
    (blocks : List StoredBlock) (r : Result (List Header × List StoredBlock))
    (headers : List Header)
    → (in_tx blocks r).0 ≡ ok headers
    → r ≡ ok (headers, (in_tx blocks r).1)
in_tx_ok blocks (ok (hs, bs)) headers h = ground arith
in_tx_ok blocks (err e) headers h = cc

get_stored_blocks_after_ok :
    (outcomes : Outcomes) (n : ℕ) (blocks later : List StoredBlock)
    → get_stored_blocks_after outcomes n blocks ≡ ok later
    → later ≡ compared n blocks
unfolding get_stored_blocks_after
get_stored_blocks_after_ok outcomes n blocks later h = ground arith

-- The steps of a call that returns headers.
pub verify_and_record_blocks_ok :
    (outcomes : Outcomes) (save : Save) (chain : ChainView) (logs : List Log) (from to : ℕ)
    (blocks : List StoredBlock) (headers : List Header)
    → let result = verify_and_record_blocks outcomes save chain logs from to blocks in
      result.0 ≡ ok headers
      → (fin : Header) × (cached : StoredBlock) × (pruned : List StoredBlock) × (numbers : List ℕ)
        × (chain.finalized ≡ ok fin)
        × (tolerate_no_rows (get_stored_block outcomes fin.number blocks) ≡ ok cached)
        × (prune_finalized outcomes fin cached blocks ≡ ok pruned)
        × (verify_non_finalized chain (compared fin.number pruned) ≡ ok tt)
        × (block_numbers fin.number from to ≡ ok numbers)
        × (finish outcomes save chain fin.number logs numbers blocks pruned
            ≡ ok (headers, result.1))
unfolding verify_and_record_blocks
verify_and_record_blocks_ok outcomes save chain logs from to blocks headers h =
    let out : List Header × List StoredBlock =
      (headers, (verify_and_record_blocks outcomes save chain logs from to blocks).1) in
    let (_, _, e₁) = >>=-ok (exec outcomes Query.begin_tx tt) _ out (in_tx_ok blocks _ headers h) in
    let (fin, f, e₂) = >>=-ok chain.finalized _ out e₁ in
    let (cached, c, e₃) =
      >>=-ok (tolerate_no_rows (get_stored_block outcomes fin.number blocks)) _ out e₂ in
    let (pruned, p, e₄) = >>=-ok (prune_finalized outcomes fin cached blocks) _ out e₃ in
    let (later, l, e₅) = >>=-ok (get_stored_blocks_after outcomes fin.number pruned) _ out e₄ in
    let (_, v, e₆) = >>=-ok (verify_non_finalized chain later) _ out e₅ in
    let (numbers, n, e₇) = >>=-ok (block_numbers fin.number from to) _ out e₆ in
    (
      fin,
      cached,
      pruned,
      numbers,
      f,
      c,
      p,
      subst (λ bs. verify_non_finalized chain bs ≡ ok tt)
          (get_stored_blocks_after_ok outcomes fin.number pruned later l) v,
      n,
      e₇,
    )

-- Each header names the one before it as its parent.
abbrev pub Linked : List Header → Type 0
Linked [] = Unit
Linked (h ∷ []) = Unit
Linked (h ∷ g ∷ hs) = (g.parent_hash ≡ h.hash) × Linked (g ∷ hs)

check_chain-Linked : (hs : List Header) (r : Done) → check_chain hs ≡ ok r → Linked hs
unfolding check_chain
check_chain-Linked [] r e = tt
check_chain-Linked (h ∷ []) r e = tt
check_chain-Linked (h ∷ g ∷ hs) r e = (ground arith, check_chain-Linked (g ∷ hs) r (ground arith))

abbrev same_block : ℕ → Log → Bool
same_block n l = l.block_number == n

log_block_hash-none :
    (finalized : ℕ) (ys : List Log) (n : ℕ)
    → any (same_block n) ys ≡ false
    → log_block_hash finalized ys n ≡ none
unfolding log_block_hash
log_block_hash-none finalized [] n h = refl
log_block_hash-none finalized (y ∷ ys) n h = ground (arith, log_block_hash-none finalized ys n)

log_block_hash_last :
    (finalized : ℕ) (xs : List Log) (l : Log) (ys : List Log)
    → finalized < l.block_number
    → any (same_block l.block_number) ys ≡ false
    → log_block_hash finalized (xs ++ l ∷ ys) l.block_number ≡ some l.block_hash
unfolding log_block_hash
log_block_hash_last finalized [] l ys h n =
    ground (arith, log_block_hash-none finalized ys l.block_number)
log_block_hash_last finalized (x ∷ xs) l ys h n =
    ground (arith, log_block_hash_last finalized xs l ys)

check_logs_agree :
    (finalized : ℕ) (logs : List Log) (hs : List Header) (h : Header) (r : Done)
    → check_logs finalized logs hs ≡ ok r
    → In h hs
    → agrees (log_block_hash finalized logs h.number) h.hash ≡ true
unfolding check_logs
check_logs_agree finalized logs [] h r e i = absurd i
check_logs_agree finalized logs (g ∷ gs) h r e (inl p) =
    subst (λ x. agrees (log_block_hash finalized logs x.number) x.hash ≡ true) p (ground arith)
check_logs_agree finalized logs (g ∷ gs) h r e (inr i) =
    check_logs_agree finalized logs gs h r (ground arith) i

agrees_last :
    (finalized : ℕ) (xs : List Log) (l : Log) (ys : List Log) (h : Header)
    → finalized < l.block_number
    → any (same_block l.block_number) ys ≡ false
    → h.number ≡ l.block_number
    → agrees (log_block_hash finalized (xs ++ l ∷ ys) h.number) h.hash ≡ true
    → l.block_hash ≡ h.hash
agrees_last finalized xs l ys h f n m a = ground (arith, log_block_hash_last finalized xs l ys)

pub record_range_checked :
    (outcomes : Outcomes) (save : Save) (chain : ChainView) (finalized : ℕ) (logs : List Log)
    (numbers : List ℕ) (blocks : List StoredBlock) (headers : List Header)
    (blocks' : List StoredBlock)
    → record_range outcomes save chain finalized logs numbers blocks ≡ ok (headers, blocks')
    → (chain.range_headers numbers ≡ ok headers)
      × (check_logs finalized logs headers ≡ ok tt)
      × (check_chain headers ≡ ok tt)
      × (record_blocks save headers blocks ≡ ok blocks')
unfolding record_range
record_range_checked outcomes save chain finalized logs numbers blocks headers blocks' h =
    let out : List Header × List StoredBlock = (headers, blocks') in
    let (hs, a, e₁) = >>=-ok (chain.range_headers numbers) _ out h in
    let (_, b, e₂) = >>=-ok (check_logs finalized logs hs) _ out e₁ in
    let (_, c, e₃) = >>=-ok (check_chain hs) _ out e₂ in
    let (bs, d, e₄) = >>=-ok (record_blocks save hs blocks) _ out e₃ in
    let p : hs ≡ headers = ground arith in let q : bs ≡ blocks' = ground arith in ground arith

-- What the headers of a successful call satisfy, with the logs of the call.
abbrev pub Consistent : ℕ → List Log → List Header → Type 0
Consistent finalized logs headers =
    Linked headers
    × ((xs : List Log) (l : Log) (ys : List Log) (h : Header)
        → logs ≡ xs ++ l ∷ ys
        → any (λ y. y.block_number == l.block_number) ys ≡ false
        → finalized < l.block_number
        → In h headers
        → h.number ≡ l.block_number
        → l.block_hash ≡ h.hash)

checked_Consistent :
    (finalized : ℕ) (logs : List Log) (headers : List Header)
    → check_logs finalized logs headers ≡ ok tt
    → check_chain headers ≡ ok tt
    → Consistent finalized logs headers
checked_Consistent finalized logs headers a c = (
  check_chain-Linked headers tt c,
  λ xs l ys h e n f i m. agrees_last finalized xs l ys h f n m (
      subst (λ ls. agrees (log_block_hash finalized ls h.number) h.hash ≡ true) e
        (check_logs_agree finalized logs headers h tt a i)),
)

finish-Consistent :
    (outcomes : Outcomes) (save : Save) (chain : ChainView) (finalized : ℕ) (logs : List Log)
    (numbers : List ℕ) (blocks pruned : List StoredBlock) (headers : List Header)
    (blocks' : List StoredBlock)
    → finish outcomes save chain finalized logs numbers blocks pruned ≡ ok (headers, blocks')
    → Consistent finalized logs headers
unfolding finish
finish-Consistent outcomes save chain finalized logs [] blocks pruned headers blocks' h =
    let e : [] ≡ headers = ground arith in
    subst (Consistent finalized logs) e (tt, λ xs l ys h q n f i m. absurd i)
finish-Consistent outcomes save chain finalized logs (m ∷ ms) blocks pruned headers blocks' h =
    let (_, a, c, _) =
      record_range_checked outcomes save chain finalized logs (m ∷ ms) pruned headers blocks' h in
    checked_Consistent finalized logs headers a c

-- The headers that a successful call returns form a chain by their parent hashes, and agree with
-- the last of the given logs of each block above the finalized one.
pub verify_and_record_blocks-Consistent :
    (outcomes : Outcomes) (save : Save) (chain : ChainView) (logs : List Log) (from to : ℕ)
    (blocks : List StoredBlock) (headers : List Header)
    → (verify_and_record_blocks outcomes save chain logs from to blocks).0 ≡ ok headers
    → (fin : Header) × (chain.finalized ≡ ok fin) × Consistent fin.number logs headers
verify_and_record_blocks-Consistent outcomes save chain logs from to blocks headers h =
    let (fin, cached, pruned, numbers, f, _, _, _, _, e) =
      verify_and_record_blocks_ok outcomes save chain logs from to blocks headers h in
    (
      fin,
      f,
      finish-Consistent outcomes save chain fin.number logs numbers blocks pruned headers
          (verify_and_record_blocks outcomes save chain logs from to blocks).1 e,
    )
