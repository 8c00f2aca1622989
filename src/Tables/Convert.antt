-- ===== src/Tables/Convert.antt =====
-- The two conversions of a log, and the laws of the UNIQUE constraints.
use chain_indexor.Prelude.{
  ◌≤◌, ℕ, Bool, true, false, ◌≡◌, refl, List, [], ◌∷◌, ◌++◌, arith, length, any, any-append,
  Bool-cases, inl, inr, keep,
}
use chain_indexor.Types.{Log}
use chain_indexor.Tables.{eth_log_to_db_log, db_log_to_eth_log, unique, insert_or_ignore}

-- A log with at most four topics, which is all that the chain allows, is read back as it was stored,
-- but for its block timestamp, which becomes 0, and its `Removed` flag, which becomes false: the
-- table has no column for them.
pub db_log_to_eth_log-eth_log_to_db_log :
    (log : Log)
    → length log.topics ≤ 4
    → db_log_to_eth_log (eth_log_to_db_log log)
      ≡ record log { block_timestamp = 0; removed = false }
unfolding db_log_to_eth_log eth_log_to_db_log
db_log_to_eth_log-eth_log_to_db_log log h = go log.topics h refl
  where
    go :
        (ts : List ℕ)
        → length ts ≤ 4
        → log.topics ≡ ts
        → db_log_to_eth_log (eth_log_to_db_log log)
          ≡ record log { block_timestamp = 0; removed = false }
    go [] h e = ground arith
    go (a ∷ []) h e = ground arith
    go (a ∷ b ∷ []) h e = ground arith
    go (a ∷ b ∷ c ∷ []) h e = ground arith
    go (a ∷ b ∷ c ∷ d ∷ []) h e = ground arith
    go (a ∷ b ∷ c ∷ d ∷ x ∷ ts) h e = absurd (omega arith)

module _ {ℓ} {A : Type ℓ} (same : A → A → Bool) (same_sym : (x y : A) → same x y ≡ same y x) where
  unique_snoc :
      (x : A) (rows : List A)
      → unique same rows ≡ true
      → any (same x) rows ≡ false
      → unique same (rows ++ x ∷ []) ≡ true
  unique_snoc x [] u n = refl
  unique_snoc x (y ∷ ys) u n =
      ground (arith, unique_snoc x ys, any-append (same y) ys (x ∷ []), same_sym x y)

  -- The statement keeps the constraint.
  pub unique-insert_or_ignore :
      (x : A) (rows : List A)
      → unique same rows ≡ true
      → unique same (insert_or_ignore same x rows) ≡ true
  unique-insert_or_ignore x rows u = elim (Bool-cases (any (same x) rows)) [
    | inl e ↦ rw e u
    | inr e ↦ rw e (unique_snoc x rows u e)
  ]

any-keep-false {ℓ} :
    {A : Type ℓ} (p q : A → Bool) (rows : List A) → any p rows ≡ false → any p (keep q rows) ≡ false
any-keep-false p q [] h = refl
any-keep-false p q (x ∷ xs) h = ground (arith, any-keep-false p q xs)

-- Deleting rows keeps the constraint.
pub unique-keep {ℓ} :
    {A : Type ℓ} (same : A → A → Bool) (q : A → Bool) (rows : List A)
    → unique same rows ≡ true
    → unique same (keep q rows) ≡ true
unique-keep same q [] u = refl
unique-keep same q (x ∷ xs) u = ground (arith, unique-keep same q xs, any-keep-false (same x) q xs)
