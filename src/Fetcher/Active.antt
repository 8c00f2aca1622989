-- ===== src/Fetcher/Active.antt =====
-- The filter of `fetchRange`.
use chain_indexor.Prelude.{
  elem, ℕ, Bool, true, false, not, ltb, Option, none, some, refl, keep, suc, ◌&&◌, ◌≡◌, ◌∙◌, ap,
  sym, List, [], ◌∷◌, arith, ◌==◌, ==_iff, length, Bool-cases, inl, inr,
}
use chain_indexor.Types.{Address, Hash, ok, >>=-ok}
use chain_indexor.Unsynced.{lookup}
use chain_indexor.LogStore.Storing.{listed}
use chain_indexor.Fetcher.{has_started, active_filter}

abbrev pub not_after : Option ℕ → ℕ → Bool
not_after none from = true
not_after (some start) from = not (ltb from start)

has_started-not_after : (o : Option ℕ) (from : ℕ) → has_started o from ≡ not_after o from
has_started-not_after none from = refl
has_started-not_after (some start) from = ground arith

abbrev pub zip {ℓ κ} : {A : Type ℓ} {B : Type κ} → List A → List B → List (A × B)
zip [] ys = []
zip (x ∷ xs) [] = []
zip (x ∷ xs) (y ∷ ys) = (x, y) ∷ zip xs ys

module _ (starts : List (Address × ℕ)) (from : ℕ) where
  -- The address has no start block, or one that is not after `from`.
  abbrev pub started : Address → Bool
  started a = not_after (lookup a starts) from

  has_started-started : (a : Address) → has_started (lookup a starts) from ≡ started a
  has_started-started a = has_started-not_after (lookup a starts) from

  started_eq : (x a : Address) → (x == a) ≡ true → started x ≡ started a
  started_eq x a h = ap started ((==_iff x a).0 h)

  active_skip :
      (x : Address) (xs : List Address) (ts : List Hash) (tss : List (List Hash))
      → started x ≡ false
      → active_filter starts from (x ∷ xs) (ts ∷ tss) ≡ active_filter starts from xs tss
  unfolding active_filter
  active_skip x xs ts tss n = rw (has_started-started x ∙ n, active_filter)

  active_take :
      (x : Address) (xs : List Address) (ts : List Hash) (tss : List (List Hash))
      (ys : List Address) (uss : List (List Hash))
      → started x ≡ true
      → active_filter starts from (x ∷ xs) (ts ∷ tss) ≡ ok (ys, uss)
      → (p : List Address × List (List Hash)) × (active_filter starts from xs tss ≡ ok p)
        × (ys ≡ x ∷ p.0)
        × (uss ≡ ts ∷ p.1)
  unfolding active_filter
  active_take x xs ts tss ys uss n h =
      let (p, q, e) =
        >>=-ok (active_filter starts from xs tss) _ (ys, uss)
          (rw (has_started-started x ∙ n, active_filter) at h) in
      (p, q, ground arith, ground arith)

  taken :
      (x a t : ℕ) (ts : List Hash) (xs : List Address) (tss : List (List Hash)) (ys' : List Address)
      (uss' : List (List Hash)) (ys : List Address) (uss : List (List Hash))
      → started x ≡ true
      → ys ≡ x ∷ ys'
      → uss ≡ ts ∷ uss'
      → elem a ys' ≡ (elem a xs && started a)
      → listed a t ys' uss' ≡ (listed a t xs tss && started a)
      → (elem a ys ≡ (elem a (x ∷ xs) && started a))
        × (listed a t ys uss ≡ (listed a t (x ∷ xs) (ts ∷ tss) && started a))
  taken x a t ts xs tss ys' uss' ys uss s e f i j =
      rw (e, f) (ground (arith, started_eq x a), ground (arith, started_eq x a))

  skipped :
      (x a t : ℕ) (ts : List Hash) (xs : List Address) (tss : List (List Hash)) (ys : List Address)
      (uss : List (List Hash))
      → started x ≡ false
      → elem a ys ≡ (elem a xs && started a)
      → listed a t ys uss ≡ (listed a t xs tss && started a)
      → (elem a ys ≡ (elem a (x ∷ xs) && started a))
        × (listed a t ys uss ≡ (listed a t (x ∷ xs) (ts ∷ tss) && started a))
  skipped x a t ts xs tss ys uss s i j =
      (ground (arith, started_eq x a), ground (arith, started_eq x a))

  elem-and-listed :
      (xs : List Address) (tss : List (List Hash)) (ys : List Address) (uss : List (List Hash))
      (a t : ℕ)
      → length xs ≡ length tss
      → active_filter starts from xs tss ≡ ok (ys, uss)
      → (elem a ys ≡ (elem a xs && started a))
        × (listed a t ys uss ≡ (listed a t xs tss && started a))
  elem-and-listed [] tss ys uss a t n h = unfold active_filter in ground arith
  elem-and-listed (x ∷ xs) [] ys uss a t n h = absurd (omega arith)
  elem-and-listed (x ∷ xs) (ts ∷ tss) ys uss a t n h = elim (Bool-cases (started x)) [
    | inl s ↦
        let (p, q, e, f) = active_take x xs ts tss ys uss s h in
        let (i, j) = elem-and-listed xs tss p.0 p.1 a t (omega arith) q in
        taken x a t ts xs tss p.0 p.1 ys uss s e f i j
    | inr s ↦
        let (i, j) =
          elem-and-listed xs tss ys uss a t (omega arith) (sym (active_skip x xs ts tss s) ∙ h) in
        skipped x a t ts xs tss ys uss s i j
  ]

  zip-active_filter :
      (xs : List Address) (tss : List (List Hash)) (ys : List Address) (uss : List (List Hash))
      → length xs ≡ length tss
      → active_filter starts from xs tss ≡ ok (ys, uss)
      → (length ys ≡ length uss) × (zip ys uss ≡ keep (λ p. started p.0) (zip xs tss))
  zip-active_filter [] tss ys uss n h = unfold active_filter in ground arith
  zip-active_filter (x ∷ xs) [] ys uss n h = absurd (omega arith)
  zip-active_filter (x ∷ xs) (ts ∷ tss) ys uss n h = elim (Bool-cases (started x)) [
    | inl s ↦
        let (p, q, e, f) = active_take x xs ts tss ys uss s h in
        let (i, j) = zip-active_filter xs tss p.0 p.1 (omega arith) q in
        rw (s, e, f) (ap suc i, ap (λ zs. (x, ts) ∷ zs) j)
    | inr s ↦
        rw s (zip-active_filter xs tss ys uss (omega arith) (sym (active_skip x xs ts tss s) ∙ h))
  ]

  -- Of addresses and topics that stand side by side, exactly the pairs stay, in their order, whose
  -- address has no start block or one that is not after `from`; so an address stays, and a topic
  -- with it, if and only if it was there and has started.
  pub active_filter-listed :
      (xs : List Address) (tss : List (List Hash)) (ys : List Address) (uss : List (List Hash))
      → length xs ≡ length tss
      → active_filter starts from xs tss ≡ ok (ys, uss)
      → (length ys ≡ length uss)
        × (zip ys uss ≡ keep (λ p. started p.0) (zip xs tss))
        × ((a t : ℕ)
            → (elem a ys ≡ (elem a xs && started a))
              × (listed a t ys uss ≡ (listed a t xs tss && started a)))
  active_filter-listed xs tss ys uss n h =
      let (same, pairs) = zip-active_filter xs tss ys uss n h in
      (same, pairs, λ a t. elem-and-listed xs tss ys uss a t n h)
