-- ===== src/Prelude/Sort.antt =====
-- `ORDER BY`: insertion sort by a Boolean order, stable.
use mathlib.Core.Path.{◌≡◌, refl, ◌∙◌, ap, subst}
use mathlib.Core.Bool.{Bool, true, false, ◌||◌}
use mathlib.Core.List.{List, [], ◌∷◌}
use native.Mathlib.Omega.{arith}
use chain_indexor.Prelude.Tests.{if◌then◌else◌}
use mathlib.Core.Logic.{inl, inr}
use chain_indexor.Prelude.Lists.{any, All, All-mono, In}
use chain_indexor.Prelude.Tests.{Bool-cases}

module _ {ℓ} {A : Type ℓ} (le : A → A → Bool) where
  abbrev pub insert_sorted : A → List A → List A
  insert_sorted x [] = x ∷ []
  insert_sorted x (y ∷ ys) =
      let rest = insert_sorted x ys in if le x y then x ∷ y ∷ ys else y ∷ rest

  abbrev pub order_by : List A → List A
  order_by [] = []
  order_by (x ∷ xs) = insert_sorted x (order_by xs)

  any-insert_sorted :
      (p : A → Bool) (x : A) (ys : List A) → any p (insert_sorted x ys) ≡ (p x || any p ys)
  any-insert_sorted p x [] = refl
  any-insert_sorted p x (y ∷ ys) = ground (arith, any-insert_sorted p x ys)

  pub any-order_by : (p : A → Bool) (xs : List A) → any p (order_by xs) ≡ any p xs
  any-order_by p [] = refl
  any-order_by p (x ∷ xs) =
      any-insert_sorted p x (order_by xs) ∙ ap (λ b. p x || b) (any-order_by p xs)

  -- Each element comes before all that follow it.
  abbrev pub Ordered : List A → Type 0
  Ordered [] = Unit
  Ordered (x ∷ xs) = All (λ y. le x y ≡ true) xs × Ordered xs

  All-insert_sorted :
      (P : A → Type 0) (x : A) (ys : List A) → P x → All P ys → All P (insert_sorted x ys)
  All-insert_sorted P x [] hx hy = (hx, tt)
  All-insert_sorted P x (y ∷ ys) hx hy = elim (Bool-cases (le x y)) [
    | inl e ↦ rw e (hx, hy)
    | inr e ↦ rw e (hy.0, All-insert_sorted P x ys hx hy.1)
  ]

  module _ (total : (x y : A) → le x y ≡ false → le y x ≡ true)
      (trans : (x y z : A) → le x y ≡ true → le y z ≡ true → le x z ≡ true) where
    Ordered-insert_sorted : (x : A) (ys : List A) → Ordered ys → Ordered (insert_sorted x ys)
    Ordered-insert_sorted x [] h = (tt, tt)
    Ordered-insert_sorted x (y ∷ ys) h = elim (Bool-cases (le x y)) [
      | inl e ↦ rw e ((e, All-mono _ _ (λ z k. trans x y z e k) ys h.0), h)
      | inr e ↦ rw e (
        All-insert_sorted (λ z. le y z ≡ true) x ys (total x y e) h.0,
        Ordered-insert_sorted x ys h.1,
      )
    ]

    pub Ordered-order_by : (xs : List A) → Ordered (order_by xs)
    Ordered-order_by [] = tt
    Ordered-order_by (x ∷ xs) = Ordered-insert_sorted x (order_by xs) (Ordered-order_by xs)

module _ {A : Type 0} (le : A → A → Bool) where
  swap :
      (z x y : A) (ys zs : List A) → (In z (x ∷ ys) → In z zs) → In z (x ∷ y ∷ ys) → In z (y ∷ zs)
  swap z x y ys zs f (inl e) = inr (f (inl e))
  swap z x y ys zs f (inr (inl e)) = inl e
  swap z x y ys zs f (inr (inr k)) = inr (f (inr k))

  In-insert_sorted : (z x : A) (ys : List A) → In z (x ∷ ys) → In z (insert_sorted le x ys)
  In-insert_sorted z x [] h = h
  In-insert_sorted z x (y ∷ ys) h = elim (Bool-cases (le x y)) [
    | inl e ↦ rw e h
    | inr e ↦ rw e (swap z x y ys (insert_sorted le x ys) (In-insert_sorted z x ys) h)
  ]

  pub In-order_by : (z : A) (xs : List A) → In z xs → In z (order_by le xs)
  In-order_by z [] h = h
  In-order_by z (x ∷ xs) (inl e) = In-insert_sorted z x (order_by le xs) (inl e)
  In-order_by z (x ∷ xs) (inr h) = In-insert_sorted z x (order_by le xs) (inr (In-order_by z xs h))

  swap_inv :
      (z x y : A) (ys zs : List A) → (In z zs → In z (x ∷ ys)) → In z (y ∷ zs) → In z (x ∷ y ∷ ys)
  swap_inv z x y ys zs f (inl e) = inr (inl e)
  swap_inv z x y ys zs f (inr i) = past z x y ys (f i)
    where
      past : (z x y : A) (ys : List A) → In z (x ∷ ys) → In z (x ∷ y ∷ ys)
      past z x y ys (inl e) = inl e
      past z x y ys (inr j) = inr (inr j)

  In-insert_sorted_inv : (z x : A) (ys : List A) → In z (insert_sorted le x ys) → In z (x ∷ ys)
  In-insert_sorted_inv z x [] h = h
  In-insert_sorted_inv z x (y ∷ ys) h = elim (Bool-cases (le x y)) [
    | inl e ↦ subst (λ b. In z (if b then x ∷ y ∷ ys else y ∷ insert_sorted le x ys)) e h
    | inr e ↦
        swap_inv z x y ys (insert_sorted le x ys) (In-insert_sorted_inv z x ys)
          (subst (λ b. In z (if b then x ∷ y ∷ ys else y ∷ insert_sorted le x ys)) e h)
  ]

  pub In-order_by_inv : (z : A) (xs : List A) → In z (order_by le xs) → In z xs
  In-order_by_inv z [] h = h
  In-order_by_inv z (x ∷ xs) h =
      tail_in z x xs (In-order_by_inv z xs) (In-insert_sorted_inv z x (order_by le xs) h)
    where
      tail_in :
          (z x : A) (xs : List A)
          → (In z (order_by le xs) → In z xs)
          → In z (x ∷ order_by le xs)
          → In z (x ∷ xs)
      tail_in z x xs f (inl e) = inl e
      tail_in z x xs f (inr i) = inr (f i)
