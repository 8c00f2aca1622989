-- ===== src/Codegen/Types/Snake.antt =====
-- `ToSnakeCase` of internal/codegen/types.go.
use chain_indexor.Prelude.{
  ℕ, Bool, true, false, not, ◌≡◌, refl, ap, arith, List, [], ◌∷◌, Option, none, some, all, is_upper,
  lower, Bool-cases, inl, inr,
}
use chain_indexor.Codegen.Types.{breaks_before, snake_loop, to_snake_case}

abbrev pub has_no_upper : List ℕ → Bool
has_no_upper text = all (λ c. not (is_upper c)) text

lower-not_upper : (c : ℕ) → is_upper (lower c) ≡ false
lower-not_upper c = ground arith

lower_fixed : (c : ℕ) → is_upper c ≡ false → lower c ≡ c
lower_fixed c h = ground arith

snake_loop-has_no_upper :
    (previous : Option ℕ) (s : List ℕ) → has_no_upper (snake_loop previous s) ≡ true
unfolding snake_loop
snake_loop-has_no_upper previous [] = refl
snake_loop-has_no_upper previous (c ∷ rest) =
    let ih = snake_loop-has_no_upper (some c) rest in
    elim (Bool-cases (breaks_before previous c rest)) [
      | inl b ↦ rw (b, lower-not_upper c) ih
      | inr b ↦ rw (b, lower-not_upper c) ih
    ]

no_break :
    (previous : Option ℕ) (c : ℕ) (rest : List ℕ)
    → is_upper c ≡ false
    → breaks_before previous c rest ≡ false
no_break none c rest h = refl
no_break (some p) c rest h = rw h refl

snake_loop_fixed :
    (previous : Option ℕ) (s : List ℕ) → has_no_upper s ≡ true → snake_loop previous s ≡ s
unfolding snake_loop
snake_loop_fixed previous [] h = refl
snake_loop_fixed previous (c ∷ rest) h = elim (Bool-cases (is_upper c)) [
  | inl u ↦ ground arith
  | inr u ↦
      (let ih = snake_loop_fixed (some c) rest (ground arith) in
        rw (no_break previous c rest u, lower_fixed c u) (ap (λ cs. c ∷ cs) ih))
]

-- The snake case of a text has no upper-case letter, and is its own snake case.
to_snake_case_idem :
    (s : List ℕ)
    → (has_no_upper (to_snake_case s) ≡ true) × (to_snake_case (to_snake_case s) ≡ to_snake_case s)
unfolding to_snake_case
to_snake_case_idem s = (
  snake_loop-has_no_upper none s,
  snake_loop_fixed none (snake_loop none s) (snake_loop-has_no_upper none s),
)
