-- ===== src/Codegen/Split.antt =====
-- `splitParameters` of internal/codegen/parser.go.
use mathlib.Core.List.{append_assoc, append-nil}
use chain_indexor.Prelude.{
  ℕ, Bool, true, false, not, ◌&&◌, ◌≡◌, refl, sym, ap, ◌∙◌, arith, List, [], ◌∷◌, ◌++◌, All, ◌==◌,
  ℤ, pos, negsuc, is_zero, same_text,
}
use chain_indexor.Codegen.{flush, depth_after, split_loop, split_parameters, join_commas}

-- From a depth on, the parentheses of a text are closed, and no comma stands outside them.
abbrev pub closes : List ℕ → ℤ → Bool
closes [] depth = is_zero depth
closes (c ∷ cs) depth = not (c == b',' && is_zero depth) && closes cs (depth_after c depth)

-- A text of one parameter, which may be a tuple.
abbrev pub IsPart : List ℕ → Type 0
IsPart t = (same_text t [] ≡ false) × (closes t (pos 0) ≡ true)

is_zero_eq : (z : ℤ) → is_zero z ≡ true → z ≡ pos 0
is_zero_eq (pos n) h = ap pos (ground arith)
is_zero_eq (negsuc n) h = ground arith

split_loop-closes :
    (t rest current : List ℕ) (depth : ℤ)
    → closes t depth ≡ true
    → split_loop (t ++ rest) depth current ≡ split_loop rest (pos 0) (current ++ t)
unfolding split_loop
split_loop-closes [] rest current depth h = rw (is_zero_eq depth h, append-nil current) refl
split_loop-closes (c ∷ t) rest current depth h =
    let ih = split_loop-closes t rest (current ++ c ∷ []) (depth_after c depth) (ground arith) in
    let assoc = append_assoc current (c ∷ []) t in ground (arith, ih, assoc)

flush_part : (t : List ℕ) → same_text t [] ≡ false → flush t [] ≡ t ∷ []
unfolding same_text
flush_part [] h = ground arith
flush_part (c ∷ t) h = refl

-- Texts joined with commas are split again, in their order, if each is not empty, closes its
-- parentheses, and has commas only inside them.
pub split_parameters-join_commas :
    (ts : List (List ℕ)) → All IsPart ts → split_parameters (join_commas ts) ≡ ts
unfolding split_parameters join_commas split_loop
split_parameters-join_commas [] _ = refl
split_parameters-join_commas (t ∷ []) ((h, k), _) =
    ap (λ s. split_loop s (pos 0) []) (sym (append-nil t))
    ∙ split_loop-closes t [] [] (pos 0) k
    ∙ flush_part t h
split_parameters-join_commas (t ∷ u ∷ ts) ((h, k), hs) =
    split_loop-closes t (b',' ∷ join_commas (u ∷ ts)) [] (pos 0) k
    ∙ ap (λ rest. t ∷ rest) (split_parameters-join_commas (u ∷ ts) hs)
