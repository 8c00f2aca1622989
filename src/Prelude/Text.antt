-- ===== src/Prelude/Text.antt =====
-- Texts: the native `String` where texts are compared, and the list of their characters where the
-- program walks them. Go's `strings` functions are written for ASCII: any other character is no
-- white space and no letter.
use Prim.Native.Nat.{ℕ, ◌+◌}
use Prim.Native.Char.{code}
use Prim.Native.String.{String}
use mathlib.Core.Path.{◌≡◌}
use mathlib.Core.Logic.{◌↔◌}
use mathlib.Core.Bool.{Bool, true, false, ◌&&◌, ◌||◌}
use mathlib.Core.List.{List, [], ◌∷◌, map}
use native.Mathlib.Omega.{arith}
use chain_indexor.Prelude.Tests.{leb, ◌==◌, if◌then◌else◌}

-- The characters of a text.
abbrev pub codes : String → List ℕ
codes String.[] = []
codes (String.◌∷◌ c s) = code c ∷ codes s

unfoldable pub same_text : List ℕ → List ℕ → Bool
same_text [] [] = true
same_text (x ∷ xs) (y ∷ ys) = x == y && same_text xs ys
same_text _ _ = false

pub same_text_iff : (xs ys : List ℕ) → (same_text xs ys ≡ true) ↔ (xs ≡ ys)
unfolding same_text
same_text_iff (x ∷ xs) (y ∷ ys) = ground (arith, same_text_iff xs ys)
same_text_iff _ _ = ground arith

-- strings.HasPrefix
unfoldable pub has_prefix : List ℕ → List ℕ → Bool
has_prefix [] text = true
has_prefix (p ∷ ps) [] = false
has_prefix (p ∷ ps) (c ∷ cs) = p == c && has_prefix ps cs

-- strings.Contains
unfoldable pub contains_text : List ℕ → List ℕ → Bool
unfolding has_prefix
contains_text part [] = has_prefix part []
contains_text part (c ∷ cs) = has_prefix part (c ∷ cs) || contains_text part cs

abbrev pub is_upper : ℕ → Bool
is_upper c = leb 65 c && leb c 90

abbrev pub is_lower : ℕ → Bool
is_lower c = leb 97 c && leb c 122

abbrev pub lower : ℕ → ℕ
lower c = if is_upper c then c + 32 else c

-- strings.ToLower
unfoldable pub to_lower : List ℕ → List ℕ
to_lower text = map lower text

abbrev pub is_blank : ℕ → Bool
is_blank c = c == 32 || (leb 9 c && leb c 13)

unfoldable pub trim_left : List ℕ → List ℕ
trim_left [] = []
trim_left (c ∷ cs) = let rest = trim_left cs in if is_blank c then rest else c ∷ cs

-- The rest of a text without the white space that ends it.
unfoldable pub trim_right : List ℕ → List ℕ
trim_right [] = []
trim_right (c ∷ cs) = elim (trim_right cs) [
  | [] ↦ if is_blank c then [] else c ∷ []
  | d ∷ ds ↦ c ∷ d ∷ ds
]

-- strings.TrimSpace
unfoldable pub trim_space : List ℕ → List ℕ
unfolding trim_left trim_right
trim_space text = trim_right (trim_left text)
