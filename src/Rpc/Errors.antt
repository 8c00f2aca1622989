-- ===== src/Rpc/Errors.antt =====
-- internal/rpc/errors.go: the node's "too many results" error and the block range that it suggests.
-- The two regular expressions are written as the matchers that they stand for.
use chain_indexor.Prelude.{
  codes, ℕ, Bool, true, false, ◌&&◌, ◌||◌, Option, none, some, List, [], ◌∷◌, leb, ◌==◌,
  if◌then◌else◌,
}
use chain_indexor.Types.{Error}
use chain_indexor.Rpc.Number.{is_decimal, is_hex, parse_uint64_or_hex}

infixl 5 ◌>>=◌
abbrev ◌>>=◌ : {A B : Type 0} → Option A → (A → Option B) → Option B
none >>= f = none
some a >>= f = f a

-- What follows a literal prefix.
unfoldable pub strip : List ℕ → List ℕ → Option (List ℕ)
strip [] text = some text
strip (p ∷ ps) [] = none
strip (p ∷ ps) (c ∷ cs) = let rest = strip ps cs in if p == c then rest else none

-- The longest run of characters of a class, and what follows it.
unfoldable pub span : (ℕ → Bool) → List ℕ → List ℕ × List ℕ
span class [] = ([], [])
span class (c ∷ cs) =
    let (run, rest) = span class cs in if class c then (c ∷ run, rest) else ([], c ∷ cs)

abbrev begins : Option (List ℕ) → Bool
begins none = false
begins (some _) = true

-- \d+ results
abbrev count_results : List ℕ × List ℕ → Bool
count_results ([], rest) = false
count_results (d ∷ ds, rest) = begins (strip (codes " results") rest)

abbrev results_follow : Option (List ℕ) → Bool
results_follow none = false
results_follow (some rest) = count_results (span is_decimal rest)

-- `Query returned more than \d+ results`, anywhere in the text.
unfoldable pub mentions_too_many : List ℕ → Bool
unfolding strip span
mentions_too_many [] = false
mentions_too_many (c ∷ cs) =
    results_follow (strip (codes "Query returned more than ") (c ∷ cs)) || mentions_too_many cs

-- `IsTooManyResultsError`: the error data, if it is such an error.
unfoldable pub is_too_many_results_error : Error → Option (List ℕ)
unfolding mentions_too_many
is_too_many_results_error (Error.data_error text) =
    if mentions_too_many text then some text else none
is_too_many_results_error _ = none

abbrev pub is_space : ℕ → Bool
is_space c = c == 32 || (leb 9 c && leb c 13 && (if c == 11 then false else true))

-- 0x[0-9a-fA-F]+, and what follows.
abbrev pub at_least_one : List ℕ × List ℕ → Option (List ℕ × List ℕ)
at_least_one ([], rest) = none
at_least_one (d ∷ ds, rest) = some (b'0' ∷ b'x' ∷ d ∷ ds, rest)

unfoldable pub hex_number : List ℕ → Option (List ℕ × List ℕ)
unfolding strip span
hex_number text = strip (codes "0x") text >>= λ rest. at_least_one (span is_hex rest)

-- The match at the start of the text of `\[(0x[0-9a-fA-F]+),\s*(0x[0-9a-fA-F]+)\]`: its two groups.
unfoldable pub range_here : List ℕ → Option (List ℕ × List ℕ)
unfolding hex_number
range_here text = do
  after_bracket ← strip (codes "[") text
  (from, rest) ← hex_number after_bracket
  after_comma ← strip (codes ",") rest
  (to, rest') ← hex_number (span is_space after_comma).1
  _ ← strip (codes "]") rest'
  some (from, to)

-- The first match in the text.
unfoldable pub find_range : List ℕ → Option (List ℕ × List ℕ)
unfolding range_here
find_range [] = none
find_range (c ∷ cs) = elim (range_here (c ∷ cs)) [
  | some groups ↦ some groups
  | none ↦ find_range cs
]

unfoldable pub parse_suggested_block_range : List ℕ → Option (ℕ × ℕ)
unfolding find_range parse_uint64_or_hex
parse_suggested_block_range text = do
  (from_text, to_text) ← find_range text
  from ← parse_uint64_or_hex (some from_text)
  to ← parse_uint64_or_hex (some to_text)
  some (from, to)
