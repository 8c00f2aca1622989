-- ===== src/Codegen/Solidity.antt =====
-- The Solidity types that internal/codegen/parser.go accepts, and the regular expressions of the
-- parser as functions.
use Prim.Native.String.{String}
use chain_indexor.Prelude.{
  ℕ, zero, suc, Bool, false, not, ◌&&◌, ◌||◌, List, [], ◌∷◌, any, all, Option, none, some, leb,
  ◌==◌, codes, same_text, is_upper, is_lower, if◌then◌else◌,
}

abbrev pub is_letter : ℕ → Bool
is_letter c = is_upper c || is_lower c

abbrev pub is_decimal : ℕ → Bool
is_decimal c = leb 48 c && leb c 57

-- The characters of [a-zA-Z0-9_].
abbrev pub is_word : ℕ → Bool
is_word c = is_letter c || is_decimal c || c == b'_'

-- ^[a-zA-Z_][a-zA-Z0-9_]*$
unfoldable pub is_identifier : List ℕ → Bool
is_identifier [] = false
is_identifier (c ∷ cs) = (is_letter c || c == b'_') && all is_word cs

-- The text after a prefix.
unfoldable pub cut_prefix : List ℕ → List ℕ → Option (List ℕ)
cut_prefix [] text = some text
cut_prefix (p ∷ ps) [] = none
cut_prefix (p ∷ ps) (c ∷ cs) = if p == c then cut_prefix ps cs else none

-- The text before a suffix; the suffix is not empty.
unfoldable pub cut_suffix : List ℕ → List ℕ → Option (List ℕ)
cut_suffix suffix [] = none
cut_suffix suffix (c ∷ cs) =
    if same_text (c ∷ cs) suffix
    then some []
    else elim (cut_suffix suffix cs) [ none ↦ none | some before ↦ some (c ∷ before) ]

abbrev pub among : List String → List ℕ → Bool
among texts text = any (λ t. same_text (codes t) text) texts

abbrev pub prefixed_among : String → List String → List ℕ → Bool
prefixed_among prefix texts text = elim (cut_prefix (codes prefix) text) [
  | none ↦ false
  | some rest ↦ among texts rest
]

abbrev byte_sizes : List String
byte_sizes =
    "1" ∷ "2" ∷ "3" ∷ "4" ∷ "5" ∷ "6" ∷ "7" ∷ "8" ∷ "9" ∷ "10" ∷ "11" ∷ "12" ∷ "13" ∷ "14" ∷ "15"
    ∷ "16" ∷ "17" ∷ "18" ∷ "19" ∷ "20" ∷ "21" ∷ "22" ∷ "23" ∷ "24" ∷ "25" ∷ "26" ∷ "27" ∷ "28"
    ∷ "29" ∷ "30" ∷ "31" ∷ "32" ∷ []

-- An integer type may leave out its size.
abbrev int_sizes : List String
int_sizes =
    "" ∷ "8" ∷ "16" ∷ "24" ∷ "32" ∷ "40" ∷ "48" ∷ "56" ∷ "64" ∷ "72" ∷ "80" ∷ "88" ∷ "96" ∷ "104"
    ∷ "112" ∷ "120" ∷ "128" ∷ "136" ∷ "144" ∷ "152" ∷ "160" ∷ "168" ∷ "176" ∷ "184" ∷ "192" ∷ "200"
    ∷ "208" ∷ "216" ∷ "224" ∷ "232" ∷ "240" ∷ "248" ∷ "256" ∷ []

unfoldable pub is_base_type : List ℕ → Bool
unfolding cut_prefix
is_base_type typ =
    among ("address" ∷ "bool" ∷ "string" ∷ "bytes" ∷ []) typ
    || prefixed_among "bytes" byte_sizes typ
    || prefixed_among "uint" int_sizes typ
    || prefixed_among "int" int_sizes typ

-- \d+\]$
abbrev pub is_size : List ℕ → Bool
is_size text = elim (cut_suffix (b']' ∷ []) text) [
  | none ↦ false
  | some digits ↦ not (same_text digits []) && all is_decimal digits
]

-- The text before a suffix \[\d+\]$; such a suffix begins at the last `[`.
unfoldable pub cut_size : List ℕ → Option (List ℕ)
unfolding cut_suffix
cut_size [] = none
cut_size (c ∷ cs) =
    if c == b'[' && is_size cs
    then some []
    else elim (cut_size cs) [ none ↦ none | some before ↦ some (c ∷ before) ]

-- The element type of an array type; the element of an array of fixed size is an identifier.
abbrev if_identifier : Option (List ℕ) → Option (List ℕ)
if_identifier none = none
if_identifier (some base) = if is_identifier base then some base else none

unfoldable pub array_base : List ℕ → Option (List ℕ)
unfolding cut_suffix cut_size
array_base typ = elim (cut_suffix (codes "[]") typ) [
  | some base ↦ some base
  | none ↦ if_identifier (cut_size typ)
]

-- `isValidSolidityType`, on fuel for its recursion; the element type is shorter.
unfoldable pub is_valid_type : ℕ → List ℕ → Bool
is_valid_type zero typ = false
is_valid_type (suc fuel) typ =
    is_base_type typ
    || (elim (array_base typ) [ none ↦ false | some base ↦ is_valid_type fuel base ])

abbrev pub text_length : List ℕ → ℕ
text_length [] = 0
text_length (c ∷ cs) = suc (text_length cs)

unfoldable pub is_valid_solidity_type : List ℕ → Bool
unfolding is_valid_type array_base is_base_type
is_valid_solidity_type typ = is_valid_type (suc (text_length typ)) typ
