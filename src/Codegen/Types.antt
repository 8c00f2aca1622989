-- ===== src/Codegen/Types.antt =====
-- internal/codegen/types.go: names and types of Go and of SQL for the parts of an event.
pub mod Snake
use Prim.Native.String.{String}
use chain_indexor.Prelude.{
  ℕ, zero, suc, ◌-◌, Bool, true, false, not, ◌&&◌, ◌||◌, List, [], ◌∷◌, ◌++◌, map, any, keep,
  Option, none, some, ltb, leb, ◌==◌, codes, same_text, has_prefix, is_upper, is_lower, lower,
  to_lower, if◌then◌else◌,
}
use chain_indexor.Rpc.Number.{parse_uint64_or_hex}
use chain_indexor.Codegen.{EventParam, cut_prefix, cut_suffix, cut_size, among, text_length}

abbrev is_text : String → List ℕ → Bool
is_text s text = same_text (codes s) text

unfoldable pub has_suffix : List ℕ → List ℕ → Bool
unfolding cut_suffix
has_suffix suffix text = elim (cut_suffix suffix text) [ none ↦ false | some before ↦ true ]

-- The size after "uint" or "int"; a missing one does not parse.
abbrev size_exceeds_64 : Option ℕ → Bool
size_exceeds_64 none = true
size_exceeds_64 (some size) = ltb 64 size

abbrev exceeds_after : Option (List ℕ) → Bool
exceeds_after none = false
exceeds_after (some after) = size_exceeds_64 (parse_uint64_or_hex (some after))

unfoldable pub is_int_size_larger_than_64 : List ℕ → List ℕ → Bool
unfolding cut_prefix
is_int_size_larger_than_64 typ int_type = exceeds_after (cut_prefix int_type typ)

unfoldable pub base_go_type : List ℕ → List ℕ
unfolding is_int_size_larger_than_64 has_prefix
base_go_type typ =
    if is_text "address" typ
    then codes "common.Address"
    else if is_text "bool" typ
    then codes "bool"
    else if is_text "string" typ
    then codes "string"
    else if is_text "bytes" typ
    then codes "[]byte"
    else if has_prefix (codes "bytes") typ
    then (if is_text "bytes32" typ then codes "common.Hash" else codes "[]byte")
    else if has_prefix (codes "uint") typ
    then (if is_int_size_larger_than_64 typ (codes "uint") then codes "string" else codes "uint64")
    else if has_prefix (codes "int") typ
    then (if is_int_size_larger_than_64 typ (codes "int") then codes "string" else codes "int64")
    else codes "interface{}"

-- The text before "[]" or before a size in brackets.
unfoldable pub element_type : List ℕ → Option (List ℕ)
unfolding cut_suffix cut_size
element_type typ = elim (cut_suffix (codes "[]") typ) [
  | some base ↦ some base
  | none ↦ cut_size typ
]

-- `GoTypeName`, on fuel for its recursion; an element type is shorter.
unfoldable pub go_type : ℕ → List ℕ → List ℕ
unfolding base_go_type element_type
go_type zero typ = base_go_type typ
go_type (suc fuel) typ = elim (element_type typ) [
  | none ↦ base_go_type typ
  | some base ↦ codes "[]" ++ go_type fuel base
]

unfoldable pub go_type_name : List ℕ → List ℕ
unfolding go_type
go_type_name typ = go_type (text_length typ) typ

-- strings.TrimPrefix
abbrev trim_prefix : List ℕ → List ℕ → List ℕ
trim_prefix prefix text = elim (cut_prefix prefix text) [ none ↦ text | some rest ↦ rest ]

abbrev text_sizes : List String
text_sizes = "" ∷ "256" ∷ "128" ∷ "120" ∷ "112" ∷ "104" ∷ "96" ∷ "88" ∷ "80" ∷ "72" ∷ []

-- An array without a prefix of its own takes the default, which is also TEXT.
unfoldable pub db_type_name : List ℕ → List ℕ
unfolding cut_prefix has_prefix
db_type_name typ =
    if is_text "address" typ
    then codes "TEXT"
    else if is_text "bool" typ
    then codes "BOOLEAN"
    else if is_text "string" typ
    then codes "TEXT"
    else if is_text "bytes" typ
    then codes "BLOB"
    else if has_prefix (codes "bytes") typ
    then codes "TEXT"
    else if has_prefix (codes "uint") typ || has_prefix (codes "int") typ
    then (if among text_sizes (trim_prefix (codes "int") (trim_prefix (codes "uint") typ))
        then codes "TEXT"
        else codes "INTEGER")
    else codes "TEXT"

-- A lower-case letter follows.
abbrev next_is_lower : List ℕ → Bool
next_is_lower [] = false
next_is_lower (c ∷ cs) = is_lower c

-- The rest of `ToSnakeCase` after a character; at the start there is none.
abbrev breaks_before : Option ℕ → ℕ → List ℕ → Bool
breaks_before none c rest = false
breaks_before (some previous) c rest = is_upper c && (is_lower previous || next_is_lower rest)

unfoldable pub snake_loop : Option ℕ → List ℕ → List ℕ
snake_loop previous [] = []
snake_loop previous (c ∷ rest) =
    let more = snake_loop (some c) rest in
    if breaks_before previous c rest then b'_' ∷ lower c ∷ more else lower c ∷ more

unfoldable pub to_snake_case : List ℕ → List ℕ
unfolding snake_loop
to_snake_case s = snake_loop none s

abbrev address_fields : List String
address_fields = "from" ∷ "to" ∷ "owner" ∷ "spender" ∷ "sender" ∷ "recipient" ∷ []

unfoldable pub db_field_name : List ℕ → List ℕ
unfolding to_snake_case has_suffix
db_field_name name =
    let snake = to_snake_case name in
    if any (λ f. is_text f snake || has_suffix (b'_' ∷ codes f) snake) address_fields
    then snake ++ codes "_address"
    else snake

abbrev tag_of : List ℕ → String → List ℕ
tag_of field suffix = codes "meddler:\"" ++ field ++ codes suffix ++ codes "\""

unfoldable pub meddler_tag : EventParam → List ℕ
unfolding db_field_name go_type_name
meddler_tag p =
    if is_text "common.Address" (go_type_name p.type_name)
    then tag_of (db_field_name p.name) ",address"
    else if is_text "common.Hash" (go_type_name p.type_name)
    then tag_of (db_field_name p.name) ",hash"
    else tag_of (db_field_name p.name) ""

abbrev is_vowel : ℕ → Bool
is_vowel c = any (λ v. v == lower c) (codes "aeiou")

abbrev ends_in : List String → List ℕ → Bool
ends_in suffixes word = any (λ s. has_suffix (codes s) word) suffixes

-- The text before a final "y" that a consonant stands before.
unfoldable pub before_consonant_y : List ℕ → Option (List ℕ)
before_consonant_y [] = none
before_consonant_y (c ∷ []) = none
before_consonant_y (c ∷ d ∷ rest) =
    if is_text "y" (d ∷ rest)
    then (if is_vowel c then none else some (c ∷ []))
    else elim (before_consonant_y (d ∷ rest)) [ none ↦ none | some before ↦ some (c ∷ before) ]

unfoldable pub pluralize : List ℕ → List ℕ
unfolding has_suffix before_consonant_y
pluralize word =
    if ends_in ("ed" ∷ "en" ∷ "wn" ∷ []) word
    then word
    else if ends_in ("s" ∷ "x" ∷ "z" ∷ "ch" ∷ "sh" ∷ []) word
    then word ++ codes "es"
    else elim (before_consonant_y word) [
      | some before ↦ before ++ codes "ies"
      | none ↦ word ++ codes "s"
    ]

unfoldable pub table_name : List ℕ → List ℕ
unfolding to_snake_case pluralize
table_name event_name = pluralize (to_snake_case event_name)
