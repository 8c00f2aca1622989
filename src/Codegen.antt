-- ===== src/Codegen.antt =====
-- internal/codegen: event signatures are parsed (parser.go), and names and types of Go and of SQL
-- are made from them (types.go, in Codegen/Types). The templates and the files that the generator
-- writes are left out. A text is the list of its characters; as everywhere, only ASCII has letters
-- and white space.
pub mod Types
mod Solidity
unfoldable pub use Solidity.*
pub mod Split
pub mod Signature
use Prim.Native.String.{String}
use chain_indexor.Prelude.{
  ℕ, zero, suc, ◌+◌, ◌/◌, ◌%◌, ◌≤◌, Bool, true, false, not, ◌&&◌, ◌||◌, List, [], ◌∷◌, ◌++◌, map,
  any, all, keep, Option, none, some, ltb, leb, ◌==◌, ℤ, pos, negsuc, is_zero, codes, same_text,
  has_prefix, is_upper, is_lower, is_blank, trim_space, if◌then◌else◌,
}

pub record EventParam : Type 0 where
  pub name : List ℕ
  pub type_name : List ℕ
  pub indexed : Bool

pub record EventSignature : Type 0 where
  pub raw : List ℕ
  pub name : List ℕ
  pub params : List EventParam

pub data ParamError : Type 0 where
  empty_parameter too_many_parts : ParamError
  invalid_type expected_indexed invalid_name : List ℕ → ParamError

pub data SignatureError : Type 0 where
  empty_signature no_opening empty_event_name no_closing : SignatureError
  invalid_event_name : List ℕ → SignatureError
  invalid_parameter : List ℕ → ParamError → SignatureError
  duplicate_parameter : List ℕ → SignatureError

pub data Parsed {ℓ} (E A : Type ℓ) : Type ℓ where
  parsed : A → Parsed E A
  refused : E → Parsed E A

-- ^[A-Z][a-zA-Z0-9_]*$
unfoldable pub is_event_name : List ℕ → Bool
is_event_name [] = false
is_event_name (c ∷ cs) = is_upper c && all is_word cs

-- A text, unless it is empty, before others.
abbrev pub flush : List ℕ → List (List ℕ) → List (List ℕ)
flush [] rest = rest
flush (c ∷ cs) rest = (c ∷ cs) ∷ rest

abbrev pub one_deeper : ℤ → ℤ
one_deeper (pos n) = pos (suc n)
one_deeper (negsuc zero) = pos 0
one_deeper (negsuc (suc n)) = negsuc n

abbrev pub one_out : ℤ → ℤ
one_out (pos zero) = negsuc 0
one_out (pos (suc n)) = pos n
one_out (negsuc n) = negsuc (suc n)

-- The depth after a character.
abbrev pub depth_after : ℕ → ℤ → ℤ
depth_after c depth =
    if c == b'(' then one_deeper depth else if c == b')' then one_out depth else depth

-- The loop of `splitParameters`, at a depth and with the current parameter.
unfoldable pub split_loop : List ℕ → ℤ → List ℕ → List (List ℕ)
split_loop [] depth current = flush current []
split_loop (c ∷ cs) depth current =
    let next = split_loop cs (pos 0) [] in
    let same = split_loop cs (depth_after c depth) (current ++ c ∷ []) in
    if c == b',' && is_zero depth then current ∷ next else same

unfoldable pub split_parameters : List ℕ → List (List ℕ)
split_parameters params_str = split_loop params_str (pos 0) []

-- strings.Fields, with the current field
unfoldable pub fields_loop : List ℕ → List ℕ → List (List ℕ)
fields_loop [] current = flush current []
fields_loop (c ∷ cs) current =
    let next = fields_loop cs [] in
    let same = fields_loop cs (current ++ c ∷ []) in if is_blank c then flush current next else same

unfoldable pub fields : List ℕ → List (List ℕ)
fields text = fields_loop text []

-- The decimal digits of a number; 20 suffice below 2 ^ 64.
unfoldable pub decimal_digits : ℕ → ℕ → List ℕ → List ℕ
decimal_digits zero n rest = rest
decimal_digits (suc fuel) n rest =
    let more = decimal_digits fuel (n / 10) ((n % 10 + 48) ∷ rest) in
    if ltb n 10 then (n + 48) ∷ rest else more

-- fmt.Sprintf("param%d", index)
unfoldable pub param_name : ℕ → List ℕ
unfolding decimal_digits
param_name index = codes "param" ++ decimal_digits 20 index []

abbrev pub is_indexed_word : List ℕ → Bool
is_indexed_word text = same_text text (codes "indexed")

-- The parts after the type.
unfoldable pub parse_rest : ℕ → List ℕ → List (List ℕ) → Parsed ParamError EventParam
parse_rest index typ [] =
    Parsed.parsed (record { name = param_name index; type_name = typ; indexed = false })
parse_rest index typ (a ∷ []) =
    if is_indexed_word a
    then Parsed.parsed (record { name = param_name index; type_name = typ; indexed = true })
    else Parsed.parsed (record { name = a; type_name = typ; indexed = false })
parse_rest index typ (a ∷ b ∷ []) =
    if is_indexed_word a
    then Parsed.parsed (record { name = b; type_name = typ; indexed = true })
    else Parsed.refused (ParamError.expected_indexed a)
parse_rest index typ (a ∷ b ∷ c ∷ rest) = Parsed.refused ParamError.too_many_parts

abbrev pub check_name : Parsed ParamError EventParam → Parsed ParamError EventParam
check_name (Parsed.refused e) = Parsed.refused e
check_name (Parsed.parsed p) =
    if not (same_text p.name []) && not (is_identifier p.name)
    then Parsed.refused (ParamError.invalid_name p.name)
    else Parsed.parsed p

abbrev pub parse_parts : ℕ → List (List ℕ) → Parsed ParamError EventParam
parse_parts index [] = Parsed.refused ParamError.empty_parameter
parse_parts index (typ ∷ rest) =
    if is_valid_solidity_type typ
    then check_name (parse_rest index typ rest)
    else Parsed.refused (ParamError.invalid_type typ)

-- An empty parameter has no fields.
unfoldable pub parse_parameter : List ℕ → ℕ → Parsed ParamError EventParam
unfolding fields parse_rest
parse_parameter param_str index = parse_parts index (fields param_str)

abbrev pub is_listed : List ℕ → List (List ℕ) → Bool
is_listed name names = any (same_text name) names

abbrev pub cons_param :
    EventParam → Parsed SignatureError (List EventParam) → Parsed SignatureError (List EventParam)
cons_param p (Parsed.parsed ps) = Parsed.parsed (p ∷ ps)
cons_param p (Parsed.refused e) = Parsed.refused e

-- One round of the loop of `parseParameters`; `go_on` is the rest of it, with the names so far.
abbrev pub next_param :
    List (List ℕ)
    → List ℕ
    → Parsed ParamError EventParam
    → (List (List ℕ) → Parsed SignatureError (List EventParam))
    → Parsed SignatureError (List EventParam)
next_param names text (Parsed.refused e) go_on =
    Parsed.refused (SignatureError.invalid_parameter text e)
next_param names text (Parsed.parsed p) go_on =
    if same_text p.name []
    then cons_param p (go_on names)
    else if is_listed p.name names
    then Parsed.refused (SignatureError.duplicate_parameter p.name)
    else cons_param p (go_on (p.name ∷ names))

-- The loop from an index, with the names before it.
unfoldable pub parse_loop :
    ℕ → List (List ℕ) → List (List ℕ) → Parsed SignatureError (List EventParam)
unfolding parse_parameter
parse_loop index names [] = Parsed.parsed []
parse_loop index names (text ∷ texts) =
    next_param names text (parse_parameter (trim_space text) index)
      (λ seen. parse_loop (suc index) seen texts)

abbrev pub parse_trimmed_params : List ℕ → Parsed SignatureError (List EventParam)
parse_trimmed_params [] = Parsed.parsed []
parse_trimmed_params (c ∷ cs) = parse_loop 0 [] (split_parameters (c ∷ cs))

unfoldable pub parse_parameters : List ℕ → Parsed SignatureError (List EventParam)
unfolding split_parameters parse_loop
parse_parameters params_str = parse_trimmed_params (trim_space params_str)

-- The text before and after the first character `c`, and before the last one.
unfoldable pub split_first : ℕ → List ℕ → Option (List ℕ × List ℕ)
split_first c [] = none
split_first c (x ∷ xs) =
    if x == c
    then some ([], xs)
    else elim (split_first c xs) [ none ↦ none | some p ↦ some (x ∷ p.0, p.1) ]

unfoldable pub before_last : ℕ → List ℕ → Option (List ℕ)
before_last c [] = none
before_last c (x ∷ xs) = elim (before_last c xs) [
  | some before ↦ some (x ∷ before)
  | none ↦ if x == c then some [] else none
]

abbrev pub signature_of :
    List ℕ → List ℕ → Parsed SignatureError (List EventParam) → Parsed SignatureError EventSignature
signature_of sig name (Parsed.refused e) = Parsed.refused e
signature_of sig name (Parsed.parsed ps) =
    Parsed.parsed (record { raw = sig; name = name; params = ps })

-- The text up to the last closing parenthesis. A name has no parenthesis, so that the last closing
-- one cannot stand before the opening one when the name was accepted.
abbrev pub parse_closed : List ℕ → List ℕ → Option (List ℕ) → Parsed SignatureError EventSignature
parse_closed sig name none = Parsed.refused SignatureError.no_closing
parse_closed sig name (some params_str) = signature_of sig name (parse_parameters params_str)

abbrev pub parse_named : List ℕ → List ℕ → List ℕ → Parsed SignatureError EventSignature
parse_named sig name after =
    if same_text name []
    then Parsed.refused SignatureError.empty_event_name
    else if not (is_event_name name)
    then Parsed.refused (SignatureError.invalid_event_name name)
    else parse_closed sig name (before_last b')' after)

abbrev pub parse_opened : List ℕ → Option (List ℕ × List ℕ) → Parsed SignatureError EventSignature
parse_opened sig none = Parsed.refused SignatureError.no_opening
parse_opened sig (some (before, after)) = parse_named sig (trim_space before) after

abbrev pub parse_trimmed : List ℕ → Parsed SignatureError EventSignature
parse_trimmed [] = Parsed.refused SignatureError.empty_signature
parse_trimmed (c ∷ cs) = parse_opened (c ∷ cs) (split_first b'(' (c ∷ cs))

unfoldable pub parse_event_signature : List ℕ → Parsed SignatureError EventSignature
unfolding split_first before_last parse_parameters is_event_name
parse_event_signature sig = parse_trimmed (trim_space sig)

-- strings.Join(texts, ",")
unfoldable pub join_commas : List (List ℕ) → List ℕ
join_commas [] = []
join_commas (t ∷ []) = t
join_commas (t ∷ u ∷ rest) = t ++ b',' ∷ join_commas (u ∷ rest)

abbrev canonical_params : List EventParam → List ℕ
canonical_params ps = join_commas (map (λ p. p.type_name) ps)

unfoldable pub canonical_signature : EventSignature → List ℕ
unfolding join_commas
canonical_signature e = e.name ++ b'(' ∷ (canonical_params e.params ++ b')' ∷ [])

unfoldable pub indexed_params : EventSignature → List EventParam
indexed_params e = keep (λ p. p.indexed) e.params

unfoldable pub non_indexed_params : EventSignature → List EventParam
non_indexed_params e = keep (λ p. not p.indexed) e.params
