-- ===== src/Codegen/Signature.antt =====
-- What `ParseEventSignature` of internal/codegen/parser.go accepts.
use mathlib.Core.Path.{subst}
use chain_indexor.Prelude.{
  ℕ, suc, true, false, ◌≡◌, refl, ap, ◌∙◌, arith, List, [], ◌∷◌, ◌++◌, All, Option, none, some,
  same_text, is_blank, trim_space, Bool-cases, inl, inr,
}
use chain_indexor.Codegen.{
  EventParam, EventSignature, ParamError, SignatureError, Parsed, is_event_name, is_identifier,
  flush, fields_loop, fields, is_valid_solidity_type, param_name, parse_rest, check_name,
  parse_parts, parse_parameter, is_listed, cons_param, parse_loop, next_param, parse_parameters,
  split_parameters, split_first, before_last, signature_of, parse_closed, parse_opened,
  parse_trimmed_params, parse_named, parse_trimmed, parse_event_signature,
}

abbrev pub IsParam : EventParam → Type 0
IsParam p = (is_identifier p.name ≡ true) × (is_valid_solidity_type p.type_name ≡ true)

-- No name stands among `names`, or again among the later ones.
abbrev pub Distinct : List (List ℕ) → List EventParam → Type 0
Distinct names [] = Unit
Distinct names (p ∷ ps) = (is_listed p.name names ≡ false) × Distinct (p.name ∷ names) ps

abbrev NotEmpty : List ℕ → Type 0
NotEmpty t = same_text t [] ≡ false

flush-NotEmpty :
    (t : List ℕ) (rest : List (List ℕ)) → All NotEmpty rest → All NotEmpty (flush t rest)
unfolding same_text
flush-NotEmpty [] rest h = h
flush-NotEmpty (c ∷ t) rest h = (refl, h)

fields_loop-NotEmpty : (text current : List ℕ) → All NotEmpty (fields_loop text current)
unfolding fields_loop
fields_loop-NotEmpty [] current = flush-NotEmpty current [] tt
fields_loop-NotEmpty (c ∷ cs) current = elim (Bool-cases (is_blank c)) [
  | inl b ↦ rw b (flush-NotEmpty current (fields_loop cs []) (fields_loop-NotEmpty cs []))
  | inr b ↦ rw b (fields_loop-NotEmpty cs (current ++ c ∷ []))
]

-- A parameter before its name is checked.
abbrev Drafted : List ℕ → EventParam → Type 0
Drafted typ p = (p.type_name ≡ typ) × NotEmpty p.name

param_name-NotEmpty : (index : ℕ) → NotEmpty (param_name index)
unfolding param_name same_text
param_name-NotEmpty index = refl

parse_rest-Drafted :
    (index : ℕ) (typ : List ℕ) (rest : List (List ℕ)) (p : EventParam)
    → All NotEmpty rest
    → parse_rest index typ rest ≡ Parsed.parsed p
    → Drafted typ p
unfolding parse_rest
parse_rest-Drafted index typ [] p h e = let n = param_name-NotEmpty index in ground arith
parse_rest-Drafted index typ (a ∷ []) p (h, _) e = let n = param_name-NotEmpty index in ground arith
parse_rest-Drafted index typ (a ∷ b ∷ []) p (_, (h, _)) e = ground arith
parse_rest-Drafted index typ (a ∷ b ∷ c ∷ rest) p h e = cc

check_name_ok :
    (o : Parsed ParamError EventParam) (p : EventParam)
    → check_name o ≡ Parsed.parsed p
    → (o ≡ Parsed.parsed p) × (NotEmpty p.name → is_identifier p.name ≡ true)
check_name_ok (Parsed.refused e) p h = cc
check_name_ok (Parsed.parsed q) p h = ground arith

parse_parts-IsParam :
    (index : ℕ) (parts : List (List ℕ)) (p : EventParam)
    → All NotEmpty parts
    → parse_parts index parts ≡ Parsed.parsed p
    → IsParam p
parse_parts-IsParam index [] p h e = cc
parse_parts-IsParam index (typ ∷ rest) p (_, h) e = elim (Bool-cases (is_valid_solidity_type typ)) [
  | inl v ↦
      (let (drafted, named) = check_name_ok (parse_rest index typ rest) p (ground arith) in
        let (same, filled) = parse_rest-Drafted index typ rest p h drafted in
        (named filled, ap is_valid_solidity_type same ∙ v))
  | inr v ↦ ground arith
]

parse_parameter-IsParam :
    (text : List ℕ) (index : ℕ) (p : EventParam)
    → parse_parameter text index ≡ Parsed.parsed p
    → IsParam p
unfolding parse_parameter fields
parse_parameter-IsParam text index p e =
    parse_parts-IsParam index (fields text) p (fields_loop-NotEmpty text []) e

-- An identifier is not empty.
identifier-NotEmpty : (t : List ℕ) → is_identifier t ≡ true → NotEmpty t
unfolding is_identifier same_text
identifier-NotEmpty [] h = cc
identifier-NotEmpty (c ∷ t) h = refl

IsParam-NotEmpty : (p : EventParam) → IsParam p → NotEmpty p.name
IsParam-NotEmpty p (h, _) = identifier-NotEmpty p.name h

abbrev Accepted : List (List ℕ) → List EventParam → Type 0
Accepted names ps = All IsParam ps × Distinct names ps

cons_param_ok :
    (p : EventParam) (o : Parsed SignatureError (List EventParam)) (ps : List EventParam)
    → cons_param p o ≡ Parsed.parsed ps
    → (qs : List EventParam) × (o ≡ Parsed.parsed qs) × (ps ≡ p ∷ qs)
cons_param_ok p (Parsed.parsed qs) ps e = (qs, refl, cc)
cons_param_ok p (Parsed.refused x) ps e = cc

next_param_ok :
    (names : List (List ℕ)) (text : List ℕ) (o : Parsed ParamError EventParam)
    (go_on : List (List ℕ) → Parsed SignatureError (List EventParam)) (ps : List EventParam)
    → ((p : EventParam) → o ≡ Parsed.parsed p → IsParam p)
    → next_param names text o go_on ≡ Parsed.parsed ps
    → (p : EventParam) × (qs : List EventParam) × IsParam p
      × (is_listed p.name names ≡ false)
      × (go_on (p.name ∷ names) ≡ Parsed.parsed qs)
      × (ps ≡ p ∷ qs)
next_param_ok names text (Parsed.refused x) go_on ps h e = cc
next_param_ok names text (Parsed.parsed p) go_on ps h e =
    let valid = h p refl in
    let filled = IsParam-NotEmpty p valid in
    elim (Bool-cases (is_listed p.name names)) [
      | inl l ↦ ground arith
      | inr l ↦
          (let (qs, rest, same) = cons_param_ok p (go_on (p.name ∷ names)) ps (ground arith) in
            (p, qs, valid, l, rest, same))
    ]

abbrev no_params : Parsed SignatureError (List EventParam)
no_params = Parsed.parsed []

no_params-Accepted :
    (names : List (List ℕ)) (ps : List EventParam)
    → no_params ≡ Parsed.parsed ps
    → Accepted names ps
no_params-Accepted names [] e = (tt, tt)
no_params-Accepted names (p ∷ ps) e = cc

parse_loop-Accepted :
    (index : ℕ) (names texts : List (List ℕ)) (ps : List EventParam)
    → parse_loop index names texts ≡ Parsed.parsed ps
    → Accepted names ps
unfolding parse_loop
parse_loop-Accepted index names [] ps e = no_params-Accepted names ps e
parse_loop-Accepted index names (text ∷ texts) ps e =
    let (p, qs, valid, fresh, rest, same) =
      next_param_ok names text (parse_parameter (trim_space text) index)
        (λ seen. parse_loop (suc index) seen texts) ps
        (λ p h. parse_parameter-IsParam (trim_space text) index p h) e in
    let (all_valid, distinct) = parse_loop-Accepted (suc index) (p.name ∷ names) texts qs rest in
    rw same ((valid, all_valid), (fresh, distinct))

parse_parameters-Accepted :
    (text : List ℕ) (ps : List EventParam)
    → parse_parameters text ≡ Parsed.parsed ps
    → Accepted [] ps
unfolding parse_parameters
parse_parameters-Accepted text ps e = go (trim_space text) e
  where
    go : (trimmed : List ℕ) → parse_trimmed_params trimmed ≡ Parsed.parsed ps → Accepted [] ps
    go [] h = no_params-Accepted [] ps h
    go (c ∷ cs) h = parse_loop-Accepted 0 [] (split_parameters (c ∷ cs)) ps h

-- What the parser promises of a signature.
abbrev pub IsSignature : EventSignature → Type 0
IsSignature e = (is_event_name e.name ≡ true) × All IsParam e.params × Distinct [] e.params

signature_of-IsSignature :
    (sig name : List ℕ) (o : Parsed SignatureError (List EventParam)) (e : EventSignature)
    → is_event_name name ≡ true
    → ((ps : List EventParam) → o ≡ Parsed.parsed ps → Accepted [] ps)
    → signature_of sig name o ≡ Parsed.parsed e
    → IsSignature e
signature_of-IsSignature sig name (Parsed.refused x) e n h k = cc
signature_of-IsSignature sig name (Parsed.parsed ps) e n h k =
    let (valid, distinct) = h ps refl in
    let same : record { raw = sig; name = name; params = ps } ≡ e = cc in
    subst IsSignature same (n, valid, distinct)

parse_closed-IsSignature :
    (sig name : List ℕ) (o : Option (List ℕ)) (e : EventSignature)
    → is_event_name name ≡ true
    → parse_closed sig name o ≡ Parsed.parsed e
    → IsSignature e
parse_closed-IsSignature sig name none e n h = cc
parse_closed-IsSignature sig name (some text) e n h =
    signature_of-IsSignature sig name (parse_parameters text) e n (parse_parameters-Accepted text) h

parse_named-IsSignature :
    (sig name after : List ℕ) (e : EventSignature)
    → parse_named sig name after ≡ Parsed.parsed e
    → IsSignature e
parse_named-IsSignature sig name after e h = elim (Bool-cases (is_event_name name)) [
  | inl n ↦ parse_closed-IsSignature sig name (before_last b')' after) e n (ground arith)
  | inr n ↦ ground arith
]

parse_opened-IsSignature :
    (sig : List ℕ) (o : Option (List ℕ × List ℕ)) (e : EventSignature)
    → parse_opened sig o ≡ Parsed.parsed e
    → IsSignature e
parse_opened-IsSignature sig none e h = cc
parse_opened-IsSignature sig (some (before, after)) e h =
    parse_named-IsSignature sig (trim_space before) after e h

-- An accepted signature has a name of the form of an event's, and parameters of Solidity types with
-- identifiers as names, no two the same.
pub parse_event_signature-IsSignature :
    (sig : List ℕ) (e : EventSignature)
    → parse_event_signature sig ≡ Parsed.parsed e
    → IsSignature e
unfolding parse_event_signature
parse_event_signature-IsSignature sig e h = go (trim_space sig) h
  where
    go : (trimmed : List ℕ) → parse_trimmed trimmed ≡ Parsed.parsed e → IsSignature e
    go [] k = cc
    go (c ∷ cs) k = parse_opened-IsSignature (c ∷ cs) (split_first b'(' (c ∷ cs)) e k
