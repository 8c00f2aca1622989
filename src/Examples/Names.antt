-- ===== src/Examples/Names.antt =====
-- Event signatures and names of internal/codegen at concrete inputs.
use chain_indexor.Prelude.{map, ℕ, List, [], ◌∷◌, codes, same_text, ◌≡◌, refl, true, false}
use chain_indexor.Codegen.{
  is_valid_solidity_type, EventParam, EventSignature, Parsed, parse_event_signature,
  canonical_signature, split_parameters, join_commas, indexed_params,
}
use chain_indexor.Codegen.Split.{split_parameters-join_commas}
use chain_indexor.Codegen.Signature.{IsSignature, parse_event_signature-IsSignature}
use chain_indexor.Codegen.Types.{go_type_name, db_type_name, to_snake_case, table_name, meddler_tag}

abbrev two_parts : List (List ℕ)
two_parts = codes "address indexed from" ∷ codes "(uint8,uint8) pair" ∷ []

split_parameters-join_commas_example : split_parameters (join_commas two_parts) ≡ two_parts
unfolding same_text
split_parameters-join_commas_example =
    split_parameters-join_commas two_parts ((refl, refl), ((refl, refl), tt))

abbrev approval_text : List ℕ
approval_text = codes " Approval(address indexed owner, address, uint256[2][] value) "

abbrev approval : EventSignature
approval = record {
  raw = codes "Approval(address indexed owner, address, uint256[2][] value)";
  name = codes "Approval";
  params =
      record { name = codes "owner"; type_name = codes "address"; indexed = true }
      ∷ record { name = codes "param1"; type_name = codes "address"; indexed = false }
      ∷ record { name = codes "value"; type_name = codes "uint256[2][]"; indexed = false }
      ∷ [];
}

approval_parses : parse_event_signature approval_text ≡ Parsed.parsed approval
unfolding parse_event_signature chain_indexor.Prelude.trim_space same_text
    chain_indexor.Codegen.split_loop chain_indexor.Codegen.fields_loop
    chain_indexor.Codegen.is_valid_solidity_type chain_indexor.Codegen.is_identifier
    chain_indexor.Codegen.param_name
approval_parses = refl

parse_event_signature-IsSignature_example : IsSignature approval
parse_event_signature-IsSignature_example =
    parse_event_signature-IsSignature approval_text approval approval_parses

approval_canonical : canonical_signature approval ≡ codes "Approval(address,address,uint256[2][])"
unfolding canonical_signature
approval_canonical = refl

snake_of_acronym : to_snake_case (codes "HTTPTest") ≡ codes "http_test"
unfolding to_snake_case
snake_of_acronym = refl

table_of_policy : table_name (codes "PolicyTransfer") ≡ codes "policy_transfers"
unfolding table_name same_text
table_of_policy = refl

-- A 136-bit number has the Go type of large numbers, and the column type of small ones.
wide_go_type : go_type_name (codes "uint136") ≡ codes "string"
unfolding go_type_name same_text chain_indexor.Rpc.Number.parse_uint64_or_hex
wide_go_type = refl

wide_column : db_type_name (codes "uint136") ≡ codes "INTEGER"
unfolding db_type_name same_text
wide_column = refl

array_column : db_type_name (codes "uint256[]") ≡ codes "INTEGER"
unfolding db_type_name same_text
array_column = refl

owner_column :
    meddler_tag (record { name = codes "newOwner"; type_name = codes "address"; indexed = true })
    ≡ codes "meddler:\"new_owner_address,address\""
unfolding meddler_tag same_text
owner_column = refl

solidity_types :
    map
      (λ t. is_valid_solidity_type (codes t))
      ("uint8" ∷ "uint7" ∷ "uint264" ∷ "bytes32" ∷ "bytes33" ∷ "string[]" ∷ "text" ∷ [])
    ≡ true ∷ false ∷ false ∷ true ∷ false ∷ true ∷ false ∷ []
unfolding is_valid_solidity_type same_text
solidity_types = refl
