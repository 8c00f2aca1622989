-- ===== src/Rpc/Number.antt =====
-- `ParseUint64orHex` of internal/common/parse.go, and `toBlockNumArg` of internal/rpc/client.go,
-- over the bytes of a text; with Go's `strconv.ParseUint` and the verb `%x`.
pub mod RoundTrip
use chain_indexor.Prelude.{
  ℕ, zero, suc, ◌+◌, ◌-◌, ◌*◌, ◌/◌, ◌%◌, Bool, true, false, ◌&&◌, ◌||◌, Option, none, some, List,
  [], ◌∷◌, ◌++◌, ltb, leb, ◌==◌, max_u64, if◌then◌else◌,
}

abbrev pub is_decimal : ℕ → Bool
is_decimal c = leb 48 c && leb c 57

-- [0-9a-fA-F]
abbrev pub is_hex : ℕ → Bool
is_hex c = is_decimal c || (leb 97 c && leb c 102) || (leb 65 c && leb c 70)

-- The value of a digit below the base; the bases are 10 and 16.
unfoldable pub digit : ℕ → ℕ → Option ℕ
digit base c =
    let value =
      if is_decimal c
      then c - 48
      else if leb 97 c && leb c 122
      then c - 97 + 10
      else if leb 65 c && leb c 90
      then c - 65 + 10
      else base in
    if ltb value base then some value else none

-- The digits of a number, from an accumulator; `none` is a syntax error or a value past 64 bits.
abbrev next_digit : ℕ → Option ℕ → Option ℕ → Option ℕ
next_digit base none d = none
next_digit base (some acc) none = none
next_digit base (some acc) (some d) =
    if ltb max_u64 (acc * base + d) then none else some (acc * base + d)

unfoldable pub parse_digits : ℕ → Option ℕ → List ℕ → Option ℕ
unfolding digit
parse_digits base acc [] = acc
parse_digits base acc (c ∷ cs) = parse_digits base (next_digit base acc (digit base c)) cs

-- strconv.ParseUint(str, base, 64)
unfoldable pub parse_uint : ℕ → List ℕ → Option ℕ
unfolding parse_digits
parse_uint base [] = none
parse_uint base (c ∷ cs) = parse_digits base (some 0) (c ∷ cs)

-- `ParseUint64orHex`; a nil pointer is 0.
unfoldable pub parse_uint64_or_hex : Option (List ℕ) → Option ℕ
unfolding parse_uint
parse_uint64_or_hex none = some 0
parse_uint64_or_hex (some (c ∷ d ∷ cs)) =
    if c == b'0' && d == b'x' then parse_uint 16 cs else parse_uint 10 (c ∷ d ∷ cs)
parse_uint64_or_hex (some str) = parse_uint 10 str

-- The hexadecimal digit of a value below 16.
abbrev pub hex_digit : ℕ → ℕ
hex_digit d = if ltb d 10 then d + 48 else d + 87

-- The digits of `n` before `rest`, with fuel for the digits; 16 suffice below 2 ^ 64.
unfoldable pub hex_digits : ℕ → ℕ → List ℕ → List ℕ
hex_digits zero n rest = rest
hex_digits (suc fuel) n rest =
    let more = hex_digits fuel (n / 16) (hex_digit (n % 16) ∷ rest) in
    if ltb n 16 then hex_digit n ∷ rest else more

-- fmt.Sprintf("0x%x", blockNum)
unfoldable pub to_block_num_arg : ℕ → List ℕ
unfolding hex_digits
to_block_num_arg n = b'0' ∷ b'x' ∷ hex_digits 16 n []
