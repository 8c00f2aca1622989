-- ===== src/Rpc/Number/RoundTrip.antt =====
-- `ParseUint64orHex` on what `toBlockNumArg` prints.
use chain_indexor.Prelude.{
  ℕ, zero, suc, ◌+◌, ◌*◌, ◌/◌, ◌%◌, ◌^◌, ◌≤◌, ◌<◌, true, false, ◌≡◌, refl, ◌∙◌, ap, some, List, [],
  ◌∷◌, arith, ltb, max_u64, Bool-cases, inl, inr,
}
use native.Mathlib.Nat.{pow-suc}
use chain_indexor.Rpc.Number.{
  digit, parse_digits, parse_uint, parse_uint64_or_hex, hex_digit, hex_digits, to_block_num_arg,
}

digit-hex_digit : (d : ℕ) → d < 16 → digit 16 (hex_digit d) ≡ some d
unfolding digit
digit-hex_digit d h = ground arith

hex_digits_last :
    (fuel n : ℕ) (rest : List ℕ)
    → ltb n 16 ≡ true
    → hex_digits (suc fuel) n rest ≡ hex_digit n ∷ rest
unfolding hex_digits
hex_digits_last fuel n rest h = rw h

hex_digits_more :
    (fuel n : ℕ) (rest : List ℕ)
    → ltb n 16 ≡ false
    → hex_digits (suc fuel) n rest ≡ hex_digits fuel (n / 16) (hex_digit (n % 16) ∷ rest)
unfolding hex_digits
hex_digits_more fuel n rest h = rw h

parse_uint_cons :
    (base : ℕ) (text : List ℕ) (c : ℕ) (cs : List ℕ)
    → text ≡ c ∷ cs
    → parse_uint base text ≡ parse_digits base (some 0) text
parse_uint_cons base text c cs e = rw e (unfold parse_uint in refl)

parse_digits_nil : (n : ℕ) → parse_digits 16 (some n) [] ≡ some n
unfolding parse_digits
parse_digits_nil n = refl

-- One digit read.
parse_digits_step :
    (acc d : ℕ) (rest : List ℕ)
    → d < 16
    → acc * 16 + d ≤ max_u64
    → parse_digits 16 (some acc) (hex_digit d ∷ rest) ≡ parse_digits 16 (some (acc * 16 + d)) rest
unfolding parse_digits
parse_digits_step acc d rest h m = ground (arith, digit-hex_digit d h)

-- Reading the printed digits is reading the rest with the number as the accumulator.
parse_digits-hex_digits :
    (fuel n : ℕ) (rest : List ℕ)
    → n ≤ max_u64
    → n < 16 ^ suc fuel
    → parse_digits 16 (some 0) (hex_digits (suc fuel) n rest) ≡ parse_digits 16 (some n) rest
parse_digits-hex_digits zero n rest m h =
    ground (arith, pow-suc 16 zero, hex_digits_last 0 n rest, parse_digits_step 0 n rest)
parse_digits-hex_digits (suc fuel) n rest m h = elim (Bool-cases (ltb n 16)) [
  | inl small ↦ ground (arith, hex_digits_last (suc fuel) n rest, parse_digits_step 0 n rest)
  | inr big ↦ rw (hex_digits_more (suc fuel) n rest big) (
      parse_digits-hex_digits fuel (n / 16) (hex_digit (n % 16) ∷ rest) (omega arith)
        (omega (arith, pow-suc 16 (suc fuel)))
      ∙ parse_digits_step (n / 16) (n % 16) rest (omega arith) (omega arith)
      ∙ ap (λ k. parse_digits 16 (some k) rest) (omega arith))
]

hex_digits-cons :
    (fuel n : ℕ) (rest : List ℕ) → (c : ℕ) × (cs : List ℕ) × (hex_digits (suc fuel) n rest ≡ c ∷ cs)
hex_digits-cons zero n rest = elim (Bool-cases (ltb n 16)) [
  | inl small ↦ (hex_digit n, rest, hex_digits_last zero n rest small)
  | inr big ↦
      (hex_digit (n % 16), rest, hex_digits_more zero n rest big ∙ unfold hex_digits in refl)
]
hex_digits-cons (suc fuel) n rest = elim (Bool-cases (ltb n 16)) [
  | inl small ↦ (hex_digit n, rest, hex_digits_last (suc fuel) n rest small)
  | inr big ↦
      let (c, cs, e) = hex_digits-cons fuel (n / 16) (hex_digit (n % 16) ∷ rest) in
      (c, cs, hex_digits_more (suc fuel) n rest big ∙ e)
]

-- `ParseUint64orHex` reads back every 64-bit number that `toBlockNumArg` prints.
pub parse_uint64_or_hex-to_block_num_arg :
    (n : ℕ) → n ≤ max_u64 → parse_uint64_or_hex (some (to_block_num_arg n)) ≡ some n
unfolding parse_uint64_or_hex to_block_num_arg
parse_uint64_or_hex-to_block_num_arg n m =
    let (c, cs, e) = hex_digits-cons 15 n [] in
    parse_uint_cons 16 (hex_digits 16 n []) c cs e
    ∙ parse_digits-hex_digits 15 n [] m (omega arith)
    ∙ parse_digits_nil n
