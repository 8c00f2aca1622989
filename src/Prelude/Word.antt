-- ===== src/Prelude/Word.antt =====
-- Go's `uint64`: a number below 2 ^ 64, with the wrap-around written out.
use Prim.Native.Nat.{ℕ, ◌+◌, ◌-◌, ◌*◌, ◌/◌, ◌%◌, ◌^◌}
use mathlib.Core.Bool.{Bool}
use chain_indexor.Prelude.Tests.{leb, if◌then◌else◌}

abbrev pub u64_mod : ℕ
u64_mod = 2 ^ 64

-- ^uint64(0)
abbrev pub max_u64 : ℕ
max_u64 = 2 ^ 64 - 1

abbrev pub u64_add : ℕ → ℕ → ℕ
u64_add a b = (a + b) % u64_mod

abbrev pub u64_sub : ℕ → ℕ → ℕ
u64_sub a b = (a + u64_mod - b) % u64_mod

abbrev pub u64_mul : ℕ → ℕ → ℕ
u64_mul a b = (a * b) % u64_mod

-- A word that is negative as an int64, and the amount of a word.
abbrev pub is_negative_word : ℕ → Bool
is_negative_word w = leb (2 ^ 63) w

abbrev pub magnitude : ℕ → ℕ
magnitude w = if is_negative_word w then 2 ^ 64 - w else w

-- The quotient of two int64, which Go rounds towards zero.
abbrev pub signed_div : ℕ → ℕ → ℕ
signed_div a b =
    let quotient = magnitude a / magnitude b in
    let same = quotient % 2 ^ 64 in
    let opposite = (2 ^ 64 - quotient) % 2 ^ 64 in
    if is_negative_word a
    then (if is_negative_word b then same else opposite)
    else (if is_negative_word b then opposite else same)
