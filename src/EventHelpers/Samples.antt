-- ===== src/EventHelpers/Samples.antt =====
-- Where the samples and the interpolated times of internal/indexer/event_helpers.go lie.
use native.Mathlib.Nat.{div-le_self, div-le_of_le-mul}
use chain_indexor.Prelude.{
  ℕ, Bool, not, ◌-◌, ◌*◌, ◌/◌, ◌%◌, ◌^◌, ◌≤◌, ◌<◌, ◌≡◌, arith, [], ◌∷◌, All, max_u64, u64_add,
  u64_sub, u64_mul, signed_div, ltb, leb, ◌==◌, true, false, if◌then◌else◌,
}
use chain_indexor.EventHelpers.{
  CalibrationPoint, sample_block, sample_block_range, interpolate_between,
}

abbrev pub Within : ℕ → ℕ → ℕ → Type 0
Within low high n = (low ≤ n) × (n ≤ high)

sample-Within :
    (low high : ℕ)
    → low ≤ high
    → high ≤ max_u64
    → (high - low) * 4 ≤ max_u64
    → Within low high (sample_block low (high - low) 1)
      × Within low high (sample_block low (high - low) 2)
      × Within low high (sample_block low (high - low) 3)
      × Within low high (sample_block low (high - low) 4)
sample-Within low high h b c = omega arith

mod_small : (y : ℕ) → y < 2 ^ 64 → y % 2 ^ 64 ≡ y
mod_small y h = omega arith

not_negative : (w : ℕ) → w < 2 ^ 63 → leb (2 ^ 63) w ≡ false
not_negative w h = ground arith

signed_div_small : (x d : ℕ) → x < 2 ^ 63 → d < 2 ^ 63 → signed_div x d ≡ x / d
signed_div_small x d h k =
    let l = div-le_self x d in
    rw (not_negative x h, not_negative d k) (mod_small (x / d) (omega arith))

-- In range, the words are the numbers themselves.
u64_sub_small : (a b : ℕ) → b ≤ a → a ≤ max_u64 → u64_sub a b ≡ a - b
u64_sub_small a b h k = omega arith

add-Within :
    (low high more : ℕ)
    → low ≤ high
    → high ≤ max_u64
    → more ≤ high - low
    → Within low high (u64_add low more)
add-Within low high more h k l = omega arith

product_le : (d off bd : ℕ) → off ≤ bd → d * off ≤ bd * d
product_le d off bd h = grind arith

quotient_le :
    (d off bd : ℕ) → off ≤ bd → d * off < 2 ^ 63 → bd < 2 ^ 63 → signed_div (u64_mul d off) bd ≤ d
quotient_le d off bd h small b =
    rw (mod_small (d * off) (omega arith), signed_div_small (d * off) bd small b)
      (div-le_of_le-mul bd (product_le d off bd h))

-- An interpolated time lies between the times of the two points, if the block lies between their
-- blocks, the later block is below 2^63, the later time is a 64-bit number and not before the other,
-- and the product of the differences of the times and of the block and the first one is below 2^63.
pub interpolate_between-Within :
    (n : ℕ) (p q : CalibrationPoint)
    → p.block_number ≤ n
    → n ≤ q.block_number
    → q.block_number < 2 ^ 63
    → p.timestamp ≤ q.timestamp
    → q.timestamp ≤ max_u64
    → (q.timestamp - p.timestamp) * (n - p.block_number) < 2 ^ 63
    → Within p.timestamp q.timestamp (interpolate_between n p q)
unfolding interpolate_between
interpolate_between-Within n p q lo hi b t m small =
    let d1 = u64_sub_small q.block_number p.block_number (omega arith) (omega arith) in
    let d2 = u64_sub_small q.timestamp p.timestamp t m in
    let d3 = u64_sub_small n p.block_number lo (omega arith) in
    rw (d1, d2, d3) (go (q.block_number - p.block_number == 0))
  where
    go :
        (z : Bool)
        → Within p.timestamp q.timestamp (
            if z
            then p.timestamp
            else u64_add p.timestamp (
                signed_div
                  (u64_mul (q.timestamp - p.timestamp) (n - p.block_number))
                  (q.block_number - p.block_number)))
    go true = omega arith
    go false = add-Within p.timestamp q.timestamp _ t m (
        quotient_le (q.timestamp - p.timestamp) (n - p.block_number)
          (q.block_number - p.block_number) (omega arith) small (omega arith))

-- The samples of a range of blocks lie in it, if four times its length is a 64-bit number.
sample_block_range-Within :
    (low high : ℕ)
    → low ≤ high
    → high ≤ max_u64
    → (high - low) * 4 ≤ max_u64
    → All (Within low high) (sample_block_range low high)
unfolding sample_block_range
sample_block_range-Within low high h b c =
    let (s1, s2, s3, s4) = sample-Within low high h b c in
    rw (u64_sub_small high low h b) (go (ltb 0 (high - low)) (high == low) s1 s2 s3 s4)
  where
    go :
        (some_blocks same : Bool) {w x y z : ℕ}
        → Within low high w
        → Within low high x
        → Within low high y
        → Within low high z
        → All (Within low high) (
            low
            ∷ (if some_blocks then w ∷ x ∷ y ∷ z ∷ (if not same then high ∷ [] else []) else []))
    go false same s1 s2 s3 s4 = (omega arith, tt)
    go true true s1 s2 s3 s4 = (omega arith, (s1, (s2, (s3, (s4, tt)))))
    go true false s1 s2 s3 s4 = (omega arith, (s1, (s2, (s3, (s4, (omega arith, tt))))))
