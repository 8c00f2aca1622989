-- ===== src/EventHelpers.antt =====
-- internal/indexer/event_helpers.go: the blocks whose times are asked for, and the times between
-- them. A uint64 that is converted to an int64 is a 64-bit word in two's complement.
pub mod Samples
use Prim.Native.String.{String}
use text.Mathlib.Text.{◌==◌ as str_eq}
use chain_indexor.Prelude.{
  ℕ, ◌+◌, ◌-◌, ◌/◌, ◌%◌, ◌^◌, Bool, true, false, not, ◌&&◌, List, [], ◌∷◌, ◌++◌, ltb, leb, ◌==◌,
  u64_add, u64_sub, u64_mul, signed_div, if◌then◌else◌,
}

pub record CalibrationPoint : Type 0 where
  pub block_number : ℕ
  pub timestamp : ℕ

-- minBlock + (blockRange * uint64(i) / uint64(numSamples))
abbrev pub sample_block : ℕ → ℕ → ℕ → ℕ
sample_block min_block block_range i = u64_add min_block (u64_mul block_range i / 5)

unfoldable pub sample_block_range : ℕ → ℕ → List ℕ
sample_block_range min_block max_block =
    let block_range = u64_sub max_block min_block in
    let samples =
      sample_block min_block block_range 1
      ∷ sample_block min_block block_range 2
      ∷ sample_block min_block block_range 3
      ∷ sample_block min_block block_range 4
      ∷ [] in
    let last = if not (max_block == min_block) then max_block ∷ [] else [] in
    min_block ∷ (if ltb 0 block_range then samples ++ last else [])

-- The time of a block between two points.
unfoldable pub interpolate_between : ℕ → CalibrationPoint → CalibrationPoint → ℕ
interpolate_between n p q =
    let block_diff = u64_sub q.block_number p.block_number in
    let time_diff = u64_sub q.timestamp p.timestamp in
    let block_offset = u64_sub n p.block_number in
    if block_diff == 0
    then p.timestamp
    else u64_add p.timestamp (signed_div (u64_mul time_diff block_offset) block_diff)

abbrev pub last_point : CalibrationPoint → List CalibrationPoint → CalibrationPoint
last_point p [] = p
last_point p (q ∷ rest) = last_point q rest

-- The first two neighbours around the block; `first` is the time when there are none.
unfoldable pub interpolate_loop : ℕ → ℕ → CalibrationPoint → List CalibrationPoint → ℕ
unfolding interpolate_between
interpolate_loop n first p [] = first
interpolate_loop n first p (q ∷ rest) =
    let later = interpolate_loop n first q rest in
    if leb p.block_number n && leb n q.block_number then interpolate_between n p q else later

unfoldable pub interpolate_timestamp : ℕ → List CalibrationPoint → ℕ
unfolding interpolate_loop
interpolate_timestamp n [] = 0
interpolate_timestamp n (p ∷ rest) =
    if leb n p.block_number
    then p.timestamp
    else if leb (last_point p rest).block_number n
    then (last_point p rest).timestamp
    else interpolate_loop n p.timestamp p rest

unfoldable pub get_blocks_per_period : String → ℕ
get_blocks_per_period interval =
    if str_eq interval "hour" then 300 else if str_eq interval "week" then 50_400 else 7_200
