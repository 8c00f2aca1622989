-- ===== src/Coverage.antt =====
-- pkg/fetcher/store/coverage_range.go: block ranges that have been downloaded.
pub mod Missing
use chain_indexor.Prelude.{
  ℕ, ◌≤◌, ◌<◌, ◌+◌, Bool, true, false, ◌&&◌, List, [], ◌∷◌, ◌++◌, ltb, leb, any, u64_add, u64_sub,
  max_u64, min, if◌then◌else◌,
}

pub record CoverageRange : Type 0 where
  pub from_block : ℕ
  pub to_block : ℕ

-- The loop returns at the first single range that contains [from, to].
unfoldable pub is_covered : ℕ → ℕ → List CoverageRange → Bool
is_covered from to [] = false
is_covered from to (r ∷ rs) =
    let rest = is_covered from to rs in
    if leb r.from_block from && leb to r.to_block then true else rest

-- A gap before the range `r`, if there is one.
unfoldable pub gap_before : ℕ → ℕ → CoverageRange → List CoverageRange → List CoverageRange
gap_before to current r missing =
    if ltb current r.from_block
    then missing ++ record { from_block = current; to_block = min (u64_sub r.from_block 1) to } ∷ []
    else missing

-- `currentStart` moved past the range `r`.
unfoldable pub move_past : ℕ → CoverageRange → ℕ
move_past current r = if leb current r.to_block then u64_add r.to_block 1 else current

-- The loop of `GetMissingRanges`, with `missing` and `currentStart`; it ends early by `break`.
unfoldable pub missing_loop :
    ℕ → ℕ → List CoverageRange → List CoverageRange → List CoverageRange × ℕ
missing_loop to current missing [] = (missing, current)
missing_loop to current missing (r ∷ rs) =
    let missing' = gap_before to current r missing in
    let current' = move_past current r in
    let rest = missing_loop to current' missing' rs in
    if ltb to current' then (missing', current') else rest

-- The gap after the last range.
unfoldable pub last_gap : ℕ → List CoverageRange × ℕ → List CoverageRange
last_gap to (missing, current) =
    if leb current to
    then missing ++ record { from_block = current; to_block = to } ∷ []
    else missing

unfoldable pub get_missing_ranges : ℕ → ℕ → List CoverageRange → List CoverageRange
get_missing_ranges from to [] = record { from_block = from; to_block = to } ∷ []
get_missing_ranges from to (r ∷ rs) = last_gap to (missing_loop to from [] (r ∷ rs))

-- The block lies in the range.
abbrev pub in_range : ℕ → CoverageRange → Bool
in_range b r = leb r.from_block b && leb b r.to_block

-- The block lies in one of the ranges.
abbrev pub covers : List CoverageRange → ℕ → Bool
covers rs b = any (in_range b) rs

-- Ranges in the order of their first blocks, which start at `lo` or later, none of them empty, and
-- none that ends at the last number of a word.
abbrev pub FromSorted : ℕ → List CoverageRange → Type 0
FromSorted lo [] = Unit
FromSorted lo (r ∷ rs) =
    (lo ≤ r.from_block)
    × (r.from_block ≤ r.to_block)
    × (r.to_block < max_u64)
    × FromSorted r.from_block rs
