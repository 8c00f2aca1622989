-- ===== src/Coverage/Missing.antt =====
-- What `is_covered` and `get_missing_ranges` say of each block.
use chain_indexor.Prelude.{
  ℕ, ◌≤◌, ◌<◌, true, false, not, ◌&&◌, ◌||◌, ◌≡◌, refl, List, [], ◌∷◌, ◌++◌, arith, ltb, leb,
  any-append, max_u64, u64_sub, min,
}
use chain_indexor.Coverage.{
  CoverageRange, is_covered, gap_before, move_past, missing_loop, last_gap, get_missing_ranges,
  in_range, covers, FromSorted,
}

-- What `is_covered` accepts is covered block by block.
is_covered_sound :
    (from to b : ℕ) (cov : List CoverageRange)
    → is_covered from to cov ≡ true
    → from ≤ b
    → b ≤ to
    → covers cov b ≡ true
unfolding is_covered
is_covered_sound from to b [] h lo hi = cc
is_covered_sound from to b (r ∷ rs) h lo hi = ground (arith, is_covered_sound from to b rs)

-- No range of a sorted list reaches below its first block.
pub covers_below :
    (lo b : ℕ) (rs : List CoverageRange) → FromSorted lo rs → b < lo → covers rs b ≡ false
covers_below lo b [] s h = refl
covers_below lo b (r ∷ rs) s h = ground (arith, covers_below r.from_block b rs)

covers_snoc :
    (ms : List CoverageRange) (r : CoverageRange) (b : ℕ)
    → covers (ms ++ r ∷ []) b ≡ (covers ms b || in_range b r)
covers_snoc ms r b = ground (arith, any-append (in_range b) ms (r ∷ []))

covers-gap_before :
    (to current b : ℕ) (r : CoverageRange) (missing : List CoverageRange)
    → r.to_block < max_u64
    → r.from_block ≤ r.to_block
    → covers (gap_before to current r missing) b
      ≡ (covers missing b || (leb current b && ltb b r.from_block && leb b to))
unfolding gap_before
covers-gap_before to current b r missing hr hv = ground (
  arith,
  covers_snoc missing (record { from_block = current; to_block = min (u64_sub r.from_block 1) to })
      b,
)

-- What is left to find after `r`, told by what was left before it.
rest_after :
    (current b : ℕ) (r : CoverageRange) (rs : List CoverageRange)
    → FromSorted r.from_block rs
    → r.to_block < max_u64
    → r.from_block ≤ r.to_block
    → ((leb current b && ltb b r.from_block) || (leb (move_past current r) b && not (covers rs b)))
      ≡ (leb current b && not (covers (r ∷ rs) b))
unfolding move_past
rest_after current b r rs s h v = ground (arith, covers_below r.from_block b rs)

missing_loop_lem :
    (lo to current b : ℕ) (missing rs : List CoverageRange)
    → FromSorted lo rs
    → covers (last_gap to (missing_loop to current missing rs)) b
      ≡ (covers missing b || (leb b to && leb current b && not (covers rs b)))
unfolding missing_loop last_gap
missing_loop_lem lo to current b missing [] s =
    ground (arith, covers_snoc missing (record { from_block = current; to_block = to }) b)
missing_loop_lem lo to current b missing (r ∷ rs) s = ground (
  arith,
  covers-gap_before to current b r missing,
  rest_after current b r rs,
  missing_loop_lem r.from_block to (move_past current r) b (gap_before to current r missing) rs,
)

-- For coverage in the order of its first blocks, a block lies in a returned range exactly when it
-- is a block of the requested range and no covered range contains it.
pub get_missing_ranges-complement :
    (from to b : ℕ) (cov : List CoverageRange)
    → FromSorted 0 cov
    → covers (get_missing_ranges from to cov) b ≡ (leb b to && leb from b && not (covers cov b))
unfolding get_missing_ranges
get_missing_ranges-complement from to b [] s = ground arith
get_missing_ranges-complement from to b (r ∷ rs) s =
    ground (arith, missing_loop_lem 0 to from b [] (r ∷ rs))
