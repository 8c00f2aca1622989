-- ===== src/LogStore/Gaps/Complete.antt =====
-- `hasCompleteCoverage` of log_store.go, block by block.
use chain_indexor.Prelude.{
  ℕ, ◌≤◌, true, false, ◌≡◌, ◌⊎◌, refl, List, [], ◌∷◌, arith, ltb, Bool-cases, inl, inr,
  if◌then◌else◌,
}
use chain_indexor.Coverage.{CoverageRange, covers, FromSorted}
use chain_indexor.Coverage.Missing.{covers_below}
use chain_indexor.LogStore.Gaps.{covered_up_to, complete_loop, has_complete_coverage}

complete_loop_sound :
    (to current b : ℕ) (cs : List CoverageRange)
    → complete_loop to current cs ≡ true
    → current ≤ b
    → b ≤ to
    → covers cs b ≡ true
unfolding complete_loop
complete_loop_sound to current b [] h lo hi = ground arith
complete_loop_sound to current b (c ∷ cs) h lo hi =
    ground (arith, complete_loop_sound to (covered_up_to current c) b cs)

-- The block that `complete_loop` finds uncovered.
gap : ℕ → ℕ → List CoverageRange → ℕ
gap to current [] = current
gap to current (c ∷ cs) =
    let rest = gap to (covered_up_to current c) cs in
    if ltb current c.from_block then current else rest

gap_lem :
    (lo to current : ℕ) (cs : List CoverageRange)
    → FromSorted lo cs
    → complete_loop to current cs ≡ false
    → current ≤ to
    → (current ≤ gap to current cs)
      × (gap to current cs ≤ to)
      × (covers cs (gap to current cs) ≡ false)
unfolding complete_loop gap
gap_lem lo to current [] s h c = ground arith
gap_lem lo to current (c ∷ cs) s h v = ground (
  arith,
  gap_lem c.from_block to (covered_up_to current c) cs s.3,
  covers_below c.from_block current cs s.3,
)

pub has_complete_coverage_lem :
    (cs : List CoverageRange) (from to : ℕ)
    → FromSorted 0 cs
    → from ≤ to
    → (has_complete_coverage cs from to ≡ true → (b : ℕ) → from ≤ b → b ≤ to → covers cs b ≡ true)
      × (has_complete_coverage cs from to ≡ false
          → (b : ℕ) × (from ≤ b) × (b ≤ to) × (covers cs b ≡ false))
unfolding has_complete_coverage
has_complete_coverage_lem [] from to s h = ((λ e b lo hi. cc), λ e. (from, omega arith, h, refl))
has_complete_coverage_lem (c ∷ cs) from to s h = (
  (λ e b lo hi. complete_loop_sound to from b (c ∷ cs) e lo hi),
  λ e. let g = gap_lem 0 to from (c ∷ cs) s e h in (gap to from (c ∷ cs), g.0, g.1, g.2),
)

pub has_complete_coverage_sound :
    (cs : List CoverageRange) (from to b : ℕ)
    → has_complete_coverage cs from to ≡ true
    → from ≤ b
    → b ≤ to
    → covers cs b ≡ true
unfolding has_complete_coverage
has_complete_coverage_sound [] from to b e lo hi = cc
has_complete_coverage_sound (c ∷ cs) from to b e lo hi =
    complete_loop_sound to from b (c ∷ cs) e lo hi

-- The range is accepted and all of its blocks lie in some row, or it is refused and one lies in none.
abbrev pub CoverageDecided : List CoverageRange → ℕ → ℕ → Type 0
CoverageDecided cs from to =
    ((has_complete_coverage cs from to ≡ true) × ((b : ℕ) → from ≤ b → b ≤ to → covers cs b ≡ true))
    ⊎ ((has_complete_coverage cs from to ≡ false)
        × (b : ℕ) × (from ≤ b)
        × (b ≤ to)
        × (covers cs b ≡ false))

-- For rows in the order of their first blocks and a range that is not empty, `hasCompleteCoverage`
-- accepts when every block of the range lies in some row, and refuses when some block lies in none.
has_complete_coverage_decides :
    (cs : List CoverageRange) (from to : ℕ)
    → FromSorted 0 cs
    → from ≤ to
    → CoverageDecided cs from to
has_complete_coverage_decides cs from to s h =
    let (accepts, refuses) = has_complete_coverage_lem cs from to s h in
    elim (Bool-cases (has_complete_coverage cs from to)) [
      | inl t ↦ inl (t, accepts t)
      | inr n ↦ let (b, lo, hi, out) = refuses n in inr (n, b, lo, hi, out)
    ]
