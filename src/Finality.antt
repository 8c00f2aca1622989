-- ===== src/Finality.antt =====
-- internal/types/block_finality.go
use Prim.Native.String.{String}
use text.Mathlib.Text.{◌==◌}
use text.Mathlib.TextEquality.{eq_iff}
use chain_indexor.Prelude.{Bool, true, false, ◌≡◌, arith, if◌then◌else◌}
use chain_indexor.Types.{Error, Result, ok, err}

-- A `BlockFinality` is a string; `other` is any that is not one of the three constants.
pub data BlockFinality : Type 0 where
  finalized safe latest : BlockFinality
  other : String → BlockFinality

unfoldable pub of_string : String → BlockFinality
of_string s =
    if s == "finalized"
    then finalized
    else if s == "safe"
    then safe
    else if s == "latest"
    then latest
    else other s

unfoldable pub to_string : BlockFinality → String
to_string finalized = "finalized"
to_string safe = "safe"
to_string latest = "latest"
to_string (other s) = s

unfoldable pub is_valid : BlockFinality → Bool
is_valid (other _) = false
is_valid _ = true

unfoldable pub parse_block_finality : String → Result BlockFinality
unfolding of_string is_valid
parse_block_finality s =
    let f = of_string s in if is_valid f then ok f else err Error.invalid_finality

-- A parsed finality is one of the three, and prints as the string that was parsed.
parse_block_finality_ok :
    (s : String) (f : BlockFinality)
    → parse_block_finality s ≡ ok f
    → (is_valid f ≡ true) × (to_string f ≡ s)
unfolding parse_block_finality to_string
parse_block_finality_ok s f h =
    ground (arith, eq_iff s "finalized", eq_iff s "safe", eq_iff s "latest")
