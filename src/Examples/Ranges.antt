-- ===== src/Examples/Ranges.antt =====
-- Coverage ranges and unsynced topics at concrete inputs.
use chain_indexor.Prelude.{◌≡◌, refl, arith, not, ◌&&◌, leb, List, [], ◌∷◌}
use chain_indexor.Coverage.{CoverageRange, is_covered, get_missing_ranges, covers, FromSorted}
use chain_indexor.Coverage.Missing.{get_missing_ranges-complement}
use chain_indexor.Unsynced.{UnsyncedTopics, new_unsynced_topics, add_topic}

abbrev two_ranges : List CoverageRange
two_ranges =
    record { from_block = 10; to_block = 19 } ∷ record { from_block = 30; to_block = 39 } ∷ []

two_ranges_missing :
    get_missing_ranges 5 50 two_ranges
    ≡ record { from_block = 5; to_block = 9 }
      ∷ record { from_block = 20; to_block = 29 }
      ∷ record { from_block = 40; to_block = 50 }
      ∷ []
unfolding get_missing_ranges chain_indexor.Coverage.last_gap chain_indexor.Coverage.missing_loop
    chain_indexor.Coverage.move_past chain_indexor.Coverage.gap_before
two_ranges_missing = refl

get_missing_ranges-complement_example :
    covers (get_missing_ranges 5 50 two_ranges) 25
    ≡ (leb 25 50 && leb 5 25 && not (covers two_ranges 25))
get_missing_ranges-complement_example =
    get_missing_ranges-complement 5 50 25 two_ranges (omega arith)

abbrev one_unsynced : UnsyncedTopics
one_unsynced = add_topic new_unsynced_topics 7 70 (record { from_block = 10; to_block = 19 })
