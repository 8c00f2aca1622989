-- ===== src/Examples/Times.antt =====
-- Samples of blocks and times between them (internal/indexer/event_helpers.go).
use chain_indexor.Prelude.{[], ◌∷◌, ◌≡◌, refl, arith}
use chain_indexor.EventHelpers.{
  CalibrationPoint, sample_block_range, interpolate_between, interpolate_timestamp,
}
use chain_indexor.EventHelpers.Samples.{Within, interpolate_between-Within}

abbrev at_100 : CalibrationPoint
at_100 = record { block_number = 100; timestamp = 1_700_000_000 }

abbrev at_200 : CalibrationPoint
at_200 = record { block_number = 200; timestamp = 1_700_001_200 }

interpolate_between-Within_example :
    Within 1_700_000_000 1_700_001_200 (interpolate_between 150 at_100 at_200)
interpolate_between-Within_example =
    interpolate_between-Within 150 at_100 at_200 (omega arith) (omega arith) (omega arith)
      (omega arith) (omega arith) (omega arith)

half_way : interpolate_timestamp 150 (at_100 ∷ at_200 ∷ []) ≡ 1_700_000_600
unfolding interpolate_timestamp
half_way = refl

-- Times that fall, as a difference below zero.
half_way_back :
    interpolate_timestamp 150 (at_100 ∷ record at_200 { timestamp = 1_699_999_000 } ∷ [])
    ≡ 1_699_999_500
unfolding interpolate_timestamp
half_way_back = refl

six_samples : sample_block_range 100 200 ≡ 100 ∷ 120 ∷ 140 ∷ 160 ∷ 180 ∷ 200 ∷ []
unfolding sample_block_range
six_samples = refl
