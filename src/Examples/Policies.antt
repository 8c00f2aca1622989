-- ===== src/Examples/Policies.antt =====
-- Retention at concrete inputs.
use chain_indexor.Prelude.{◌≡◌, refl, arith, leb, some, keep, ◌≤◌, ◌+◌, ◌-◌}
use chain_indexor.Types.{ok}
use chain_indexor.Tables.{no_faults}
use chain_indexor.LogStore.Retention.{
  RetentionPolicy, Estimate, calculate_blocks_to_free_space, apply_retention_if_needed,
}
use chain_indexor.LogStore.Retention.Bounds.{
  by_age_only, calculate_blocks_to_free_space-le, apply_retention_keeps_newest,
}
use chain_indexor.Examples.Reorgs.{three_logs}

-- A block frees 209715 bytes.
abbrev half : Estimate
half _ _ _ _ _ = 209715

apply_retention_keeps_newest_example :
    (keep
        (λ l. leb (29 - 10) l.block_number)
        (apply_retention_if_needed no_faults half
          (ok 0)
          (some (by_age_only 10))
          three_logs).1.event_logs
      ≡ keep (λ l. leb (29 - 10) l.block_number) three_logs.event_logs)
unfolding chain_indexor.LogStore.Retention.coverage_bounds
apply_retention_keeps_newest_example =
    apply_retention_keeps_newest no_faults half (ok 0) 10 10 29 three_logs refl (omega arith)

calculate_blocks_to_free_space-le_example : 21 ≤ 29 + 1
unfolding chain_indexor.LogStore.Retention.coverage_bounds calculate_blocks_to_free_space
calculate_blocks_to_free_space-le_example =
    calculate_blocks_to_free_space-le no_faults half 4 2 10 29 21 three_logs refl (omega arith)
      (omega arith) refl
