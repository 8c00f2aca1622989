-- ===== src/Examples/Runs.antt =====
-- Maintenance runs and their lock (internal/db/maintenance.go) at concrete inputs.
use chain_indexor.Prelude.{
  ℕ, pos, codes, true, false, List, [], ◌∷◌, none, some, Option, ◌≡◌, ◌≤◌, refl, arith,
}
use chain_indexor.Types.{Error, ok, err}
use chain_indexor.Config.Database.{MaintenanceConfig}
use chain_indexor.Maintenance.{
  Coordinator, RunEnv, MaintenanceError, VacuumError, new_maintenance_coordinator, run_maintenance,
  start, get_metrics,
}
use chain_indexor.Maintenance.Counted.{Counted, runs_made, start-Counted}
use chain_indexor.Maintenance.Lock.{
  Writer, Pc, Move, System, Step, Steps, held, waits, writes, total, at_rest,
}
use chain_indexor.Maintenance.Exclusion.{Steps-exclusion}
use chain_indexor.Maintenance.Nesting.{is_outer, Steps-Blocked}
use chain_indexor.Maintenance.Progress.{CanRun, Steps-CanRun}

abbrev hourly : MaintenanceConfig
hourly = record {
  enabled = true;
  check_interval = pos 3_600_000_000_000;
  vacuum_on_startup = true;
  wal_checkpoint_mode = "TRUNCATE";
}

abbrev clean_run : RunEnv
clean_run = record {
  now = 100;
  is_done = false;
  initial_size = ok 900;
  journal_mode = ok (codes "WAL");
  checkpoint = λ sql. ok (pos 0);
  vacuum_error = none;
  final_size = ok 600;
}

abbrev locked_run : RunEnv
locked_run = record clean_run { vacuum_error = some (codes "database is locked (5)") }

-- The context is done when the third tick has the lock.
abbrev done_run : RunEnv
done_run = record clean_run { is_done = true }

start-Counted_example :
    (m : Coordinator) × (start clean_run
        (locked_run ∷ clean_run ∷ done_run ∷ [])
        (new_maintenance_coordinator hourly)
      ≡ ok m)
    × Counted "TRUNCATE" (runs_made hourly clean_run (locked_run ∷ clean_run ∷ done_run ∷ [])) m
start-Counted_example = start-Counted hourly clean_run (locked_run ∷ clean_run ∷ done_run ∷ []) refl

locked_is_reported :
    (run_maintenance locked_run (new_maintenance_coordinator hourly)).0
    ≡ some (MaintenanceError.vacuum_failed VacuumError.database_locked)
unfolding run_maintenance new_maintenance_coordinator chain_indexor.Maintenance.run_locked
    chain_indexor.Maintenance.maintenance_err chain_indexor.Maintenance.wal_checkpoint
    chain_indexor.Prelude.same_text chain_indexor.Prelude.to_lower chain_indexor.Maintenance.vacuum
    chain_indexor.Prelude.contains_text
locked_is_reported = refl

-- A size that cannot be read after VACUUM counts as a file of no bytes.
all_is_reclaimed :
    (run_maintenance
      (record clean_run { final_size = err (Error.db_error 1) })
      (new_maintenance_coordinator hourly)).1.counters.reclaimed
    ≡ 900
unfolding run_maintenance new_maintenance_coordinator chain_indexor.Maintenance.run_locked
    chain_indexor.Maintenance.maintenance_err chain_indexor.Maintenance.wal_checkpoint
    chain_indexor.Prelude.same_text chain_indexor.Prelude.to_lower chain_indexor.Maintenance.vacuum
all_is_reclaimed = refl

abbrev state : ℕ → Writer → List Pc → System
state r w ps = record { lock = record { readers = r; writer = w }; pcs = ps }

-- The second goroutine calls `opLock.Lock()` while the first one is in an operation.
abbrev read_then_request : Steps (at_rest 2) (state 1 Writer.waiting (Pc.reading ∷ Pc.pending ∷ []))
read_then_request =
    Steps.then_step
      (Steps.then_step
        (Steps.then_step Steps.done (Step.moves [] (Pc.idle ∷ []) (Move.acquire {r = 0})))
        (Step.moves (Pc.reading ∷ []) [] Move.call_lock))
      (Step.moves (Pc.reading ∷ []) [] (Move.request {r = 1}))

Steps-CanRun_example : CanRun (state 1 Writer.waiting (Pc.reading ∷ Pc.pending ∷ []))
Steps-CanRun_example =
    Steps-CanRun 2 (state 1 Writer.waiting (Pc.reading ∷ Pc.pending ∷ [])) read_then_request
      (omega arith) (omega arith)

-- A second run waits in `opLock.Lock()` and `GetLastIndexedBlock` queries during the first run.
abbrev one_runs : System
one_runs = state 0 Writer.writing (Pc.queued ∷ Pc.running ∷ Pc.unlocked ∷ [])

abbrev two_requests : Steps (at_rest 3) one_runs
two_requests =
    Steps.then_step
      (Steps.then_step
        (Steps.then_step
          (Steps.then_step
            (Steps.then_step Steps.done (Step.moves (Pc.idle ∷ []) (Pc.idle ∷ []) Move.call_lock))
            (Step.moves [] (Pc.queued ∷ Pc.idle ∷ []) Move.call_lock))
          (Step.moves (Pc.queued ∷ []) (Pc.idle ∷ []) (Move.request {r = 0})))
        (Step.moves (Pc.queued ∷ []) (Pc.idle ∷ []) Move.begin_run))
      (Step.moves (Pc.queued ∷ Pc.running ∷ []) [] Move.query_unlocked)

Steps-exclusion_example : (total held one_runs.pcs ≡ 0) × (total writes one_runs.pcs ≡ 1)
Steps-exclusion_example = Steps-exclusion 3 one_runs two_requests (omega arith)

-- `SetMode` has its first lock when a run asks for the lock, and an operation is under way.
abbrev stuck : System
stuck = state 2 Writer.waiting (Pc.outer ∷ Pc.pending ∷ Pc.reading ∷ [])

abbrev set_mode_then_request : Steps (at_rest 3) stuck
set_mode_then_request =
    Steps.then_step
      (Steps.then_step
        (Steps.then_step
          (Steps.then_step Steps.done
            (Step.moves [] (Pc.idle ∷ Pc.idle ∷ []) (Move.set_mode {r = 0})))
          (Step.moves (Pc.outer ∷ Pc.idle ∷ []) [] (Move.acquire {r = 1})))
        (Step.moves (Pc.outer ∷ []) (Pc.reading ∷ []) Move.call_lock))
      (Step.moves (Pc.outer ∷ []) (Pc.reading ∷ []) (Move.request {r = 2}))

abbrev still_stuck : System
still_stuck = state 1 Writer.waiting (Pc.outer ∷ Pc.pending ∷ Pc.idle ∷ [])

Steps-Blocked_example :
    (total waits still_stuck.pcs ≡ total waits stuck.pcs)
    × (total is_outer still_stuck.pcs ≡ total is_outer stuck.pcs)
    × (total writes still_stuck.pcs ≡ 0)
    × (total held still_stuck.pcs ≤ total held stuck.pcs)
Steps-Blocked_example = Steps-Blocked 3 stuck still_stuck set_mode_then_request (omega arith) (
    Steps.then_step Steps.done
      (Step.moves (Pc.outer ∷ Pc.pending ∷ []) [] (Move.release {r = 1} {w = Writer.waiting})))
