-- ===== src/Maintenance.antt =====
-- internal/db/maintenance.go: the maintenance runs of a database and their metrics. What the clock,
-- the context, the file system and the database answer in a run is an argument. The lock around a
-- run is in Maintenance/Lock.
pub mod Ending
pub mod Counted
pub mod Lock
pub mod Exclusion
pub mod Nesting
pub mod Progress
use Prim.Native.String.{String}
use chain_indexor.Prelude.{
  ℕ, ◌+◌, ◌-◌, Bool, true, false, not, ◌&&◌, List, [], ◌∷◌, ◌++◌, Option, none, some, ltb, u64_add,
  ℤ, is_positive, codes, same_text, contains_text, to_lower, if◌then◌else◌,
}
use chain_indexor.Types.{Error, Result, ok, err, Done}
use chain_indexor.Config.Database.{MaintenanceConfig}

pub data CheckpointError : Type 0 where
  journal_mode_unread : Error → CheckpointError
  checkpoint_refused : Error → CheckpointError

pub data VacuumError : Type 0 where
  database_locked : VacuumError
  vacuum_refused : List ℕ → VacuumError

pub data MaintenanceError : Type 0 where
  context_done : MaintenanceError
  checkpoint_failed : CheckpointError → MaintenanceError
  vacuum_failed : VacuumError → MaintenanceError

-- The Prometheus metrics of internal/db/metrics.go that a run changes; `reclaimed` and `db_size` are
-- gauges, which a run sets.
pub record Counters : Type 0 where
  pub runs : ℕ
  pub successes : ℕ
  pub errors : ℕ
  pub vacuums : ℕ
  pub checkpoints : List (List ℕ)  -- the modes, the newest first
  pub reclaimed : ℕ
  pub db_size : ℕ

-- `MaintenanceCoordinator`; the last maintenance time is `none` before the first run.
pub record Coordinator : Type 0 where
  pub config : MaintenanceConfig
  pub last_maintenance_time : Option ℕ
  pub maintenance_count : ℕ
  pub last_maintenance_err : Option MaintenanceError
  pub counters : Counters

-- What a run meets: whether the context is done when the lock is held, the sizes of the files, the
-- journal mode, the busy pages that a statement reports, and the text of the error of VACUUM.
pub record RunEnv : Type 0 where
  pub now : ℕ
  pub is_done : Bool
  pub initial_size : Result ℕ
  pub journal_mode : Result (List ℕ)
  pub checkpoint : List ℕ → Result ℤ
  pub vacuum_error : Option (List ℕ)
  pub final_size : Result ℕ

unfoldable pub new_maintenance_coordinator : MaintenanceConfig → Coordinator
new_maintenance_coordinator cfg = record {
  config = cfg;
  last_maintenance_time = none;
  maintenance_count = 0;
  last_maintenance_err = none;
  counters = record {
    runs = 0;
    successes = 0;
    errors = 0;
    vacuums = 0;
    checkpoints = [];
    reclaimed = 0;
    db_size = 0;
  };
}

-- strings.EqualFold(mode, "wal")
unfoldable pub is_wal_mode : RunEnv → Result Bool
is_wal_mode env = elim env.journal_mode [
  | ok mode ↦ ok (same_text (to_lower mode) (codes "wal"))
  | err e ↦ err e
]

abbrev pub checkpoint_sql : String → List ℕ
checkpoint_sql mode = codes "PRAGMA wal_checkpoint(" ++ codes mode ++ codes ")"

abbrev with_checkpoint : String → Counters → Counters
with_checkpoint mode c = record c { checkpoints = to_lower (codes mode) ∷ c.checkpoints }

abbrev run_checkpoint : String → Result ℤ → Counters → Option CheckpointError × Counters
run_checkpoint mode (err e) c = (some (CheckpointError.checkpoint_refused e), c)
run_checkpoint mode (ok busy) c = (none, with_checkpoint mode c)

abbrev checkpoint_if : RunEnv → String → Result Bool → Counters → Option CheckpointError × Counters
checkpoint_if env mode (err e) c = (some (CheckpointError.journal_mode_unread e), c)
checkpoint_if env mode (ok false) c = (none, c)
checkpoint_if env mode (ok true) c = run_checkpoint mode (env.checkpoint (checkpoint_sql mode)) c

unfoldable pub wal_checkpoint : RunEnv → String → Counters → Option CheckpointError × Counters
unfolding is_wal_mode
wal_checkpoint env mode c = checkpoint_if env mode (is_wal_mode env) c

abbrev vacuumed : Option (List ℕ) → Counters → Option VacuumError × Counters
vacuumed none c = (none, record c { vacuums = c.vacuums + 1 })
vacuumed (some text) c =
    if contains_text (codes "database is locked") text
    then (some VacuumError.database_locked, c)
    else (some (VacuumError.vacuum_refused text), c)

unfoldable pub vacuum : RunEnv → Counters → Option VacuumError × Counters
vacuum env c = vacuumed env.vacuum_error c

-- The error of the checkpoint comes before that of VACUUM.
unfoldable pub maintenance_err :
    Option CheckpointError → Option VacuumError → Option MaintenanceError
maintenance_err (some e) _ = some (MaintenanceError.checkpoint_failed e)
maintenance_err none (some e) = some (MaintenanceError.vacuum_failed e)
maintenance_err none none = none

-- A size that cannot be read is 0.
abbrev size_or_zero : Result ℕ → ℕ
size_or_zero (ok size) = size
size_or_zero (err e) = 0

-- The gauge of the space reclaimed keeps its value where the size did not shrink.
abbrev with_sizes : ℕ → ℕ → Counters → Counters
with_sizes initial final c = record c {
  reclaimed = if ltb final initial then initial - final else c.reclaimed;
  db_size = final;
}

abbrev finish : RunEnv → Option MaintenanceError → Counters → Counters
finish env (some e) c = record c { errors = c.errors + 1 }
finish env none c =
    with_sizes (size_or_zero env.initial_size) (size_or_zero env.final_size)
      (record c { successes = c.successes + 1 })

-- The two steps, and the metrics after them.
unfoldable pub run_locked : RunEnv → Coordinator → Option MaintenanceError × Coordinator
run_locked env m =
    let (checkpointed, c1) = wal_checkpoint env m.config.wal_checkpoint_mode m.counters in
    let (compacted, c2) = vacuum env c1 in
    let e = maintenance_err checkpointed compacted in
    (
      e,
      record m {
        last_maintenance_time = some env.now;
        maintenance_count = u64_add m.maintenance_count 1;
        last_maintenance_err = e;
        counters = finish env e c2;
      },
    )

abbrev with_run : Coordinator → Coordinator
with_run m = record m { counters = record m.counters { runs = m.counters.runs + 1 } }

unfoldable pub run_maintenance : RunEnv → Coordinator → Option MaintenanceError × Coordinator
run_maintenance env m =
    let ran = run_locked env (with_run m) in
    if env.is_done then (some MaintenanceError.context_done, with_run m) else ran

-- `maintenanceWorker`: a run for each tick until the context is done. An error is only logged.
unfoldable pub maintenance_worker : List RunEnv → Coordinator → Coordinator
maintenance_worker [] m = m
maintenance_worker (tick ∷ ticks) m = maintenance_worker ticks (run_maintenance tick m).1

-- `time.NewTicker` panics for an interval that is not positive.
abbrev start_worker : List RunEnv → Coordinator → Result Coordinator
start_worker ticks m =
    if is_positive m.config.check_interval
    then ok (maintenance_worker ticks m)
    else err Error.panicked

-- `Start`, with what the run at startup and the ticks of the worker meet.
unfoldable pub start : RunEnv → List RunEnv → Coordinator → Result Coordinator
start startup ticks m =
    let first = if m.config.vacuum_on_startup then (run_maintenance startup m).1 else m in
    if m.config.enabled then start_worker ticks first else ok m

pub record MaintenanceMetrics : Type 0 where
  pub last_time : Option ℕ
  pub count : ℕ
  pub last_error : Option MaintenanceError

unfoldable pub get_metrics : Coordinator → MaintenanceMetrics
get_metrics m = record {
  last_time = m.last_maintenance_time;
  count = m.maintenance_count;
  last_error = m.last_maintenance_err;
}
