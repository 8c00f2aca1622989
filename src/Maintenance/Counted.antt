-- ===== src/Maintenance/Counted.antt =====
-- The metrics of internal/db/maintenance.go over any number of runs.
use Prim.Native.String.{String}
use mathlib.Core.Path.{subst}
use chain_indexor.Prelude.{
  ℕ, ◌+◌, ◌≡◌, ap, ◌∙◌, ◌^◌, ◌%◌, arith, refl, Bool, true, false, not, ◌&&◌, List, [], ◌∷◌, length,
  Bool-cases, is_positive, inl, inr, if◌then◌else◌,
}
use chain_indexor.Types.{ok}
use chain_indexor.Config.Database.{MaintenanceConfig}
use chain_indexor.Maintenance.{
  Coordinator, RunEnv, new_maintenance_coordinator, wal_checkpoint, vacuum, maintenance_err,
  run_locked, run_maintenance, with_run, maintenance_worker, start_worker, start,
}
use chain_indexor.Maintenance.Ending.{
  fails, vacuum_fails, is_some, ones, how_many, wal_checkpoint_lem, vacuum_lem,
  is_some-maintenance_err, finish_lem,
}

-- The metrics `m'` are `m` with the runs that were made. A run whose context is done when it has the
-- lock is only begun.
record Added (mode : String) (made : List RunEnv) (m m' : Coordinator) : Type 0 where
  config : m'.config ≡ m.config
  begun : m'.counters.runs ≡ m.counters.runs + length made
  count :
      (k : ℕ)
      → m.maintenance_count ≡ k % 2 ^ 64
      → m'.maintenance_count ≡ (k + how_many (λ e. not e.is_done) made) % 2 ^ 64
  errors :
      m'.counters.errors ≡ m.counters.errors + how_many (λ e. not e.is_done && fails mode e) made
  successes :
      m'.counters.successes
      ≡ m.counters.successes + how_many (λ e. not e.is_done && not (fails mode e)) made
  vacuums :
      m'.counters.vacuums
      ≡ m.counters.vacuums + how_many (λ e. not e.is_done && not (vacuum_fails e)) made

run_locked-Added :
    (env : RunEnv) (m : Coordinator)
    → env.is_done ≡ false
    → Added m.config.wal_checkpoint_mode (env ∷ []) m (run_locked env (with_run m)).1
unfolding run_locked
run_locked-Added env m d =
    let mode = m.config.wal_checkpoint_mode in
    let c1 = wal_checkpoint env mode (with_run m).counters in
    let (w1, w2, w3) = wal_checkpoint_lem env mode (with_run m).counters in
    let (v1, v2, v3) = vacuum_lem env c1.1 in
    let c2 = vacuum env c1.1 in
    let (f1, f2, f3, f4) = finish_lem env (maintenance_err c1.0 c2.0) c2.1 in
    let failed : is_some (maintenance_err c1.0 c2.0) ≡ fails mode env =
      is_some-maintenance_err c1.0 c2.0 ∙ rw (w1, v1) refl in
    let only = λ (b : Bool). ap (λ x. ones (not x && b)) d in
    record {
      config = refl;
      begun = omega arith;
      count = λ k h. omega (arith, ap (λ x. ones (not x)) d);
      errors = omega (arith, ap ones failed, only (fails mode env));
      successes = omega (arith, ap (λ b. ones (not b)) failed, only (not (fails mode env)));
      vacuums = omega (arith, only (not (vacuum_fails env)));
    }

if_true {ℓ} : {A : Type ℓ} {b : Bool} (x y : A) → b ≡ true → (if b then x else y) ≡ x
if_true x y h = rw h

if_false {ℓ} : {A : Type ℓ} {b : Bool} (x y : A) → b ≡ false → (if b then x else y) ≡ y
if_false x y h = rw h

run_maintenance-Added :
    (env : RunEnv) (m : Coordinator)
    → Added m.config.wal_checkpoint_mode (env ∷ []) m (run_maintenance env m).1
unfolding run_maintenance
run_maintenance-Added env m = elim (Bool-cases env.is_done) [
  | inl d ↦
      let none_more = λ (b : Bool). ap (λ x. ones (not x && b)) d in
      rw (if_true _ _ d) record {
        config = refl;
        begun = omega arith;
        count = λ k h. omega (arith, ap (λ x. ones (not x)) d);
        errors = omega (arith, none_more (fails m.config.wal_checkpoint_mode env));
        successes = omega (arith, none_more (not (fails m.config.wal_checkpoint_mode env)));
        vacuums = omega (arith, none_more (not (vacuum_fails env)));
      }
  | inr d ↦ rw (if_false _ _ d) (run_locked-Added env m d)
]

Added-nil : (mode : String) (m : Coordinator) → Added mode [] m m
Added-nil mode m = record {
  config = refl;
  begun = omega arith;
  count = λ k h. omega arith;
  errors = omega arith;
  successes = omega arith;
  vacuums = omega arith;
}

Added-cons :
    (mode : String) (env : RunEnv) (envs : List RunEnv) (m m1 m2 : Coordinator)
    → Added mode (env ∷ []) m m1
    → Added mode envs m1 m2
    → Added mode (env ∷ envs) m m2
Added-cons mode env envs m m1 m2 h k = record {
  config = k.config ∙ h.config;
  begun = omega (arith, h.begun, k.begun);
  count = λ n e. let z = k.count _ (h.count n e) in omega (arith, z);
  errors = omega (arith, h.errors, k.errors);
  successes = omega (arith, h.successes, k.successes);
  vacuums = omega (arith, h.vacuums, k.vacuums);
}

maintenance_worker-Added :
    (mode : String) (ticks : List RunEnv) (m : Coordinator)
    → m.config.wal_checkpoint_mode ≡ mode
    → Added mode ticks m (maintenance_worker ticks m)
unfolding maintenance_worker
maintenance_worker-Added mode [] m e = Added-nil mode m
maintenance_worker-Added mode (tick ∷ ticks) m e =
    let m1 = (run_maintenance tick m).1 in
    let first : Added mode (tick ∷ []) m m1 =
      subst (λ k. Added k (tick ∷ []) m m1) e (run_maintenance-Added tick m) in
    Added-cons mode tick ticks m m1 _ first (
      maintenance_worker-Added mode ticks m1
        (ap (λ (c : MaintenanceConfig). c.wal_checkpoint_mode) first.config ∙ e))

-- The runs that `Start` and the worker make: the one at startup and one for each tick, as the
-- configuration says.
abbrev pub runs_made : MaintenanceConfig → RunEnv → List RunEnv → List RunEnv
runs_made cfg startup ticks =
    if cfg.enabled then (if cfg.vacuum_on_startup then startup ∷ ticks else ticks) else []

-- The metrics of a coordinator that made these runs and no other.
pub record Counted (mode : String) (made : List RunEnv) (m : Coordinator) : Type 0 where
  pub begun : m.counters.runs ≡ length made
  pub count : m.maintenance_count ≡ how_many (λ e. not e.is_done) made % 2 ^ 64
  pub errors : m.counters.errors ≡ how_many (λ e. not e.is_done && fails mode e) made
  pub successes : m.counters.successes ≡ how_many (λ e. not e.is_done && not (fails mode e)) made
  pub vacuums : m.counters.vacuums ≡ how_many (λ e. not e.is_done && not (vacuum_fails e)) made

new-Counted :
    (cfg : MaintenanceConfig) (made : List RunEnv) (m : Coordinator)
    → Added cfg.wal_checkpoint_mode made (new_maintenance_coordinator cfg) m
    → Counted cfg.wal_checkpoint_mode made m
unfolding new_maintenance_coordinator
new-Counted cfg made m h =
    let z = h.count 0 (omega arith) in
    record {
      begun = omega (arith, h.begun);
      count = omega (arith, z);
      errors = omega (arith, h.errors);
      successes = omega (arith, h.successes);
      vacuums = omega (arith, h.vacuums);
    }

-- If the check interval is positive, `Start` of a new coordinator and its worker do not panic, and
-- the metrics count the runs that were made, which are none where maintenance is disabled, and
-- otherwise the run at startup, where it is configured, and one for each tick: as many runs were
-- begun; the count of `GetMetrics` is, modulo 2^64, that of the runs whose context was not done when
-- they had the lock; of these the errors count those in which the checkpoint or VACUUM failed, the
-- successes the others, and the compactions those in which VACUUM did not fail.
pub start-Counted :
    (cfg : MaintenanceConfig) (startup : RunEnv) (ticks : List RunEnv)
    → is_positive cfg.check_interval ≡ true
    → (m : Coordinator) × (start startup ticks (new_maintenance_coordinator cfg) ≡ ok m)
      × Counted cfg.wal_checkpoint_mode (runs_made cfg startup ticks) m
unfolding start new_maintenance_coordinator
start-Counted cfg startup ticks h = go cfg.enabled cfg.vacuum_on_startup
  where
    new : Coordinator
    new = new_maintenance_coordinator cfg

    mode : String
    mode = cfg.wal_checkpoint_mode

    go :
        (enabled at_startup : Bool)
        → (m : Coordinator) × ((if enabled
              then start_worker ticks (if at_startup then (run_maintenance startup new).1 else new)
              else ok new)
            ≡ ok m)
          × Counted mode (if enabled then (if at_startup then startup ∷ ticks else ticks) else []) m
    go false at_startup = (new, refl, new-Counted cfg [] new (Added-nil mode new))
    go true false = (
      maintenance_worker ticks new,
      rw h refl,
      new-Counted cfg ticks _ (maintenance_worker-Added mode ticks new refl),
    )
    go true true =
        let first = (run_maintenance startup new).1 in
        let added : Added mode (startup ∷ []) new first = run_maintenance-Added startup new in
        let same = ap (λ (c : MaintenanceConfig). is_positive c.check_interval) added.config ∙ h in
        (
          maintenance_worker ticks first,
          rw same refl,
          new-Counted cfg (startup ∷ ticks) _ (
              Added-cons mode startup ticks new first _ added (
                maintenance_worker-Added mode ticks first
                  (ap (λ (c : MaintenanceConfig). c.wal_checkpoint_mode) added.config))),
        )
