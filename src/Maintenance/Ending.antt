-- ===== src/Maintenance/Ending.antt =====
-- How a maintenance run of internal/db/maintenance.go ends, and what its steps leave of the metrics.
use Prim.Native.String.{String}
use chain_indexor.Prelude.{
  ℕ, ◌+◌, ◌≡◌, arith, refl, Bool, true, false, not, ◌||◌, List, [], ◌∷◌, Option, none, some,
  Bool-cases, ℤ, codes, contains_text, same_text, to_lower, inl, inr,
}
use chain_indexor.Types.{Result, ok, err}
use chain_indexor.Maintenance.{
  Counters, RunEnv, CheckpointError, VacuumError, MaintenanceError, checkpoint_sql, wal_checkpoint,
  checkpoint_if, is_wal_mode, vacuum, vacuumed, maintenance_err, finish,
}

-- The checkpoint fails: the journal mode is not read, or it is WAL and the statement is refused.
abbrev checkpoint_refused : Result (List ℕ) → Result ℤ → Bool
checkpoint_refused (err e) answer = true
checkpoint_refused (ok mode) (ok busy) = false
checkpoint_refused (ok mode) (err e) = same_text (to_lower mode) (codes "wal")

abbrev pub checkpoint_fails : String → RunEnv → Bool
checkpoint_fails mode env =
    checkpoint_refused env.journal_mode (env.checkpoint (checkpoint_sql mode))

abbrev pub is_some {ℓ} : {A : Type ℓ} → Option A → Bool
is_some none = false
is_some (some a) = true

abbrev pub vacuum_fails : RunEnv → Bool
vacuum_fails env = is_some env.vacuum_error

-- Read off what the database answers: one of the two steps of a run fails.
abbrev pub fails : String → RunEnv → Bool
fails mode env = checkpoint_fails mode env || vacuum_fails env

abbrev pub ones : Bool → ℕ
ones true = 1
ones false = 0

abbrev pub how_many : (RunEnv → Bool) → List RunEnv → ℕ
how_many p [] = 0
how_many p (x ∷ xs) = ones (p x) + how_many p xs

-- A step of a run leaves the counters of runs.
pub record Kept (c c' : Counters) : Type 0 where
  pub runs : c'.runs ≡ c.runs
  pub successes : c'.successes ≡ c.successes
  pub errors : c'.errors ≡ c.errors

pub wal_checkpoint_lem :
    (env : RunEnv) (mode : String) (c : Counters)
    → (is_some (wal_checkpoint env mode c).0 ≡ checkpoint_fails mode env)
      × Kept c (wal_checkpoint env mode c).1
      × ((wal_checkpoint env mode c).1.vacuums ≡ c.vacuums)
unfolding wal_checkpoint is_wal_mode
wal_checkpoint_lem env mode c = go env.journal_mode (env.checkpoint (checkpoint_sql mode)) refl
  where
    Fine : Bool → Option CheckpointError × Counters → Type 0
    Fine b r = (is_some r.0 ≡ b) × Kept c r.1 × (r.1.vacuums ≡ c.vacuums)

    go :
        (j : Result (List ℕ)) (r : Result ℤ)
        → env.checkpoint (checkpoint_sql mode) ≡ r
        → Fine (checkpoint_refused j r) (
            checkpoint_if env mode
              (elim j [ ok m ↦ ok (same_text (to_lower m) (codes "wal")) | err e ↦ err e ])
              c)
    go (err e) r q = (refl, omega arith, refl)
    go (ok m) (ok busy) q = elim (Bool-cases (same_text (to_lower m) (codes "wal"))) [
      | inl w ↦ rw (w, q) (refl, omega arith, refl)
      | inr w ↦ rw w (refl, omega arith, refl)
    ]
    go (ok m) (err e) q = elim (Bool-cases (same_text (to_lower m) (codes "wal"))) [
      | inl w ↦ rw (w, q) (refl, omega arith, refl)
      | inr w ↦ rw w (refl, omega arith, refl)
    ]

pub vacuum_lem :
    (env : RunEnv) (c : Counters)
    → (is_some (vacuum env c).0 ≡ vacuum_fails env)
      × Kept c (vacuum env c).1
      × ((vacuum env c).1.vacuums ≡ c.vacuums + ones (not (vacuum_fails env)))
unfolding vacuum
vacuum_lem env c = go env.vacuum_error
  where
    go :
        (o : Option (List ℕ))
        → (is_some (vacuumed o c).0 ≡ is_some o)
          × Kept c (vacuumed o c).1
          × ((vacuumed o c).1.vacuums ≡ c.vacuums + ones (not (is_some o)))
    go none = (refl, omega arith, refl)
    go (some text) = elim (Bool-cases (contains_text (codes "database is locked") text)) [
      | inl h ↦ rw h (refl, omega arith, omega arith)
      | inr h ↦ rw h (refl, omega arith, omega arith)
    ]

pub is_some-maintenance_err :
    (a : Option CheckpointError) (b : Option VacuumError)
    → is_some (maintenance_err a b) ≡ (is_some a || is_some b)
unfolding maintenance_err
is_some-maintenance_err (some e) b = refl
is_some-maintenance_err none (some e) = refl
is_some-maintenance_err none none = refl

pub finish_lem :
    (env : RunEnv) (e : Option MaintenanceError) (c : Counters)
    → ((finish env e c).runs ≡ c.runs)
      × ((finish env e c).vacuums ≡ c.vacuums)
      × ((finish env e c).errors ≡ c.errors + ones (is_some e))
      × ((finish env e c).successes ≡ c.successes + ones (not (is_some e)))
finish_lem env none c = omega arith
finish_lem env (some e) c = omega arith
