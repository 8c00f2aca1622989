-- ===== src/Maintenance/Progress.antt =====
-- Waiting maintenance runs (`opLock` of internal/db/maintenance.go) where no `SetMode` is under way.
use mathlib.Core.Path.{subst}
use chain_indexor.Prelude.{
  ℕ, zero, suc, ◌+◌, ◌≤◌, ◌≡◌, arith, refl, List, [], ◌∷◌, ◌++◌, ◌⊎◌, inl, inr,
}
use chain_indexor.Maintenance.Lock.{
  Writer, Pc, Move, System, Step, Steps, held, waits, writes, total, at_rest,
}
use chain_indexor.Maintenance.Exclusion.{
  Counts, Consistent, total-append, Step-Consistent, Steps-Consistent, at_rest-Consistent,
}

-- The goroutines in `SetMode` that hold a lock for `GetState`, or will.
abbrev pub nested : Pc → ℕ
nested Pc.outer = 1
nested Pc.inner = 1
nested _ = 0

-- Where a goroutine stands in the list.
data At (p : Pc) : List Pc → Type 0 where
  at : (xs ys : List Pc) → At p (xs ++ p ∷ ys)

At-later : {p : Pc} {ps : List Pc} (x : Pc) → At p ps → At p (x ∷ ps)
At-later x (At.at xs ys) = At.at (x ∷ xs) ys

nothing : ¬ (1 ≤ 0)
nothing = omega arith

waits-At : (ps : List Pc) → 1 ≤ total waits ps → At Pc.pending ps
waits-At [] h = elim (nothing h) [ ]
waits-At (Pc.pending ∷ ps) h = At.at [] ps
waits-At (Pc.idle ∷ ps) h = At-later Pc.idle (waits-At ps (omega arith))
waits-At (Pc.reading ∷ ps) h = At-later Pc.reading (waits-At ps (omega arith))
waits-At (Pc.outer ∷ ps) h = At-later Pc.outer (waits-At ps (omega arith))
waits-At (Pc.inner ∷ ps) h = At-later Pc.inner (waits-At ps (omega arith))
waits-At (Pc.queued ∷ ps) h = At-later Pc.queued (waits-At ps (omega arith))
waits-At (Pc.unlocked ∷ ps) h = At-later Pc.unlocked (waits-At ps (omega arith))
waits-At (Pc.running ∷ ps) h = At-later Pc.running (waits-At ps (omega arith))

one_more : (n : ℕ) → ¬ (1 + n ≤ 0)
one_more n = omega arith

zero_or_more : (n : ℕ) → (n ≡ 0) ⊎ (1 ≤ n)
zero_or_more zero = inl refl
zero_or_more (suc n) = inr (omega arith)

held-At : (ps : List Pc) → 1 ≤ total held ps → total nested ps ≤ 0 → At Pc.reading ps
held-At [] h k = elim (nothing h) [ ]
held-At (Pc.reading ∷ ps) h k = At.at [] ps
held-At (Pc.idle ∷ ps) h k = At-later Pc.idle (held-At ps (omega arith) (omega arith))
held-At (Pc.pending ∷ ps) h k = At-later Pc.pending (held-At ps (omega arith) (omega arith))
held-At (Pc.queued ∷ ps) h k = At-later Pc.queued (held-At ps (omega arith) (omega arith))
held-At (Pc.unlocked ∷ ps) h k = At-later Pc.unlocked (held-At ps (omega arith) (omega arith))
held-At (Pc.running ∷ ps) h k = At-later Pc.running (held-At ps (omega arith) (omega arith))
held-At (Pc.outer ∷ ps) h k = elim (one_more (total nested ps) k) [ ]
held-At (Pc.inner ∷ ps) h k = elim (one_more (total nested ps) k) [ ]

first_step : {s t u : System} → Step s t → Steps t u → Steps s u
first_step step Steps.done = Steps.then_step Steps.done step
first_step step (Steps.then_step before last) = Steps.then_step (first_step step before) last

abbrev state : ℕ → Writer → List Pc → System
state r w ps = record { lock = record { readers = r; writer = w }; pcs = ps }

-- Some steps lead to a maintenance run.
abbrev pub CanRun : System → Type 0
CanRun s = (t : System) × Steps s t × (1 ≤ total writes t.pcs)

waiting_writer :
    {a b c r : ℕ} (w : Writer)
    → Counts (record { readers = r; writer = w }) a b c
    → 1 ≤ b
    → w ≡ Writer.waiting
waiting_writer Writer.absent h k = elim (nothing (omega arith)) [ ]
waiting_writer Writer.waiting h k = refl
waiting_writer Writer.writing h k = elim (nothing (omega arith)) [ ]

begins :
    (r : ℕ) (w : Writer) (ps : List Pc)
    → r ≡ 0
    → w ≡ Writer.waiting
    → At Pc.pending ps
    → CanRun (state r w ps)
begins r w _ e f (At.at xs ys) =
    rw (e, f)
      (
        state 0 Writer.writing (xs ++ Pc.running ∷ ys),
        Steps.then_step Steps.done (Step.moves xs ys Move.begin_run),
        (let h = total-append writes xs Pc.running ys in omega arith),
      )

-- What the steps below keep true of the states on the way to a run.
record Waits (n r : ℕ) (ps : List Pc) : Type 0 where
  consistent : Consistent (state r Writer.waiting ps)
  someone : 1 ≤ total waits ps
  flat : total nested ps ≤ 0
  bound : total held ps ≤ n

Waits-release :
    (n r : ℕ) (xs ys : List Pc)
    → Waits (suc n) (r + 1) (xs ++ Pc.reading ∷ ys)
    → Waits n r (xs ++ Pc.idle ∷ ys)
Waits-release n r xs ys h =
    let a1 = total-append waits xs Pc.reading ys in
    let a2 = total-append nested xs Pc.reading ys in
    let a3 = total-append held xs Pc.reading ys in
    let b1 = total-append waits xs Pc.idle ys in
    let b2 = total-append nested xs Pc.idle ys in
    let b3 = total-append held xs Pc.idle ys in
    record {
      consistent = Step-Consistent (Step.moves xs ys Move.release) h.consistent;
      someone = omega arith;
      flat = omega arith;
      bound = omega arith;
    }

releases :
    (n r : ℕ) (ps : List Pc)
    → ((r : ℕ) (ps : List Pc) → Waits n r ps → CanRun (state r Writer.waiting ps))
    → Waits (suc n) (r + 1) ps
    → At Pc.reading ps
    → CanRun (state (r + 1) Writer.waiting ps)
releases n r _ ih h (At.at xs ys) =
    let (t, steps, b) = ih r (xs ++ Pc.idle ∷ ys) (Waits-release n r xs ys h) in
    (t, first_step (Step.moves xs ys Move.release) steps, b)

add_one : (r : ℕ) → suc r ≡ r + 1
add_one r = omega arith

can_run : (n r : ℕ) (ps : List Pc) → Waits n r ps → CanRun (state r Writer.waiting ps)
can_run n zero ps h = begins 0 Writer.waiting ps refl refl (waits-At ps h.someone)
can_run zero (suc r) ps h = elim (one_more r (omega arith)) [ ]
can_run (suc n) (suc r) ps h = rw (add_one r) (
    releases n r ps (can_run n) (subst (λ k. Waits (suc n) k ps) (add_one r) h)
      (held-At ps (omega arith) h.flat))

-- A maintenance run that waits for the readers of `opLock` can begin, if no goroutine is in `SetMode` before
-- the lock of `GetState` is given back: some steps of the goroutines lead to the run.
pub Steps-CanRun :
    (n : ℕ) (s : System)
    → Steps (at_rest n) s
    → 1 ≤ total waits s.pcs
    → total nested s.pcs ≤ 0
    → CanRun s
Steps-CanRun n s steps k l =
    let h = Steps-Consistent steps (at_rest-Consistent n) in go s.lock.writer h
  where
    go :
        (w : Writer)
        → Consistent (state s.lock.readers w s.pcs)
        → CanRun (state s.lock.readers w s.pcs)
    go Writer.waiting h =
        can_run (total held s.pcs) s.lock.readers s.pcs
          (record { consistent = h; someone = k; flat = l; bound = omega arith })
    go Writer.absent h = elim (nothing (omega arith)) [ ]
    go Writer.writing h = elim (nothing (omega arith)) [ ]
