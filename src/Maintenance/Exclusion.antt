-- ===== src/Maintenance/Exclusion.antt =====
-- The goroutines in a maintenance run and those in an operation (`opLock` of internal/db/maintenance.go).
use chain_indexor.Prelude.{ℕ, zero, suc, ◌+◌, ◌≤◌, ◌≡◌, arith, List, [], ◌∷◌, ◌++◌}
use chain_indexor.Maintenance.Lock.{
  Writer, OpLock, Pc, Move, System, Step, Steps, held, waits, writes, total, all_idle, at_rest,
}

abbrev pub waiting_of : Writer → ℕ
waiting_of Writer.waiting = 1
waiting_of _ = 0

abbrev pub writing_of : Writer → ℕ
writing_of Writer.writing = 1
writing_of _ = 0

-- The readers beside a writer that holds the lock.
abbrev beside : Writer → ℕ → ℕ
beside Writer.writing r = r
beside _ r = 0

abbrev pub beside_writer : OpLock → ℕ
beside_writer l = beside l.writer l.readers

-- The lock counts what the goroutines hold, and a writer holds it alone.
pub record Counts (l : OpLock) (a b c : ℕ) : Type 0 where
  pub readers : l.readers ≡ a
  pub waiting : waiting_of l.writer ≡ b
  pub writing : writing_of l.writer ≡ c
  pub alone : beside_writer l ≡ 0

abbrev pub Consistent : System → Type 0
Consistent s = Counts s.lock (total held s.pcs) (total waits s.pcs) (total writes s.pcs)

pub total-append :
    (f : Pc → ℕ) (xs : List Pc) (p : Pc) (ys : List Pc)
    → total f (xs ++ p ∷ ys) ≡ f p + (total f xs + total f ys)
total-append f [] p ys = omega arith
total-append f (x ∷ xs) p ys = let h = total-append f xs p ys in omega arith

-- A step changes the counts by what its goroutine holds.
Move-Counts :
    {p q : Pc} {l m : OpLock} (a b c : ℕ)
    → Move p l q m
    → Counts l (held p + a) (waits p + b) (writes p + c)
    → Counts m (held q + a) (waits q + b) (writes q + c)
Move-Counts a b c Move.acquire h = omega arith
Move-Counts a b c (Move.release {w = Writer.absent}) h = omega arith
Move-Counts a b c (Move.release {w = Writer.waiting}) h = omega arith
Move-Counts a b c (Move.release {w = Writer.writing}) h = omega arith
Move-Counts a b c Move.set_mode h = omega arith
Move-Counts a b c Move.get_state h = omega arith
Move-Counts a b c (Move.got_state {w = Writer.absent}) h = omega arith
Move-Counts a b c (Move.got_state {w = Writer.waiting}) h = omega arith
Move-Counts a b c (Move.got_state {w = Writer.writing}) h = omega arith
Move-Counts a b c Move.call_lock h = h
Move-Counts a b c Move.query_unlocked h = h
Move-Counts a b c Move.answered h = h
Move-Counts a b c Move.request h = omega arith
Move-Counts a b c Move.begin_run h = omega arith
Move-Counts a b c Move.end_run h = omega arith

-- The counts with the goroutine at one place put first.
pub Counts-append :
    (xs : List Pc) (p : Pc) (ys : List Pc) (l : OpLock)
    → Consistent (record { lock = l; pcs = xs ++ p ∷ ys })
    → Counts l
        (held p + (total held xs + total held ys))
        (waits p + (total waits xs + total waits ys))
        (writes p + (total writes xs + total writes ys))
Counts-append xs p ys l h =
    let h1 = total-append held xs p ys in
    let h2 = total-append waits xs p ys in let h3 = total-append writes xs p ys in omega arith

pub Step-Consistent : {s t : System} → Step s t → Consistent s → Consistent t
Step-Consistent (Step.moves {l = l} {m = m} {p = p} {q = q} xs ys move) h =
    rw (total-append held xs q ys, total-append waits xs q ys, total-append writes xs q ys)
      (Move-Counts (total held xs + total held ys) (total waits xs + total waits ys)
        (total writes xs + total writes ys) move (Counts-append xs p ys l h))

pub Steps-Consistent : {s t : System} → Steps s t → Consistent s → Consistent t
Steps-Consistent Steps.done h = h
Steps-Consistent (Steps.then_step before step) h = Step-Consistent step (Steps-Consistent before h)

total-all_idle :
    (n : ℕ)
    → (total held (all_idle n) ≡ 0)
      × (total waits (all_idle n) ≡ 0)
      × (total writes (all_idle n) ≡ 0)
total-all_idle zero = omega arith
total-all_idle (suc n) = let h = total-all_idle n in omega arith

pub at_rest-Consistent : (n : ℕ) → Consistent (at_rest n)
at_rest-Consistent n = let h = total-all_idle n in omega arith

pub running_alone :
    {a b c r : ℕ} (w : Writer)
    → Counts (record { readers = r; writer = w }) a b c
    → 1 ≤ c
    → (a ≡ 0) × (c ≡ 1)
running_alone Writer.absent h k = omega arith
running_alone Writer.waiting h k = omega arith
running_alone Writer.writing h k = omega arith

-- While a goroutine is in a maintenance run, no goroutine is in an operation that took `opLock` for
-- reading, and no other one is in a run; this holds after any steps of any number of goroutines,
-- which may also wait in `opLock.Lock()`, or be in an operation that takes no lock.
pub Steps-exclusion :
    (n : ℕ) (s : System)
    → Steps (at_rest n) s
    → 1 ≤ total writes s.pcs
    → (total held s.pcs ≡ 0) × (total writes s.pcs ≡ 1)
Steps-exclusion n s steps b =
    running_alone s.lock.writer (Steps-Consistent steps (at_rest-Consistent n)) b
