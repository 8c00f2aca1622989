-- ===== src/Maintenance/Nesting.antt =====
-- `SetMode` of internal/downloader/sync_manager.go takes the operation lock twice.
use chain_indexor.Prelude.{ℕ, ◌+◌, ◌≤◌, ◌≡◌, arith, List, [], ◌∷◌}
use chain_indexor.Maintenance.Lock.{
  Writer, OpLock, Pc, Move, System, Step, Steps, held, waits, writes, total, at_rest,
}
use chain_indexor.Maintenance.Exclusion.{
  Counts, Consistent, total-append, Counts-append, Steps-Consistent, at_rest-Consistent,
}

abbrev pub is_outer : Pc → ℕ
is_outer Pc.outer = 1
is_outer _ = 0

-- A run waits for the lock while some `SetMode` is between its two locks.
abbrev pub Blocked : System → Type 0
Blocked s = (1 ≤ total waits s.pcs) × (1 ≤ total is_outer s.pcs)

outer-held : (ps : List Pc) → total is_outer ps ≤ total held ps
outer-held [] = omega arith
outer-held (Pc.idle ∷ ps) = let h = outer-held ps in omega arith
outer-held (Pc.reading ∷ ps) = let h = outer-held ps in omega arith
outer-held (Pc.outer ∷ ps) = let h = outer-held ps in omega arith
outer-held (Pc.inner ∷ ps) = let h = outer-held ps in omega arith
outer-held (Pc.queued ∷ ps) = let h = outer-held ps in omega arith
outer-held (Pc.unlocked ∷ ps) = let h = outer-held ps in omega arith
outer-held (Pc.pending ∷ ps) = let h = outer-held ps in omega arith
outer-held (Pc.running ∷ ps) = let h = outer-held ps in omega arith

-- What a step does to the goroutines that wait or are between the locks, in a blocked state.
Move-blocked :
    {p q : Pc} {l m : OpLock} (a b c d : ℕ)
    → Move p l q m
    → Counts l (held p + a) (waits p + b) (writes p + c)
    → d ≤ a
    → (1 ≤ waits p + b) × (1 ≤ is_outer p + d)
    → (waits q ≡ waits p) × (is_outer q ≡ is_outer p) × (writes q ≡ writes p) × (held q ≤ held p)
Move-blocked a b c d Move.acquire h k g = omega arith
Move-blocked a b c d Move.release h k g = omega arith
Move-blocked a b c d Move.set_mode h k g = omega arith
Move-blocked a b c d Move.get_state h k g = omega arith
Move-blocked a b c d Move.got_state h k g = omega arith
Move-blocked a b c d Move.call_lock h k g = omega arith
Move-blocked a b c d Move.query_unlocked h k g = omega arith
Move-blocked a b c d Move.answered h k g = omega arith
Move-blocked a b c d Move.request h k g = omega arith
Move-blocked a b c d Move.begin_run h k g = omega arith
Move-blocked a b c d Move.end_run h k g = omega arith

record Unchanged (s t : System) : Type 0 where
  waiting : total waits t.pcs ≡ total waits s.pcs
  between : total is_outer t.pcs ≡ total is_outer s.pcs
  in_run : total writes t.pcs ≡ total writes s.pcs
  locks : total held t.pcs ≤ total held s.pcs

Step-Unchanged : {s t : System} → Step s t → Consistent s → Blocked s → Unchanged s t
Step-Unchanged (Step.moves {l = l} {m = m} {p = p} {q = q} xs ys move) h g =
    let o1 = outer-held xs in
    let o2 = outer-held ys in
    let w1 = total-append waits xs p ys in
    let w2 = total-append is_outer xs p ys in
    let w3 = total-append writes xs p ys in
    let w4 = total-append held xs p ys in
    let v1 = total-append waits xs q ys in
    let v2 = total-append is_outer xs q ys in
    let v3 = total-append writes xs q ys in
    let v4 = total-append held xs q ys in
    let c =
      Move-blocked (total held xs + total held ys) (total waits xs + total waits ys)
        (total writes xs + total writes ys) (total is_outer xs + total is_outer ys) move
        (Counts-append xs p ys l h) (omega arith) (omega arith) in
    omega arith

Unchanged-trans : {s t u : System} → Unchanged s t → Unchanged t u → Unchanged s u
Unchanged-trans h k = omega arith

Unchanged-Blocked : {s t : System} → Unchanged s t → Blocked s → Blocked t
Unchanged-Blocked h g = omega arith

Steps-Unchanged : {s t : System} → Steps s t → Consistent s → Blocked s → Unchanged s t
Steps-Unchanged Steps.done h g = omega arith
Steps-Unchanged (Steps.then_step before step) h g =
    let u = Steps-Unchanged before h g in
    Unchanged-trans u (Step-Unchanged step (Steps-Consistent before h) (Unchanged-Blocked u g))

none_runs :
    {a b c r : ℕ} (w : Writer) → Counts (record { readers = r; writer = w }) a b c → 1 ≤ b → c ≡ 0
none_runs Writer.absent h k = omega arith
none_runs Writer.waiting h k = omega arith
none_runs Writer.writing h k = omega arith

-- Once a maintenance run waits for the readers of `opLock` while some `SetMode` is between its own
-- lock and that of `GetState`, the program is stuck: after any further steps the same number of goroutines
-- waits to run and is in `SetMode` before `GetState`, no run begins, and no lock is taken.
pub Steps-Blocked :
    (n : ℕ) (s t : System)
    → Steps (at_rest n) s
    → Blocked s
    → Steps s t
    → (total waits t.pcs ≡ total waits s.pcs)
      × (total is_outer t.pcs ≡ total is_outer s.pcs)
      × (total writes t.pcs ≡ 0)
      × (total held t.pcs ≤ total held s.pcs)
Steps-Blocked n s t before g steps =
    let h = Steps-Consistent before (at_rest-Consistent n) in
    let u = Steps-Unchanged steps h g in let z = none_runs s.lock.writer h g.0 in omega arith
