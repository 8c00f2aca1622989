-- ===== src/Maintenance/Lock.antt =====
-- `opLock` of internal/db/maintenance.go and the goroutines beside it: the operations that take it
-- through `AcquireOperationLock`, `SetMode` of internal/downloader/sync_manager.go, which calls
-- `GetState` while it holds the lock, `RunMaintenance`, and operations that query the database
-- without the lock, as `GetLastIndexedBlock` does. A `sync.RWMutex` lets no new reader in once a
-- writer waits, and the writers wait for each other first.
use chain_indexor.Prelude.{ℕ, zero, suc, ◌+◌, List, [], ◌∷◌, ◌++◌}

-- Whether a writer waits for the readers, or holds the lock.
pub data Writer : Type 0 where
  absent waiting writing : Writer

pub record OpLock : Type 0 where
  pub readers : ℕ
  pub writer : Writer

-- Where a goroutine is. `reading` holds the lock once and will release it; `outer` is `SetMode`
-- before the lock of `GetState`, and `inner` with it; `queued` is in `opLock.Lock()` and has no part
-- in the lock yet, `pending` is there as the writer that the lock knows, and `running` after it;
-- `unlocked` is in an operation that takes no lock.
pub data Pc : Type 0 where
  idle reading outer inner queued pending running unlocked : Pc

-- One step of one goroutine, with what it does to the lock.
pub data Move : Pc → OpLock → Pc → OpLock → Type 0 where
  acquire :
      {r : ℕ}
      → Move Pc.idle
          (record { readers = r; writer = Writer.absent })
          Pc.reading
          (record { readers = r + 1; writer = Writer.absent })
  release :
      {r : ℕ} {w : Writer}
      → Move Pc.reading
          (record { readers = r + 1; writer = w })
          Pc.idle
          (record { readers = r; writer = w })
  set_mode :
      {r : ℕ}
      → Move Pc.idle
          (record { readers = r; writer = Writer.absent })
          Pc.outer
          (record { readers = r + 1; writer = Writer.absent })
  get_state :
      {r : ℕ}
      → Move Pc.outer
          (record { readers = r; writer = Writer.absent })
          Pc.inner
          (record { readers = r + 1; writer = Writer.absent })
  got_state :
      {r : ℕ} {w : Writer}
      → Move Pc.inner
          (record { readers = r + 1; writer = w })
          Pc.reading
          (record { readers = r; writer = w })
  call_lock : {l : OpLock} → Move Pc.idle l Pc.queued l
  query_unlocked : {l : OpLock} → Move Pc.idle l Pc.unlocked l
  answered : {l : OpLock} → Move Pc.unlocked l Pc.idle l
  request :
      {r : ℕ}
      → Move Pc.queued
          (record { readers = r; writer = Writer.absent })
          Pc.pending
          (record { readers = r; writer = Writer.waiting })
  begin_run :
      Move Pc.pending
        (record { readers = 0; writer = Writer.waiting })
        Pc.running
        (record { readers = 0; writer = Writer.writing })
  end_run :
      {r : ℕ}
      → Move Pc.running
          (record { readers = r; writer = Writer.writing })
          Pc.idle
          (record { readers = r; writer = Writer.absent })

pub record System : Type 0 where
  pub lock : OpLock
  pub pcs : List Pc

pub data Step : System → System → Type 0 where
  moves :
      {l m : OpLock} {p q : Pc} (xs ys : List Pc)
      → Move p l q m
      → Step (record { lock = l; pcs = xs ++ p ∷ ys }) (record { lock = m; pcs = xs ++ q ∷ ys })

pub data Steps : System → System → Type 0 where
  done : {s : System} → Steps s s
  then_step : {s t u : System} → Steps s t → Step t u → Steps s u

-- The locks that a goroutine holds for reading, and whether it is the writer that waits for the
-- readers, or writes.
abbrev pub held : Pc → ℕ
held Pc.reading = 1
held Pc.outer = 1
held Pc.inner = 2
held _ = 0

abbrev pub waits : Pc → ℕ
waits Pc.pending = 1
waits _ = 0

abbrev pub writes : Pc → ℕ
writes Pc.running = 1
writes _ = 0

abbrev pub total : (Pc → ℕ) → List Pc → ℕ
total f [] = 0
total f (p ∷ ps) = f p + total f ps

abbrev pub all_idle : ℕ → List Pc
all_idle zero = []
all_idle (suc n) = Pc.idle ∷ all_idle n

-- Any number of goroutines, before the first operation.
abbrev pub at_rest : ℕ → System
at_rest n = record { lock = record { readers = 0; writer = Writer.absent }; pcs = all_idle n }
