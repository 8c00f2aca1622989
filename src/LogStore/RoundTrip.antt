-- ===== src/LogStore/RoundTrip.antt =====
-- `GetLogs` after `storeLogsInternal`.
use chain_indexor.Prelude.{
  ℕ, ◌≤◌, Bool, true, false, ◌≡◌, ◌⊎◌, refl, List, [], ◌∷◌, ◌++◌, map, Option, none, some, arith,
  any, any-append, length, order_by, keep, In, In-map, In-keep, In-append_left, In-append_right,
  In-order_by, Bool-cases, inl, inr,
}
use chain_indexor.Types.{Address, Hash, Log, Error, ok}
use chain_indexor.Tables.{
  DbLog, Store, Stmt, Faults, same_log, eth_log_to_db_log, db_log_to_eth_log,
}
use chain_indexor.Tables.Convert.{db_log_to_eth_log-eth_log_to_db_log}
use mathlib.Core.Path.{subst}
use chain_indexor.Coverage.{CoverageRange}
use chain_indexor.LogStore.Reads.{get_logs_rows}
use chain_indexor.LogStore.{
  by_position, log_within, get_logs, insert_log, insert_logs, store_logs_internal,
}
use chain_indexor.LogStore.Storing.{insert_addresses_covered, store_logs_internal_ok}

In-insert_log :
    (faults : Faults) (r row : DbLog) (rows : List DbLog)
    → In r rows
    → In r (insert_log faults row rows)
unfolding insert_log
In-insert_log faults r row rows h =
    go (faults (Stmt.insert_log row)) refl (Bool-cases (any (same_log row) rows))
  where
    go :
        (o : Option Error)
        → faults (Stmt.insert_log row) ≡ o
        → (any (same_log row) rows ≡ true) ⊎ (any (same_log row) rows ≡ false)
        → In r (insert_log faults row rows)
    go (some e) p c = rw (p, insert_log) h
    go none p (inl e) = rw (p, insert_log) (rw e h)
    go none p (inr e) = rw (p, insert_log) (rw e (In-append_left r rows (row ∷ []) h))

In-insert_logs :
    (faults : Faults) (r : DbLog) (logs : List Log) (rows : List DbLog)
    → In r rows
    → In r (insert_logs faults logs rows)
unfolding insert_logs
In-insert_logs faults r [] rows h = h
In-insert_logs faults r (l ∷ ls) rows h =
    In-insert_logs faults r ls (insert_log faults (eth_log_to_db_log l) rows)
      (In-insert_log faults r (eth_log_to_db_log l) rows h)

abbrev key_taken : DbLog → List DbLog → Bool
key_taken r rows = any (same_log r) rows

key_taken-insert_log :
    (faults : Faults) (r row : DbLog) (rows : List DbLog)
    → same_log r row ≡ false
    → key_taken r rows ≡ false
    → key_taken r (insert_log faults row rows) ≡ false
unfolding insert_log
key_taken-insert_log faults r row rows n k = ground (arith, any-append (same_log r) rows (row ∷ []))

key_taken-insert_logs :
    (faults : Faults) (r : DbLog) (logs : List Log) (rows : List DbLog)
    → any (λ l. same_log r (eth_log_to_db_log l)) logs ≡ false
    → key_taken r rows ≡ false
    → key_taken r (insert_logs faults logs rows) ≡ false
unfolding insert_logs
key_taken-insert_logs faults r [] rows n k = k
key_taken-insert_logs faults r (l ∷ ls) rows n k = ground (
  arith,
  key_taken-insert_log faults r (eth_log_to_db_log l) rows,
  key_taken-insert_logs faults r ls (insert_log faults (eth_log_to_db_log l) rows),
)

insert_logs-append :
    (faults : Faults) (xs ys : List Log) (rows : List DbLog)
    → insert_logs faults (xs ++ ys) rows ≡ insert_logs faults ys (insert_logs faults xs rows)
unfolding insert_logs
insert_logs-append faults [] ys rows = refl
insert_logs-append faults (x ∷ xs) ys rows =
    insert_logs-append faults xs ys (insert_log faults (eth_log_to_db_log x) rows)

insert_log_new :
    (faults : Faults) (row : DbLog) (rows : List DbLog)
    → faults (Stmt.insert_log row) ≡ none
    → key_taken row rows ≡ false
    → insert_log faults row rows ≡ rows ++ row ∷ []
unfolding insert_log
insert_log_new faults row rows f k = ground arith

-- The first log of a batch with a key that no row has yet is inserted.
In-insert_logs_new :
    (faults : Faults) (xs : List Log) (l : Log) (ys : List Log) (rows : List DbLog)
    → faults (Stmt.insert_log (eth_log_to_db_log l)) ≡ none
    → any (λ x. same_log (eth_log_to_db_log l) (eth_log_to_db_log x)) xs ≡ false
    → key_taken (eth_log_to_db_log l) rows ≡ false
    → In (eth_log_to_db_log l) (insert_logs faults (xs ++ l ∷ ys) rows)
In-insert_logs_new faults xs l ys rows f n k =
    let r = eth_log_to_db_log l in
    let rows₁ = insert_logs faults xs rows in
    let taken = key_taken-insert_logs faults r xs rows n k in
    rw (insert_logs-append faults xs (l ∷ ys) rows) (
      unfold insert_logs in
      In-insert_logs faults r ys (insert_log faults r rows₁)
        (rw (insert_log_new faults r rows₁ f taken) (In-append_right r rows₁ (r ∷ []) (inl refl))))

-- A log of at most four topics that is stored successfully, with a key that no row and no earlier
-- log of the batch has, is returned by `GetLogs` for its address and any range with its block, but
-- for its block timestamp and its `Removed` flag, which come back as 0 and false.
pub get_logs-store_logs_internal :
    (faults reads : Faults) (addresses : List Address) (tss : List (List Hash)) (xs : List Log)
    (l : Log) (ys : List Log) (from to lo hi : ℕ) (s : Store) {logs : List Log}
    {coverage : List CoverageRange}
    → let s' = (store_logs_internal faults addresses tss (xs ++ l ∷ ys) from to s).1 in
      (store_logs_internal faults addresses tss (xs ++ l ∷ ys) from to s).0 ≡ ok tt
      → faults (Stmt.insert_log (eth_log_to_db_log l)) ≡ none
      → any (λ x. same_log (eth_log_to_db_log l) (eth_log_to_db_log x)) xs ≡ false
      → any (same_log (eth_log_to_db_log l)) s.event_logs ≡ false
      → length l.topics ≤ 4
      → lo ≤ l.block_number
      → l.block_number ≤ hi
      → get_logs reads s' l.address lo hi ≡ ok (logs, coverage)
      → In (record l { block_timestamp = 0; removed = false }) logs
get_logs-store_logs_internal faults reads addresses tss xs l ys from to lo hi s {logs} h f n k t a b
      g =
    let s' = (store_logs_internal faults addresses tss (xs ++ l ∷ ys) from to s).1 in
    let r = eth_log_to_db_log l in
    let (e, _, _) =
      insert_addresses_covered faults from to addresses tss
        (record s { event_logs = insert_logs faults (xs ++ l ∷ ys) s.event_logs }) s' 0 0 0
        (store_logs_internal_ok faults addresses tss (xs ++ l ∷ ys) from to s h) in
    let stored : In r s'.event_logs = rw e (In-insert_logs_new faults xs l ys s.event_logs f n k) in
    rw (get_logs_rows reads s' l.address lo hi g) (
      subst
        (λ m. In m (
          map db_log_to_eth_log
            (order_by by_position (keep (log_within l.address lo hi) s'.event_logs))))
        (db_log_to_eth_log-eth_log_to_db_log l t)
        (In-map db_log_to_eth_log r _ (
          In-order_by by_position r _ (
            In-keep (log_within l.address lo hi) r s'.event_logs
              (unfold eth_log_to_db_log in ground arith) stored))))
