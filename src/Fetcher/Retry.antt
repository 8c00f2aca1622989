-- ===== src/Fetcher/Retry.antt =====
-- `fetchLogsWithRetry` of log_fetcher.go.
use native.Mathlib.Nat.{pow-suc, pow-zero}
use chain_indexor.Prelude.{
  ℕ, zero, suc, ◌+◌, ◌/◌, ◌^◌, ◌≤◌, ◌<◌, ◌≡◌, ◌≢◌, ◌∙◌, refl, Option, none, some, List, arith,
  max_u64,
}
use chain_indexor.Types.{Log, Error, Result, ok, err}
use chain_indexor.Rpc.Errors.{is_too_many_results_error, parse_suggested_block_range}
use chain_indexor.Fetcher.{half_range, next_range, fetch_logs_with_retry, retry_fuel}

-- The node suggests no range in its errors.
abbrev pub NoSuggestion : (ℕ → ℕ → Result (List Log)) → Type 0
NoSuggestion answer =
    (from to : ℕ) (e : Error) (text : List ℕ)
    → answer from to ≡ err e
    → is_too_many_results_error e ≡ some text
    → parse_suggested_block_range text ≡ none

-- The logs are the node's answer for a range that begins where the request begins and does not
-- end past it.
abbrev pub RetryResult : (ℕ → ℕ → Result (List Log)) → ℕ → ℕ → Result (List Log × ℕ × ℕ) → Type 0
RetryResult answer from to (ok (logs, a, b)) =
    (a ≡ from) × (from ≤ b) × (b ≤ to) × (answer a b ≡ ok logs)
RetryResult answer from to (err e) = e ≢ Error.out_of_fuel

-- The node's own errors are not the model's.
abbrev pub RealErrors : (ℕ → ℕ → Result (List Log)) → Type 0
RealErrors answer = (from to : ℕ) → answer from to ≢ err Error.out_of_fuel

next_range_half :
    (answer : ℕ → ℕ → Result (List Log)) (from to : ℕ) (e : Error) (range : ℕ × ℕ)
    → NoSuggestion answer
    → answer from to ≡ err e
    → next_range e from to ≡ ok range
    → half_range from to ≡ ok range
unfolding next_range
next_range_half answer from to e range n a h = go (is_too_many_results_error e) refl
  where
    go : (o : Option (List ℕ)) → is_too_many_results_error e ≡ o → half_range from to ≡ ok range
    go none q = ground arith
    go (some text) q = ground (arith, n from to e text a q)

next_range_error :
    (e e' : Error) (from to : ℕ)
    → next_range e from to ≡ err e'
    → e ≢ Error.out_of_fuel
    → e' ≢ Error.out_of_fuel
unfolding next_range
next_range_error e e' from to h n q = go (is_too_many_results_error e) refl
  where
    go : (o : Option (List ℕ)) → is_too_many_results_error e ≡ o → ⊥
    go none p = n (ground arith)
    go (some text) p = ground arith

RetryResult-mono :
    (answer : ℕ → ℕ → Result (List Log)) (from mid to : ℕ) (r : Result (List Log × ℕ × ℕ))
    → mid ≤ to
    → RetryResult answer from mid r
    → RetryResult answer from to r
RetryResult-mono answer from mid to (ok (logs, a, b)) h p = (p.0, p.1, omega arith, p.3)
RetryResult-mono answer from mid to (err e) h p = p

half_range_ok :
    (from to : ℕ) (range : ℕ × ℕ)
    → from + to ≤ max_u64
    → half_range from to ≡ ok range
    → (range ≡ (from, (from + to) / 2)) × ((from + to) / 2 ≢ from)
half_range_ok from to range m h = (ground arith, λ e. ground arith)

-- One call, from what a call for the first half gives.
retry_step :
    (fuel : ℕ) (answer : ℕ → ℕ → Result (List Log)) (from to : ℕ)
    → NoSuggestion answer
    → RealErrors answer
    → from ≤ to
    → from + to ≤ max_u64
    → ((from + to) / 2 ≢ from
        → RetryResult answer from
            ((from + to) / 2)
            (fetch_logs_with_retry fuel answer from ((from + to) / 2)))
    → RetryResult answer from to (fetch_logs_with_retry (suc fuel) answer from to)
unfolding fetch_logs_with_retry
retry_step fuel answer from to n r h m ih = go (answer from to) refl
  where
    again :
        (e : Error) (x : Result (ℕ × ℕ))
        → answer from to ≡ err e
        → next_range e from to ≡ x
        → RetryResult answer from to (elim x [
          | err e' ↦ err e'
          | ok (from', to') ↦ fetch_logs_with_retry fuel answer from' to'
        ])
    again e (err e') a q = next_range_error e e' from to q (λ z. r from to (rw z at a))
    again e (ok range) a q =
        let (eq, ne) =
          half_range_ok from to range m (next_range_half answer from to e range n a q) in
        rw eq (RetryResult-mono answer from ((from + to) / 2) to _ (omega arith) (ih ne))

    go :
        (x : Result (List Log))
        → answer from to ≡ x
        → RetryResult answer from to (elim x [
          | ok logs ↦ ok (logs, from, to)
          | err e ↦ elim (next_range e from to) [
            | err e' ↦ err e'
            | ok (from', to') ↦ fetch_logs_with_retry fuel answer from' to'
          ]
        ])
    go (ok logs) a = (refl, h, omega arith, a)
    go (err e) a = again e (next_range e from to) a refl

retry_lem :
    (k fuel : ℕ) (answer : ℕ → ℕ → Result (List Log)) (from to : ℕ)
    → NoSuggestion answer
    → RealErrors answer
    → from ≤ to
    → from + to ≤ max_u64
    → to < from + 2 ^ k
    → k < fuel
    → RetryResult answer from to (fetch_logs_with_retry fuel answer from to)
retry_lem k zero answer from to n r h m s f = absurd (omega arith)
retry_lem zero (suc fuel) answer from to n r h m s f =
    retry_step fuel answer from to n r h m (λ ne. absurd (ne (omega (arith, pow-zero 2))))
retry_lem (suc k) (suc fuel) answer from to n r h m s f =
    retry_step fuel answer from to n r h m (λ _.
      retry_lem k fuel answer from ((from + to) / 2) n r (omega arith) (omega arith)
        (omega (arith, pow-suc 2 k)) (omega arith))

-- From a node that suggests no range, and whose errors are its own, a fetch of a range whose end is
-- not before its start, and whose start and end add up to at most 2^64 - 1, so that the midpoint does
-- not wrap around, ends within the fuel: with an error of the node or of the split, or with the logs
-- of a range that begins where the request begins and does not end past it.
pub fetch_logs_with_retry_ends :
    (answer : ℕ → ℕ → Result (List Log)) (from to : ℕ)
    → NoSuggestion answer
    → RealErrors answer
    → from ≤ to
    → from + to ≤ max_u64
    → RetryResult answer from to (fetch_logs_with_retry retry_fuel answer from to)
fetch_logs_with_retry_ends answer from to n r h m =
    retry_lem 64 retry_fuel answer from to n r h m (omega arith) (omega arith)

retry_again :
    (fuel : ℕ) (answer : ℕ → ℕ → Result (List Log)) (from to : ℕ) (e : Error) (text : List ℕ)
    → answer from to ≡ err e
    → is_too_many_results_error e ≡ some text
    → parse_suggested_block_range text ≡ some (from, to)
    → fetch_logs_with_retry (suc fuel) answer from to ≡ fetch_logs_with_retry fuel answer from to
unfolding fetch_logs_with_retry next_range
retry_again fuel answer from to e text a t p = ground arith

-- A node that refuses a range as too large and suggests the same range is asked for it again and
-- again: no fuel is enough.
pub fetch_logs_with_retry_loops :
    (answer : ℕ → ℕ → Result (List Log)) (from to : ℕ) (e : Error) (text : List ℕ)
    → answer from to ≡ err e
    → is_too_many_results_error e ≡ some text
    → parse_suggested_block_range text ≡ some (from, to)
    → (fuel : ℕ) → fetch_logs_with_retry fuel answer from to ≡ err Error.out_of_fuel
fetch_logs_with_retry_loops answer from to e text a t p zero = unfold fetch_logs_with_retry in refl
fetch_logs_with_retry_loops answer from to e text a t p (suc fuel) =
    retry_again fuel answer from to e text a t p
    ∙ fetch_logs_with_retry_loops answer from to e text a t p fuel
