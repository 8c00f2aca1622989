-- ===== src/Rpc/Retry.antt =====
-- internal/rpc/retry.go: a call is made again with a growing wait while it fails in a way that may
-- pass. What the wait comes to, which floating-point numbers and a random number decide, is an
-- argument, and so is whether the context is cancelled.
pub mod Attempts
use Prim.Native.String.{String}
use chain_indexor.Prelude.{
  ℕ, zero, suc, ◌+◌, ◌-◌, Bool, true, false, ◌&&◌, ◌||◌, List, [], ◌∷◌, any, Option, none, some,
  ltb, leb, ◌==◌, codes, contains_text, to_lower, to_nat, if◌then◌else◌,
}
use chain_indexor.Types.{Error}
use chain_indexor.Config.Database.{RetryConfig}

-- An error of a call: what `errors.As` and `errors.Is` find in it, and its text.
pub record Failure : Type 0 where
  pub error : Error
  pub is_net_error : Bool
  pub is_refused : Bool  -- ECONNREFUSED
  pub is_reset : Bool  -- ECONNRESET
  pub is_broken_pipe : Bool  -- EPIPE
  pub text : List ℕ

-- The substrings of a lowered text that speak of a failure that may pass.
abbrev pub passing_texts : List String
passing_texts =
    "timeout" ∷ "deadline exceeded" ∷ "context deadline exceeded" ∷ "429" ∷ "too many requests"
    ∷ "rate limit" ∷ "502" ∷ "503" ∷ "504" ∷ "bad gateway" ∷ "service unavailable"
    ∷ "gateway timeout" ∷ "connection pool" ∷ "no available connection" ∷ []

unfoldable pub retryable_error : Failure → Bool
retryable_error f =
    f.is_net_error
    || f.is_refused
    || f.is_reset
    || f.is_broken_pipe
    || any (λ part. contains_text (codes part) (to_lower f.text)) passing_texts

-- How a call ends. The errors are those that the source wraps, with the attempt in their text;
-- `exhausted` holds the last error, of which there is none when no attempt was made.
pub data Outcome {ℓ} (A : Type ℓ) : Type ℓ where
  returned : A → Outcome A
  failed_once : Failure → Outcome A
  cancelled_before : ℕ → Outcome A
  not_retryable : ℕ → Failure → Outcome A
  cancelled_in_wait : ℕ → Outcome A
  exhausted : Option Failure → Outcome A

-- What one call of the function answers.
pub data Reply {ℓ} (A : Type ℓ) : Type ℓ where
  got : A → Reply A
  failed : Failure → Reply A

-- What the clock and the context do in one call: the wait after an attempt, and whether the
-- context is cancelled before an attempt, and in the wait after it.
pub record Patience : Type 0 where
  pub jittered : ℕ → ℕ
  pub cancelled_at : ℕ → Bool
  pub cancelled_waiting : ℕ → Bool

unfoldable pub calculate_backoff : Patience → ℕ → ℕ
calculate_backoff p attempt = if leb attempt 1 then 0 else p.jittered attempt

module _ {ℓ κ} {A : Type ℓ} {S : Type κ} where
  -- The loop from `attempt` on, with `left` attempts to make.
  unfoldable pub retry_loop :
      Patience → (S → Reply A × S) → ℕ → ℕ → Option Failure → S → Outcome A × S
  unfolding calculate_backoff
  retry_loop p call zero attempt last s = (exhausted last, s)
  retry_loop p call (suc left) attempt last s =
      if p.cancelled_at attempt
      then (cancelled_before attempt, s)
      else (let (reply, s') = call s in
          elim reply [
            | got a ↦ (returned a, s')
            | failed f ↦
                if retryable_error f
                then (if left == 0
                    then (exhausted (some f), s')
                    else if ltb 0 (calculate_backoff p attempt) && p.cancelled_waiting attempt
                    then (cancelled_in_wait attempt, s')
                    else retry_loop p call left (suc attempt) (some f) s')
                else (not_retryable attempt f, s')
          ])

  abbrev once : Reply A × S → Outcome A × S
  once (got a, s) = (returned a, s)
  once (failed f, s) = (failed_once f, s)

  -- `retryWithBackoff`.
  unfoldable pub retry_with_backoff :
      {F : Type 0} → Option (RetryConfig F) → Patience → (S → Reply A × S) → S → Outcome A × S
  unfolding retry_loop
  retry_with_backoff none p call s = once (call s)
  retry_with_backoff (some cfg) p call s = retry_loop p call (to_nat cfg.max_attempts) 1 none s
