-- ===== src/Rpc/Retry/Attempts.antt =====
-- The attempts that `retryWithBackoff` makes.
use chain_indexor.Prelude.{
  ℕ, zero, suc, ◌+◌, ◌≤◌, ◌<◌, true, false, ◌&&◌, ◌≡◌, ◌⊎◌, refl, ap, Option, none, some, arith,
  ltb, ◌==◌, to_nat, Bool-cases, inl, inr, if◌then◌else◌,
}
use mathlib.Core.Path.{subst}
use chain_indexor.Config.Database.{RetryConfig}
use chain_indexor.Rpc.Retry.{
  Failure, Outcome, Reply, Patience, retryable_error, calculate_backoff, retry_loop,
  retry_with_backoff, once,
}

-- The attempts that a configuration allows; without one there is a single call.
abbrev pub attempts : {F : Type 0} → Option (RetryConfig F) → ℕ
attempts none = 1
attempts (some cfg) = to_nat cfg.max_attempts

module _ {ℓ κ} {A : Type ℓ} {S : Type κ} (p : Patience) (call : S → Reply A × S) where
  -- Calls that failed in a retryable way, from the attempt `n` in state `s` to the attempt `m`.
  pub data Retried : ℕ → S → ℕ → S → Type (ℓ ⊔ κ) where
    here : {n : ℕ} {s : S} → Retried n s n s
    again :
        {n m : ℕ} {s s' t : S} (f : Failure)
        → call s ≡ (Reply.failed f, s')
        → retryable_error f ≡ true
        → Retried (suc n) s' m t
        → Retried n s m t

  -- How at most `left` attempts, counted from `n`, end.
  pub data Ends (left n : ℕ) (s : S) (out : Outcome A × S) : Type (ℓ ⊔ κ) where
    succeeds :
        (m : ℕ) (t u : S) (a : A)
        → Retried n s m t
        → m < n + left
        → call t ≡ (Reply.got a, u)
        → out ≡ (Outcome.returned a, u)
        → Ends left n s out
    refuses :
        (m : ℕ) (t u : S) (f : Failure)
        → Retried n s m t
        → m < n + left
        → call t ≡ (Reply.failed f, u)
        → retryable_error f ≡ false
        → out ≡ (Outcome.not_retryable m f, u)
        → Ends left n s out
    gives_up :
        (m : ℕ) (t u : S) (f : Failure)
        → Retried n s m t
        → m + 1 ≡ n + left
        → call t ≡ (Reply.failed f, u)
        → retryable_error f ≡ true
        → out ≡ (Outcome.exhausted (some f), u)
        → Ends left n s out
    cancels :
        (m : ℕ) (t : S)
        → Retried n s m t
        → m < n + left
        → p.cancelled_at m ≡ true
        → out ≡ (Outcome.cancelled_before m, t)
        → Ends left n s out
    cancels_waiting :
        (m : ℕ) (t : S)
        → Retried n s (suc m) t
        → suc m < n + left
        → p.cancelled_waiting m ≡ true
        → out ≡ (Outcome.cancelled_in_wait m, t)
        → Ends left n s out

  Ends-again :
      {left n : ℕ} {s s' : S} {out : Outcome A × S} (f : Failure)
      → call s ≡ (Reply.failed f, s')
      → retryable_error f ≡ true
      → Ends left (suc n) s' out
      → Ends (suc left) n s out
  Ends-again f c r (Ends.succeeds m t u a h b k e) =
      Ends.succeeds m t u a (Retried.again f c r h) (omega arith) k e
  Ends-again f c r (Ends.refuses m t u g h b k q e) =
      Ends.refuses m t u g (Retried.again f c r h) (omega arith) k q e
  Ends-again f c r (Ends.gives_up m t u g h b k q e) =
      Ends.gives_up m t u g (Retried.again f c r h) (omega arith) k q e
  Ends-again f c r (Ends.cancels m t h b q e) =
      Ends.cancels m t (Retried.again f c r h) (omega arith) q e
  Ends-again f c r (Ends.cancels_waiting m t h b q e) =
      Ends.cancels_waiting m t (Retried.again f c r h) (omega arith) q e

  reply_cases :
      (s : S)
      → ((a : A) × (u : S) × (call s ≡ (Reply.got a, u)))
        ⊎ ((f : Failure) × (u : S) × (call s ≡ (Reply.failed f, u)))
  reply_cases s = go (call s) refl
    where
      go :
          (r : Reply A × S)
          → call s ≡ r
          → ((a : A) × (u : S) × (call s ≡ (Reply.got a, u)))
            ⊎ ((f : Failure) × (u : S) × (call s ≡ (Reply.failed f, u)))
      go (Reply.got a, u) e = inl (a, u, e)
      go (Reply.failed f, u) e = inr (f, u, e)

  suc_is_positive : (n : ℕ) → (suc n == 0) ≡ false
  suc_is_positive n = ground arith

  failed_attempt :
      (left n : ℕ) (f : Failure) (s u : S)
      → call s ≡ (Reply.failed f, u)
      → retryable_error f ≡ true
      → (left ≡ 0) ⊎ Ends left (suc n) u (retry_loop p call left (suc n) (some f) u)
      → Ends (suc left) n s (
          if left == 0
          then (Outcome.exhausted (some f), u)
          else if ltb 0 (calculate_backoff p n) && p.cancelled_waiting n
          then (Outcome.cancelled_in_wait n, u)
          else retry_loop p call left (suc n) (some f) u)
  failed_attempt zero n f s u e r _ = Ends.gives_up n s u f Retried.here (omega arith) e r refl
  failed_attempt (suc left) n f s u e r (inl none_left) = ground arith
  failed_attempt (suc left) n f s u e r (inr rest) =
      elim (Bool-cases (ltb 0 (calculate_backoff p n) && p.cancelled_waiting n)) [
        | inl w ↦
            Ends.cancels_waiting n u (Retried.again f e r Retried.here) (omega arith) (ground arith)
              (ground arith)
        | inr w ↦ rw (w, suc_is_positive left) (Ends-again f e r rest)
      ]

  first_attempt :
      (left n : ℕ) (last : Option Failure) (s : S)
      → ((f : Failure) (u : S)
          → (left ≡ 0) ⊎ Ends left (suc n) u (retry_loop p call left (suc n) (some f) u))
      → Ends (suc left) n s (retry_loop p call (suc left) n last s)
  unfolding retry_loop
  first_attempt left n last s rest = elim (Bool-cases (p.cancelled_at n)) [
    | inl c ↦ Ends.cancels n s Retried.here (omega arith) c (rw c refl)
    | inr c ↦ elim (reply_cases s) [
      | inl (a, u, e) ↦
          Ends.succeeds n s u a Retried.here (omega arith) e
            (rw (c, ap (λ q. q.0) e, ap (λ q. q.1) e) refl)
      | inr (f, u, e) ↦ elim (Bool-cases (retryable_error f)) [
        | inl r ↦
            rw (c, ap (λ q. q.0) e, ap (λ q. q.1) e, r) (failed_attempt left n f s u e r (rest f u))
        | inr r ↦
            Ends.refuses n s u f Retried.here (omega arith) e r
              (rw (c, ap (λ q. q.0) e, ap (λ q. q.1) e, r) refl)
      ]
    ]
  ]

  retry_loop-Ends :
      (left n : ℕ) (last : Option Failure) (s : S)
      → Ends (suc left) n s (retry_loop p call (suc left) n last s)
  retry_loop-Ends zero n last s = first_attempt zero n last s (λ f u. inl refl)
  retry_loop-Ends (suc left) n last s =
      first_attempt (suc left) n last s (λ f u. inr (retry_loop-Ends left (suc n) (some f) u))

  -- With `left + 1` attempts configured, the call is made again only after a failure that may pass,
  -- at most `left` times; the loop ends with the first answer, with the first failure that cannot
  -- pass, with the last failure when the attempts are used up, or where the context is cancelled,
  -- and it leaves the state in which the last call left it.
  pub retry_with_backoff-Ends :
      {F : Type 0} (cfg : RetryConfig F) (left : ℕ) (s : S)
      → to_nat cfg.max_attempts ≡ suc left
      → Ends (suc left) 1 s (retry_with_backoff (some cfg) p call s)
  unfolding retry_with_backoff
  retry_with_backoff-Ends cfg left s e = rw e (retry_loop-Ends left 1 none s)

  -- Some call gave the result.
  abbrev pub Called : A → S → Type (ℓ ⊔ κ)
  Called a u = (t : S) × (call t ≡ (Reply.got a, u))

  once-Called :
      (s u : S) (a : A) (r : Reply A × S)
      → call s ≡ r
      → once r ≡ (Outcome.returned a, u)
      → Called a u
  once-Called s u a (Reply.got b, v) w e = (s, cc)
  once-Called s u a (Reply.failed f, v) w e = cc

  Ends-Called : {left : ℕ} {s u : S} {a : A} → Ends left 1 s (Outcome.returned a, u) → Called a u
  Ends-Called (Ends.succeeds m t v b h k c q) = (t, cc)
  Ends-Called (Ends.refuses m t v f h k c r q) = cc
  Ends-Called (Ends.gives_up m t v f h k c r q) = cc
  Ends-Called (Ends.cancels m t h k c q) = cc
  Ends-Called (Ends.cancels_waiting m t h k c q) = cc

  pub retry_with_backoff-Called :
      {F : Type 0} (cfg : Option (RetryConfig F)) (s u : S) (a : A)
      → retry_with_backoff cfg p call s ≡ (Outcome.returned a, u)
      → Called a u
  unfolding retry_with_backoff retry_loop
  retry_with_backoff-Called none s u a e = once-Called s u a (call s) refl e
  retry_with_backoff-Called (some cfg) s u a e = go (to_nat cfg.max_attempts) refl
    where
      go : (n : ℕ) → to_nat cfg.max_attempts ≡ n → Called a u
      go zero w =
          let e' = subst (λ k. retry_loop p call k 1 none s ≡ (Outcome.returned a, u)) w e in cc
      go (suc left) w =
          Ends-Called (subst (Ends (suc left) 1 s) e (retry_with_backoff-Ends cfg left s w))

  no_less_zero : ¬ (1 ≤ 0)
  no_less_zero = omega arith

  loop-first :
      (n m : ℕ) (last : Option Failure) (s u : S) (a : A)
      → 1 ≤ n
      → p.cancelled_at m ≡ false
      → call s ≡ (Reply.got a, u)
      → retry_loop p call n m last s ≡ (Outcome.returned a, u)
  unfolding retry_loop
  loop-first zero m last s u a h c e = elim (no_less_zero h) [ ]
  loop-first (suc n) m last s u a h c e = rw (c, ap (λ q. q.0) e, ap (λ q. q.1) e) refl

  -- A call that gives a result at once is returned, where the context is not cancelled before it.
  pub retry_with_backoff-first :
      {F : Type 0} (cfg : Option (RetryConfig F)) (s u : S) (a : A)
      → 1 ≤ attempts cfg
      → p.cancelled_at 1 ≡ false
      → call s ≡ (Reply.got a, u)
      → retry_with_backoff cfg p call s ≡ (Outcome.returned a, u)
  unfolding retry_with_backoff
  retry_with_backoff-first none s u a h c e = rw e refl
  retry_with_backoff-first (some cfg) s u a h c e =
      loop-first (to_nat cfg.max_attempts) 1 none s u a h c e
