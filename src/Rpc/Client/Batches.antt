-- ===== src/Rpc/Client/Batches.antt =====
-- The results of `BatchGetBlockHeaders`.
use mathlib.Core.List.{append_assoc, append-nil}
use chain_indexor.Prelude.{
  ℕ, zero, suc, ◌≤◌, ◌≡◌, refl, ap, ◌∙◌, arith, List, [], ◌∷◌, ◌++◌, map, Option, some, take, drop,
  length, length-drop_le, take-append-drop, false,
}
use chain_indexor.Types.{Header}
use chain_indexor.Config.Database.{RetryConfig}
use chain_indexor.Rpc.Number.{to_block_num_arg}
use chain_indexor.Rpc.Retry.{Outcome, Reply, Patience}
use chain_indexor.Rpc.Retry.Attempts.{retry_with_backoff-Called, retry_with_backoff-first, attempts}
use chain_indexor.Rpc.Client.{
  Node, Element, individual_errors, cons_result, attempt_batch, get_chunk, get_chunks,
  batch_get_block_headers, max_batch, on_returned, on_returned-returned,
}

-- Every answer is an error, or the header that the argument names.
abbrev pub Faithful : (List ℕ → Header) → List (List ℕ) → List (Element Header) → Type 0
Faithful view [] [] = Unit
Faithful view [] (e ∷ es) = ⊥
Faithful view (a ∷ args) [] = ⊥
Faithful view (a ∷ args) (Reply.failed f ∷ es) = Faithful view args es
Faithful view (a ∷ args) (Reply.got r ∷ es) = (r ≡ some (view a)) × Faithful view args es

abbrev pub found_at : (List ℕ → Header) → List ℕ → Option Header
found_at view a = some (view a)

individual_errors-Faithful :
    (view : List ℕ → Header) (args : List (List ℕ)) (es : List (Element Header))
    (rs : List (Option Header))
    → Faithful view args es
    → individual_errors es ≡ Reply.got rs
    → rs ≡ map (found_at view) args
unfolding individual_errors
individual_errors-Faithful view [] [] rs h e = cc
individual_errors-Faithful view [] (_ ∷ _) rs h e = elim h [ ]
individual_errors-Faithful view (_ ∷ _) [] rs h e = elim h [ ]
individual_errors-Faithful view (a ∷ args) (Reply.failed f ∷ es) rs h e = cc
individual_errors-Faithful view (a ∷ args) (Reply.got r ∷ es) rs (q, h) e =
    consed (individual_errors es) e (λ more w. individual_errors-Faithful view args es more h w)
  where
    consed :
        (o : Reply (List (Option Header)))
        → cons_result r o ≡ Reply.got rs
        → ((more : List (Option Header)) → o ≡ Reply.got more → more ≡ map (found_at view) args)
        → rs ≡ map (found_at view) (a ∷ args)
    consed (Reply.failed f) e' ih = cc
    consed (Reply.got more) e' ih = let h' = ih more refl in cc

-- An answer of the node to a batch is faithful, whenever it answers.
abbrev pub Honest {ℓ} : {S : Type ℓ} → Node S → (List ℕ → Header) → Type ℓ
Honest {S = S} node view =
    (args : List (List ℕ)) (s t : S) (es : List (Element Header))
    → node.batch_headers args s ≡ (Reply.got es, t)
    → Faithful view args es

-- The node answers every batch, with the headers.
abbrev pub Replies {ℓ} : {S : Type ℓ} → Node S → (List ℕ → Header) → Type ℓ
Replies {S = S} node view =
    (args : List (List ℕ)) (s : S)
    → (t : S) × (node.batch_headers args s
        ≡ (Reply.got (map (λ a. Reply.got (some (view a))) args), t))

attempt_batch-got {ℓ} :
    {S : Type ℓ} {R : Type 0} (o : Reply (List (Element R)) × S) (rs : List (Option R)) (u : S)
    → attempt_batch o ≡ (Reply.got rs, u)
    → (es : List (Element R)) × (o ≡ (Reply.got es, u)) × (individual_errors es ≡ Reply.got rs)
unfolding attempt_batch
attempt_batch-got (Reply.failed f, s) rs u e = cc
attempt_batch-got (Reply.got es, s) rs u e = (es, cc, cc)

abbrev pub args_of : List ℕ → List (List ℕ)
args_of ns = map to_block_num_arg ns

abbrev pub headers_of : (List ℕ → Header) → List ℕ → List (Option Header)
headers_of view ns = map (found_at view) (args_of ns)

headers_of-append :
    (view : List ℕ → Header) (ms ns : List ℕ)
    → headers_of view ms ++ headers_of view ns ≡ headers_of view (ms ++ ns)
headers_of-append view [] ns = refl
headers_of-append view (m ∷ ms) ns =
    ap (λ more. found_at view (to_block_num_arg m) ∷ more) (headers_of-append view ms ns)

headers_of-take :
    (view : List ℕ → Header) (results : List (Option Header)) (ns : List ℕ)
    → (results ++ headers_of view (take max_batch ns)) ++ headers_of view (drop max_batch ns)
      ≡ results ++ headers_of view ns
headers_of-take view results ns =
    append_assoc results (headers_of view (take max_batch ns)) (headers_of view (drop max_batch ns))
    ∙ ap (λ more. results ++ more)
        (headers_of-append view (take max_batch ns) (drop max_batch ns)
          ∙ ap (headers_of view) (take-append-drop max_batch ns))

individual_errors-got :
    (view : List ℕ → Header) (args : List (List ℕ))
    → individual_errors (map (λ a. Reply.got (some (view a))) args)
      ≡ Reply.got (map (found_at view) args)
unfolding individual_errors
individual_errors-got view [] = refl
individual_errors-got view (a ∷ args) = rw (individual_errors-got view args) refl

module _ {F : Type 0} {S : Type 0} (cfg : Option (RetryConfig F)) (node : Node S)
    (view : List ℕ → Header) where
  get_chunk-headers :
      Honest node view
      → (p : Patience) (chunk : List ℕ) (s u : S) (rs : List (Option Header))
      → get_chunk cfg node p chunk s ≡ (Outcome.returned rs, u)
      → rs ≡ headers_of view chunk
  unfolding get_chunk
  get_chunk-headers honest p chunk s u rs e =
      let (t, called) =
        retry_with_backoff-Called p (λ t. attempt_batch (node.batch_headers (args_of chunk) t)) cfg
          s u rs e in
      let (es, answered, checked) =
        attempt_batch-got (node.batch_headers (args_of chunk) t) rs u called in
      individual_errors-Faithful view (args_of chunk) es rs (honest (args_of chunk) t u es answered)
        checked

  returned-nil :
      (fuel : ℕ) (ps : ℕ → Patience) (results rs : List (Option Header)) (s u : S)
      → get_chunks cfg node fuel ps [] results s ≡ (Outcome.returned rs, u)
      → rs ≡ results ++ []
  unfolding get_chunks
  returned-nil zero ps results rs s u e = rw (append-nil results) cc
  returned-nil (suc fuel) ps results rs s u e = rw (append-nil results) cc

  get_chunks-headers :
      Honest node view
      → (fuel : ℕ) (ps : ℕ → Patience) (ns : List ℕ) (results rs : List (Option Header)) (s u : S)
      → get_chunks cfg node fuel ps ns results s ≡ (Outcome.returned rs, u)
      → rs ≡ results ++ headers_of view ns
  unfolding get_chunks
  get_chunks-headers honest zero ps [] results rs s u e = returned-nil zero ps results rs s u e
  get_chunks-headers honest (suc fuel) ps [] results rs s u e =
      returned-nil (suc fuel) ps results rs s u e
  get_chunks-headers honest zero ps (n ∷ ns) results rs s u e = cc
  get_chunks-headers honest (suc fuel) ps (n ∷ ns) results rs s u e =
      let (found, t, first, rest) =
        on_returned-returned (get_chunk cfg node (ps fuel) (take max_batch (n ∷ ns)) s)
          (λ found. get_chunks cfg node fuel ps (drop max_batch (n ∷ ns)) (results ++ found)) rs u
          e in
      get_chunks-headers honest fuel ps (drop max_batch (n ∷ ns)) (results ++ found) rs t u rest
      ∙ ap (λ more. (results ++ more) ++ headers_of view (drop max_batch (n ∷ ns)))
          (get_chunk-headers honest (ps fuel) (take max_batch (n ∷ ns)) s t found first)
      ∙ headers_of-take view results (n ∷ ns)

  get_chunk_ok :
      Replies node view
      → (p : Patience) (chunk : List ℕ) (s : S) → 1 ≤ attempts cfg
      → p.cancelled_at 1 ≡ false
      → (u : S) × (get_chunk cfg node p chunk s ≡ (Outcome.returned (headers_of view chunk), u))
  unfolding get_chunk attempt_batch
  get_chunk_ok replies p chunk s h c =
      let (u, e) = replies (args_of chunk) s in
      (
        u,
        retry_with_backoff-first p (λ t. attempt_batch (node.batch_headers (args_of chunk) t)) cfg s
            u (headers_of view chunk) h c
            (rw e (ap (λ r. (r, u)) (individual_errors-got view (args_of chunk)))),
      )

  cons_not_short : (n : ℕ) (ns : List ℕ) → ¬ (length (n ∷ ns) ≤ 0)
  cons_not_short n ns = omega arith

  get_chunks_ok :
      Replies node view
      → 1 ≤ attempts cfg
      → (fuel : ℕ) (ps : ℕ → Patience) (ns : List ℕ) (results : List (Option Header)) (s : S)
      → ((i : ℕ) → (ps i).cancelled_at 1 ≡ false)
      → length ns ≤ fuel
      → (u : S) × (get_chunks cfg node fuel ps ns results s
          ≡ (Outcome.returned (results ++ headers_of view ns), u))
  unfolding get_chunks
  get_chunks_ok replies h zero ps [] results s c l = (s, rw (append-nil results) refl)
  get_chunks_ok replies h (suc fuel) ps [] results s c l = (s, rw (append-nil results) refl)
  get_chunks_ok replies h zero ps (n ∷ ns) results s c l = elim (cons_not_short n ns l) [ ]
  get_chunks_ok replies h (suc fuel) ps (n ∷ ns) results s c l =
      let (t, first) = get_chunk_ok replies (ps fuel) (take max_batch (n ∷ ns)) s h (c fuel) in
      let shorter = length-drop_le 99 ns in
      let (u, rest) =
        get_chunks_ok replies h fuel ps (drop max_batch (n ∷ ns))
          (results ++ headers_of view (take max_batch (n ∷ ns))) t c (omega arith) in
      (
        u,
        ap
              (λ o.
                on_returned o (λ found.
                  get_chunks cfg node fuel ps (drop max_batch (n ∷ ns)) (results ++ found)))
              first
            ∙ rest
            ∙ ap (λ rs. (Outcome.returned rs, u)) (headers_of-take view results (n ∷ ns)),
      )

  -- What `BatchGetBlockHeaders` returns is the header of each number, in order, whatever errors and
  -- retries there were, if the node never answers an element with another header.
  pub batch_get_block_headers-headers :
      Honest node view
      → (ps : ℕ → Patience) (ns : List ℕ) (s u : S) (rs : List (Option Header))
      → batch_get_block_headers cfg node ps ns s ≡ (Outcome.returned rs, u)
      → rs ≡ headers_of view ns
  unfolding batch_get_block_headers
  batch_get_block_headers-headers honest ps ns s u rs e =
      get_chunks-headers honest (length ns) ps ns [] rs s u e

  -- `BatchGetBlockHeaders` returns the header of every number, whatever their count, if at least one
  -- attempt is configured, the node answers each batch, and no context is cancelled at the start.
  pub batch_get_block_headers_ok :
      Replies node view
      → 1 ≤ attempts cfg
      → (ps : ℕ → Patience) (ns : List ℕ) (s : S) → ((i : ℕ) → (ps i).cancelled_at 1 ≡ false)
      → (u : S) × (batch_get_block_headers cfg node ps ns s
          ≡ (Outcome.returned (headers_of view ns), u))
  unfolding batch_get_block_headers
  batch_get_block_headers_ok replies h ps ns s c =
      get_chunks_ok replies h (length ns) ps ns [] s c (omega arith)
