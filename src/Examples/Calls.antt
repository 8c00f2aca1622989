-- ===== src/Examples/Calls.antt =====
-- Calls of a node with retries (internal/rpc/retry.go, internal/rpc/client.go).
use mathlib.Core.Path.{subst}
use chain_indexor.Prelude.{
  ℕ, zero, suc, pos, codes, length, true, false, Bool, List, [], ◌∷◌, map, none, some, Option, ◌≡◌,
  refl, ap, ◌≤◌, arith, ltb,
}
use chain_indexor.Types.{Error, Header}
use chain_indexor.Config.Database.{RetryConfig}
use chain_indexor.Rpc.Retry.{Failure, Outcome, Reply, Patience, retryable_error, retry_with_backoff}
use chain_indexor.Rpc.Retry.Attempts.{Ends, retry_with_backoff-Ends}
use chain_indexor.Rpc.Client.{
  Node, Element, FilterQuery, to_filter_arg, batch_get_block_headers, batch_get_logs,
}
use chain_indexor.Rpc.Client.Batches.{
  Faithful, Honest, Replies, headers_of, batch_get_block_headers-headers,
  batch_get_block_headers_ok,
}

abbrev thrice : RetryConfig ℕ
thrice = record {
  max_attempts = pos 3;
  initial_backoff = pos 10;
  max_backoff = pos 50;
  backoff_multiplier = 20;
}

abbrev patience : Patience
patience = record {
  jittered = λ attempt. 10;
  cancelled_at = λ attempt. false;
  cancelled_waiting = λ attempt. false;
}

abbrev gateway_down : Failure
gateway_down = record {
  error = Error.rpc_error 502;
  is_net_error = false;
  is_refused = false;
  is_reset = false;
  is_broken_pipe = false;
  text = codes "502 Bad Gateway";
}

-- A call that fails twice.
abbrev flaky : ℕ → Reply ℕ × ℕ
flaky zero = (Reply.failed gateway_down, 1)
flaky (suc zero) = (Reply.failed gateway_down, 2)
flaky (suc (suc n)) = (Reply.got 7, 3)

retry_with_backoff-Ends_example :
    Ends patience flaky 3 1 0 (retry_with_backoff (some thrice) patience flaky 0)
retry_with_backoff-Ends_example = retry_with_backoff-Ends patience flaky thrice 2 0 refl

third_call_answers : retry_with_backoff (some thrice) patience flaky 0 ≡ (Outcome.returned 7, 3)
unfolding retry_with_backoff retryable_error chain_indexor.Prelude.contains_text
    chain_indexor.Prelude.to_lower
third_call_answers = refl

-- A header made of the text of its argument.
abbrev header_at : List ℕ → Header
header_at arg = record { number = length arg; hash = 1; parent_hash = 2 }

abbrev answer_each : List (List ℕ) → List (Element Header)
answer_each args = map (λ a. Reply.got (some (header_at a))) args

-- A node that counts its calls.
abbrev counting : Node ℕ
counting = record {
  filter_logs = λ q s. (Reply.got [], suc s);
  header_by_number = λ n s. (Reply.failed gateway_down, suc s);
  batch_logs = λ args s. (Reply.got (map (λ a. Reply.got (some [])) args), suc s);
  batch_headers = λ args s. (Reply.got (answer_each args), suc s);
}

answer_each-Faithful : (args : List (List ℕ)) → Faithful header_at args (answer_each args)
answer_each-Faithful [] = tt
answer_each-Faithful (a ∷ args) = (refl, answer_each-Faithful args)

abbrev elements : Reply (List (Element Header)) × ℕ → List (Element Header) → List (Element Header)
elements (Reply.got es, s) other = es
elements (Reply.failed f, s) other = other

counting-Honest : Honest counting header_at
counting-Honest args s t es e =
    subst (Faithful header_at args) (ap (λ r. elements r []) e) (answer_each-Faithful args)

counting-Replies : Replies counting header_at
counting-Replies args s = (suc s, refl)

abbrev blocks : List ℕ
blocks = 5 ∷ 300 ∷ 70000 ∷ []

batch_get_block_headers-headers_example : headers_of header_at blocks ≡ headers_of header_at blocks
unfolding batch_get_block_headers chain_indexor.Rpc.Client.get_chunks
    chain_indexor.Rpc.Client.get_chunk retry_with_backoff chain_indexor.Rpc.Client.attempt_batch
    chain_indexor.Rpc.Client.individual_errors
batch_get_block_headers-headers_example =
    batch_get_block_headers-headers (some thrice) counting header_at counting-Honest (λ i. patience)
      blocks 0 1 (headers_of header_at blocks) refl

batch_get_block_headers_ok_example :
    (u : ℕ) × (batch_get_block_headers (some thrice) counting (λ i. patience) blocks 0
      ≡ (Outcome.returned (headers_of header_at blocks), u))
batch_get_block_headers_ok_example =
    batch_get_block_headers_ok (some thrice) counting header_at counting-Replies (omega arith)
      (λ i. patience) blocks 0 (λ i. refl)

abbrev no_route : Failure
no_route = record gateway_down { is_net_error = true; text = codes "no route to host" }

abbrev bad_request : Failure
bad_request = record gateway_down { text = codes "invalid argument" }

only_passing_failures :
    map retryable_error (no_route ∷ gateway_down ∷ bad_request ∷ []) ≡ true ∷ true ∷ false ∷ []
unfolding retryable_error chain_indexor.Prelude.to_lower chain_indexor.Prelude.contains_text
only_passing_failures = refl
