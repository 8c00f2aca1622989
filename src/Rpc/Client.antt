-- ===== src/Rpc/Client.antt =====
-- internal/rpc/client.go: the calls of the node, each with retries. The node (go-ethereum's
-- `ethclient` and `rpc.Client`) is an argument: what it answers depends on its state, and the
-- answer leaves it in a new one.
pub mod Batches
use chain_indexor.Prelude.{
  ℕ, zero, ◌≡◌, refl, suc, ◌+◌, ◌-◌, ◌^◌, ◌%◌, Bool, true, false, List, [], ◌∷◌, ◌++◌, map, Option,
  none, some, ltb, leb, take, drop, length, ℤ, pos, negsuc, if◌then◌else◌,
}
use chain_indexor.Types.{Address, Hash, Log, Header}
use chain_indexor.Config.Database.{RetryConfig}
use chain_indexor.Rpc.Number.{to_block_num_arg}
use chain_indexor.Rpc.Retry.{Failure, Outcome, Reply, Patience, retry_with_backoff}

-- ethereum.FilterQuery
pub record FilterQuery : Type 0 where
  pub block_hash : Option Hash
  pub from_block : Option ℕ
  pub to_block : Option ℕ
  pub addresses : List Address
  pub topics : List (List Hash)

-- The value under "address": one address, or a list of them.
pub data AddressArg : Type 0 where
  one_address : Address → AddressArg
  address_list : List Address → AddressArg

-- The map that `toFilterArg` builds; a field is `none` where the key is missing.
pub record FilterArg : Type 0 where
  pub topics_arg : List (List Hash)
  pub block_hash_arg : Option Hash
  pub from_block_arg : Option (List ℕ)
  pub to_block_arg : Option (List ℕ)
  pub address_arg : Option AddressArg

abbrev block_arg : Option Hash → Option ℕ → Option (List ℕ)
block_arg (some hash) number = none
block_arg none none = none
block_arg none (some number) = some (to_block_num_arg number)

abbrev to_address_arg : List Address → Option AddressArg
to_address_arg [] = none
to_address_arg (a ∷ []) = some (AddressArg.one_address a)
to_address_arg (a ∷ b ∷ rest) = some (AddressArg.address_list (a ∷ b ∷ rest))

unfoldable pub to_filter_arg : FilterQuery → FilterArg
to_filter_arg q = record {
  topics_arg = q.topics;
  block_hash_arg = q.block_hash;
  from_block_arg = block_arg q.block_hash q.from_block;
  to_block_arg = block_arg q.block_hash q.to_block;
  address_arg = to_address_arg q.addresses;
}

-- The block tags of go-ethereum's `rpc` package.
pub record BlockTags : Type 0 where
  pub finalized_block_number : ℤ
  pub safe_block_number : ℤ

-- int64(blockNum)
abbrev pub to_int64 : ℕ → ℤ
to_int64 n = if ltb n (2 ^ 63) then pos n else negsuc (2 ^ 64 - n - 1)

-- What the node answers to an element of a batch: a result, which is nil for a JSON null, or an
-- error.
abbrev pub Element {ℓ} : Type ℓ → Type ℓ
Element R = Reply (Option R)

-- The node, with states of type `S`. A batch fails as a whole, or answers each of its elements.
pub record Node {ℓ} (S : Type ℓ) : Type ℓ where
  pub filter_logs : FilterQuery → S → Reply (List Log) × S
  pub header_by_number : Option ℤ → S → Reply Header × S
  pub batch_logs : List FilterArg → S → Reply (List (Element (List Log))) × S
  pub batch_headers : List (List ℕ) → S → Reply (List (Element Header)) × S

abbrev cons_result {ℓ} : {A : Type ℓ} → A → Reply (List A) → Reply (List A)
cons_result r (Reply.got rs) = Reply.got (r ∷ rs)
cons_result r (Reply.failed f) = Reply.failed f

-- The results of a batch, or the first error among its elements.
unfoldable pub individual_errors : {R : Type 0} → List (Element R) → Reply (List (Option R))
individual_errors [] = Reply.got []
individual_errors (Reply.failed f ∷ rest) = Reply.failed f
individual_errors (Reply.got r ∷ rest) = cons_result r (individual_errors rest)

-- One attempt of a batch call.
unfoldable pub attempt_batch {ℓ} :
    {S : Type ℓ} {R : Type 0} → Reply (List (Element R)) × S → Reply (List (Option R)) × S
attempt_batch (Reply.failed f, s) = (Reply.failed f, s)
attempt_batch (Reply.got elements, s) = (individual_errors elements, s)

abbrev pub max_batch : ℕ
max_batch = 100

-- An error of a chunk is returned.
abbrev pub on_returned {ℓ κ} :
    {S : Type ℓ} {A B : Type κ} → Outcome A × S → (A → S → Outcome B × S) → Outcome B × S
on_returned (Outcome.returned a, s) go_on = go_on a s
on_returned (Outcome.failed_once f, s) go_on = (Outcome.failed_once f, s)
on_returned (Outcome.cancelled_before m, s) go_on = (Outcome.cancelled_before m, s)
on_returned (Outcome.not_retryable m f, s) go_on = (Outcome.not_retryable m f, s)
on_returned (Outcome.cancelled_in_wait m, s) go_on = (Outcome.cancelled_in_wait m, s)
on_returned (Outcome.exhausted f, s) go_on = (Outcome.exhausted f, s)

pub on_returned-returned {ℓ κ} :
    {S : Type ℓ} {A B : Type κ} (o : Outcome A × S) (go_on : A → S → Outcome B × S) (b : B) (u : S)
    → on_returned o go_on ≡ (Outcome.returned b, u)
    → (a : A) × (s : S) × (o ≡ (Outcome.returned a, s)) × (go_on a s ≡ (Outcome.returned b, u))
on_returned-returned (Outcome.returned a, s) go_on b u e = (a, s, refl, e)
on_returned-returned (Outcome.failed_once f, s) go_on b u e = cc
on_returned-returned (Outcome.cancelled_before m, s) go_on b u e = cc
on_returned-returned (Outcome.not_retryable m f, s) go_on b u e = cc
on_returned-returned (Outcome.cancelled_in_wait m, s) go_on b u e = cc
on_returned-returned (Outcome.exhausted f, s) go_on b u e = cc

module _ {ℓ} {F : Type 0} {S : Type ℓ} (cfg : Option (RetryConfig F)) (node : Node S) where
  unfoldable pub get_logs : Patience → FilterQuery → S → Outcome (List Log) × S
  get_logs p query s = retry_with_backoff cfg p (node.filter_logs query) s

  unfoldable pub get_block_header : Patience → ℕ → S → Outcome Header × S
  get_block_header p n s = retry_with_backoff cfg p (node.header_by_number (some (to_int64 n))) s

  unfoldable pub get_latest_block_header : Patience → S → Outcome Header × S
  get_latest_block_header p s = retry_with_backoff cfg p (node.header_by_number none) s

  unfoldable pub get_finalized_block_header : BlockTags → Patience → S → Outcome Header × S
  get_finalized_block_header tags p s =
      retry_with_backoff cfg p (node.header_by_number (some tags.finalized_block_number)) s

  unfoldable pub get_safe_block_header : BlockTags → Patience → S → Outcome Header × S
  get_safe_block_header tags p s =
      retry_with_backoff cfg p (node.header_by_number (some tags.safe_block_number)) s

  unfoldable pub batch_get_logs :
      Patience → List FilterQuery → S → Outcome (List (Option (List Log))) × S
  batch_get_logs p queries s =
      retry_with_backoff cfg p (λ t. attempt_batch (node.batch_logs (map to_filter_arg queries) t))
        s

  -- One chunk of `BatchGetBlockHeaders`.
  unfoldable pub get_chunk : Patience → List ℕ → S → Outcome (List (Option Header)) × S
  get_chunk p chunk s =
      retry_with_backoff cfg p
        (λ t. attempt_batch (node.batch_headers (map to_block_num_arg chunk) t)) s

  -- The loop over the chunks, with the results so far; each chunk is named, for its waits,
  -- by the fuel that is left.
  unfoldable pub get_chunks :
      ℕ → (ℕ → Patience) → List ℕ → List (Option Header) → S → Outcome (List (Option Header)) × S
  get_chunks fuel ps [] results s = (Outcome.returned results, s)
  get_chunks zero ps (n ∷ ns) results s = (Outcome.exhausted none, s)
  get_chunks (suc fuel) ps (n ∷ ns) results s =
      on_returned (get_chunk (ps fuel) (take max_batch (n ∷ ns)) s)
        (λ found. get_chunks fuel ps (drop max_batch (n ∷ ns)) (results ++ found))

  unfoldable pub batch_get_block_headers :
      (ℕ → Patience) → List ℕ → S → Outcome (List (Option Header)) × S
  batch_get_block_headers ps ns s = get_chunks (length ns) ps ns [] s
