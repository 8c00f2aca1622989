-- ===== src/Examples/Numbers.antt =====
-- Numbers, finalities and ranges of internal/rpc and internal/types at concrete inputs.
use chain_indexor.Prelude.{codes, ℕ, ◌≡◌, refl, arith, some, List}
use chain_indexor.Rpc.Number.{parse_uint64_or_hex, to_block_num_arg}
use chain_indexor.Rpc.Number.RoundTrip.{parse_uint64_or_hex-to_block_num_arg}
use chain_indexor.Types.{Error}
use chain_indexor.Rpc.Errors.{is_too_many_results_error, parse_suggested_block_range}

parse_uint64_or_hex-to_block_num_arg_example :
    parse_uint64_or_hex (some (to_block_num_arg 48879)) ≡ some 48879
parse_uint64_or_hex-to_block_num_arg_example =
    parse_uint64_or_hex-to_block_num_arg 48879 (omega arith)

abbrev suggestion : List ℕ
suggestion =
    codes "Query returned more than 20000 results. Try with this block range [0x7dfd25, 0x7e0fcc]."

suggestion_mentions : is_too_many_results_error (Error.data_error suggestion) ≡ some suggestion
unfolding is_too_many_results_error
suggestion_mentions = refl

suggestion_range : parse_suggested_block_range suggestion ≡ some (8256805, 8261580)
unfolding parse_suggested_block_range
suggestion_range = refl
