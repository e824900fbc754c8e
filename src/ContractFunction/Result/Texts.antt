-- ===== src/ContractFunction/Result/Texts.antt =====
-- The methods that read a bool, an address, a text or bytes from the result of a call:
-- contract_function_result.go.
use hedera_sdk_go.Prelude.{ℕ, ◌+◌, Bool, ◌==◌}
use hedera_sdk_go.Prelude.Outcome.{Outcome, ok, ◌>>=◌}
use hedera_sdk_go.Prelude.Text.{Bytes}
use hedera_sdk_go.ContractFunction.Buffers.{big_endian_value}
use hedera_sdk_go.ContractFunction.Result.{ContractFunctionResult, result_slice, get_range}
use hedera_sdk_go.ContractFunction.Result.Unsigned.{get_uint32, get_uint64}

unfoldable pub get_bool : ContractFunctionResult → ℕ → Outcome Bool
unfolding get_uint32
get_bool result index = get_uint32 result index >>= λ n. ok (n == 1)

unfoldable pub get_address : ContractFunctionResult → ℕ → Outcome Bytes
unfolding get_range
get_address = get_range 12

unfoldable pub get_bytes32 : ContractFunctionResult → ℕ → Outcome Bytes
unfolding get_range
get_bytes32 = get_range 0

unfoldable pub get_bytes : ContractFunctionResult → ℕ → Outcome Bytes
get_bytes result index = do
  offset ← get_uint64 result index
  word ← result_slice result (offset + 24) (offset + 32)
  result_slice result (offset + 32) (offset + 32 + big_endian_value 0 word)

unfoldable pub get_string : ContractFunctionResult → ℕ → Outcome Bytes
get_string = get_bytes

unfoldable pub as_bytes : ContractFunctionResult → Bytes
as_bytes result = result.contract_call_result
