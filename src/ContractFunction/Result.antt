-- ===== src/ContractFunction/Result.antt =====
-- The values in the result of a contract call: contract_function_result.go. An index is a uint64,
-- and what is computed from it wraps. The numbers read are those that encoding/binary gives.
pub mod Signed
pub mod Unsigned
pub mod Texts
pub mod RoundTrip
pub mod ReadBack
use hedera_sdk_go.Prelude.{ℕ, ◌+◌, ◌-◌, ◌*◌, ◌%◌, ◌^◌, none, some, ltb, if◌then◌else◌, get_elem?}
use hedera_sdk_go.Prelude.Int.{ℤ, pos, negsuc}
use hedera_sdk_go.Prelude.Outcome.{Outcome, ok, panic, out_of_range, ◌>>=◌}
use hedera_sdk_go.Prelude.Text.{Bytes}
use hedera_sdk_go.ContractFunction.Buffers.{slice, big_endian_value}

-- The result of the call, and what its slice has behind its end, up to its capacity: a slice of it
-- is checked against the capacity, and an index against the length.
pub record ContractFunctionResult : Type 0 where
  pub contract_call_result : Bytes
  pub spare : Bytes

unfoldable pub result_slice : ContractFunctionResult → ℕ → ℕ → Outcome Bytes
unfolding slice
result_slice result from to =
    slice result.contract_call_result result.spare (from % 2 ^ 64) (to % 2 ^ 64)

-- `ContractCallResult[index*32+31]`.
unfoldable pub get_byte : ContractFunctionResult → ℕ → Outcome ℕ
get_byte result index = elim (get_elem? result.contract_call_result ((index * 32 + 31) % 2 ^ 64)) [
  | none ↦ panic out_of_range
  | some b ↦ ok b
]

-- `ContractCallResult[index*32+k : (index+1)*32]`.
unfoldable pub get_part : ℕ → ContractFunctionResult → ℕ → Outcome Bytes
unfolding result_slice
get_part k result index = result_slice result (index * 32 + k) ((index + 1) * 32)

-- `ContractCallResult[index*32+k : index*32+32]`.
unfoldable pub get_range : ℕ → ContractFunctionResult → ℕ → Outcome Bytes
unfolding result_slice
get_range k result index = result_slice result (index * 32 + k) (index * 32 + 32)

-- `Uint16`, `Uint32` or `Uint64` of such a part.
unfoldable pub get_word : ℕ → ContractFunctionResult → ℕ → Outcome ℕ
unfolding get_part big_endian_value
get_word k result index = get_part k result index >>= λ bytes. ok (big_endian_value 0 bytes)

-- `int8(n)`, `int32(n)` and `int64(n)` of an unsigned number of the same width.
abbrev pub to_int : ℕ → ℕ → ℤ
to_int w n = if ltb n (2 ^ (w - 1)) then pos n else negsuc (2 ^ w - n - 1)
