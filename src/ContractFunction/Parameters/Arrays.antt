-- ===== src/ContractFunction/Parameters/Arrays.antt =====
-- The methods that add an array to the arguments of a call: contract_function_parameters.go.
pub mod Nested
pub mod NestedLayout
use hedera_sdk_go.Prelude.{
  ℕ, suc, ◌+◌, ◌*◌, List, [], ◌∷◌, Option, none, some, true, length, map, ◌==◌, if◌then◌else◌,
}
use hedera_sdk_go.Prelude.Int.{ℤ}
use hedera_sdk_go.Prelude.Outcome.{Outcome, ok, err, bad_hex, ◌>>=◌}
use hedera_sdk_go.Prelude.Text.{Bytes}
use hedera_sdk_go.Strconv.{hex_decode}
use hedera_sdk_go.ContractFunction.Buffers.{zeros, copy_range, slice, big_endian, to_uint}
use hedera_sdk_go.ContractFunction.Selector.{ContractFunctionSelector}
use hedera_sdk_go.ContractFunction.Selector.Arrays
use hedera_sdk_go.ContractFunction.Parameters.{
  ContractFunctionParameters, add, unwrap, address_error, with_error,
}

-- The loop that writes the bytes of each item at a position of its word.
unfoldable pub write_items : ℕ → ℕ → List Bytes → Bytes → Outcome Bytes
unfolding copy_range
write_items from i [] result = ok result
write_items from i (v ∷ value) result =
    let next = write_items from (suc i) value in
    copy_range result (i * 32 + 32 + from) (i * 32 + 32 + 32) v >>= next

-- `make([]byte, size)` with the number of items in its first word.
unfoldable pub counted : ℕ → ℕ → Outcome Bytes
unfolding copy_range zeros big_endian
counted size count = copy_range (zeros size) 24 32 (big_endian 8 count)

-- The methods for arrays of words: the size of their buffer, the position in a word, the items.
unfoldable pub add_array :
    (ContractFunctionSelector → ContractFunctionSelector)
    → ℕ
    → ℕ
    → List Bytes
    → ContractFunctionParameters
    → Outcome ContractFunctionParameters
unfolding add
add_array register size from items contract = do
  result ← counted size (length items)
  result ← write_items from 0 items result
  ok (add register (record { value = result; dynamic = true }) contract)

abbrev pub int32_bytes : List ℤ → List Bytes
int32_bytes = map (λ v. big_endian 4 (to_uint 32 v))

unfoldable pub add_int8_array :
    List ℤ → ContractFunctionParameters → Outcome ContractFunctionParameters
unfolding add_array
add_int8_array value =
    add_array Arrays.add_int32_array (length value * 32 + 32) 28 (int32_bytes value)

unfoldable pub add_int16_array :
    List ℤ → ContractFunctionParameters → Outcome ContractFunctionParameters
unfolding add_array
add_int16_array value =
    add_array Arrays.add_int32_array (length value * 32 + 32) 28 (int32_bytes value)

unfoldable pub add_int24_array :
    List ℤ → ContractFunctionParameters → Outcome ContractFunctionParameters
unfolding add_array
add_int24_array value =
    add_array Arrays.add_int32_array (length value * 32 + 32) 28 (int32_bytes value)

unfoldable pub add_int32_array :
    List ℤ → ContractFunctionParameters → Outcome ContractFunctionParameters
unfolding add_array
add_int32_array value = add_array Arrays.add_int32_array (length value + 32) 28 (int32_bytes value)

unfoldable pub add_int64_array :
    List ℤ → ContractFunctionParameters → Outcome ContractFunctionParameters
unfolding add_array
add_int64_array value =
    add_array Arrays.add_int64_array (length value * 32 + 32) 24
      (map (λ v. big_endian 8 (to_uint 64 v)) value)

unfoldable pub add_int256_array :
    List Bytes → ContractFunctionParameters → Outcome ContractFunctionParameters
unfolding add_array
add_int256_array value = add_array Arrays.add_int256_array (length value * 32 + 32) 0 value

unfoldable pub add_uint32_array :
    List ℕ → ContractFunctionParameters → Outcome ContractFunctionParameters
unfolding add_array
add_uint32_array value =
    add_array Arrays.add_uint32_array (length value * 32 + 32) 28 (map (big_endian 4) value)

unfoldable pub add_uint64_array :
    List ℕ → ContractFunctionParameters → Outcome ContractFunctionParameters
unfolding add_array
add_uint64_array value =
    add_array Arrays.add_uint64_array (length value * 32 + 32) 24 (map (big_endian 8) value)

unfoldable pub add_uint256_array :
    List Bytes → ContractFunctionParameters → Outcome ContractFunctionParameters
unfolding add_array
add_uint256_array value = add_array Arrays.add_uint256_array (length value * 32 + 32) 0 value

-- The loop over the addresses; `none` where it returns the contract, at an address of a wrong length.
unfoldable pub write_addresses : ℕ → List Bytes → Bytes → Outcome (Option Bytes)
unfolding copy_range slice hex_decode
write_addresses i [] result = ok (some result)
write_addresses i (v ∷ value) result =
    let next = write_addresses (suc i) value in
    if length v == 40
    then (elim (hex_decode v) [
      | none ↦ err bad_hex
      | some address_bytes ↦ do
        address_bytes ← slice address_bytes [] 0 20
        result ← copy_range result (i * 32 + 32 + 12) (i * 32 + 32 + 32) address_bytes
        next result
    ])
    else with_error none (unwrap address_error)

unfoldable pub add_address_array :
    List Bytes → ContractFunctionParameters → Outcome ContractFunctionParameters
unfolding add
add_address_array value contract = do
  result ← counted (length value * 32 + 32) (length value)
  result ← write_addresses 0 value result
  elim result [
    | none ↦ ok contract
    | some result ↦
        ok (add Arrays.add_address_array (record { value = result; dynamic = true }) contract)
  ]
