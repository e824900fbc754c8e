-- ===== src/ContractFunction/Parameters/Arrays/Nested.antt =====
-- The methods that add an array of byte strings to the arguments of a call:
-- contract_function_parameters.go.
use hedera_sdk_go.Prelude.{
  ℕ, suc, ◌+◌, ◌*◌, ◌/◌, List, [], ◌∷◌, true, length, map, ◌==◌, if◌then◌else◌,
}
use hedera_sdk_go.Prelude.Outcome.{Outcome, ok, ◌>>=◌}
use hedera_sdk_go.Prelude.Text.{Bytes}
use hedera_sdk_go.ContractFunction.Buffers.{zeros, copy_to, copy_range, slice, big_endian}
use hedera_sdk_go.ContractFunction.Selector.Arrays
use hedera_sdk_go.ContractFunction.Parameters.Arrays.{counted}
use hedera_sdk_go.ContractFunction.Parameters.{ContractFunctionParameters, add}

-- The room for the bytes of an item, in whole words.
unfoldable pub padded_length : Bytes → ℕ
padded_length s = if length s / 32 == 0 then 32 else (length s / 32 + 1) * 32

-- The first loop of `bytesArray`.
unfoldable pub items_length : List Bytes → ℕ
unfolding padded_length
items_length [] = 0
items_length (s ∷ value) = 32 + 32 + padded_length s + items_length value

-- The length of an item in a word, and its bytes.
unfoldable pub item_bytes : Bytes → Bytes
unfolding padded_length zeros big_endian
item_bytes s = copy_to (copy_to (zeros (padded_length s + 32)) 24 (big_endian 8 (length s))) 32 s

-- The last loop: the offset of each item into its word, and the item to the offset.
unfoldable pub write_nested : ℕ → ℕ → List Bytes → Bytes → Outcome Bytes
unfolding copy_range
write_nested i offset [] result = ok result
write_nested i offset (s ∷ arguments) result =
    let next = write_nested (suc i) (offset + length s) arguments in
    do
      result ← copy_range result ((i + 1) * 32 + 24) ((i + 2) * 32) (big_endian 8 offset)
      result ← copy_range result (offset + 32) (offset + 32 + length s) s
      next result

unfoldable pub bytes_array : List Bytes → Outcome Bytes
bytes_array value = do
  result ← counted (items_length value + 32) (length value)
  write_nested 0 (length value * 32) (map item_bytes value) result

unfoldable pub add_bytes_array :
    List Bytes → ContractFunctionParameters → Outcome ContractFunctionParameters
unfolding add
add_bytes_array value contract = do
  value ← bytes_array value
  ok (add Arrays.add_bytes_array (record { value = value; dynamic = true }) contract)

unfoldable pub add_string_array :
    List Bytes → ContractFunctionParameters → Outcome ContractFunctionParameters
unfolding add
add_string_array value contract = do
  value ← bytes_array value
  ok (add Arrays.add_string_array (record { value = value; dynamic = true }) contract)

-- The loop over items that must have 32 bytes.
unfoldable pub write_bytes32 : ℕ → List Bytes → Bytes → Outcome Bytes
unfolding copy_range slice
write_bytes32 i [] result = ok result
write_bytes32 i (v ∷ value) result =
    let next = write_bytes32 (suc i) value in
    do
      v ← slice v [] 0 32
      result ← copy_range result (i * 32 + 32) (i * 32 + 32 + 32) v
      next result

unfoldable pub add_bytes32_array :
    List Bytes → ContractFunctionParameters → Outcome ContractFunctionParameters
unfolding add
add_bytes32_array value contract = do
  result ← counted (length value + 32) (length value)
  result ← write_bytes32 0 value result
  ok (add Arrays.add_bytes32_array (record { value = result; dynamic = true }) contract)
