-- ===== src/ContractFunction/Selector/Arrays.antt =====
-- The methods that add an array to a selector: contract_function_selector.go.
use hedera_sdk_go.Prelude.{true}
use hedera_sdk_go.ContractFunction.Selector.{ContractFunctionSelector, add_param}
use hedera_sdk_go.ContractFunction.Selector.Types.{
  address, bool, bytes, bytes32, int256, int32, int64, int8, string, uint256, uint32, uint64, uint8,
}

unfoldable pub add_address_array : ContractFunctionSelector → ContractFunctionSelector
unfolding add_param
add_address_array = add_param (record { ty = address; array = true })

unfoldable pub add_bool_array : ContractFunctionSelector → ContractFunctionSelector
unfolding add_param
add_bool_array = add_param (record { ty = bool; array = true })

unfoldable pub add_string_array : ContractFunctionSelector → ContractFunctionSelector
unfolding add_param
add_string_array = add_param (record { ty = string; array = true })

unfoldable pub add_int8_array : ContractFunctionSelector → ContractFunctionSelector
unfolding add_param
add_int8_array = add_param (record { ty = int8; array = true })

unfoldable pub add_int32_array : ContractFunctionSelector → ContractFunctionSelector
unfolding add_param
add_int32_array = add_param (record { ty = int32; array = true })

unfoldable pub add_int64_array : ContractFunctionSelector → ContractFunctionSelector
unfolding add_param
add_int64_array = add_param (record { ty = int64; array = true })

unfoldable pub add_int256_array : ContractFunctionSelector → ContractFunctionSelector
unfolding add_param
add_int256_array = add_param (record { ty = int256; array = true })

unfoldable pub add_uint8_array : ContractFunctionSelector → ContractFunctionSelector
unfolding add_param
add_uint8_array = add_param (record { ty = uint8; array = true })

unfoldable pub add_uint32_array : ContractFunctionSelector → ContractFunctionSelector
unfolding add_param
add_uint32_array = add_param (record { ty = uint32; array = true })

unfoldable pub add_uint64_array : ContractFunctionSelector → ContractFunctionSelector
unfolding add_param
add_uint64_array = add_param (record { ty = uint64; array = true })

unfoldable pub add_uint256_array : ContractFunctionSelector → ContractFunctionSelector
unfolding add_param
add_uint256_array = add_param (record { ty = uint256; array = true })

unfoldable pub add_bytes_array : ContractFunctionSelector → ContractFunctionSelector
unfolding add_param
add_bytes_array = add_param (record { ty = bytes; array = true })

unfoldable pub add_bytes32_array : ContractFunctionSelector → ContractFunctionSelector
unfolding add_param
add_bytes32_array = add_param (record { ty = bytes32; array = true })
