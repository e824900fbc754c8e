-- ===== src/ContractFunction/Selector/Methods/Unsigned.antt =====
-- The methods that add an unsigned integer to a selector: contract_function_selector.go.
use hedera_sdk_go.Prelude.{false}
use hedera_sdk_go.ContractFunction.Selector.{ContractFunctionSelector, add_param}
use hedera_sdk_go.ContractFunction.Selector.Types.{
  uint104, uint112, uint120, uint128, uint136, uint144, uint152, uint16, uint160, uint168, uint176,
  uint184, uint192, uint200, uint208, uint216, uint224, uint232, uint24, uint240, uint248, uint256,
  uint32, uint40, uint48, uint56, uint64, uint72, uint8, uint80, uint88, uint96,
}

unfoldable pub add_uint8 : ContractFunctionSelector → ContractFunctionSelector
unfolding add_param
add_uint8 = add_param (record { ty = uint8; array = false })

unfoldable pub add_uint16 : ContractFunctionSelector → ContractFunctionSelector
unfolding add_param
add_uint16 = add_param (record { ty = uint16; array = false })

unfoldable pub add_uint24 : ContractFunctionSelector → ContractFunctionSelector
unfolding add_param
add_uint24 = add_param (record { ty = uint24; array = false })

unfoldable pub add_uint32 : ContractFunctionSelector → ContractFunctionSelector
unfolding add_param
add_uint32 = add_param (record { ty = uint32; array = false })

unfoldable pub add_uint40 : ContractFunctionSelector → ContractFunctionSelector
unfolding add_param
add_uint40 = add_param (record { ty = uint40; array = false })

unfoldable pub add_uint48 : ContractFunctionSelector → ContractFunctionSelector
unfolding add_param
add_uint48 = add_param (record { ty = uint48; array = false })

unfoldable pub add_uint56 : ContractFunctionSelector → ContractFunctionSelector
unfolding add_param
add_uint56 = add_param (record { ty = uint56; array = false })

unfoldable pub add_uint64 : ContractFunctionSelector → ContractFunctionSelector
unfolding add_param
add_uint64 = add_param (record { ty = uint64; array = false })

unfoldable pub add_uint72 : ContractFunctionSelector → ContractFunctionSelector
unfolding add_param
add_uint72 = add_param (record { ty = uint72; array = false })

unfoldable pub add_uint80 : ContractFunctionSelector → ContractFunctionSelector
unfolding add_param
add_uint80 = add_param (record { ty = uint80; array = false })

unfoldable pub add_uint88 : ContractFunctionSelector → ContractFunctionSelector
unfolding add_param
add_uint88 = add_param (record { ty = uint88; array = false })

unfoldable pub add_uint96 : ContractFunctionSelector → ContractFunctionSelector
unfolding add_param
add_uint96 = add_param (record { ty = uint96; array = false })

unfoldable pub add_uint104 : ContractFunctionSelector → ContractFunctionSelector
unfolding add_param
add_uint104 = add_param (record { ty = uint104; array = false })

unfoldable pub add_uint112 : ContractFunctionSelector → ContractFunctionSelector
unfolding add_param
add_uint112 = add_param (record { ty = uint112; array = false })

unfoldable pub add_uint120 : ContractFunctionSelector → ContractFunctionSelector
unfolding add_param
add_uint120 = add_param (record { ty = uint120; array = false })

unfoldable pub add_uint128 : ContractFunctionSelector → ContractFunctionSelector
unfolding add_param
add_uint128 = add_param (record { ty = uint128; array = false })

unfoldable pub add_uint136 : ContractFunctionSelector → ContractFunctionSelector
unfolding add_param
add_uint136 = add_param (record { ty = uint136; array = false })

unfoldable pub add_uint144 : ContractFunctionSelector → ContractFunctionSelector
unfolding add_param
add_uint144 = add_param (record { ty = uint144; array = false })

unfoldable pub add_uint152 : ContractFunctionSelector → ContractFunctionSelector
unfolding add_param
add_uint152 = add_param (record { ty = uint152; array = false })

unfoldable pub add_uint160 : ContractFunctionSelector → ContractFunctionSelector
unfolding add_param
add_uint160 = add_param (record { ty = uint160; array = false })

unfoldable pub add_uint168 : ContractFunctionSelector → ContractFunctionSelector
unfolding add_param
add_uint168 = add_param (record { ty = uint168; array = false })

unfoldable pub add_uint176 : ContractFunctionSelector → ContractFunctionSelector
unfolding add_param
add_uint176 = add_param (record { ty = uint176; array = false })

unfoldable pub add_uint184 : ContractFunctionSelector → ContractFunctionSelector
unfolding add_param
add_uint184 = add_param (record { ty = uint184; array = false })

unfoldable pub add_uint192 : ContractFunctionSelector → ContractFunctionSelector
unfolding add_param
add_uint192 = add_param (record { ty = uint192; array = false })

unfoldable pub add_uint200 : ContractFunctionSelector → ContractFunctionSelector
unfolding add_param
add_uint200 = add_param (record { ty = uint200; array = false })

unfoldable pub add_uint208 : ContractFunctionSelector → ContractFunctionSelector
unfolding add_param
add_uint208 = add_param (record { ty = uint208; array = false })

unfoldable pub add_uint216 : ContractFunctionSelector → ContractFunctionSelector
unfolding add_param
add_uint216 = add_param (record { ty = uint216; array = false })

unfoldable pub add_uint224 : ContractFunctionSelector → ContractFunctionSelector
unfolding add_param
add_uint224 = add_param (record { ty = uint224; array = false })

unfoldable pub add_uint232 : ContractFunctionSelector → ContractFunctionSelector
unfolding add_param
add_uint232 = add_param (record { ty = uint232; array = false })

unfoldable pub add_uint240 : ContractFunctionSelector → ContractFunctionSelector
unfolding add_param
add_uint240 = add_param (record { ty = uint240; array = false })

unfoldable pub add_uint248 : ContractFunctionSelector → ContractFunctionSelector
unfolding add_param
add_uint248 = add_param (record { ty = uint248; array = false })

unfoldable pub add_uint256 : ContractFunctionSelector → ContractFunctionSelector
unfolding add_param
add_uint256 = add_param (record { ty = uint256; array = false })
