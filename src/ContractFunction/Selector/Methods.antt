-- ===== src/ContractFunction/Selector/Methods.antt =====
-- The methods that add a type other than an array to a selector: contract_function_selector.go.
pub mod Unsigned
use hedera_sdk_go.Prelude.{false}
use hedera_sdk_go.ContractFunction.Selector.{ContractFunctionSelector, add_param}
use hedera_sdk_go.ContractFunction.Selector.Types.{
  address, bool, bytes, bytes32, function, int104, int112, int120, int128, int136, int144, int152,
  int16, int160, int168, int176, int184, int192, int200, int208, int216, int224, int232, int24,
  int240, int248, int256, int32, int40, int48, int56, int64, int72, int8, int80, int88, int96,
  string,
}

unfoldable pub add_function : ContractFunctionSelector → ContractFunctionSelector
unfolding add_param
add_function = add_param (record { ty = function; array = false })

unfoldable pub add_address : ContractFunctionSelector → ContractFunctionSelector
unfolding add_param
add_address = add_param (record { ty = address; array = false })

unfoldable pub add_bool : ContractFunctionSelector → ContractFunctionSelector
unfolding add_param
add_bool = add_param (record { ty = bool; array = false })

unfoldable pub add_string : ContractFunctionSelector → ContractFunctionSelector
unfolding add_param
add_string = add_param (record { ty = string; array = false })

unfoldable pub add_int8 : ContractFunctionSelector → ContractFunctionSelector
unfolding add_param
add_int8 = add_param (record { ty = int8; array = false })

unfoldable pub add_int16 : ContractFunctionSelector → ContractFunctionSelector
unfolding add_param
add_int16 = add_param (record { ty = int16; array = false })

unfoldable pub add_int24 : ContractFunctionSelector → ContractFunctionSelector
unfolding add_param
add_int24 = add_param (record { ty = int24; array = false })

unfoldable pub add_int32 : ContractFunctionSelector → ContractFunctionSelector
unfolding add_param
add_int32 = add_param (record { ty = int32; array = false })

unfoldable pub add_int40 : ContractFunctionSelector → ContractFunctionSelector
unfolding add_param
add_int40 = add_param (record { ty = int40; array = false })

unfoldable pub add_int48 : ContractFunctionSelector → ContractFunctionSelector
unfolding add_param
add_int48 = add_param (record { ty = int48; array = false })

unfoldable pub add_int56 : ContractFunctionSelector → ContractFunctionSelector
unfolding add_param
add_int56 = add_param (record { ty = int56; array = false })

unfoldable pub add_int64 : ContractFunctionSelector → ContractFunctionSelector
unfolding add_param
add_int64 = add_param (record { ty = int64; array = false })

unfoldable pub add_int72 : ContractFunctionSelector → ContractFunctionSelector
unfolding add_param
add_int72 = add_param (record { ty = int72; array = false })

unfoldable pub add_int80 : ContractFunctionSelector → ContractFunctionSelector
unfolding add_param
add_int80 = add_param (record { ty = int80; array = false })

unfoldable pub add_int88 : ContractFunctionSelector → ContractFunctionSelector
unfolding add_param
add_int88 = add_param (record { ty = int88; array = false })

unfoldable pub add_int96 : ContractFunctionSelector → ContractFunctionSelector
unfolding add_param
add_int96 = add_param (record { ty = int96; array = false })

unfoldable pub add_int104 : ContractFunctionSelector → ContractFunctionSelector
unfolding add_param
add_int104 = add_param (record { ty = int104; array = false })

unfoldable pub add_int112 : ContractFunctionSelector → ContractFunctionSelector
unfolding add_param
add_int112 = add_param (record { ty = int112; array = false })

unfoldable pub add_int120 : ContractFunctionSelector → ContractFunctionSelector
unfolding add_param
add_int120 = add_param (record { ty = int120; array = false })

unfoldable pub add_int128 : ContractFunctionSelector → ContractFunctionSelector
unfolding add_param
add_int128 = add_param (record { ty = int128; array = false })

unfoldable pub add_int136 : ContractFunctionSelector → ContractFunctionSelector
unfolding add_param
add_int136 = add_param (record { ty = int136; array = false })

unfoldable pub add_int144 : ContractFunctionSelector → ContractFunctionSelector
unfolding add_param
add_int144 = add_param (record { ty = int144; array = false })

unfoldable pub add_int152 : ContractFunctionSelector → ContractFunctionSelector
unfolding add_param
add_int152 = add_param (record { ty = int152; array = false })

unfoldable pub add_int160 : ContractFunctionSelector → ContractFunctionSelector
unfolding add_param
add_int160 = add_param (record { ty = int160; array = false })

unfoldable pub add_int168 : ContractFunctionSelector → ContractFunctionSelector
unfolding add_param
add_int168 = add_param (record { ty = int168; array = false })

unfoldable pub add_int176 : ContractFunctionSelector → ContractFunctionSelector
unfolding add_param
add_int176 = add_param (record { ty = int176; array = false })

unfoldable pub add_int184 : ContractFunctionSelector → ContractFunctionSelector
unfolding add_param
add_int184 = add_param (record { ty = int184; array = false })

unfoldable pub add_int192 : ContractFunctionSelector → ContractFunctionSelector
unfolding add_param
add_int192 = add_param (record { ty = int192; array = false })

unfoldable pub add_int200 : ContractFunctionSelector → ContractFunctionSelector
unfolding add_param
add_int200 = add_param (record { ty = int200; array = false })

unfoldable pub add_int208 : ContractFunctionSelector → ContractFunctionSelector
unfolding add_param
add_int208 = add_param (record { ty = int208; array = false })

unfoldable pub add_int216 : ContractFunctionSelector → ContractFunctionSelector
unfolding add_param
add_int216 = add_param (record { ty = int216; array = false })

unfoldable pub add_int224 : ContractFunctionSelector → ContractFunctionSelector
unfolding add_param
add_int224 = add_param (record { ty = int224; array = false })

unfoldable pub add_int232 : ContractFunctionSelector → ContractFunctionSelector
unfolding add_param
add_int232 = add_param (record { ty = int232; array = false })

unfoldable pub add_int240 : ContractFunctionSelector → ContractFunctionSelector
unfolding add_param
add_int240 = add_param (record { ty = int240; array = false })

unfoldable pub add_int248 : ContractFunctionSelector → ContractFunctionSelector
unfolding add_param
add_int248 = add_param (record { ty = int248; array = false })

unfoldable pub add_int256 : ContractFunctionSelector → ContractFunctionSelector
unfolding add_param
add_int256 = add_param (record { ty = int256; array = false })

unfoldable pub add_bytes : ContractFunctionSelector → ContractFunctionSelector
unfolding add_param
add_bytes = add_param (record { ty = bytes; array = false })

unfoldable pub add_bytes32 : ContractFunctionSelector → ContractFunctionSelector
unfolding add_param
add_bytes32 = add_param (record { ty = bytes32; array = false })
