-- ===== src/ContractFunction/Parameters/Unsigned.antt =====
-- The methods that add an unsigned integer to the arguments of a call: contract_function_parameters.go.
use hedera_sdk_go.Prelude.{ℕ}
use hedera_sdk_go.Prelude.Text.{Bytes}
use hedera_sdk_go.ContractFunction.Selector.Methods
use hedera_sdk_go.ContractFunction.Selector.Methods.Unsigned
use hedera_sdk_go.ContractFunction.Parameters.{
  ContractFunctionParameters, add, byte_argument, word_argument, padded_argument, new_argument,
}

unfoldable pub add_uint8 : ℕ → ContractFunctionParameters → ContractFunctionParameters
unfolding add byte_argument
add_uint8 value = add Unsigned.add_uint8 (byte_argument value)

unfoldable pub add_uint16 : ℕ → ContractFunctionParameters → ContractFunctionParameters
unfolding add word_argument
add_uint16 value = add Methods.add_int16 (word_argument 30 2 value)

unfoldable pub add_uint24 : ℕ → ContractFunctionParameters → ContractFunctionParameters
unfolding add word_argument
add_uint24 value = add Methods.add_int24 (word_argument 28 4 value)

unfoldable pub add_uint32 : ℕ → ContractFunctionParameters → ContractFunctionParameters
unfolding add word_argument
add_uint32 value = add Unsigned.add_uint32 (word_argument 28 4 value)

unfoldable pub add_uint40 : ℕ → ContractFunctionParameters → ContractFunctionParameters
unfolding add word_argument
add_uint40 value = add Methods.add_int40 (word_argument 24 8 value)

unfoldable pub add_uint48 : ℕ → ContractFunctionParameters → ContractFunctionParameters
unfolding add word_argument
add_uint48 value = add Methods.add_int48 (word_argument 24 8 value)

unfoldable pub add_uint56 : ℕ → ContractFunctionParameters → ContractFunctionParameters
unfolding add word_argument
add_uint56 value = add Methods.add_int56 (word_argument 24 8 value)

unfoldable pub add_uint64 : ℕ → ContractFunctionParameters → ContractFunctionParameters
unfolding add word_argument
add_uint64 value = add Unsigned.add_uint64 (word_argument 24 8 value)

unfoldable pub add_uint72 : Bytes → ContractFunctionParameters → ContractFunctionParameters
unfolding add padded_argument
add_uint72 value = add Unsigned.add_uint72 (padded_argument 23 value)

unfoldable pub add_uint80 : Bytes → ContractFunctionParameters → ContractFunctionParameters
unfolding add padded_argument
add_uint80 value = add Unsigned.add_uint80 (padded_argument 22 value)

unfoldable pub add_uint88 : Bytes → ContractFunctionParameters → ContractFunctionParameters
unfolding add padded_argument
add_uint88 value = add Unsigned.add_uint88 (padded_argument 21 value)

unfoldable pub add_uint96 : Bytes → ContractFunctionParameters → ContractFunctionParameters
unfolding add padded_argument
add_uint96 value = add Unsigned.add_uint96 (padded_argument 20 value)

unfoldable pub add_uint104 : Bytes → ContractFunctionParameters → ContractFunctionParameters
unfolding add padded_argument
add_uint104 value = add Unsigned.add_uint104 (padded_argument 19 value)

unfoldable pub add_uint112 : Bytes → ContractFunctionParameters → ContractFunctionParameters
unfolding add padded_argument
add_uint112 value = add Unsigned.add_uint112 (padded_argument 18 value)

unfoldable pub add_uint120 : Bytes → ContractFunctionParameters → ContractFunctionParameters
unfolding add padded_argument
add_uint120 value = add Unsigned.add_uint120 (padded_argument 17 value)

unfoldable pub add_uint128 : Bytes → ContractFunctionParameters → ContractFunctionParameters
unfolding add padded_argument
add_uint128 value = add Unsigned.add_uint128 (padded_argument 16 value)

unfoldable pub add_uint136 : Bytes → ContractFunctionParameters → ContractFunctionParameters
unfolding add padded_argument
add_uint136 value = add Unsigned.add_uint136 (padded_argument 15 value)

unfoldable pub add_uint144 : Bytes → ContractFunctionParameters → ContractFunctionParameters
unfolding add padded_argument
add_uint144 value = add Unsigned.add_uint144 (padded_argument 14 value)

unfoldable pub add_uint152 : Bytes → ContractFunctionParameters → ContractFunctionParameters
unfolding add padded_argument
add_uint152 value = add Unsigned.add_uint152 (padded_argument 13 value)

unfoldable pub add_uint160 : Bytes → ContractFunctionParameters → ContractFunctionParameters
unfolding add padded_argument
add_uint160 value = add Unsigned.add_uint160 (padded_argument 12 value)

unfoldable pub add_uint168 : Bytes → ContractFunctionParameters → ContractFunctionParameters
unfolding add padded_argument
add_uint168 value = add Unsigned.add_uint168 (padded_argument 11 value)

unfoldable pub add_uint176 : Bytes → ContractFunctionParameters → ContractFunctionParameters
unfolding add padded_argument
add_uint176 value = add Unsigned.add_uint176 (padded_argument 10 value)

unfoldable pub add_uint184 : Bytes → ContractFunctionParameters → ContractFunctionParameters
unfolding add padded_argument
add_uint184 value = add Unsigned.add_uint184 (padded_argument 9 value)

unfoldable pub add_uint192 : Bytes → ContractFunctionParameters → ContractFunctionParameters
unfolding add padded_argument
add_uint192 value = add Unsigned.add_uint192 (padded_argument 8 value)

unfoldable pub add_uint200 : Bytes → ContractFunctionParameters → ContractFunctionParameters
unfolding add padded_argument
add_uint200 value = add Unsigned.add_uint200 (padded_argument 7 value)

unfoldable pub add_uint208 : Bytes → ContractFunctionParameters → ContractFunctionParameters
unfolding add padded_argument
add_uint208 value = add Unsigned.add_uint208 (padded_argument 6 value)

unfoldable pub add_uint216 : Bytes → ContractFunctionParameters → ContractFunctionParameters
unfolding add padded_argument
add_uint216 value = add Unsigned.add_uint216 (padded_argument 5 value)

unfoldable pub add_uint224 : Bytes → ContractFunctionParameters → ContractFunctionParameters
unfolding add padded_argument
add_uint224 value = add Unsigned.add_uint224 (padded_argument 4 value)

unfoldable pub add_uint232 : Bytes → ContractFunctionParameters → ContractFunctionParameters
unfolding add padded_argument
add_uint232 value = add Unsigned.add_uint232 (padded_argument 3 value)

unfoldable pub add_uint240 : Bytes → ContractFunctionParameters → ContractFunctionParameters
unfolding add padded_argument
add_uint240 value = add Unsigned.add_uint240 (padded_argument 2 value)

unfoldable pub add_uint248 : Bytes → ContractFunctionParameters → ContractFunctionParameters
unfolding add padded_argument
add_uint248 value = add Unsigned.add_uint248 (padded_argument 1 value)

unfoldable pub add_uint256 : Bytes → ContractFunctionParameters → ContractFunctionParameters
unfolding add new_argument
add_uint256 value = add Unsigned.add_uint256 (record new_argument { value = value })
