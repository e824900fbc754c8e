-- ===== src/ContractFunction/Parameters/Signed.antt =====
-- The methods that add a signed integer to the arguments of a call: contract_function_parameters.go.
use hedera_sdk_go.Prelude.Int.{ℤ}
use hedera_sdk_go.ContractFunction.Buffers.{to_uint}
use hedera_sdk_go.Prelude.Text.{Bytes}
use hedera_sdk_go.ContractFunction.Selector.Methods
use hedera_sdk_go.ContractFunction.Parameters.{
  ContractFunctionParameters, add, byte_argument, word_argument, padded_argument, new_argument,
}

unfoldable pub add_int8 : ℤ → ContractFunctionParameters → ContractFunctionParameters
unfolding add byte_argument
add_int8 value = add Methods.add_int8 (byte_argument (to_uint 8 value))

unfoldable pub add_int16 : ℤ → ContractFunctionParameters → ContractFunctionParameters
unfolding add word_argument
add_int16 value = add Methods.add_int16 (word_argument 30 2 (to_uint 16 value))

unfoldable pub add_int24 : ℤ → ContractFunctionParameters → ContractFunctionParameters
unfolding add word_argument
add_int24 value = add Methods.add_int24 (word_argument 28 4 (to_uint 32 value))

unfoldable pub add_int32 : ℤ → ContractFunctionParameters → ContractFunctionParameters
unfolding add word_argument
add_int32 value = add Methods.add_int32 (word_argument 28 4 (to_uint 32 value))

unfoldable pub add_int40 : ℤ → ContractFunctionParameters → ContractFunctionParameters
unfolding add word_argument
add_int40 value = add Methods.add_int40 (word_argument 24 8 (to_uint 64 value))

unfoldable pub add_int48 : ℤ → ContractFunctionParameters → ContractFunctionParameters
unfolding add word_argument
add_int48 value = add Methods.add_int48 (word_argument 24 8 (to_uint 64 value))

unfoldable pub add_int56 : ℤ → ContractFunctionParameters → ContractFunctionParameters
unfolding add word_argument
add_int56 value = add Methods.add_int56 (word_argument 24 8 (to_uint 64 value))

unfoldable pub add_int64 : ℤ → ContractFunctionParameters → ContractFunctionParameters
unfolding add word_argument
add_int64 value = add Methods.add_int64 (word_argument 24 8 (to_uint 64 value))

unfoldable pub add_int72 : Bytes → ContractFunctionParameters → ContractFunctionParameters
unfolding add padded_argument
add_int72 value = add Methods.add_int72 (padded_argument 23 value)

unfoldable pub add_int80 : Bytes → ContractFunctionParameters → ContractFunctionParameters
unfolding add padded_argument
add_int80 value = add Methods.add_int80 (padded_argument 22 value)

unfoldable pub add_int88 : Bytes → ContractFunctionParameters → ContractFunctionParameters
unfolding add padded_argument
add_int88 value = add Methods.add_int88 (padded_argument 21 value)

unfoldable pub add_int96 : Bytes → ContractFunctionParameters → ContractFunctionParameters
unfolding add padded_argument
add_int96 value = add Methods.add_int96 (padded_argument 20 value)

unfoldable pub add_int104 : Bytes → ContractFunctionParameters → ContractFunctionParameters
unfolding add padded_argument
add_int104 value = add Methods.add_int104 (padded_argument 19 value)

unfoldable pub add_int112 : Bytes → ContractFunctionParameters → ContractFunctionParameters
unfolding add padded_argument
add_int112 value = add Methods.add_int112 (padded_argument 18 value)

unfoldable pub add_int120 : Bytes → ContractFunctionParameters → ContractFunctionParameters
unfolding add padded_argument
add_int120 value = add Methods.add_int120 (padded_argument 17 value)

unfoldable pub add_int128 : Bytes → ContractFunctionParameters → ContractFunctionParameters
unfolding add padded_argument
add_int128 value = add Methods.add_int128 (padded_argument 16 value)

unfoldable pub add_int136 : Bytes → ContractFunctionParameters → ContractFunctionParameters
unfolding add padded_argument
add_int136 value = add Methods.add_int136 (padded_argument 15 value)

unfoldable pub add_int144 : Bytes → ContractFunctionParameters → ContractFunctionParameters
unfolding add padded_argument
add_int144 value = add Methods.add_int144 (padded_argument 14 value)

unfoldable pub add_int152 : Bytes → ContractFunctionParameters → ContractFunctionParameters
unfolding add padded_argument
add_int152 value = add Methods.add_int152 (padded_argument 13 value)

unfoldable pub add_int160 : Bytes → ContractFunctionParameters → ContractFunctionParameters
unfolding add padded_argument
add_int160 value = add Methods.add_int160 (padded_argument 12 value)

unfoldable pub add_int168 : Bytes → ContractFunctionParameters → ContractFunctionParameters
unfolding add padded_argument
add_int168 value = add Methods.add_int168 (padded_argument 11 value)

unfoldable pub add_int176 : Bytes → ContractFunctionParameters → ContractFunctionParameters
unfolding add padded_argument
add_int176 value = add Methods.add_int176 (padded_argument 10 value)

unfoldable pub add_int184 : Bytes → ContractFunctionParameters → ContractFunctionParameters
unfolding add padded_argument
add_int184 value = add Methods.add_int184 (padded_argument 9 value)

unfoldable pub add_int192 : Bytes → ContractFunctionParameters → ContractFunctionParameters
unfolding add padded_argument
add_int192 value = add Methods.add_int192 (padded_argument 8 value)

unfoldable pub add_int200 : Bytes → ContractFunctionParameters → ContractFunctionParameters
unfolding add padded_argument
add_int200 value = add Methods.add_int200 (padded_argument 7 value)

unfoldable pub add_int208 : Bytes → ContractFunctionParameters → ContractFunctionParameters
unfolding add padded_argument
add_int208 value = add Methods.add_int208 (padded_argument 6 value)

unfoldable pub add_int216 : Bytes → ContractFunctionParameters → ContractFunctionParameters
unfolding add padded_argument
add_int216 value = add Methods.add_int216 (padded_argument 5 value)

unfoldable pub add_int224 : Bytes → ContractFunctionParameters → ContractFunctionParameters
unfolding add padded_argument
add_int224 value = add Methods.add_int224 (padded_argument 4 value)

unfoldable pub add_int232 : Bytes → ContractFunctionParameters → ContractFunctionParameters
unfolding add padded_argument
add_int232 value = add Methods.add_int232 (padded_argument 3 value)

unfoldable pub add_int240 : Bytes → ContractFunctionParameters → ContractFunctionParameters
unfolding add padded_argument
add_int240 value = add Methods.add_int240 (padded_argument 2 value)

unfoldable pub add_int248 : Bytes → ContractFunctionParameters → ContractFunctionParameters
unfolding add padded_argument
add_int248 value = add Methods.add_int248 (padded_argument 1 value)

unfoldable pub add_int256 : Bytes → ContractFunctionParameters → ContractFunctionParameters
unfolding add new_argument
add_int256 value = add Methods.add_int256 (record new_argument { value = value })
