-- ===== src/ContractFunction/Result/Unsigned.antt =====
-- The methods that read an unsigned integer from the result of a call: contract_function_result.go.
use hedera_sdk_go.Prelude.{ℕ}
use hedera_sdk_go.Prelude.Outcome.{Outcome}
use hedera_sdk_go.Prelude.Text.{Bytes}
use hedera_sdk_go.ContractFunction.Result.{
  ContractFunctionResult, get_byte, get_word, get_part, get_range,
}

unfoldable pub get_uint8 : ContractFunctionResult → ℕ → Outcome ℕ
unfolding get_byte
get_uint8 = get_byte

unfoldable pub get_uint16 : ContractFunctionResult → ℕ → Outcome ℕ
unfolding get_word
get_uint16 = get_word 30

unfoldable pub get_uint24 : ContractFunctionResult → ℕ → Outcome ℕ
unfolding get_word
get_uint24 = get_word 28

unfoldable pub get_uint32 : ContractFunctionResult → ℕ → Outcome ℕ
unfolding get_word
get_uint32 = get_word 28

unfoldable pub get_uint40 : ContractFunctionResult → ℕ → Outcome ℕ
unfolding get_word
get_uint40 = get_word 24

unfoldable pub get_uint48 : ContractFunctionResult → ℕ → Outcome ℕ
unfolding get_word
get_uint48 = get_word 24

unfoldable pub get_uint56 : ContractFunctionResult → ℕ → Outcome ℕ
unfolding get_word
get_uint56 = get_word 24

unfoldable pub get_uint64 : ContractFunctionResult → ℕ → Outcome ℕ
unfolding get_word
get_uint64 = get_word 24

unfoldable pub get_uint72 : ContractFunctionResult → ℕ → Outcome Bytes
unfolding get_part
get_uint72 = get_part 23

unfoldable pub get_uint80 : ContractFunctionResult → ℕ → Outcome Bytes
unfolding get_part
get_uint80 = get_part 22

unfoldable pub get_uint88 : ContractFunctionResult → ℕ → Outcome Bytes
unfolding get_part
get_uint88 = get_part 21

unfoldable pub get_uint96 : ContractFunctionResult → ℕ → Outcome Bytes
unfolding get_part
get_uint96 = get_part 20

unfoldable pub get_uint104 : ContractFunctionResult → ℕ → Outcome Bytes
unfolding get_part
get_uint104 = get_part 19

unfoldable pub get_uint112 : ContractFunctionResult → ℕ → Outcome Bytes
unfolding get_part
get_uint112 = get_part 18

unfoldable pub get_uint120 : ContractFunctionResult → ℕ → Outcome Bytes
unfolding get_part
get_uint120 = get_part 17

unfoldable pub get_uint128 : ContractFunctionResult → ℕ → Outcome Bytes
unfolding get_part
get_uint128 = get_part 16

unfoldable pub get_uint136 : ContractFunctionResult → ℕ → Outcome Bytes
unfolding get_part
get_uint136 = get_part 15

unfoldable pub get_uint144 : ContractFunctionResult → ℕ → Outcome Bytes
unfolding get_part
get_uint144 = get_part 14

unfoldable pub get_uint152 : ContractFunctionResult → ℕ → Outcome Bytes
unfolding get_part
get_uint152 = get_part 13

unfoldable pub get_uint160 : ContractFunctionResult → ℕ → Outcome Bytes
unfolding get_part
get_uint160 = get_part 12

unfoldable pub get_uint168 : ContractFunctionResult → ℕ → Outcome Bytes
unfolding get_part
get_uint168 = get_part 11

unfoldable pub get_uint176 : ContractFunctionResult → ℕ → Outcome Bytes
unfolding get_part
get_uint176 = get_part 10

unfoldable pub get_uint184 : ContractFunctionResult → ℕ → Outcome Bytes
unfolding get_part
get_uint184 = get_part 9

unfoldable pub get_uint192 : ContractFunctionResult → ℕ → Outcome Bytes
unfolding get_part
get_uint192 = get_part 8

unfoldable pub get_uint200 : ContractFunctionResult → ℕ → Outcome Bytes
unfolding get_part
get_uint200 = get_part 7

unfoldable pub get_uint208 : ContractFunctionResult → ℕ → Outcome Bytes
unfolding get_part
get_uint208 = get_part 6

unfoldable pub get_uint216 : ContractFunctionResult → ℕ → Outcome Bytes
unfolding get_part
get_uint216 = get_part 5

unfoldable pub get_uint224 : ContractFunctionResult → ℕ → Outcome Bytes
unfolding get_part
get_uint224 = get_part 4

unfoldable pub get_uint232 : ContractFunctionResult → ℕ → Outcome Bytes
unfolding get_part
get_uint232 = get_part 3

unfoldable pub get_uint240 : ContractFunctionResult → ℕ → Outcome Bytes
unfolding get_part
get_uint240 = get_part 2

unfoldable pub get_uint248 : ContractFunctionResult → ℕ → Outcome Bytes
unfolding get_part
get_uint248 = get_part 1

unfoldable pub get_uint256 : ContractFunctionResult → ℕ → Outcome Bytes
unfolding get_range
get_uint256 = get_range 0
