-- ===== src/ContractFunction/Result/Signed.antt =====
-- The methods that read a signed integer from the result of a call: contract_function_result.go.
use hedera_sdk_go.Prelude.{ℕ}
use hedera_sdk_go.Prelude.Int.{ℤ}
use hedera_sdk_go.Prelude.Outcome.{Outcome, ok, ◌>>=◌}
use hedera_sdk_go.Prelude.Text.{Bytes}
use hedera_sdk_go.ContractFunction.Result.{
  ContractFunctionResult, get_byte, get_word, get_part, get_range, to_int,
}

unfoldable pub get_int8 : ContractFunctionResult → ℕ → Outcome ℤ
unfolding get_byte
get_int8 result index = get_byte result index >>= λ n. ok (to_int 8 n)

unfoldable pub get_int16 : ContractFunctionResult → ℕ → Outcome ℕ
unfolding get_word
get_int16 = get_word 30

unfoldable pub get_int24 : ContractFunctionResult → ℕ → Outcome ℕ
unfolding get_word
get_int24 = get_word 28

unfoldable pub get_int40 : ContractFunctionResult → ℕ → Outcome ℕ
unfolding get_word
get_int40 = get_word 24

unfoldable pub get_int48 : ContractFunctionResult → ℕ → Outcome ℕ
unfolding get_word
get_int48 = get_word 24

unfoldable pub get_int56 : ContractFunctionResult → ℕ → Outcome ℕ
unfolding get_word
get_int56 = get_word 24

unfoldable pub get_int32 : ContractFunctionResult → ℕ → Outcome ℤ
unfolding get_word
get_int32 result index = get_word 28 result index >>= λ n. ok (to_int 32 n)

unfoldable pub get_int64 : ContractFunctionResult → ℕ → Outcome ℤ
unfolding get_word
get_int64 result index = get_word 24 result index >>= λ n. ok (to_int 64 n)

unfoldable pub get_int72 : ContractFunctionResult → ℕ → Outcome Bytes
unfolding get_part
get_int72 = get_part 23

unfoldable pub get_int80 : ContractFunctionResult → ℕ → Outcome Bytes
unfolding get_part
get_int80 = get_part 22

unfoldable pub get_int88 : ContractFunctionResult → ℕ → Outcome Bytes
unfolding get_part
get_int88 = get_part 21

unfoldable pub get_int96 : ContractFunctionResult → ℕ → Outcome Bytes
unfolding get_part
get_int96 = get_part 20

unfoldable pub get_int104 : ContractFunctionResult → ℕ → Outcome Bytes
unfolding get_part
get_int104 = get_part 19

unfoldable pub get_int112 : ContractFunctionResult → ℕ → Outcome Bytes
unfolding get_part
get_int112 = get_part 18

unfoldable pub get_int120 : ContractFunctionResult → ℕ → Outcome Bytes
unfolding get_part
get_int120 = get_part 17

unfoldable pub get_int128 : ContractFunctionResult → ℕ → Outcome Bytes
unfolding get_part
get_int128 = get_part 16

unfoldable pub get_int136 : ContractFunctionResult → ℕ → Outcome Bytes
unfolding get_part
get_int136 = get_part 15

unfoldable pub get_int144 : ContractFunctionResult → ℕ → Outcome Bytes
unfolding get_part
get_int144 = get_part 14

unfoldable pub get_int152 : ContractFunctionResult → ℕ → Outcome Bytes
unfolding get_part
get_int152 = get_part 13

unfoldable pub get_int160 : ContractFunctionResult → ℕ → Outcome Bytes
unfolding get_part
get_int160 = get_part 12

unfoldable pub get_int168 : ContractFunctionResult → ℕ → Outcome Bytes
unfolding get_part
get_int168 = get_part 11

unfoldable pub get_int176 : ContractFunctionResult → ℕ → Outcome Bytes
unfolding get_part
get_int176 = get_part 10

unfoldable pub get_int184 : ContractFunctionResult → ℕ → Outcome Bytes
unfolding get_part
get_int184 = get_part 9

unfoldable pub get_int192 : ContractFunctionResult → ℕ → Outcome Bytes
unfolding get_part
get_int192 = get_part 8

unfoldable pub get_int200 : ContractFunctionResult → ℕ → Outcome Bytes
unfolding get_part
get_int200 = get_part 7

unfoldable pub get_int208 : ContractFunctionResult → ℕ → Outcome Bytes
unfolding get_part
get_int208 = get_part 6

unfoldable pub get_int216 : ContractFunctionResult → ℕ → Outcome Bytes
unfolding get_part
get_int216 = get_part 5

unfoldable pub get_int224 : ContractFunctionResult → ℕ → Outcome Bytes
unfolding get_part
get_int224 = get_part 4

unfoldable pub get_int232 : ContractFunctionResult → ℕ → Outcome Bytes
unfolding get_part
get_int232 = get_part 3

unfoldable pub get_int240 : ContractFunctionResult → ℕ → Outcome Bytes
unfolding get_part
get_int240 = get_part 2

unfoldable pub get_int248 : ContractFunctionResult → ℕ → Outcome Bytes
unfolding get_part
get_int248 = get_part 1

unfoldable pub get_int256 : ContractFunctionResult → ℕ → Outcome Bytes
unfolding get_range
get_int256 = get_range 0
