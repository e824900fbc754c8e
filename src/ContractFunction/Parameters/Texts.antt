-- ===== src/ContractFunction/Parameters/Texts.antt =====
-- The methods that add a bool, a function, an address, a text or bytes to the arguments of a call:
-- contract_function_parameters.go.
use hedera_sdk_go.Prelude.{◌-◌, ◌%◌, [], ◌++◌, none, some, Bool, true, length, ◌==◌, if◌then◌else◌}
use hedera_sdk_go.Prelude.Outcome.{Outcome, ok, err, bad_hex, ◌>>=◌}
use hedera_sdk_go.Prelude.Text.{Bytes}
use hedera_sdk_go.Strconv.{hex_decode}
use hedera_sdk_go.ContractFunction.Buffers.{zeros, slice}
use hedera_sdk_go.ContractFunction.Selector.{ContractFunctionSelector}
use hedera_sdk_go.ContractFunction.Selector as Selector
use hedera_sdk_go.ContractFunction.Selector.Methods
use hedera_sdk_go.ContractFunction.Parameters.{
  Argument, ContractFunctionParameters, add, byte_argument, word_argument, new_argument, unwrap,
  address_error, with_error,
}

unfoldable pub add_bool : Bool → ContractFunctionParameters → ContractFunctionParameters
unfolding add byte_argument
add_bool value = add Methods.add_bool (byte_argument (if value then 1 else 0))

-- The test of an address's length, and its bytes.
unfoldable pub with_address :
    Bytes
    → (Bytes → ContractFunctionParameters → Outcome ContractFunctionParameters)
    → ContractFunctionParameters
    → Outcome ContractFunctionParameters
unfolding hex_decode
with_address address next contract =
    if length address == 40
    then (elim (hex_decode address) [
      | none ↦ err bad_hex
      | some address_bytes ↦ next address_bytes contract
    ])
    else with_error contract (unwrap address_error)

unfoldable pub add_function :
    (Bytes → Bytes)
    → Bytes
    → ContractFunctionSelector
    → ContractFunctionParameters
    → Outcome ContractFunctionParameters
unfolding with_address add new_argument slice
add_function keccak256 address selector = with_address address λ address_bytes contract. do
  address_bytes ← slice address_bytes [] 0 20
  (function, _) ← Selector.build keccak256 none selector
  function ← slice function [] 0 4
  ok (
      add Methods.add_function
        (record new_argument { value = (zeros 12 ++ address_bytes) ++ function }) contract)

unfoldable pub add_address : Bytes → ContractFunctionParameters → Outcome ContractFunctionParameters
unfolding with_address add new_argument zeros
add_address value = with_address value λ address_bytes contract.
    ok
      (add Methods.add_address (record new_argument { value = zeros 12 ++ address_bytes }) contract)

-- The length in a word, the bytes, and the zeros behind them.
unfoldable pub bytes_argument : Bytes → Argument
unfolding word_argument zeros
bytes_argument value = record {
  value = ((word_argument 24 8 (length value)).value ++ value) ++ zeros (32 - length value % 32);
  dynamic = true;
}

unfoldable pub add_string : Bytes → ContractFunctionParameters → ContractFunctionParameters
unfolding add bytes_argument
add_string value = add Methods.add_string (bytes_argument value)

unfoldable pub add_bytes : Bytes → ContractFunctionParameters → ContractFunctionParameters
unfolding add bytes_argument
add_bytes value = add Methods.add_bytes (bytes_argument value)

unfoldable pub add_bytes32 : Bytes → ContractFunctionParameters → ContractFunctionParameters
unfolding add new_argument
add_bytes32 value = add Methods.add_bytes32 (record new_argument { value = value })
