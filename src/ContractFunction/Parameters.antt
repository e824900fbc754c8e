-- ===== src/ContractFunction/Parameters.antt =====
-- The arguments of a contract call and the bytes that they are sent as:
-- contract_function_parameters.go. A number of type int is an ℕ where it is the length of a slice
-- or a position in one.
pub mod Signed
pub mod Unsigned
pub mod Texts
pub mod Arrays
pub mod Layout
pub mod Encoding
pub mod Places
pub mod Faults
pub mod ShortArrays
pub mod Addresses
use hedera_sdk_go.Prelude.{
  ℕ, suc, ◌+◌, ◌*◌, List, [], ◌∷◌, ◌++◌, Option, none, some, Bool, false, length, take, set,
  if◌then◌else◌,
}
use hedera_sdk_go.Prelude.Outcome.{Outcome, ok, err, bad_length, ◌>>=◌}
use hedera_sdk_go.Prelude.Text.{Bytes}
use hedera_sdk_go.ContractFunction.Buffers.{zeros, copy_to, copy_range, big_endian}
use hedera_sdk_go.ContractFunction.Selector.{
  ContractFunctionSelector, new_contract_function_selector,
}
use hedera_sdk_go.ContractFunction.Selector as Selector

pub record Argument : Type 0 where
  pub value : Bytes
  pub dynamic : Bool

pub record ContractFunctionParameters : Type 0 where
  pub function : ContractFunctionSelector
  pub arguments : List Argument

-- An error of package fmt, and the error that it wraps where its format has %w.
pub data GoError : Type 0 where
  plain : GoError
  wrapping : GoError → GoError

-- `errors.Unwrap`, whose result is nil for an error that wraps none.
abbrev pub unwrap : GoError → Option GoError
unwrap plain = none
unwrap (wrapping e) = some e

-- `fmt.Errorf("address is required to be 40 characters")`
abbrev pub address_error : GoError
address_error = plain

-- A result with an error, which may be nil, behind a test of an address's length.
abbrev pub with_error {ℓ} : {A : Type ℓ} → A → Option GoError → Outcome A
with_error a none = ok a
with_error a (some e) = err bad_length

unfoldable pub new_contract_function_parameters : ContractFunctionParameters
new_contract_function_parameters = record {
  function = new_contract_function_selector [];
  arguments = [];
}

unfoldable pub new_argument : Argument
unfolding zeros
new_argument = record { value = zeros 32; dynamic = false }

-- `argument.value[31] = b`.
unfoldable pub byte_argument : ℕ → Argument
unfolding new_argument zeros
byte_argument b = record new_argument { value = set new_argument.value 31 b }

-- `PutUint16`, `PutUint32` or `PutUint64` into the end of the word, from a position on.
unfoldable pub word_argument : ℕ → ℕ → ℕ → Argument
unfolding new_argument zeros big_endian
word_argument from width n = record new_argument {
  value = copy_to new_argument.value from (big_endian width n);
}

-- `append(argument.value[:k], value...)`.
unfoldable pub padded_argument : ℕ → Bytes → Argument
unfolding new_argument zeros
padded_argument k value = record new_argument { value = take k new_argument.value ++ value }

-- The ends of the methods: the type goes to the selector, the argument to the list.
unfoldable pub add :
    (ContractFunctionSelector → ContractFunctionSelector)
    → Argument
    → ContractFunctionParameters
    → ContractFunctionParameters
add register argument contract = record {
  function = register contract.function;
  arguments = contract.arguments ++ argument ∷ [];
}

-- The first loop of `_Build`.
unfoldable pub build_length : List Argument → ℕ
build_length [] = 0
build_length (argument ∷ rest) =
    32 + (if argument.dynamic then length argument.value else 0) + build_length rest

-- A round of the second loop, which gives the buffer and the next offset.
unfoldable pub write_argument : ℕ → ℕ → Argument → ℕ → Bytes → Outcome (Bytes × ℕ)
unfolding copy_range
write_argument function_offset j argument offset result =
    if argument.dynamic
    then (do
      result ←
          copy_range result (j * 32 + function_offset + 24) ((j + 1) * 32 + function_offset)
            (big_endian 8 offset)
      result ← copy_range result (offset + function_offset) (length result) argument.value
      ok (result, offset + length argument.value))
    else (do
      result ←
          copy_range result (j * 32 + function_offset) ((j + 1) * 32 + function_offset)
            argument.value
      ok (result, offset))

unfoldable pub write_arguments : ℕ → ℕ → List Argument → ℕ → Bytes → Outcome Bytes
unfolding write_argument
write_arguments function_offset j [] offset result = ok result
write_arguments function_offset j (argument ∷ rest) offset result =
    let next = write_arguments function_offset (suc j) rest in
    write_argument function_offset j argument offset result >>= λ r. next r.1 r.0

-- `_Build`: the bytes, and the parameters, whose selector keeps the name.
unfoldable pub build :
    (Bytes → Bytes)
    → Option Bytes
    → ContractFunctionParameters
    → Outcome (Bytes × ContractFunctionParameters)
unfolding build_length write_arguments zeros
build keccak256 none contract = do
  result ←
      write_arguments 0 0 contract.arguments (length contract.arguments * 32)
        (zeros (build_length contract.arguments))
  ok (result, contract)
build keccak256 (some name) contract = do
  (hash, function) ← Selector.build keccak256 (some name) contract.function
  result ← copy_range (zeros (build_length contract.arguments + 4)) 0 4 hash
  result ← write_arguments 4 0 contract.arguments (length contract.arguments * 32) result
  ok (result, record contract { function = function })
