-- ===== src/ContractFunction/Parameters/Encoding.antt =====
-- `_Build` gives the ABI encoding of the arguments, behind the selector of the function, and each
-- value stands where its word says.
use hedera_sdk_go.Prelude.{
  ℕ, ◌+◌, ◌*◌, ◌≡◌, refl, sym, ap, ◌∙◌, List, [], ◌++◌, none, some, length, take, drop, arith,
  take-append-drop,
}
use hedera_sdk_go.Prelude.Outcome.{ok}
use hedera_sdk_go.Prelude.Text.{Bytes}
use hedera_sdk_go.ContractFunction.Buffers.{
  zeros, zeros_add, slice, slice-append, copy_range-append, length-zeros, length-take_eq,
}
use hedera_sdk_go.ContractFunction.Selector as Selector
use hedera_sdk_go.ContractFunction.Selector.{to_string}
use hedera_sdk_go.ContractFunction.Parameters.{
  Argument, ContractFunctionParameters, write_arguments, build_length, build,
}
use hedera_sdk_go.ContractFunction.Parameters.Layout.{tails, encoding, build_length-eq}
use hedera_sdk_go.ContractFunction.Parameters.Layout.Rounds.{write_arguments-layout}

-- The second loop of `_Build` over a buffer of zeros behind `before`.
write_arguments-encoding :
    (function_offset : ℕ) (arguments : List Argument) (before : Bytes)
    → length before ≡ function_offset
    → write_arguments function_offset 0 arguments
        (length arguments * 32)
        (before ++ zeros (build_length arguments))
      ≡ ok (before ++ encoding arguments)
unfolding encoding
write_arguments-encoding function_offset arguments before same =
    let n = length arguments * 32 in
    let parts : zeros (build_length arguments) ≡ zeros n ++ zeros (length (tails arguments)) =
      ap zeros (build_length-eq arguments) ∙ zeros_add n (length (tails arguments)) in
    rw parts
      (write_arguments-layout function_offset 0 n arguments before [] (omega arith) (omega arith))

-- Without a name, `_Build` gives the encoding of the arguments.
pub build-none :
    (keccak256 : Bytes → Bytes) (contract : ContractFunctionParameters)
    → build keccak256 none contract ≡ ok (encoding contract.arguments, contract)
unfolding build zeros
build-none keccak256 contract = rw (write_arguments-encoding 0 contract.arguments [] refl) refl

-- With a name, `_Build` gives the first four bytes of the hash of the selector's text and the
-- encoding behind them; the selector keeps the name.
pub build-some :
    (keccak256 : Bytes → Bytes) (name : Bytes) (contract : ContractFunctionParameters)
    → ((s : Bytes) → length (keccak256 s) ≡ 32)
    → build keccak256 (some name) contract
      ≡ ok (
        take 4 (keccak256 (to_string (record contract.function { function = some name })))
            ++ encoding contract.arguments,
        record contract { function = record contract.function { function = some name } },
      )
unfolding build Selector.build
build-some keccak256 name contract size =
    let named = record contract.function { function = some name } in
    let hash = keccak256 (to_string named) in
    let four : length (take 4 hash) ≡ 4 =
      length-take_eq 4 hash (omega (arith, size (to_string named))) in
    let start : slice hash [] 0 4 ≡ ok (take 4 hash) =
      ap (λ h. slice h [] 0 4) (sym (take-append-drop 4 hash))
      ∙ slice-append [] (take 4 hash) (drop 4 hash) [] 0 4 refl (omega (arith, four)) in
    let room : zeros (build_length contract.arguments + 4)
        ≡ zeros 4 ++ zeros (build_length contract.arguments) =
      ap zeros (omega arith) ∙ zeros_add 4 (build_length contract.arguments) in
    let copied =
      copy_range-append [] (zeros 4) (zeros (build_length contract.arguments)) (take 4 hash) 0 4
        refl (omega arith) (omega arith) (length-zeros 4 ∙ sym four) in
    rw (start, room, copied, write_arguments-encoding 4 contract.arguments (take 4 hash) four) refl
