-- ===== src/ContractFunction/Selector.antt =====
-- The selector of a contract function: contract_function_selector.go.
pub mod Types
pub mod Methods
pub mod Arrays
pub mod Signature
use hedera_sdk_go.Prelude.{
  List, [], ◌∷◌, ◌++◌, Option, none, some, Bool, length, ltb, if◌then◌else◌,
}
use hedera_sdk_go.Prelude.Outcome.{Outcome, panic, ◌>>=◌, ok, function_name_missing}
use hedera_sdk_go.Prelude.Text.{Bytes}
use hedera_sdk_go.ContractFunction.Buffers.{slice}
use hedera_sdk_go.ContractFunction.Selector.Types.{ArgumentType, text}

pub record Solidity : Type 0 where
  pub ty : ArgumentType
  pub array : Bool

pub record ContractFunctionSelector : Type 0 where
  pub function : Option Bytes
  pub params : Bytes
  pub param_types : List Solidity

unfoldable pub new_contract_function_selector : Bytes → ContractFunctionSelector
new_contract_function_selector [] = record { function = none; params = []; param_types = [] }
new_contract_function_selector (c ∷ name) = record {
  function = some (c ∷ name);
  params = [];
  param_types = [];
}

-- The type with its brackets.
unfoldable pub solidity_text : Solidity → Bytes
unfolding text
solidity_text ty = text ty.ty ++ (if ty.array then b'[' ∷ b']' ∷ [] else [])

unfoldable pub add_param : Solidity → ContractFunctionSelector → ContractFunctionSelector
unfolding solidity_text
add_param ty selector = record selector {
  params =
      (selector.params ++ (if ltb 0 (length selector.param_types) then b',' ∷ [] else []))
      ++ solidity_text ty;
  param_types = selector.param_types ++ ty ∷ [];
}

unfoldable pub to_string : ContractFunctionSelector → Bytes
to_string selector =
    let function : Bytes = elim selector.function [ none ↦ [] | some name ↦ name ] in
    function ++ (b'(' ∷ (selector.params ++ b')' ∷ []))

-- The name that the selector keeps: a given one replaces its own, and one of them must be there.
unfoldable pub with_function :
    Option Bytes → ContractFunctionSelector → Outcome ContractFunctionSelector
with_function (some name) selector = ok (record selector { function = some name })
with_function none selector = elim selector.function [
  | none ↦ panic function_name_missing
  | some _ ↦ ok selector
]

-- The first four bytes of the hash, and the selector with its new name. `keccak256` is `Sum(nil)`
-- of the hash of golang.org/x/crypto/sha3.
unfoldable pub build :
    (Bytes → Bytes)
    → Option Bytes
    → ContractFunctionSelector
    → Outcome (Bytes × ContractFunctionSelector)
unfolding with_function to_string slice
build keccak256 function selector = do
  selector ← with_function function selector
  hash ← slice (keccak256 (to_string selector)) [] 0 4
  ok (hash, selector)
