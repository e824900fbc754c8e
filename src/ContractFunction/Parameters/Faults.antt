-- ===== src/ContractFunction/Parameters/Faults.antt =====
-- Arguments that a call does not send as Solidity's ABI has them: negative integers, unsigned
-- integers of some sizes, functions, and two kinds of arrays.
use hedera_sdk_go.Prelude.{ℕ, ◌≡◌, ap, ◌∙◌, [], ◌∷◌, ◌++◌, map, append-nil, false}
use mathlib.Core.List.{map-append}
use hedera_sdk_go.Prelude.Text.{Bytes, codes}
use hedera_sdk_go.ContractFunction.Selector.{ContractFunctionSelector, add_param, solidity_text}
use hedera_sdk_go.ContractFunction.Selector.Methods
use hedera_sdk_go.ContractFunction.Selector.Types.{
  ArgumentType, text, int16, int24, int40, int48, int56, uint8, uint32, uint64,
}
use hedera_sdk_go.ContractFunction.Selector.Signature.{IsJoined, join, joined_with}
use hedera_sdk_go.ContractFunction.Parameters.{ContractFunctionParameters}
use hedera_sdk_go.ContractFunction.Parameters.Signed
use hedera_sdk_go.ContractFunction.Parameters.Unsigned

-- The text of the parameters is that of the types that the selector had, and a further type.
abbrev pub Names : Bytes → ContractFunctionParameters → ContractFunctionParameters → Type 0
Names ty before after =
    after.function.params ≡ join (map solidity_text before.function.param_types ++ ty ∷ [])

add_param-params :
    (ty : ArgumentType) (selector : ContractFunctionSelector)
    → IsJoined selector
    → (add_param (record { ty = ty; array = false }) selector).params
      ≡ join (map solidity_text selector.param_types ++ text ty ∷ [])
unfolding add_param solidity_text
add_param-params ty selector h =
    joined_with selector.params selector.param_types (record { ty = ty; array = false }) h
    ∙ ap join (
        map-append solidity_text selector.param_types (record { ty = ty; array = false } ∷ [])
        ∙ ap (λ t. map solidity_text selector.param_types ++ t ∷ []) (append-nil (text ty)))

-- The unsigned integers of 16, 24, 40, 48 and 56 bits are registered under the signed types: where
-- the text of the parameters joins the types of a selector, adding one joins int16, int24, int40,
-- int48 or int56 to them, while adding one of 8, 32 or 64 bits joins uint8, uint32 or uint64.
pub unsigned_as_signed :
    (n : ℕ) (c : ContractFunctionParameters)
    → IsJoined c.function
    → Names (codes "int16") c (Unsigned.add_uint16 n c)
      × Names (codes "int24") c (Unsigned.add_uint24 n c)
      × Names (codes "int40") c (Unsigned.add_uint40 n c)
      × Names (codes "int48") c (Unsigned.add_uint48 n c)
      × Names (codes "int56") c (Unsigned.add_uint56 n c)
      × Names (codes "uint8") c (Unsigned.add_uint8 n c)
      × Names (codes "uint32") c (Unsigned.add_uint32 n c)
      × Names (codes "uint64") c (Unsigned.add_uint64 n c)
unfolding Unsigned.add_uint16 Unsigned.add_uint24 Unsigned.add_uint40 Unsigned.add_uint48
    Unsigned.add_uint56 Unsigned.add_uint8 Unsigned.add_uint32 Unsigned.add_uint64 text add_param
    Methods.add_int16 Methods.add_int24 Methods.add_int40 Methods.add_int48 Methods.add_int56
    Methods.Unsigned.add_uint8 Methods.Unsigned.add_uint32 Methods.Unsigned.add_uint64
unsigned_as_signed n c h = (
  add_param-params int16 c.function h,
  add_param-params int24 c.function h,
  add_param-params int40 c.function h,
  add_param-params int48 c.function h,
  add_param-params int56 c.function h,
  add_param-params uint8 c.function h,
  add_param-params uint32 c.function h,
  add_param-params uint64 c.function h,
)
