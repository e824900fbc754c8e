-- ===== src/ContractFunction/Selector/Signature.antt =====
-- The text of a selector is the function's name with the texts of its types, joined by commas.
use hedera_sdk_go.Prelude.{
  suc, ◌≡◌, refl, sym, ◌∙◌, List, [], ◌∷◌, ◌++◌, map, append_assoc, append-nil, length, ltb,
  if◌then◌else◌, true, arith,
}
use mathlib.Core.List.{map-append}
use hedera_sdk_go.Prelude.Text.{Bytes}
use hedera_sdk_go.ContractFunction.Selector.{
  Solidity, ContractFunctionSelector, new_contract_function_selector, solidity_text, add_param,
  to_string,
}

-- `strings.Join(texts, ",")`, by recursion.
unfoldable pub join : List Bytes → Bytes
join [] = []
join (s ∷ []) = s
join (s ∷ t ∷ ts) = s ++ (b',' ∷ join (t ∷ ts))

join-append :
    (s : Bytes) (ss : List Bytes) (t : Bytes)
    → join ((s ∷ ss) ++ t ∷ []) ≡ join (s ∷ ss) ++ (b',' ∷ t)
unfolding join
join-append s [] t = refl
join-append s (u ∷ ss) t =
    rw (join-append u ss t) (sym (append_assoc s (b',' ∷ join (u ∷ ss)) (b',' ∷ t)))

-- The selector after types are added one by one.
abbrev pub add_params : List Solidity → ContractFunctionSelector → ContractFunctionSelector
add_params [] selector = selector
add_params (ty ∷ tys) selector = add_params tys (add_param ty selector)

-- The text of the parameters joins the types.
abbrev pub IsJoined : ContractFunctionSelector → Type 0
IsJoined selector = selector.params ≡ join (map solidity_text selector.param_types)

pub joined_with :
    (params : Bytes) (tys : List Solidity) (ty : Solidity)
    → params ≡ join (map solidity_text tys)
    → (params ++ (if ltb 0 (length tys) then b',' ∷ [] else [])) ++ solidity_text ty
      ≡ join (map solidity_text (tys ++ ty ∷ []))
unfolding join
joined_with params [] ty h = rw h refl
joined_with params (u ∷ tys) ty h =
    let comma : ltb 0 (suc (length tys)) ≡ true = ground arith in
    rw (comma, h, map-append solidity_text tys (ty ∷ []))
      (append_assoc (join (map solidity_text (u ∷ tys))) (b',' ∷ []) (solidity_text ty)
        ∙ sym (join-append (solidity_text u) (map solidity_text tys) (solidity_text ty)))

add_param-IsJoined :
    (ty : Solidity) (selector : ContractFunctionSelector)
    → IsJoined selector
    → IsJoined (add_param ty selector)
unfolding add_param
add_param-IsJoined ty selector h = joined_with selector.params selector.param_types ty h

-- What the types that are added leave and what they change.
add_params_fields :
    (tys : List Solidity) (selector : ContractFunctionSelector)
    → IsJoined selector
    → IsJoined (add_params tys selector)
      × ((add_params tys selector).param_types ≡ selector.param_types ++ tys)
      × ((add_params tys selector).function ≡ selector.function)
unfolding add_param
add_params_fields [] selector h = (h, sym (append-nil selector.param_types), refl)
add_params_fields (ty ∷ tys) selector h =
    let rest = add_params_fields tys (add_param ty selector) (add_param-IsJoined ty selector h) in
    (rest.0, rest.1 ∙ append_assoc selector.param_types (ty ∷ []) tys, rest.2)

-- The signature that Solidity hashes: the name, and the types in parentheses.
abbrev pub signature : Bytes → List Solidity → Bytes
signature name tys = name ++ (b'(' ∷ (join (map solidity_text tys) ++ b')' ∷ []))

-- A selector that types are added to has the text of its signature, with or without a name.
pub to_string-add_params :
    (name : Bytes) (tys : List Solidity)
    → to_string (add_params tys (new_contract_function_selector name)) ≡ signature name tys
unfolding to_string new_contract_function_selector join
to_string-add_params [] tys =
    let (params, types, function) =
      add_params_fields tys (new_contract_function_selector []) refl in
    rw (function, params, types) refl
to_string-add_params (c ∷ name) tys =
    let (params, types, function) =
      add_params_fields tys (new_contract_function_selector (c ∷ name)) refl in
    rw (function, params, types) refl
