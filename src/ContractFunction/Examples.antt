-- ===== src/ContractFunction/Examples.antt =====
-- Contract calls at concrete values.
use hedera_sdk_go.Prelude.{
  ◌+◌, ◌*◌, ◌^◌, ◌≤◌, ◌<◌, ◌≡◌, ◌≢◌, refl, List, [], ◌∷◌, ◌++◌, none, some, true, false, length,
  take, arith, map, length-append,
}
use hedera_sdk_go.Prelude.Int.{pos, negsuc}
use hedera_sdk_go.Prelude.Outcome.{ok, panic, out_of_range, ◌>>=◌}
use hedera_sdk_go.Prelude.Text.{Bytes, codes}
use hedera_sdk_go.Strconv.{hex_decode}
use hedera_sdk_go.ContractFunction.Buffers.{zeros, length-zeros, length-take_eq}
use hedera_sdk_go.ContractFunction.Selector.{
  Solidity, new_contract_function_selector, to_string, solidity_text,
}
use hedera_sdk_go.ContractFunction.Selector as Selector
use hedera_sdk_go.ContractFunction.Selector.Methods
use hedera_sdk_go.ContractFunction.Selector.Types.{uint256, address, text}
use hedera_sdk_go.ContractFunction.Selector.Signature.{
  add_params, signature, join, IsJoined, to_string-add_params,
}
use hedera_sdk_go.ContractFunction.Parameters.{
  ContractFunctionParameters, new_contract_function_parameters, build, build_length,
}
use hedera_sdk_go.ContractFunction.Parameters.Layout.{encoding, offset_word}
use hedera_sdk_go.ContractFunction.Parameters.Encoding.{build-some}
use hedera_sdk_go.ContractFunction.Parameters.Signed
use hedera_sdk_go.ContractFunction.Parameters.Unsigned
use hedera_sdk_go.ContractFunction.Parameters.Faults.{Names, unsigned_as_signed}
use hedera_sdk_go.ContractFunction.Parameters.ShortArrays.{short_arrays_panic}
use hedera_sdk_go.ContractFunction.Parameters.Addresses.{
  build_with, wrong_length_unreported, add_function_any_selector,
}
use hedera_sdk_go.ContractFunction.Parameters.Texts.{
  add_bool, add_bytes, add_address, add_function, bytes_argument,
}
use hedera_sdk_go.ContractFunction.Parameters.Arrays.{add_int32_array, add_address_array}
use hedera_sdk_go.ContractFunction.Parameters.Arrays.Nested.{add_bytes32_array, bytes_array}
use hedera_sdk_go.ContractFunction.Parameters.Arrays.NestedLayout.{
  item_argument, item_layout, bytes_array-encoding,
}
use hedera_sdk_go.ContractFunction.Result.Signed.{get_int64}
use hedera_sdk_go.ContractFunction.Result.Unsigned.{get_uint64}
use hedera_sdk_go.ContractFunction.Result.Texts.{get_bytes}
use hedera_sdk_go.ContractFunction.Result.ReadBack.{get_int64-build, get_bytes-build, build_bounds}

-- A stand-in for the hash: the first bytes of the text.
abbrev first_bytes : Bytes → Bytes
first_bytes s = take 32 (s ++ zeros 32)

length-first_bytes : (s : Bytes) → length (first_bytes s) ≡ 32
length-first_bytes s =
    length-take_eq 32 (s ++ zeros 32)
      (omega (arith, length-append {0} s (zeros 32), length-zeros 32))

abbrev start : ContractFunctionParameters
start = new_contract_function_parameters

abbrev flagged : ContractFunctionParameters
flagged = add_bool true start

abbrev numbered : ContractFunctionParameters
numbered = Signed.add_int64 (negsuc 4) flagged

abbrev call : ContractFunctionParameters
call = add_bytes (codes "hi") numbered

abbrev transfer_types : List Solidity
transfer_types = record { ty = address; array = false } ∷ record { ty = uint256; array = true } ∷ []

transfer_signature :
    signature (codes "transfer") transfer_types ≡ codes "transfer(address,uint256[])"
unfolding join solidity_text text
transfer_signature = refl

to_string-add_params_example :
    to_string (add_params transfer_types (new_contract_function_selector (codes "transfer")))
    ≡ signature (codes "transfer") transfer_types
to_string-add_params_example = to_string-add_params (codes "transfer") transfer_types

build-some_example :
    build first_bytes (some (codes "set")) call
    ≡ ok (
      take 4 (first_bytes (to_string (record call.function { function = some (codes "set") })))
          ++ encoding call.arguments,
      record call { function = record call.function { function = some (codes "set") } },
    )
build-some_example = build-some first_bytes (codes "set") call length-first_bytes

call_small : build_length call.arguments < 2 ^ 64
unfolding build_length add_bytes Signed.add_int64 add_bool new_contract_function_parameters
call_small = omega arith

call_number :
    call.arguments
    ≡ (Signed.add_int64 (negsuc 4) flagged).arguments ++ bytes_argument (codes "hi") ∷ []
unfolding add_bytes
call_number = refl

call_bytes : call.arguments ≡ (add_bytes (codes "hi") numbered).arguments ++ []
unfolding add_bytes Signed.add_int64 add_bool new_contract_function_parameters
call_bytes = refl

call_parts : call.arguments ≡ numbered.arguments ++ bytes_argument (codes "hi") ∷ []
unfolding add_bytes
call_parts = refl

call_dynamic : (bytes_argument (codes "hi")).dynamic ≡ true
unfolding bytes_argument
call_dynamic = refl

get_int64-build_example :
    (build first_bytes none call >>= λ r.
    get_int64 (record { contract_call_result = r.0; spare = [] }) (length flagged.arguments))
    ≡ ok (negsuc 4)
get_int64-build_example =
    get_int64-build first_bytes flagged call (bytes_argument (codes "hi") ∷ []) (negsuc 4) []
      (omega arith) call_number call_small

get_bytes-build_example :
    (build first_bytes none call >>= λ r.
    get_bytes (record { contract_call_result = r.0; spare = 7 ∷ [] }) (length numbered.arguments))
    ≡ ok (codes "hi")
get_bytes-build_example =
    get_bytes-build first_bytes numbered call [] (codes "hi") (7 ∷ []) call_bytes call_small

build_bounds_example :
    (before : Bytes) × (behind : Bytes) × (build first_bytes none call
      ≡ ok (before ++ ((bytes_argument (codes "hi")).value ++ behind), call))
    × (get_uint64
          (record {
            contract_call_result = before ++ ((bytes_argument (codes "hi")).value ++ behind);
            spare = [];
          })
          (length numbered.arguments)
        ≡ ok (length before))
    × (length call.arguments * 32 ≤ length before)
    × (length before + length (bytes_argument (codes "hi")).value + length behind
        ≡ build_length call.arguments)
build_bounds_example =
    build_bounds first_bytes call numbered.arguments (bytes_argument (codes "hi")) [] [] call_parts
      call_dynamic call_small

call_IsJoined : IsJoined call.function
unfolding add_bytes Signed.add_int64 add_bool new_contract_function_parameters join solidity_text
    text Methods.add_bytes Methods.add_int64 Methods.add_bool new_contract_function_selector
call_IsJoined = refl

unsigned_as_signed_example :
    Names (codes "int16") call (Unsigned.add_uint16 5 call)
    × Names (codes "int24") call (Unsigned.add_uint24 5 call)
    × Names (codes "int40") call (Unsigned.add_uint40 5 call)
    × Names (codes "int48") call (Unsigned.add_uint48 5 call)
    × Names (codes "int56") call (Unsigned.add_uint56 5 call)
    × Names (codes "uint8") call (Unsigned.add_uint8 5 call)
    × Names (codes "uint32") call (Unsigned.add_uint32 5 call)
    × Names (codes "uint64") call (Unsigned.add_uint64 5 call)
unsigned_as_signed_example = unsigned_as_signed 5 call call_IsJoined

short_arrays_panic_example :
    (add_int32_array (pos 4 ∷ []) start ≡ panic out_of_range)
    × (add_bytes32_array (zeros 32 ∷ zeros 32 ∷ []) start ≡ panic out_of_range)
short_arrays_panic_example = short_arrays_panic (pos 4) [] (zeros 32) (zeros 32 ∷ []) start

abbrev short_ne : length (codes "0x12") ≢ 40
short_ne = λ e. omega arith

abbrev digits_of_address : Bytes
digits_of_address = codes "0102030405060708090a0b0c0d0e0f1011121314"

abbrev bytes_of_address : Bytes
bytes_of_address =
    1 ∷ 2 ∷ 3 ∷ 4 ∷ 5 ∷ 6 ∷ 7 ∷ 8 ∷ 9 ∷ 10 ∷ 11 ∷ 12 ∷ 13 ∷ 14 ∷ 15 ∷ 16 ∷ 17 ∷ 18 ∷ 19 ∷ 20 ∷ []

digits_decoded : hex_decode digits_of_address ≡ some bytes_of_address
unfolding hex_decode
digits_decoded = refl

wrong_length_unreported_example :
    (add_address (codes "0x12") start ≡ ok start)
    × (add_function first_bytes (codes "0x12") (new_contract_function_selector (codes "f")) start
        ≡ ok start)
    × (add_address_array ((digits_of_address ∷ []) ++ codes "0x12" ∷ []) start ≡ ok start)
wrong_length_unreported_example =
    wrong_length_unreported first_bytes (codes "0x12") (new_contract_function_selector (codes "f"))
      (digits_of_address ∷ []) [] start short_ne
      ((refl, (bytes_of_address, digits_decoded, refl)), tt)

bytes_array-encoding_example :
    bytes_array (codes "ab" ∷ codes "c" ∷ [])
    ≡ ok (
        offset_word 2
        ++ encoding (map (λ s. item_argument (item_layout s)) (codes "ab" ∷ codes "c" ∷ [])))
bytes_array-encoding_example = bytes_array-encoding (codes "ab" ∷ codes "c" ∷ [])

abbrev with_code : Bytes → ContractFunctionParameters
with_code code = record {
  function = Methods.add_function start.function;
  arguments = record { value = (zeros 12 ++ bytes_of_address) ++ code; dynamic = false } ∷ [];
}

adds_f :
    add_function first_bytes digits_of_address (new_contract_function_selector (codes "f")) start
    ≡ ok (with_code (codes "f()" ++ 0 ∷ []))
unfolding add_function new_contract_function_parameters new_contract_function_selector
    Selector.build
adds_f = refl

adds_g :
    add_function first_bytes digits_of_address (new_contract_function_selector (codes "g")) start
    ≡ ok (with_code (codes "g()" ++ 0 ∷ []))
unfolding add_function new_contract_function_parameters new_contract_function_selector
    Selector.build
adds_g = refl

add_function_any_selector_example :
    build_with first_bytes (some (codes "set")) [] (with_code (codes "f()" ++ 0 ∷ []))
    ≡ build_with first_bytes (some (codes "set")) [] (with_code (codes "g()" ++ 0 ∷ []))
add_function_any_selector_example =
    add_function_any_selector first_bytes (some (codes "set")) digits_of_address
      (new_contract_function_selector (codes "f")) (new_contract_function_selector (codes "g"))
      start (with_code (codes "f()" ++ 0 ∷ [])) (with_code (codes "g()" ++ 0 ∷ [])) []
      length-first_bytes adds_f adds_g
