-- ===== src/ContractFunction/Result/ReadBack.antt =====
-- A value that a call is given is read back from the bytes of its arguments.
use hedera_sdk_go.Prelude.{
  ℕ, ◌+◌, ◌-◌, ◌*◌, ◌%◌, ◌^◌, ◌≤◌, ◌<◌, ◌≡◌, refl, sym, ap, ◌∙◌, List, [], ◌∷◌, ◌++◌, none, true,
  false, length, arith, length-append, append_assoc,
}
use mathlib.Core.Path.{subst}
use hedera_sdk_go.Prelude.Int.{ℤ, pos, negsuc, to_uint64, to_int64, IsInt64, to_int64-to_uint64}
use hedera_sdk_go.Prelude.Outcome.{Outcome, ok, ◌>>=◌}
use hedera_sdk_go.Prelude.Text.{Bytes}
use hedera_sdk_go.ContractFunction.Buffers.{zeros, big_endian, word_of}
use hedera_sdk_go.ContractFunction.Parameters.{
  Argument, ContractFunctionParameters, word_argument, build, build_length,
}
use hedera_sdk_go.ContractFunction.Parameters.Layout.{
  encoding, head-static, head-dynamic, tail-dynamic,
}
use hedera_sdk_go.ContractFunction.Parameters.Encoding.{build-none}
use hedera_sdk_go.ContractFunction.Parameters.Places.{offset_at, encoding_value, length-encoding}
use hedera_sdk_go.ContractFunction.Parameters.Signed.{add_int64}
use hedera_sdk_go.ContractFunction.Parameters.Texts.{add_bytes, bytes_argument}
use hedera_sdk_go.ContractFunction.Result.{ContractFunctionResult}
use hedera_sdk_go.ContractFunction.Result.RoundTrip.{
  get_uint64-encoding, get_bytes-encoding, result_of,
}
use hedera_sdk_go.ContractFunction.Result.Signed.{get_int64}
use hedera_sdk_go.ContractFunction.Result.Unsigned.{get_uint64}
use hedera_sdk_go.ContractFunction.Result.Texts.{get_bytes}

-- Reading the bytes of `_Build` is reading the encoding of the arguments.
read_built {ℓ} :
    {A : Type ℓ} (keccak256 : Bytes → Bytes) (contract : ContractFunctionParameters)
    (arguments : List Argument) (read : ContractFunctionResult → Outcome A) (spare : Bytes)
    → contract.arguments ≡ arguments
    → (build keccak256 none contract >>= λ r.
        read (record { contract_call_result = r.0; spare = spare }))
      ≡ read (record { contract_call_result = encoding arguments; spare = spare })
read_built keccak256 contract arguments read spare same =
    rw (build-none keccak256 contract)
      (ap (λ xs. read (record { contract_call_result = encoding xs; spare = spare })) same)

word_of_number : (n : ℕ) → word_of (word_argument 24 8 n).value ≡ zeros 24 ++ big_endian 8 n
unfolding word_argument
word_of_number n = refl

add_int64_arguments :
    (value : ℤ) (before : ContractFunctionParameters)
    → (add_int64 value before).arguments
      ≡ before.arguments ++ word_argument 24 8 (to_uint64 value) ∷ []
unfolding add_int64
add_int64_arguments value before = refl

add_bytes_arguments :
    (value : Bytes) (before : ContractFunctionParameters)
    → (add_bytes value before).arguments ≡ before.arguments ++ bytes_argument value ∷ []
unfolding add_bytes
add_bytes_arguments value before = refl

get_int64_of :
    (r : ContractFunctionResult) (i : ℕ) → get_int64 r i ≡ (get_uint64 r i >>= λ n. ok (to_int64 n))
unfolding get_int64 get_uint64
get_int64_of r i = refl

word_static : (n : ℕ) → (word_argument 24 8 n).dynamic ≡ false
unfolding word_argument
word_static n = refl

to_uint64-lt : (value : ℤ) → to_uint64 value < 2 ^ 64
to_uint64-lt (pos n) = omega arith
to_uint64-lt (negsuc n) = omega arith

bytes_dynamic : (value : Bytes) → (bytes_argument value).dynamic ≡ true
unfolding bytes_argument
bytes_dynamic value = refl

bytes_parts :
    (value : Bytes)
    → (bytes_argument value).value
      ≡ (zeros 24 ++ big_endian 8 (length value)) ++ (value ++ zeros (32 - length value % 32))
unfolding bytes_argument
bytes_parts value = refl

-- An int64 that is added is read back by `GetInt64` at its index, whatever arguments stand in front
-- of it and behind it, where the encoding is shorter than 2^64 bytes.
pub get_int64-build :
    (keccak256 : Bytes → Bytes) (before contract : ContractFunctionParameters)
    (rest : List Argument) (value : ℤ) (spare : Bytes)
    → IsInt64 value
    → contract.arguments ≡ (add_int64 value before).arguments ++ rest
    → build_length contract.arguments < 2 ^ 64
    → (build keccak256 none contract >>= λ r.
        get_int64 (record { contract_call_result = r.0; spare = spare }) (length before.arguments))
      ≡ ok value
get_int64-build keccak256 before contract rest value spare range same small =
    let n = to_uint64 value in
    let a = word_argument 24 8 n in
    let front = before.arguments in
    let i = length front in
    let parts : contract.arguments ≡ front ++ a ∷ rest =
      same ∙ rw (add_int64_arguments value before) (append_assoc front (a ∷ []) rest) in
    let word = head-static (offset_at front a rest) a (word_static n) ∙ word_of_number n in
    let number =
      get_uint64-encoding spare front a rest n (subst (λ xs. build_length xs < 2 ^ 64) parts small)
        word (to_uint64-lt value) in
    read_built keccak256 contract (front ++ a ∷ rest) (λ r. get_int64 r i) spare parts
    ∙ get_int64_of (result_of spare front a rest) i
    ∙ rw number (ap ok (to_int64-to_uint64 value range))

-- Bytes that are added are read back by `GetBytes` at their index, whatever arguments stand in front
-- of them and behind them, where the encoding is shorter than 2^64 bytes.
pub get_bytes-build :
    (keccak256 : Bytes → Bytes) (before contract : ContractFunctionParameters)
    (rest : List Argument) (value : Bytes) (spare : Bytes)
    → contract.arguments ≡ (add_bytes value before).arguments ++ rest
    → build_length contract.arguments < 2 ^ 64
    → (build keccak256 none contract >>= λ r.
        get_bytes (record { contract_call_result = r.0; spare = spare }) (length before.arguments))
      ≡ ok value
get_bytes-build keccak256 before contract rest value spare same small =
    let a = bytes_argument value in
    let front = before.arguments in
    let parts : contract.arguments ≡ front ++ a ∷ rest =
      same ∙ rw (add_bytes_arguments value before) (append_assoc front (a ∷ []) rest) in
    read_built keccak256 contract (front ++ a ∷ rest) (λ r. get_bytes r (length front)) spare parts
    ∙ get_bytes-encoding spare front a rest value (zeros (32 - length value % 32))
        (subst (λ xs. build_length xs < 2 ^ 64) parts small) (bytes_dynamic value)
        (tail-dynamic a (bytes_dynamic value) ∙ bytes_parts value)

-- The bytes of `_Build` hold the value of each dynamic argument, behind the words of all arguments and
-- inside the room that was made; the word of the argument holds the offset of its value.
pub build_bounds :
    (keccak256 : Bytes → Bytes) (contract : ContractFunctionParameters) (front : List Argument)
    (a : Argument) (rest : List Argument) (spare : Bytes)
    → contract.arguments ≡ front ++ a ∷ rest
    → a.dynamic ≡ true
    → build_length contract.arguments < 2 ^ 64
    → (before : Bytes) × (behind : Bytes) × (build keccak256 none contract
        ≡ ok (before ++ (a.value ++ behind), contract))
      × (get_uint64
            (record { contract_call_result = before ++ (a.value ++ behind); spare = spare })
            (length front)
          ≡ ok (length before))
      × (length contract.arguments * 32 ≤ length before)
      × (length before + length a.value + length behind ≡ build_length contract.arguments)
build_bounds keccak256 contract front a rest spare same dynamic small =
    let xs = front ++ a ∷ rest in
    let (before, behind, value, start) = encoding_value front a rest in
    let laid : encoding xs ≡ before ++ (a.value ++ behind) =
      value ∙ ap (λ t. before ++ (t ++ behind)) (tail-dynamic a dynamic) in
    let fits : build_length xs < 2 ^ 64 = subst (λ l. build_length l < 2 ^ 64) same small in
    let room : length before + length a.value + length behind ≡ build_length xs = omega (
      arith,
      ap length laid,
      length-encoding xs,
      length-append {0} before (a.value ++ behind),
      length-append {0} a.value behind,
    ) in
    let word =
      get_uint64-encoding spare front a rest (offset_at front a rest) fits
        (head-dynamic (offset_at front a rest) a dynamic) (omega arith) in
    (
      before,
      behind,
      build-none keccak256 contract ∙ ap (λ bs. ok (bs, contract)) (ap encoding same ∙ laid),
      ap (λ bs. get_uint64 (record { contract_call_result = bs; spare = spare }) (length front))
            (sym laid)
          ∙ word
          ∙ ap ok (sym start),
      omega (arith, ap length same),
      room ∙ ap build_length (sym same),
    )
