-- ===== src/ContractFunction/Result/RoundTrip.antt =====
-- The values of the arguments are read back from the bytes of `_Build`, which have the form of the
-- result of a call.
use hedera_sdk_go.Prelude.{
  ℕ, ◌+◌, ◌-◌, ◌*◌, ◌%◌, ◌^◌, ◌≤◌, ◌<◌, ◌≡◌, refl, ap, ◌∙◌, List, ◌∷◌, ◌++◌, true, length, take,
  arith, length-append, append_assoc, append-nil,
}
use hedera_sdk_go.Prelude.Outcome.{ok}
use hedera_sdk_go.Prelude.Text.{Bytes}
use hedera_sdk_go.ContractFunction.Buffers.{
  zeros, big_endian, word_of, slice-append, length-zeros, length-big_endian, take_all,
}
use hedera_sdk_go.ContractFunction.Buffers.Words.{big_endian_value-big_endian}
use hedera_sdk_go.ContractFunction.Parameters.{Argument, build_length}
use hedera_sdk_go.ContractFunction.Parameters.Layout.{encoding, head, tail, head-dynamic}
use hedera_sdk_go.ContractFunction.Parameters.Places.{
  offset_at, encoding_word, encoding_value, length-encoding,
}
use hedera_sdk_go.ContractFunction.Result.{ContractFunctionResult, result_slice, get_part, get_word}
use hedera_sdk_go.ContractFunction.Result.Texts.{get_bytes}
use hedera_sdk_go.ContractFunction.Result.Unsigned.{get_uint64}

pub word_of-eq : (value : Bytes) → length value ≡ 32 → word_of value ≡ value
unfolding zeros
word_of-eq value full =
    let e : take 32 value ≡ value = take_all 32 value (omega (arith, full)) in
    let z : 32 - length value ≡ 0 = omega arith in rw (e, z) (append-nil value)

module _ (spare : Bytes) (front : List Argument) (a : Argument) (rest : List Argument) where
  abbrev pub result_of : ContractFunctionResult
  result_of = record { contract_call_result = encoding (front ++ a ∷ rest); spare = spare }

  -- The end of the word of an argument.
  pub get_part-encoding :
      (zs part : Bytes) (k : ℕ)
      → build_length (front ++ a ∷ rest) < 2 ^ 64
      → head (offset_at front a rest) a ≡ zs ++ part
      → length zs ≡ k
      → length zs + length part ≡ 32
      → get_part k result_of (length front) ≡ ok part
  unfolding get_part result_slice
  get_part-encoding zs part k small word at full =
      let (before, behind, same, start) = encoding_word front a rest in
      let apart : encoding (front ++ a ∷ rest) ≡ (before ++ zs) ++ (part ++ behind) =
        same ∙ rw word (simp append_assoc) in
      let sizes : length (before ++ zs) ≡ length front * 32 + k =
        omega (arith, length-append {0} before zs, start, at) in
      let fits : length front * 32 + 32 < 2 ^ 64 = omega (
        arith,
        ap length apart,
        length-encoding (front ++ a ∷ rest),
        length-append {0} (before ++ zs) (part ++ behind),
        length-append {0} part behind,
      ) in
      rw apart (
        slice-append (before ++ zs) part behind spare ((length front * 32 + k) % 2 ^ 64)
          ((length front + 1) * 32 % 2 ^ 64) (omega arith) (omega arith))

  -- A number in the last bytes of the word.
  pub get_word-encoding :
      (w n : ℕ)
      → build_length (front ++ a ∷ rest) < 2 ^ 64
      → head (offset_at front a rest) a ≡ zeros (32 - w) ++ big_endian w n
      → w ≤ 32
      → n < 256 ^ w
      → get_word (32 - w) result_of (length front) ≡ ok n
  unfolding get_word
  get_word-encoding w n small word narrow fits =
      let part =
        get_part-encoding (zeros (32 - w)) (big_endian w n) (32 - w) small word
          (length-zeros (32 - w)) (omega (arith, length-zeros (32 - w), length-big_endian w n)) in
      rw (part, big_endian_value-big_endian w n fits) refl

  pub get_uint64-encoding :
      (n : ℕ)
      → build_length (front ++ a ∷ rest) < 2 ^ 64
      → head (offset_at front a rest) a ≡ zeros 24 ++ big_endian 8 n
      → n < 2 ^ 64
      → get_uint64 result_of (length front) ≡ ok n
  unfolding get_uint64
  get_uint64-encoding n small word fits =
      get_word-encoding 8 n small word (omega arith) (omega arith)

  -- A part of the argument's value.
  result_slice-encoding :
      (xs part ys : Bytes) (from to : ℕ)
      → build_length (front ++ a ∷ rest) < 2 ^ 64
      → tail a ≡ xs ++ (part ++ ys)
      → from ≡ offset_at front a rest + length xs
      → to ≡ from + length part
      → result_slice result_of from to ≡ ok part
  unfolding result_slice
  result_slice-encoding xs part ys from to small value at end =
      let (before, behind, same, start) = encoding_value front a rest in
      let apart : encoding (front ++ a ∷ rest) ≡ (before ++ xs) ++ (part ++ (ys ++ behind)) =
        same ∙ rw value (simp append_assoc) in
      let sizes : length (before ++ xs) ≡ from =
        omega (arith, length-append {0} before xs, start, at) in
      let fits : to < 2 ^ 64 = omega (
        arith,
        ap length apart,
        length-encoding (front ++ a ∷ rest),
        length-append {0} (before ++ xs) (part ++ (ys ++ behind)),
        length-append {0} part (ys ++ behind),
      ) in
      rw apart (
        slice-append (before ++ xs) part (ys ++ behind) spare (from % 2 ^ 64) (to % 2 ^ 64)
          (omega arith) (omega arith))

  -- The value of a dynamic argument with its length in front.
  pub get_bytes-encoding :
      (value filler : Bytes)
      → build_length (front ++ a ∷ rest) < 2 ^ 64
      → a.dynamic ≡ true
      → tail a ≡ (zeros 24 ++ big_endian 8 (length value)) ++ (value ++ filler)
      → get_bytes result_of (length front) ≡ ok value
  unfolding get_bytes
  get_bytes-encoding value filler small dynamic laid =
      let o = offset_at front a rest in
      let w = big_endian 8 (length value) in
      let counted : length (zeros 24 ++ w) ≡ 32 = omega (
        arith,
        length-append {0} (zeros 24) w,
        length-zeros 24,
        length-big_endian 8 (length value),
      ) in
      let (before, behind, same, start) = encoding_value front a rest in
      let total : length (encoding (front ++ a ∷ rest))
          ≡ o + (32 + (length value + length filler)) + length behind =
        omega (
          arith,
          ap length same,
          ap length laid,
          length-append {0} before (tail a ++ behind),
          length-append {0} (tail a) behind,
          length-append {0} (zeros 24 ++ w) (value ++ filler),
          length-append {0} value filler,
        ) in
      let size = length-encoding (front ++ a ∷ rest) in
      let offset = get_uint64-encoding o small (head-dynamic o a dynamic) (omega (arith, size)) in
      let count =
        result_slice-encoding (zeros 24) w (value ++ filler) (o + 24) (o + 32) small
          (laid ∙ simp append_assoc) (omega (arith, length-zeros 24))
          (omega (arith, length-big_endian 8 (length value))) in
      let bytes =
        result_slice-encoding (zeros 24 ++ w) value filler (o + 32) (o + 32 + length value) small
          laid (omega arith) refl in
      rw (offset, count, big_endian_value-big_endian 8 (length value) (omega (arith, size)), bytes)
        refl
