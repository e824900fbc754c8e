-- ===== src/ContractFunction/Parameters/Addresses.antt =====
-- Addresses of a wrong length, and functions, whose selectors are not sent.
use hedera_sdk_go.Prelude.{
  ℕ, ◌+◌, ◌-◌, ◌*◌, ◌≤◌, ◌≡◌, ◌≢◌, refl, sym, ap, ◌∙◌, suc, List, [], ◌∷◌, ◌++◌, Option, none, some,
  All, drop, length-drop, length, take, leb, ◌==◌, ◌&&◌, false, true, arith, Bool-cases,
  Option-cases, inl, inr, length-append, append_assoc, append-nil,
}
use hedera_sdk_go.Prelude.Outcome.{Outcome, ok, err, bad_hex, panic, out_of_range, ◌>>=◌, >>=-eq_ok}
use hedera_sdk_go.Prelude.Text.{Bytes}
use hedera_sdk_go.Strconv.{hex_decode}
use hedera_sdk_go.ContractFunction.Buffers.{
  zeros, slice, slice-append, copy_to, copy_range, in_range, length-take, big_endian, word_of,
  length-zeros, length-take_eq, take-append,
}
use hedera_sdk_go.ContractFunction.Selector.{ContractFunctionSelector}
use hedera_sdk_go.ContractFunction.Selector as Selector
use hedera_sdk_go.ContractFunction.Selector.Methods
use mathlib.Core.Path.{subst}
use hedera_sdk_go.ContractFunction.Parameters.{
  Argument, ContractFunctionParameters, add, new_argument, build,
}
use hedera_sdk_go.ContractFunction.Parameters.Encoding.{build-none, build-some}
use hedera_sdk_go.ContractFunction.Parameters.Layout.{
  head, tail, heads, tails, encoding, head-static, tail-static, zeros_none,
}
use hedera_sdk_go.ContractFunction.Parameters.Texts.{with_address, add_address, add_function}
use hedera_sdk_go.ContractFunction.Parameters.Arrays.{add_address_array, write_addresses, counted}

test_of_ne : (m n : ℕ) → m ≢ n → (m == n) ≡ false
test_of_ne m n h = ground arith

-- Writing into a range of a buffer keeps its length.
copy_range_fits :
    (buf : Bytes) (from to : ℕ) (bs : Bytes)
    → from ≤ to
    → to ≤ length buf
    → (out : Bytes) × (copy_range buf from to bs ≡ ok out) × (length out ≡ length buf)
unfolding copy_range
copy_range_fits buf from to bs h k =
    let part = take (to - from) bs in
    (
      copy_to buf from part,
      rw (in_range from to (length buf) h k) refl,
      omega (
        arith,
        length-append {0} (take from buf) (part ++ drop (from + length part) buf),
        length-append {0} part (drop (from + length part) buf),
        length-take_eq from buf (omega arith),
        length-take (to - from) bs,
        length-drop (from + length part) buf,
      ),
    )

-- The buffer of an array of addresses has room for the count.
counted_fits :
    (size count : ℕ)
    → 32 ≤ size
    → (out : Bytes) × (counted size count ≡ ok out) × (length out ≡ size)
unfolding counted
counted_fits size count h =
    let (out, copied, same) =
      copy_range_fits (zeros size) 24 32 (big_endian 8 count) (omega arith)
        (omega (arith, length-zeros size)) in
    (out, copied, same ∙ length-zeros size)

-- An address of 40 digits, which are 20 bytes.
abbrev pub IsAddress : Bytes → Type 0
IsAddress v =
    (length v ≡ 40) × ((bytes : Bytes) × (hex_decode v ≡ some bytes) × (length bytes ≡ 20))

-- The loop over addresses returns at the first of a wrong length.
write_addresses-stops :
    (i : ℕ) (front : List Bytes) (address : Bytes) (behind : List Bytes) (buf : Bytes)
    → length address ≢ 40
    → All IsAddress front
    → (i + length front) * 32 + 32 ≤ length buf
    → write_addresses i (front ++ address ∷ behind) buf ≡ ok none
unfolding write_addresses
write_addresses-stops i [] address behind buf wrong good room =
    rw (test_of_ne (length address) 40 wrong) refl
write_addresses-stops i (v ∷ front) address behind buf wrong ((size, (bytes, decoded, full)), good)
      room =
    let whole : slice bytes [] 0 20 ≡ ok bytes =
      ap (λ n. slice bytes [] 0 n) (sym full)
      ∙ ap (λ b. slice b [] 0 (length bytes)) (sym (append-nil bytes))
      ∙ slice-append [] bytes [] [] 0 (length bytes) refl (omega arith) in
    let (out, copied, same) =
      copy_range_fits buf (i * 32 + 32 + 12) (i * 32 + 32 + 32) bytes (omega arith) (omega arith) in
    rw (size, decoded)
      (rw whole (
        rw copied
          (write_addresses-stops (suc i) front address behind out wrong good (omega arith))))

-- An address that has not 40 digits is not added and no error is reported: the arguments are
-- returned as they were, those of an array of addresses too if the addresses in front of the wrong
-- one are right, so that these are not added either.
pub wrong_length_unreported :
    (keccak256 : Bytes → Bytes) (address : Bytes) (selector : ContractFunctionSelector)
    (front behind : List Bytes) (c : ContractFunctionParameters)
    → length address ≢ 40
    → All IsAddress front
    → (add_address address c ≡ ok c)
      × (add_function keccak256 address selector c ≡ ok c)
      × (add_address_array (front ++ address ∷ behind) c ≡ ok c)
unfolding add_address add_function add_address_array with_address
wrong_length_unreported keccak256 address selector front behind c wrong good =
    let e = test_of_ne (length address) 40 wrong in
    let value = front ++ address ∷ behind in
    let n = length value in
    let (out, made, size) = counted_fits (n * 32 + 32) n (omega arith) in
    let stops =
      write_addresses-stops 0 front address behind out wrong good
        (omega (arith, size, length-append {0} front (address ∷ behind))) in
    (rw e refl, rw e refl, rw made (rw stops refl))

-- A static argument can be replaced by one with the same word.
module _ (rest : List Argument) (a b : Argument) (sa : a.dynamic ≡ false) (sb : b.dynamic ≡ false)
    (same : word_of a.value ≡ word_of b.value) where
  heads_same :
      (offset : ℕ) (front : List Argument)
      → heads offset (front ++ a ∷ rest) ≡ heads offset (front ++ b ∷ rest)
  unfolding heads
  heads_same offset [] =
      rw
        (head-static offset a sa, head-static offset b sb, tail-static a sa, tail-static b sb, same)
        refl
  heads_same offset (x ∷ front) =
      ap (λ h. head offset x ++ h) (heads_same (offset + length (tail x)) front)

  tails_same : (front : List Argument) → tails (front ++ a ∷ rest) ≡ tails (front ++ b ∷ rest)
  unfolding tails
  tails_same [] = rw (tail-static a sa, tail-static b sb) refl
  tails_same (x ∷ front) = ap (λ t. tail x ++ t) (tails_same front)

  encoding_same :
      (front : List Argument) → encoding (front ++ a ∷ rest) ≡ encoding (front ++ b ∷ rest)
  unfolding encoding
  encoding_same front =
      let n : length (front ++ a ∷ rest) ≡ length (front ++ b ∷ rest) =
        omega (arith, length-append {0} front (a ∷ rest), length-append {0} front (b ∷ rest)) in
      rw (n, heads_same (length (front ++ b ∷ rest) * 32) front, tails_same front) refl

slice_start :
    (bs : Bytes) (n : ℕ) {part : Bytes}
    → slice bs [] 0 n ≡ ok part
    → (part ≡ take n (bs ++ [])) × (length part ≡ n)
unfolding slice
slice_start bs n {part} done = elim (Bool-cases (leb 0 n && leb n (length bs + 0))) [
  | inl e ↦
      let h : n ≤ length bs = ground arith in
      let z : n - 0 ≡ n = omega arith in
      let d : ok (take n (bs ++ [])) ≡ ok part = rw (e, z) at done in
      let same : part ≡ take n (bs ++ []) = cc in
      (
        same,
        ap length same ∙ length-take_eq n (bs ++ []) (omega (arith, h, length-append {0} bs [])),
      )
  | inr e ↦ let d : panic out_of_range ≡ ok part = rw e at done in absurd (cc)
]

word_of-front : (front behind : Bytes) → length front ≡ 32 → word_of (front ++ behind) ≡ front
word_of-front front behind size =
    let cut : take 32 (front ++ behind) ≡ front =
      subst (λ n. take n (front ++ behind) ≡ front) size (take-append front behind) in
    let z : 32 - length front ≡ 0 = omega arith in
    rw (cut, z) (ap (λ t. front ++ t) zeros_none ∙ append-nil front)

-- What a function that is added has as its argument: the selector stands behind the 32 bytes of a
-- word, which the first `part` of the address fills.
abbrev HasWord : Bytes → ContractFunctionParameters → ContractFunctionParameters → Type 0
HasWord part c out =
    (a : Argument) × (out.arguments ≡ c.arguments ++ a ∷ [])
    × (out.function ≡ Methods.add_function c.function)
    × (a.dynamic ≡ false)
    × (word_of a.value ≡ zeros 12 ++ part)

module _ (part : Bytes) (c : ContractFunctionParameters) (size : length part ≡ 20) where
  abbrev with_code : Bytes → ContractFunctionParameters
  with_code code =
      add Methods.add_function (record new_argument { value = (zeros 12 ++ part) ++ code }) c

  with_code-HasWord : (code : Bytes) → HasWord part c (with_code code)
  unfolding add new_argument
  with_code-HasWord code =
      let word : length (zeros 12 ++ part) ≡ 32 =
        omega (arith, length-append {0} (zeros 12) part, length-zeros 12) in
      (
        record { value = (zeros 12 ++ part) ++ code; dynamic = false },
        refl,
        refl,
        refl,
        word_of-front (zeros 12 ++ part) code word,
      )

  code-HasWord :
      (m : Outcome Bytes) (out : ContractFunctionParameters)
      → (m >>= λ code. ok (with_code code)) ≡ ok out
      → HasWord part c out
  code-HasWord (ok code) out e =
      let same : with_code code ≡ out = cc in subst (HasWord part c) same (with_code-HasWord code)
  code-HasWord (err x) out e = absurd (cc)
  code-HasWord (panic x) out e = absurd (cc)

  built-HasWord :
      (m : Outcome (Bytes × ContractFunctionSelector)) (out : ContractFunctionParameters)
      → (m >>= λ r. (slice r.0 [] 0 4 >>= λ code. ok (with_code code))) ≡ ok out
      → HasWord part c out
  built-HasWord (ok r) out e = code-HasWord (slice r.0 [] 0 4) out e
  built-HasWord (err x) out e = absurd (cc)
  built-HasWord (panic x) out e = absurd (cc)

add_function-HasWord :
    (keccak256 : Bytes → Bytes) (address : Bytes) (selector : ContractFunctionSelector)
    (c : ContractFunctionParameters) (address_bytes : Bytes) (out : ContractFunctionParameters)
    → (length address == 40) ≡ true
    → hex_decode address ≡ some address_bytes
    → add_function keccak256 address selector c ≡ ok out
    → HasWord (take 20 (address_bytes ++ [])) c out
unfolding add_function with_address
add_function-HasWord keccak256 address selector c address_bytes out full decoded done =
    let (part, sliced, built) =
      >>=-eq_ok (slice address_bytes [] 0 20) _ (rw (full, decoded) at done) in
    let (same, size) = slice_start address_bytes 20 sliced in
    subst (λ p. HasWord p c out) same
      (built-HasWord part c size (Selector.build keccak256 none selector) out built)

-- `_Build` with further arguments behind.
abbrev pub build_with :
    (Bytes → Bytes) → Option Bytes → List Argument → ContractFunctionParameters → Outcome Bytes
build_with keccak256 name rest c =
    build keccak256 name (record c { arguments = c.arguments ++ rest }) >>= λ r. ok r.0

same_build :
    (keccak256 : Bytes → Bytes) (name : Option Bytes) (rest : List Argument)
    (c d : ContractFunctionParameters)
    → ((s : Bytes) → length (keccak256 s) ≡ 32)
    → c.function ≡ d.function
    → encoding (c.arguments ++ rest) ≡ encoding (d.arguments ++ rest)
    → build_with keccak256 name rest c ≡ build_with keccak256 name rest d
same_build keccak256 none rest c d size f e =
    rw
      (
        build-none keccak256 (record c { arguments = c.arguments ++ rest }),
        build-none keccak256 (record d { arguments = d.arguments ++ rest }),
      )
      (ap ok e)
same_build keccak256 (some name) rest c d size f e =
    rw
      (
        build-some keccak256 name (record c { arguments = c.arguments ++ rest }) size,
        build-some keccak256 name (record d { arguments = d.arguments ++ rest }) size,
      )
      (cc (f, e))

same_word :
    (part : Bytes) (c out out' : ContractFunctionParameters) (rest : List Argument)
    → HasWord part c out
    → HasWord part c out'
    → (out.function ≡ out'.function)
      × (encoding (out.arguments ++ rest) ≡ encoding (out'.arguments ++ rest))
same_word part c out out' rest (a, ea, fa, sa, wa) (b, eb, fb, sb, wb) =
    let xs = c.arguments in
    (
      fa ∙ sym fb,
      ap (λ l. encoding (l ++ rest)) ea
          ∙ ap encoding (append_assoc xs (a ∷ []) rest)
          ∙ encoding_same rest a b sa sb (wa ∙ sym wb) xs
          ∙ ap encoding (sym (append_assoc xs (b ∷ []) rest))
          ∙ ap (λ l. encoding (l ++ rest)) (sym eb),
    )

same_call :
    (keccak256 : Bytes → Bytes) (address : Bytes) (s t : ContractFunctionSelector)
    (c with_s with_t : ContractFunctionParameters) (rest : List Argument)
    → add_function keccak256 address s c ≡ ok with_s
    → add_function keccak256 address t c ≡ ok with_t
    → (with_s.function ≡ with_t.function)
      × (encoding (with_s.arguments ++ rest) ≡ encoding (with_t.arguments ++ rest))
same_call keccak256 address s t c with_s with_t rest ds dt =
    elim (Bool-cases (length address == 40)) [
      | inr e ↦
          let left : ok c ≡ ok with_s = unfold add_function in unfold with_address in rw e at ds in
          let right : ok c ≡ ok with_t = unfold add_function in unfold with_address in rw e at dt in
          let same : with_s ≡ with_t = cc in
          (ap (λ r. r.function) same, ap (λ r. encoding (r.arguments ++ rest)) same)
      | inl e ↦ elim (Option-cases (hex_decode address)) [
        | inl f ↦
            let left : ◌≡◌ {A = Outcome ContractFunctionParameters} (err bad_hex) (ok with_s) =
              unfold add_function in unfold with_address in rw (e, f) at ds in
            absurd (cc)
        | inr (bytes, f) ↦
            same_word (take 20 (bytes ++ [])) c with_s with_t rest
              (add_function-HasWord keccak256 address s c bytes with_s e f ds)
              (add_function-HasWord keccak256 address t c bytes with_t e f dt)
      ]
    ]

-- The bytes that `_Build` gives, with a name or without, do not depend on the selector of a function
-- that is an argument, whatever arguments stand before it and behind it. The hash of the name has 32
-- bytes.
pub add_function_any_selector :
    (keccak256 : Bytes → Bytes) (name : Option Bytes) (address : Bytes)
    (s t : ContractFunctionSelector) (c with_s with_t : ContractFunctionParameters)
    (rest : List Argument)
    → ((text : Bytes) → length (keccak256 text) ≡ 32)
    → add_function keccak256 address s c ≡ ok with_s
    → add_function keccak256 address t c ≡ ok with_t
    → build_with keccak256 name rest with_s ≡ build_with keccak256 name rest with_t
add_function_any_selector keccak256 name address s t c with_s with_t rest size ds dt =
    let (function, bytes) = same_call keccak256 address s t c with_s with_t rest ds dt in
    same_build keccak256 name rest with_s with_t size function bytes
