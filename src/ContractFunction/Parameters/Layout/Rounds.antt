-- ===== src/ContractFunction/Parameters/Layout/Rounds.antt =====
-- The rounds of the loop of `_Build`: each fills the word of its argument and puts a dynamic value
-- behind those that are there.
use hedera_sdk_go.Prelude.{
  ℕ, suc, ◌+◌, ◌*◌, ◌≡◌, refl, sym, ap, ◌∙◌, List, [], ◌∷◌, ◌++◌, true, false, length, arith,
  length-append, append_assoc, Bool-cases, inl, inr,
}
use hedera_sdk_go.Prelude.Outcome.{ok}
use hedera_sdk_go.Prelude.Text.{Bytes}
use hedera_sdk_go.ContractFunction.Buffers.{
  zeros-append, zeros, copy_range, big_endian, length-zeros, length-big_endian, zeros_add,
  copy_range-append, copy_range-word, zeros_split, word_of,
}
use hedera_sdk_go.ContractFunction.Parameters.{Argument, write_argument, write_arguments}
use hedera_sdk_go.ContractFunction.Parameters.Layout.{
  offset_word, head, tail, heads, tails, length-head, zeros_none, head-dynamic, head-static,
  tail-dynamic, tail-static,
}

-- A round for a static argument, in front of whose word stand `before`.
write_static :
    (function_offset j offset : ℕ) (a : Argument) (before ys : Bytes)
    → a.dynamic ≡ false
    → j * 32 + function_offset ≡ length before
    → write_argument function_offset j a offset (before ++ (zeros 32 ++ ys))
      ≡ ok (before ++ (word_of a.value ++ ys), offset)
unfolding write_argument
write_static function_offset j offset a before ys static at =
    let e =
      copy_range-word before ys a.value (j * 32 + function_offset) ((j + 1) * 32 + function_offset)
        at (omega arith) in
    rw (static, e) refl

pub offset_written :
    (before ys : Bytes) (from to offset : ℕ)
    → from ≡ length before + 24
    → to ≡ length before + 32
    → copy_range (before ++ (zeros 32 ++ ys)) from to (big_endian 8 offset)
      ≡ ok (before ++ (offset_word offset ++ ys))
offset_written before ys from to offset at end =
    let word = big_endian 8 offset in
    let size : length word ≡ 8 = length-big_endian 8 offset in
    let front : length (before ++ zeros 24) ≡ length before + 24 =
      omega (arith, length-append {0} before (zeros 24), length-zeros 24) in
    let apart : before ++ (zeros 32 ++ ys) ≡ (before ++ zeros 24) ++ (zeros 8 ++ ys) =
      ap (λ z. before ++ (z ++ ys)) (zeros_split 32 24 (omega arith)) ∙ simp append_assoc in
    rw apart (
      copy_range-append (before ++ zeros 24) (zeros 8) ys word from to (omega arith) (omega arith)
        (omega arith) (length-zeros 8 ∙ sym size)
      ∙ ap ok (simp append_assoc))

pub value_written :
    (before word mid ys value : Bytes) (from : ℕ)
    → from ≡ length before + length word + length mid
    → copy_range
        (before ++ (word ++ (mid ++ (zeros (length value) ++ ys))))
        from
        (length (before ++ (word ++ (mid ++ (zeros (length value) ++ ys)))))
        value
      ≡ ok (before ++ (word ++ (mid ++ (value ++ ys))))
value_written before word mid ys value from at =
    let front = (before ++ word) ++ mid in
    let n = length value in
    let whole : before ++ (word ++ (mid ++ (zeros n ++ ys))) ≡ front ++ (zeros n ++ ys) =
      simp append_assoc in
    let l : length front ≡ length before + length word + length mid =
      omega (arith, length-append {0} (before ++ word) mid, length-append {0} before word) in
    let total : length (front ++ (zeros n ++ ys)) ≡ length front + (n + length ys) = omega (
      arith,
      length-append {0} front (zeros n ++ ys),
      length-append {0} (zeros n) ys,
      length-zeros n,
    ) in
    rw whole (
      copy_range-append front (zeros n) ys value from (length (front ++ (zeros n ++ ys)))
        (omega arith) (omega arith) (omega arith) (length-zeros n)
      ∙ ap ok (simp append_assoc))

-- A round for a dynamic argument, whose value goes behind the values `mid` that are written.
write_dynamic :
    (function_offset j offset : ℕ) (a : Argument) (before mid ys : Bytes)
    → a.dynamic ≡ true
    → j * 32 + function_offset ≡ length before
    → offset + function_offset ≡ length before + 32 + length mid
    → write_argument function_offset j a offset
        (before ++ (zeros 32 ++ (mid ++ (zeros (length a.value) ++ ys))))
      ≡ ok (before ++ (offset_word offset ++ (mid ++ (a.value ++ ys))), offset + length a.value)
unfolding write_argument
write_dynamic function_offset j offset a before mid ys dynamic at offset_at =
    let n = length a.value in
    let first =
      offset_written before (mid ++ (zeros n ++ ys)) (j * 32 + function_offset + 24)
        ((j + 1) * 32 + function_offset) offset (omega arith) (omega arith) in
    let size : length (offset_word offset) ≡ 32 = omega (
      arith,
      length-append {0} (zeros 24) (big_endian 8 offset),
      length-zeros 24,
      length-big_endian 8 offset,
    ) in
    rw (dynamic, first)
      (rw
        (value_written before (offset_word offset) mid ys a.value (offset + function_offset)
          (omega arith))
        refl)

-- A round, with `before` in front of its word and `between` behind it and in front of its value.
write_argument_lem :
    (function_offset j offset : ℕ) (a : Argument) (before between ys : Bytes)
    → j * 32 + function_offset ≡ length before
    → offset + function_offset ≡ length before + 32 + length between
    → write_argument function_offset j a offset
        (before ++ (zeros 32 ++ (between ++ (zeros (length (tail a)) ++ ys))))
      ≡ ok (before ++ (head offset a ++ (between ++ (tail a ++ ys))), offset + length (tail a))
write_argument_lem function_offset j offset a before between ys at offset_at =
    elim (Bool-cases a.dynamic) [
      | inl e ↦
          rw (tail-dynamic a e, head-dynamic offset a e)
            (write_dynamic function_offset j offset a before between ys e at offset_at)
      | inr e ↦
          rw (tail-static a e, head-static offset a e, zeros_none)
            (write_static function_offset j offset a before (between ++ ys) e at
              ∙ ap (λ o. ok (before ++ (word_of a.value ++ (between ++ ys)), o)) (omega arith))
    ]

pub zeros_words :
    (n : ℕ) (ys : Bytes) → zeros (suc n * 32) ++ ys ≡ zeros 32 ++ (zeros (n * 32) ++ ys)
zeros_words n ys =
    ap (λ z. z ++ ys) (ap zeros (omega arith) ∙ zeros_add 32 (n * 32))
    ∙ append_assoc (zeros 32) (zeros (n * 32)) ys

-- The loop from argument `j` on, with the words `before` and the values `mid` written.
pub write_arguments-layout :
    (function_offset j offset : ℕ) (arguments : List Argument) (before mid : Bytes)
    → j * 32 + function_offset ≡ length before
    → offset + function_offset ≡ length before + length arguments * 32 + length mid
    → write_arguments function_offset j arguments offset
        (before ++ (zeros (length arguments * 32) ++ (mid ++ zeros (length (tails arguments)))))
      ≡ ok (before ++ (heads offset arguments ++ (mid ++ tails arguments)))
unfolding write_arguments heads tails
write_arguments-layout function_offset j offset [] before mid at offset_at = rw zeros_none refl
write_arguments-layout function_offset j offset (a ∷ rest) before mid at offset_at =
    let words = zeros (length rest * 32) in
    let left = zeros (length (tails rest)) in
    let before' = before ++ head offset a in
    let start : before
          ++ (zeros (suc (length rest) * 32) ++ (mid ++ zeros (length (tail a ++ tails rest))))
        ≡ before ++ (zeros 32 ++ ((words ++ mid) ++ (zeros (length (tail a)) ++ left))) =
      rw (zeros-append (tail a) (tails rest))
        (ap (λ z. before ++ z) (zeros_words (length rest) _ ∙ simp append_assoc)) in
    let round =
      write_argument_lem function_offset j offset a before (words ++ mid) left at
        (omega (arith, length-append {0} words mid, length-zeros (length rest * 32))) in
    let next : before ++ (head offset a ++ ((words ++ mid) ++ (tail a ++ left)))
        ≡ before' ++ (words ++ ((mid ++ tail a) ++ left)) =
      simp append_assoc in
    let front : length before' ≡ length before + 32 =
      omega (arith, length-append {0} before (head offset a), length-head offset a) in
    rw (start, round, next)
      (write_arguments-layout function_offset (suc j) (offset + length (tail a)) rest before'
          (mid ++ tail a) (omega arith) (omega (arith, length-append {0} mid (tail a)))
        ∙ ap ok (simp append_assoc))
