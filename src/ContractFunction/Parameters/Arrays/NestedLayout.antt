-- ===== src/ContractFunction/Parameters/Arrays/NestedLayout.antt =====
-- What `bytesArray` makes: the number of the items, and the encoding of the items as arguments.
use hedera_sdk_go.Prelude.{
  ℕ, suc, ◌+◌, ◌-◌, ◌*◌, ◌%◌, ◌≤◌, ◌≡◌, refl, sym, ap, ◌∙◌, List, [], ◌∷◌, ◌++◌, true, length, map,
  arith, length-append, append_assoc, length-map,
}
use hedera_sdk_go.Prelude.Outcome.{ok}
use hedera_sdk_go.Prelude.Text.{Bytes}
use hedera_sdk_go.ContractFunction.Buffers.{
  zeros, copy_to, big_endian, length-zeros, length-big_endian, zeros_add, copy_range-append,
  zeros_split, zeros-append, copy_to-append,
}
use hedera_sdk_go.ContractFunction.Parameters.{Argument}
use hedera_sdk_go.ContractFunction.Parameters.Arrays.{counted}
use hedera_sdk_go.ContractFunction.Parameters.Arrays.Nested.{
  padded_length, items_length, item_bytes, write_nested, bytes_array,
}
use hedera_sdk_go.ContractFunction.Parameters.Layout.{
  head, tail, heads, tails, encoding, offset_word, zeros_none,
}
use hedera_sdk_go.ContractFunction.Parameters.Layout.Rounds.{offset_written, zeros_words}

-- An item as a dynamic argument.
abbrev pub item_argument : Bytes → Argument
item_argument s = record { value = s; dynamic = true }

-- The loop from item `i` on, with the words `before` and the items `mid` written.
write_nested-layout :
    (i offset : ℕ) (items : List Bytes) (before mid : Bytes)
    → (i + 1) * 32 ≡ length before
    → offset + 32 ≡ length before + length items * 32 + length mid
    → write_nested i offset items (
        before
        ++ (zeros (length items * 32) ++ (mid ++ zeros (length (tails (map item_argument items))))))
      ≡ ok (
          before
          ++ (heads offset (map item_argument items) ++ (mid ++ tails (map item_argument items))))
unfolding write_nested heads tails head tail
write_nested-layout i offset [] before mid at offset_at = rw zeros_none refl
write_nested-layout i offset (s ∷ items) before mid at offset_at =
    let words = zeros (length items * 32) in
    let left = zeros (length (tails (map item_argument items))) in
    let start : before
          ++ (zeros (suc (length items) * 32)
              ++ (mid ++ zeros (length (s ++ tails (map item_argument items)))))
        ≡ before ++ (zeros 32 ++ (words ++ (mid ++ (zeros (length s) ++ left)))) =
      rw (zeros-append s (tails (map item_argument items)))
        (ap (λ z. before ++ z) (zeros_words (length items) (mid ++ (zeros (length s) ++ left)))) in
    let word =
      offset_written before (words ++ (mid ++ (zeros (length s) ++ left))) ((i + 1) * 32 + 24)
        ((i + 2) * 32) offset (omega arith) (omega arith) in
    let word_size : length (before ++ offset_word offset) ≡ length before + 32 = omega (
      arith,
      length-append {0} before (offset_word offset),
      length-append {0} (zeros 24) (big_endian 8 offset),
      length-zeros 24,
      length-big_endian 8 offset,
    ) in
    let front = ((before ++ offset_word offset) ++ words) ++ mid in
    let size : length front ≡ offset + 32 = omega (
      arith,
      length-append {0} ((before ++ offset_word offset) ++ words) mid,
      length-append {0} (before ++ offset_word offset) words,
      length-zeros (length items * 32),
      word_size,
    ) in
    let apart : before ++ (offset_word offset ++ (words ++ (mid ++ (zeros (length s) ++ left))))
        ≡ front ++ (zeros (length s) ++ left) =
      simp append_assoc in
    let item =
      copy_range-append front (zeros (length s)) left s (offset + 32) (offset + 32 + length s)
        (sym size) (omega arith) (omega arith) (length-zeros (length s)) in
    let next : front ++ (s ++ left)
        ≡ (before ++ offset_word offset) ++ (words ++ ((mid ++ s) ++ left)) =
      simp append_assoc in
    rw (start, word, apart, item, next)
      (write_nested-layout (suc i) (offset + length s) items (before ++ offset_word offset)
          (mid ++ s) (omega (arith, word_size)) (omega (arith, word_size, length-append {0} mid s))
        ∙ ap ok (simp append_assoc))

-- The room for an item holds it, with its filling.
padded_length_le : (s : Bytes) → length s ≤ padded_length s
unfolding padded_length
padded_length_le s = ground arith

-- An item has its length in a word in front.
pub item_bytes_lem :
    (s : Bytes) → item_bytes s ≡ offset_word (length s) ++ (s ++ zeros (padded_length s - length s))
unfolding item_bytes
item_bytes_lem s =
    let p = padded_length s in
    let n = length s in
    let word = big_endian 8 n in
    let room : zeros (p + 32) ≡ zeros 24 ++ (zeros 8 ++ zeros p) =
      ap zeros (omega arith) ∙ zeros_add 32 p in
    let filled : zeros p ≡ zeros n ++ zeros (p - n) = zeros_split p n (padded_length_le s) in
    rw room (
      ap (λ z. copy_to (offset_word n ++ z) 32 s) filled
      ∙ copy_to-append (offset_word n) (zeros n) (zeros (p - n)) s (length-zeros n))

length-item_bytes : (s : Bytes) → length (item_bytes s) ≡ 32 + padded_length s
length-item_bytes s =
    let rest = padded_length s - length s in
    omega (
      arith,
      ap length (item_bytes_lem s),
      length-append {0} (offset_word (length s)) (s ++ zeros rest),
      length-append {0} (zeros 24) (big_endian 8 (length s)),
      length-zeros 24,
      length-big_endian 8 (length s),
      length-append {0} s (zeros rest),
      length-zeros rest,
      padded_length_le s,
    )

items_length-eq :
    (value : List Bytes)
    → items_length value
      ≡ length value * 32 + length (tails (map item_argument (map item_bytes value)))
unfolding items_length tails tail
items_length-eq [] = omega arith
items_length-eq (s ∷ value) = omega (
  arith,
  length-item_bytes s,
  items_length-eq value,
  length-append {0} (item_bytes s) (tails (map item_argument (map item_bytes value))),
)

counted_lem : (m n : ℕ) → counted (m + 32) n ≡ ok (offset_word n ++ zeros m)
unfolding counted
counted_lem m n =
    let room : zeros (m + 32) ≡ zeros 32 ++ zeros m = ap zeros (omega arith) ∙ zeros_add 32 m in
    rw room (offset_written [] (zeros m) 24 32 n (omega arith) (omega arith))

write_nested-encoding :
    (items : List Bytes) (before : Bytes)
    → length before ≡ 32
    → write_nested 0
        (length items * 32)
        items
        (before ++ zeros (length items * 32 + length (tails (map item_argument items))))
      ≡ ok (before ++ encoding (map item_argument items))
unfolding encoding
write_nested-encoding items before size =
    let room = zeros_add (length items * 32) (length (tails (map item_argument items))) in
    rw (room, length-map item_argument items)
      (write_nested-layout 0 (length items * 32) items before [] (omega arith) (omega arith))

length-offset_word : (n : ℕ) → length (offset_word n) ≡ 32
length-offset_word n =
    omega
      (arith, length-append {0} (zeros 24) (big_endian 8 n), length-zeros 24, length-big_endian 8 n)

-- What stands for a byte string in an array: its length in a word, its bytes, and the zeros that
-- fill up its words, with a word more where its length is a number of whole words.
abbrev pub item_layout : Bytes → Bytes
item_layout s = offset_word (length s) ++ (s ++ zeros (32 - length s % 32))

padded_length-eq : (s : Bytes) → padded_length s - length s ≡ 32 - length s % 32
unfolding padded_length
padded_length-eq s = ground arith

item_bytes-layout : (s : Bytes) → item_bytes s ≡ item_layout s
item_bytes-layout s =
    item_bytes_lem s ∙ ap (λ n. offset_word (length s) ++ (s ++ zeros n)) (padded_length-eq s)

items-layout :
    (value : List Bytes)
    → map item_argument (map item_bytes value) ≡ map (λ s. item_argument (item_layout s)) value
items-layout [] = refl
items-layout (s ∷ value) =
    ap (λ b. item_argument b ∷ map item_argument (map item_bytes value)) (item_bytes-layout s)
    ∙ ap (◌∷◌ (item_argument (item_layout s))) (items-layout value)

-- The bytes of a list of byte strings are their number in a word and the encoding of the items as
-- dynamic arguments: for each of them its length in a word, its bytes, and from 1 to 32 zeros that
-- fill up the words.
pub bytes_array-encoding :
    (value : List Bytes)
    → bytes_array value
      ≡ ok (offset_word (length value) ++ encoding (map (λ s. item_argument (item_layout s)) value))
unfolding bytes_array
bytes_array-encoding value =
    let n = length value in
    let same : length (map item_bytes value) ≡ n = length-map item_bytes value in
    let loop =
      write_nested-encoding (map item_bytes value) (offset_word n) (length-offset_word n) in
    rw (counted_lem (items_length value) n, items_length-eq value) (rw same at loop)
    ∙ ap (λ items. ok (offset_word n ++ encoding items)) (items-layout value)
