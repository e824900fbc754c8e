-- ===== src/ContractFunction/Parameters/ShortArrays.antt =====
-- The arrays whose buffers are too short: `AddInt32Array` and `AddBytes32Array`.
use hedera_sdk_go.Prelude.{
  ℕ, suc, ◌+◌, ◌-◌, ◌*◌, ◌≤◌, ◌<◌, ◌≡◌, refl, ◌∙◌, List, [], ◌∷◌, ◌++◌, length, leb, take, drop,
  ◌⊎◌, ◌&&◌, arith, Bool-cases, inl, inr, length-map,
}
use hedera_sdk_go.Prelude.Int.{ℤ}
use hedera_sdk_go.Prelude.Outcome.{ok, panic, out_of_range}
use hedera_sdk_go.Prelude.Text.{Bytes}
use hedera_sdk_go.ContractFunction.Buffers.{
  length-copy_to, slice, to_uint, copy_range, copy_to, zeros, big_endian, length-zeros, length-take,
}
use hedera_sdk_go.ContractFunction.Selector.{ContractFunctionSelector}
use hedera_sdk_go.ContractFunction.Selector.Arrays
use hedera_sdk_go.ContractFunction.Parameters.Arrays.Nested.{add_bytes32_array, write_bytes32}
use hedera_sdk_go.ContractFunction.Parameters.{ContractFunctionParameters}
use hedera_sdk_go.ContractFunction.Parameters.Arrays.{
  write_items, counted, int32_bytes, add_array, add_int32_array, int32_bytes,
}

-- A write behind the end of the buffer panics, and any other write keeps the length.
copy_range-cases :
    (buf : Bytes) (from to : ℕ) (bs : Bytes)
    → (copy_range buf from to bs ≡ panic out_of_range)
      ⊎ ((out : Bytes) × (copy_range buf from to bs ≡ ok out)
          × (length out ≡ length buf)
          × (to ≤ length buf))
unfolding copy_range
copy_range-cases buf from to bs = elim (Bool-cases (leb from to && leb to (length buf))) [
  | inl e ↦
      let held : (from ≤ to) × (to ≤ length buf) = ground arith in
      inr (
        copy_to buf from (take (to - from) bs),
        rw e refl,
        length-copy_to buf from (take (to - from) bs)
            (omega (arith, held.0, held.1, length-take (to - from) bs)),
        held.1,
      )
  | inr e ↦ inl (rw e refl)
]

slice-cases :
    (buf spare : Bytes) (from to : ℕ)
    → (slice buf spare from to ≡ panic out_of_range)
      ⊎ ((part : Bytes) × (slice buf spare from to ≡ ok part))
unfolding slice
slice-cases buf spare from to =
    elim (Bool-cases (leb from to && leb to (length buf + length spare))) [
      | inl e ↦ inr (take (to - from) (drop from (buf ++ spare)), rw e refl)
      | inr e ↦ inl (rw e refl)
    ]

-- The loop panics where the buffer has no room for its last item.
write_items_out :
    (from i : ℕ) (v : Bytes) (value : List Bytes) (result : Bytes)
    → length result < (i + length value) * 32 + 64
    → write_items from i (v ∷ value) result ≡ panic out_of_range
unfolding write_items
write_items_out from i v [] result small =
    elim (copy_range-cases result (i * 32 + 32 + from) (i * 32 + 32 + 32) v) [
      | inl e ↦ rw e refl
      | inr (out, e, same, held) ↦ absurd (omega arith)
    ]
write_items_out from i v (w ∷ value) result small =
    elim (copy_range-cases result (i * 32 + 32 + from) (i * 32 + 32 + 32) v) [
      | inl e ↦ rw e refl
      | inr (out, e, same, held) ↦ rw e (write_items_out from (suc i) w value out (omega arith))
    ]

-- The buffer with the count in its first word has the size that is asked for.
counted-cases :
    (size count : ℕ)
    → (counted size count ≡ panic out_of_range)
      ⊎ ((out : Bytes) × (counted size count ≡ ok out) × (length out ≡ size))
unfolding counted
counted-cases size count = elim (copy_range-cases (zeros size) 24 32 (big_endian 8 count)) [
  | inl e ↦ inl e
  | inr (out, e, same, held) ↦ inr (out, e, same ∙ length-zeros size)
]

add_array_out :
    (register : ContractFunctionSelector → ContractFunctionSelector) (size from : ℕ) (v : Bytes)
    (items : List Bytes) (c : ContractFunctionParameters)
    → size < length items * 32 + 64
    → add_array register size from (v ∷ items) c ≡ panic out_of_range
unfolding add_array
add_array_out register size from v items c small = elim (counted-cases size (length (v ∷ items))) [
  | inl e ↦ rw e refl
  | inr (out, e, same) ↦ rw (e, write_items_out from 0 v items out (omega arith)) refl
]

-- A value of 32 bytes that is written into a round of the loop.
write_bytes32_out :
    (i : ℕ) (v : Bytes) (value : List Bytes) (result : Bytes)
    → length result < (i + length value) * 32 + 64
    → write_bytes32 i (v ∷ value) result ≡ panic out_of_range
unfolding write_bytes32
write_bytes32_out i v [] result small = elim (slice-cases v [] 0 32) [
  | inl e ↦ rw e refl
  | inr (part, e) ↦ elim (copy_range-cases result (i * 32 + 32) (i * 32 + 32 + 32) part) [
    | inl f ↦ rw (e, f) refl
    | inr (out, f, same, held) ↦ absurd (omega arith)
  ]
]
write_bytes32_out i v (w ∷ value) result small = elim (slice-cases v [] 0 32) [
  | inl e ↦ rw e refl
  | inr (part, e) ↦ elim (copy_range-cases result (i * 32 + 32) (i * 32 + 32 + 32) part) [
    | inl f ↦ rw (e, f) refl
    | inr (out, f, same, held) ↦ rw (e, f) (write_bytes32_out (suc i) w value out (omega arith))
  ]
]

add_bytes32_array_out :
    (s : Bytes) (items : List Bytes) (c : ContractFunctionParameters)
    → add_bytes32_array (s ∷ items) c ≡ panic out_of_range
unfolding add_bytes32_array
add_bytes32_array_out s items c =
    elim (counted-cases (length (s ∷ items) + 32) (length (s ∷ items))) [
      | inl e ↦ rw e refl
      | inr (out, e, same) ↦ rw (e, write_bytes32_out 0 s items out (omega arith)) refl
    ]

-- The buffers of `AddInt32Array` and `AddBytes32Array` have one byte for an item, where it needs 32:
-- every array but the empty one makes them panic.
pub short_arrays_panic :
    (v : ℤ) (value : List ℤ) (s : Bytes) (items : List Bytes) (c : ContractFunctionParameters)
    → (add_int32_array (v ∷ value) c ≡ panic out_of_range)
      × (add_bytes32_array (s ∷ items) c ≡ panic out_of_range)
unfolding add_int32_array
short_arrays_panic v value s items c = (
  add_array_out Arrays.add_int32_array (length (v ∷ value) + 32) 28 (big_endian 4 (to_uint 32 v))
      (int32_bytes value) c
      (omega (arith, length-map (λ (a : ℤ). big_endian 4 (to_uint 32 a)) value)),
  add_bytes32_array_out s items c,
)
