-- ===== src/ContractFunction/Buffers.antt =====
-- Go's byte slices as the contract calls use them: `make`, slices with their bounds, `copy`, and
-- the big-endian words of encoding/binary.
pub mod Words
use hedera_sdk_go.Prelude.{
  ℕ, zero, suc, ◌+◌, ◌-◌, ◌*◌, ◌/◌, ◌%◌, ◌^◌, ◌≤◌, ◌≡◌, refl, ap, ◌∙◌, true, List, [], ◌∷◌, ◌++◌,
  length, take, drop, length-drop, ◌&&◌, leb, if◌then◌else◌, arith, length-append, append_assoc,
}
use hedera_sdk_go.Prelude.Int.{ℤ, pos, negsuc}
use hedera_sdk_go.Prelude.Outcome.{Outcome, ok, panic, out_of_range}
use hedera_sdk_go.Prelude.Text.{Bytes}

-- `make([]byte, n)`.
unfoldable pub zeros : ℕ → Bytes
zeros zero = []
zeros (suc n) = 0 ∷ zeros n

-- The bytes of `copy(buf[at:], bs)` where `bs` fits behind `at`.
abbrev pub copy_to : Bytes → ℕ → Bytes → Bytes
copy_to buf at bs = take at buf ++ (bs ++ drop (at + length bs) buf)

-- `copy(buf[from:to], bs)`, which copies no more than the range holds.
unfoldable pub copy_range : Bytes → ℕ → ℕ → Bytes → Outcome Bytes
copy_range buf from to bs =
    if leb from to && leb to (length buf)
    then ok (copy_to buf from (take (to - from) bs))
    else panic out_of_range

-- `buf[from:to]` of a slice that has `spare` behind its end, up to its capacity.
unfoldable pub slice : Bytes → Bytes → ℕ → ℕ → Outcome Bytes
slice buf spare from to =
    if leb from to && leb to (length buf + length spare)
    then ok (take (to - from) (drop from (buf ++ spare)))
    else panic out_of_range

-- The bytes of `binary.BigEndian.PutUint16`, `PutUint32` and `PutUint64`, which have 2, 4 and 8.
unfoldable pub big_endian : ℕ → ℕ → Bytes
big_endian zero n = []
big_endian (suc w) n = big_endian w (n / 256) ++ n % 256 ∷ []

-- `binary.BigEndian.Uint16`, `Uint32` and `Uint64`.
unfoldable pub big_endian_value : ℕ → Bytes → ℕ
big_endian_value n [] = n
big_endian_value n (b ∷ bs) = big_endian_value (n * 256 + b) bs

-- `uint8(a)`, `uint16(a)`, `uint32(a)` and `uint64(a)` of a signed integer.
abbrev pub to_uint : ℕ → ℤ → ℕ
to_uint w (pos n) = n % 2 ^ w
to_uint w (negsuc n) = 2 ^ w - suc (n % 2 ^ w)

pub length-zeros : (n : ℕ) → length (zeros n) ≡ n
unfolding zeros
length-zeros zero = refl
length-zeros (suc n) = ap suc (length-zeros n)

pub zeros_add : (n m : ℕ) → zeros (n + m) ≡ zeros n ++ zeros m
unfolding zeros
zeros_add zero m = ap zeros (omega arith)
zeros_add (suc n) m =
    let e : suc n + m ≡ suc (n + m) = omega arith in rw e (ap (◌∷◌ 0) (zeros_add n m))

pub length-big_endian : (w n : ℕ) → length (big_endian w n) ≡ w
unfolding big_endian
length-big_endian zero n = refl
length-big_endian (suc w) n =
    omega
      (arith, length-append (big_endian w (n / 256)) (n % 256 ∷ []), length-big_endian w (n / 256))

module _ {ℓ} {A : Type ℓ} where
  pub take-append : (xs ys : List A) → take (length xs) (xs ++ ys) ≡ xs
  take-append [] ys = refl
  take-append (x ∷ xs) ys = ap (◌∷◌ x) (take-append xs ys)

  pub drop-append : (xs ys : List A) → drop (length xs) (xs ++ ys) ≡ ys
  drop-append [] ys = refl
  drop-append (x ∷ xs) ys = drop-append xs ys

  pub take-length : (xs : List A) → take (length xs) xs ≡ xs
  take-length [] = refl
  take-length (x ∷ xs) = ap (◌∷◌ x) (take-length xs)

pub in_range : (from to n : ℕ) → from ≤ to → to ≤ n → (leb from to && leb to n) ≡ true
in_range from to n h k = ground arith

-- Behind a part `xs`, `old` is replaced.
pub copy_to-append :
    (xs old ys new : Bytes)
    → length old ≡ length new
    → copy_to (xs ++ (old ++ ys)) (length xs) new ≡ xs ++ (new ++ ys)
copy_to-append xs old ys new same =
    let e : length xs + length new ≡ length (xs ++ old) = omega (arith, length-append {0} xs old) in
    rw (take-append xs (old ++ ys), e, ← append_assoc xs old ys)
      (ap (λ t. xs ++ (new ++ t)) (drop-append (xs ++ old) ys))

pub take_all : (n : ℕ) (bs : Bytes) → length bs ≤ n → take n bs ≡ bs
take_all zero [] h = refl
take_all zero (b ∷ bs) h = absurd (omega arith)
take_all (suc n) [] h = refl
take_all (suc n) (b ∷ bs) h = ap (◌∷◌ b) (take_all n bs (omega arith))

pub length-take : (n : ℕ) (bs : Bytes) → length (take n bs) ≤ n
length-take zero bs = omega arith
length-take (suc n) [] = omega arith
length-take (suc n) (b ∷ bs) = omega (arith, length-take n bs)

pub length-take_eq : (n : ℕ) (bs : Bytes) → n ≤ length bs → length (take n bs) ≡ n
length-take_eq zero bs h = refl
length-take_eq (suc n) [] h = absurd (omega arith)
length-take_eq (suc n) (b ∷ bs) h = ap suc (length-take_eq n bs (omega arith))

length-append3 :
    (xs ys zs : Bytes) → length (xs ++ (ys ++ zs)) ≡ length xs + (length ys + length zs)
length-append3 xs ys zs = omega (arith, length-append {0} xs (ys ++ zs), length-append {0} ys zs)

-- Writing in place of a part of the same length, into a range that holds it.
pub copy_range-append :
    (xs old ys new : Bytes) (from to : ℕ)
    → from ≡ length xs
    → length xs + length new ≤ to
    → to ≤ length xs + (length new + length ys)
    → length old ≡ length new
    → copy_range (xs ++ (old ++ ys)) from to new ≡ ok (xs ++ (new ++ ys))
unfolding copy_range
copy_range-append xs old ys new from to at enough end same =
    let l : to ≤ length (xs ++ (old ++ ys)) = omega (arith, length-append3 xs old ys) in
    rw
      (
        in_range from to (length (xs ++ (old ++ ys))) (omega arith) l,
        take_all (to - from) new (omega arith),
        at,
      )
      (ap ok (copy_to-append xs old ys new same))

-- A value cut and filled with zeros to the size of a word.
abbrev pub word_of : Bytes → Bytes
word_of value = take 32 value ++ zeros (32 - length (take 32 value))

pub length-word_of : (value : Bytes) → length (word_of value) ≡ 32
length-word_of value =
    let t = take 32 value in
    omega (
      arith,
      length-append {0} t (zeros (32 - length t)),
      length-zeros (32 - length t),
      length-take 32 value,
    )

pub zeros_split : (n k : ℕ) → k ≤ n → zeros n ≡ zeros k ++ zeros (n - k)
zeros_split n k h = let e : n ≡ k + (n - k) = omega arith in ap zeros e ∙ zeros_add k (n - k)

copy_to-word :
    (xs ys t : Bytes)
    → length t ≤ 32
    → copy_to (xs ++ (zeros 32 ++ ys)) (length xs) t ≡ xs ++ ((t ++ zeros (32 - length t)) ++ ys)
copy_to-word xs ys t h =
    let k = length t in
    let e : zeros 32 ++ ys ≡ zeros k ++ (zeros (32 - k) ++ ys) =
      ap (λ z. z ++ ys) (zeros_split 32 k h) ∙ append_assoc (zeros k) (zeros (32 - k)) ys in
    rw (e, append_assoc t (zeros (32 - k)) ys)
      (copy_to-append xs (zeros k) (zeros (32 - k) ++ ys) t (length-zeros k))

-- Copying into a word of zeros.
pub copy_range-word :
    (xs ys value : Bytes) (from to : ℕ)
    → from ≡ length xs
    → to ≡ length xs + 32
    → copy_range (xs ++ (zeros 32 ++ ys)) from to value ≡ ok (xs ++ (word_of value ++ ys))
unfolding copy_range
copy_range-word xs ys value from to at end =
    let t = take 32 value in
    let l : to ≤ length (xs ++ (zeros 32 ++ ys)) =
      omega (arith, length-append3 xs (zeros 32) ys, length-zeros 32) in
    let size : to - from ≡ 32 = omega arith in
    rw (in_range from to (length (xs ++ (zeros 32 ++ ys))) (omega arith) l, size, at)
      (ap ok (copy_to-word xs ys t (length-take 32 value)))

-- A slice that is a part.
pub slice-append :
    (xs part ys spare : Bytes) (from to : ℕ)
    → from ≡ length xs
    → to ≡ length xs + length part
    → slice (xs ++ (part ++ ys)) spare from to ≡ ok part
unfolding slice
slice-append xs part ys spare from to at end =
    let whole = length (xs ++ (part ++ ys)) + length spare in
    let l : to ≤ whole = omega (arith, length-append3 xs part ys) in
    let size : to - from ≡ length part = omega arith in
    let apart : (xs ++ (part ++ ys)) ++ spare ≡ xs ++ (part ++ (ys ++ spare)) = simp append_assoc in
    rw
      (
        in_range from to whole (omega arith) l,
        size,
        at,
        apart,
        drop-append xs (part ++ (ys ++ spare)),
      )
      (ap ok (take-append part (ys ++ spare)))

pub length-copy_to :
    (buf : Bytes) (at : ℕ) (bs : Bytes)
    → at + length bs ≤ length buf
    → length (copy_to buf at bs) ≡ length buf
length-copy_to buf at bs h = omega (
  arith,
  length-append {0} (take at buf) (bs ++ drop (at + length bs) buf),
  length-append {0} bs (drop (at + length bs) buf),
  length-take_eq at buf (omega arith),
  length-drop {0} (at + length bs) buf,
)

pub zeros-append :
    (xs ys : Bytes) → zeros (length (xs ++ ys)) ≡ zeros (length xs) ++ zeros (length ys)
zeros-append xs ys = ap zeros (length-append xs ys) ∙ zeros_add (length xs) (length ys)
