-- ===== src/Id/Solidity.antt =====
-- Solidity addresses of id.go, printed and read back.
use native.Mathlib.Nat.{pow-suc}
use hedera_sdk_go.Prelude.{
  ℕ, zero, suc, ◌+◌, ◌*◌, ◌/◌, ◌%◌, ◌^◌, ◌<◌, ◌≡◌, refl, sym, ap, ◌∙◌, [], ◌∷◌, ◌++◌, some, arith,
  length, take, drop, All, All-append, length-append, append_assoc, append-nil, ==_iff,
}
use hedera_sdk_go.Prelude.Outcome.{ok}
use hedera_sdk_go.Prelude.Text.{Bytes}
use hedera_sdk_go.Strconv.Hex.{IsByte, hex_decode-hex_encode, length-hex_encode}
use hedera_sdk_go.Id.{
  put_uint, read_uint, id_to_solidity_address, id_from_solidity_address, address_fields,
}

read_uint_last : (n b : ℕ) (bs : Bytes) → read_uint n (bs ++ b ∷ []) ≡ read_uint n bs * 256 + b
unfolding read_uint
read_uint_last n b [] = refl
read_uint_last n b (c ∷ bs) = read_uint_last (n * 256 + c) b bs

read_uint-put_uint : (k n : ℕ) → n < 256 ^ k → read_uint 0 (put_uint k n) ≡ n
unfolding put_uint
read_uint-put_uint zero n h = unfold read_uint in omega arith
read_uint-put_uint (suc k) n h =
    rw read_uint_last
      (omega (arith, read_uint-put_uint k (n / 256) (omega (arith, pow-suc 256 k)), pow-suc 256 k))

length-put_uint : (k n : ℕ) → length (put_uint k n) ≡ k
unfolding put_uint
length-put_uint zero n = refl
length-put_uint (suc k) n =
    omega
      (arith, length-append (put_uint k (n / 256)) ((n % 256) ∷ []), length-put_uint k (n / 256))

put_uint-IsByte : (k n : ℕ) → All IsByte (put_uint k n)
unfolding put_uint
put_uint-IsByte zero n = tt
put_uint-IsByte (suc k) n =
    All-append IsByte (put_uint k (n / 256)) ((n % 256) ∷ []) (put_uint-IsByte k (n / 256))
      (omega arith)

take-append : (k : ℕ) (xs ys : Bytes) → length xs ≡ k → take k (xs ++ ys) ≡ xs
take-append zero [] ys h = refl
take-append zero (x ∷ xs) ys h = absurd (omega arith)
take-append (suc k) [] ys h = absurd (omega arith)
take-append (suc k) (x ∷ xs) ys h = ap (◌∷◌ x) (take-append k xs ys (omega arith))

drop-append : (k : ℕ) (xs ys : Bytes) → length xs ≡ k → drop k (xs ++ ys) ≡ ys
drop-append zero [] ys h = refl
drop-append zero (x ∷ xs) ys h = absurd (omega arith)
drop-append (suc k) [] ys h = absurd (omega arith)
drop-append (suc k) (x ∷ xs) ys h = drop-append k xs ys (omega arith)

module _ (a b c : Bytes) (ha : length a ≡ 4) (hb : length b ≡ 8) (hc : length c ≡ 8) where
  length_all : length (a ++ (b ++ c)) ≡ 20
  length_all = omega (arith, length-append a (b ++ c), length-append b c)

  last_eight : drop 12 (a ++ (b ++ c)) ≡ c
  last_eight =
      ap (drop 12) (sym (append_assoc a b c))
      ∙ drop-append 12 (a ++ b) c (omega (arith, length-append a b))

  address_fields_lem :
      address_fields (some (a ++ (b ++ c))) ≡ ok (read_uint 0 a, read_uint 0 b, read_uint 0 c)
  unfolding address_fields
  address_fields_lem = rw ((==_iff (length (a ++ (b ++ c))) 20).1 length_all) λ i. ok (
    read_uint 0 (take-append 4 a (b ++ c) ha i),
    read_uint 0 (middle i),
    read_uint 0 ((ap (take 8) last_eight ∙ whole) i),
  )
    where
      whole : take 8 c ≡ c
      whole = ap (take 8) (sym (append-nil c)) ∙ take-append 8 c [] hc

      middle : take 8 (drop 4 (a ++ (b ++ c))) ≡ b
      middle = ap (take 8) (drop-append 4 a (b ++ c) ha) ∙ take-append 8 b c hb

-- The address of an id has forty characters, and reading it gives the realm and the number back,
-- and the low 32 bits of the shard.
pub id_from_solidity_address-id_to_solidity_address :
    (shard realm num : ℕ)
    → realm < 2 ^ 64
    → num < 2 ^ 64
    → (length (id_to_solidity_address shard realm num) ≡ 40)
      × (id_from_solidity_address (id_to_solidity_address shard realm num)
          ≡ ok (shard % 2 ^ 32, realm, num))
unfolding id_to_solidity_address id_from_solidity_address
id_from_solidity_address-id_to_solidity_address shard realm num hr hn = (
  length-hex_encode (a ++ (b ++ c)) ∙ ap (λ n. 2 * n) (length_all a b c ha hb hc),
  ap address_fields (hex_decode-hex_encode (a ++ (b ++ c)) bytes)
      ∙ address_fields_lem a b c ha hb hc
      ∙ (λ i. ok (
        read_uint-put_uint 4 (shard % 2 ^ 32) (omega arith) i,
        read_uint-put_uint 8 realm hr i,
        read_uint-put_uint 8 num hn i,
      )),
)
  where
    a : Bytes
    a = put_uint 4 (shard % 2 ^ 32)

    b : Bytes
    b = put_uint 8 realm

    c : Bytes
    c = put_uint 8 num

    ha : length a ≡ 4
    ha = length-put_uint 4 (shard % 2 ^ 32)

    hb : length b ≡ 8
    hb = length-put_uint 8 realm

    hc : length c ≡ 8
    hc = length-put_uint 8 num

    bytes : All IsByte (a ++ (b ++ c))
    bytes =
        All-append IsByte a (b ++ c) (put_uint-IsByte 4 (shard % 2 ^ 32))
          (All-append IsByte b c (put_uint-IsByte 8 realm) (put_uint-IsByte 8 num))
