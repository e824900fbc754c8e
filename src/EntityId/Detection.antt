-- ===== src/EntityId/Detection.antt =====
-- Which changes of an address the checksum of entity_id.go detects.
use hedera_sdk_go.Prelude.{
  ℕ, ◌≢◌, ◌+◌, ◌*◌, ◌%◌, ◌<◌, ◌≡◌, ◌⊎◌, Bool, true, false, List, [], ◌∷◌, ◌++◌, length, map, arith,
  All,
}
use hedera_sdk_go.Prelude.Text.{Bytes}
use hedera_sdk_go.Strconv.Decimal.{IsDigit}
use hedera_sdk_go.EntityId.{
  p3, p5, Sums, digit_of, sum_digit, sum_digits, zero_sums, checksum_number, check_checksum,
}
use hedera_sdk_go.EntityId.Letters.{letters_injective, times_m_injective, IsLetter, letters_form}

pub record IsReduced (t : Sums) : Type 0 where
  pub s-lt : t.s < p3
  pub s0-lt : t.s0 < 11
  pub s1-lt : t.s1 < 11

sum_digit-IsReduced :
    (even : Bool) (d : ℕ) (t : Sums) → IsReduced t → IsReduced (sum_digit even d t)
unfolding sum_digit
sum_digit-IsReduced even d t h = ground arith

sum_digits-IsReduced :
    (even : Bool) (ds : List ℕ) (t : Sums) → IsReduced t → IsReduced (sum_digits even ds t)
unfolding sum_digits
sum_digits-IsReduced even [] t h = h
sum_digits-IsReduced true (d ∷ ds) t h =
    sum_digits-IsReduced false ds _ (sum_digit-IsReduced true d t h)
sum_digits-IsReduced false (d ∷ ds) t h =
    sum_digits-IsReduced true ds _ (sum_digit-IsReduced false d t h)

-- Adding the same number modulo p5 loses nothing below p5.
shift_injective : (x y sh : ℕ) → x < p5 → y < p5 → (x + sh) % p5 ≡ (y + sh) % p5 → x ≡ y
shift_injective x y sh hx hy e = omega arith

-- Mixed digits to the bases 11, 11 and p3.
mixed_injective :
    (a b c d a' b' c' d' : ℕ)
    → b < 11
    → c < 11
    → d < p3
    → b' < 11
    → c' < 11
    → d' < p3
    → ((a * 11 + b) * 11 + c) * p3 + d ≡ ((a' * 11 + b') * 11 + c') * p3 + d'
    → (a ≡ a') × (b ≡ b') × (c ≡ c') × (d ≡ d')
mixed_injective a b c d a' b' c' d' hb hc hd hb' hc' hd' e =
    (omega arith, omega arith, omega arith, omega arith)

-- The number of a checksum determines the length modulo 5 and the three sums.
pub checksum_number_injective :
    (n n' sh : ℕ) (t t' : Sums)
    → IsReduced t
    → IsReduced t'
    → checksum_number n t sh ≡ checksum_number n' t' sh
    → (n % 5 ≡ n' % 5) × (t.s0 ≡ t'.s0) × (t.s1 ≡ t'.s1) × (t.s ≡ t'.s)
unfolding checksum_number
checksum_number_injective n n' sh t t' h h' e =
    mixed_injective (n % 5) t.s0 t.s1 t.s (n' % 5) t'.s0 t'.s1 t'.s h.s0-lt h.s1-lt h.s-lt h'.s0-lt
      h'.s1-lt h'.s-lt
      (shift_injective _ _ sh (omega arith) (omega arith)
        (times_m_injective _ _ (omega arith) (omega arith) e))

abbrev sums_of : Bytes → Sums
sums_of address = sum_digits true (map digit_of address) zero_sums

zero_sums-IsReduced : IsReduced zero_sums
unfolding zero_sums
zero_sums-IsReduced = omega arith

-- Two addresses with one checksum on a ledger have the same length modulo 5 and the same sums.
check_checksum_injective :
    (ledger_id a a' : Bytes)
    → check_checksum ledger_id a ≡ check_checksum ledger_id a'
    → (length a % 5 ≡ length a' % 5)
      × ((sums_of a).s0 ≡ (sums_of a').s0)
      × ((sums_of a).s1 ≡ (sums_of a').s1)
      × ((sums_of a).s ≡ (sums_of a').s)
unfolding check_checksum
check_checksum_injective ledger_id a a' e =
    checksum_number_injective (length a) (length a') _ (sums_of a) (sums_of a')
      (sum_digits-IsReduced true (map digit_of a) zero_sums zero_sums-IsReduced)
      (sum_digits-IsReduced true (map digit_of a') zero_sums zero_sums-IsReduced)
      (letters_injective _ _ (number-lt _ _ _) (number-lt _ _ _) e)
  where
    number-lt : (n : ℕ) (t : Sums) (sh : ℕ) → checksum_number n t sh < p5
    number-lt n t sh = unfold checksum_number in omega arith

sum_digit_back :
    (even : Bool) (d : ℕ) (t t' : Sums)
    → IsReduced t
    → IsReduced t'
    → ((sum_digit even d t).s0 ≡ (sum_digit even d t').s0)
      × ((sum_digit even d t).s1 ≡ (sum_digit even d t').s1)
    → (t.s0 ≡ t'.s0) × (t.s1 ≡ t'.s1)
unfolding sum_digit
sum_digit_back true d t t' h h' (e0, e1) = (omega arith, e1)
sum_digit_back false d t t' h h' (e0, e1) = (e0, omega arith)

-- Two states that differ in s0 or s1 still differ behind the same digits.
sums_back :
    (even : Bool) (ds : List ℕ) (t t' : Sums)
    → IsReduced t
    → IsReduced t'
    → (sum_digits even ds t).s0 ≡ (sum_digits even ds t').s0
    → (sum_digits even ds t).s1 ≡ (sum_digits even ds t').s1
    → (t.s0 ≡ t'.s0) × (t.s1 ≡ t'.s1)
unfolding sum_digits
sums_back even [] t t' h h' e0 e1 = (e0, e1)
sums_back true (d ∷ ds) t t' h h' e0 e1 = sum_digit_back true d t t' h h' (
    sums_back false ds _ _ (sum_digit-IsReduced true d t h) (sum_digit-IsReduced true d t' h') e0
      e1)
sums_back false (d ∷ ds) t t' h h' e0 e1 = sum_digit_back false d t t' h h' (
    sums_back true ds _ _ (sum_digit-IsReduced false d t h) (sum_digit-IsReduced false d t' h') e0
      e1)

-- A digit or a '.'.
abbrev pub IsAddressChar : ℕ → Type 0
IsAddressChar c = IsDigit c ⊎ (c ≡ b'.')

digit_of_injective :
    (c c' : ℕ) → IsAddressChar c → IsAddressChar c' → digit_of c ≡ digit_of c' → c ≡ c'
unfolding digit_of
digit_of_injective c c' h h' e = ground arith

digit_of-lt : (c : ℕ) → IsAddressChar c → digit_of c < 11
unfolding digit_of
digit_of-lt c h = ground arith

module _ (c c' : ℕ) (post : Bytes) (h : IsAddressChar c) (h' : IsAddressChar c') where
  substituted :
      (even : Bool) (pre : Bytes) (t : Sums)
      → IsReduced t
      → (sum_digits even (map digit_of (pre ++ c ∷ post)) t).s0
        ≡ (sum_digits even (map digit_of (pre ++ c' ∷ post)) t).s0
      → (sum_digits even (map digit_of (pre ++ c ∷ post)) t).s1
        ≡ (sum_digits even (map digit_of (pre ++ c' ∷ post)) t).s1
      → digit_of c ≡ digit_of c'
  unfolding sum_digits
  substituted true [] t r e0 e1 =
      let (f0, f1) =
        sums_back false (map digit_of post) _ _ (sum_digit-IsReduced true (digit_of c) t r)
          (sum_digit-IsReduced true (digit_of c') t r) e0 e1 in
      unfold sum_digit in omega (arith, digit_of-lt c h, digit_of-lt c' h')
  substituted false [] t r e0 e1 =
      let (f0, f1) =
        sums_back true (map digit_of post) _ _ (sum_digit-IsReduced false (digit_of c) t r)
          (sum_digit-IsReduced false (digit_of c') t r) e0 e1 in
      unfold sum_digit in omega (arith, digit_of-lt c h, digit_of-lt c' h')
  substituted true (x ∷ pre) t r e0 e1 =
      substituted false pre _ (sum_digit-IsReduced true (digit_of x) t r) e0 e1
  substituted false (x ∷ pre) t r e0 e1 =
      substituted true pre _ (sum_digit-IsReduced false (digit_of x) t r) e0 e1

  swapped :
      (even : Bool) (pre : Bytes) (t : Sums)
      → IsReduced t
      → (sum_digits even (map digit_of (pre ++ c ∷ c' ∷ post)) t).s0
        ≡ (sum_digits even (map digit_of (pre ++ c' ∷ c ∷ post)) t).s0
      → (sum_digits even (map digit_of (pre ++ c ∷ c' ∷ post)) t).s1
        ≡ (sum_digits even (map digit_of (pre ++ c' ∷ c ∷ post)) t).s1
      → digit_of c ≡ digit_of c'
  unfolding sum_digits
  swapped true [] t r e0 e1 =
      let (f0, f1) =
        sums_back true (map digit_of post) _ _
          (sum_digit-IsReduced false (digit_of c') _ (sum_digit-IsReduced true (digit_of c) t r))
          (sum_digit-IsReduced false (digit_of c) _ (sum_digit-IsReduced true (digit_of c') t r)) e0
          e1 in
      unfold sum_digit in omega (arith, digit_of-lt c h, digit_of-lt c' h')
  swapped false [] t r e0 e1 =
      let (f0, f1) =
        sums_back false (map digit_of post) _ _
          (sum_digit-IsReduced true (digit_of c') _ (sum_digit-IsReduced false (digit_of c) t r))
          (sum_digit-IsReduced true (digit_of c) _ (sum_digit-IsReduced false (digit_of c') t r)) e0
          e1 in
      unfold sum_digit in omega (arith, digit_of-lt c h, digit_of-lt c' h')
  swapped true (x ∷ pre) t r e0 e1 =
      swapped false pre _ (sum_digit-IsReduced true (digit_of x) t r) e0 e1
  swapped false (x ∷ pre) t r e0 e1 =
      swapped true pre _ (sum_digit-IsReduced false (digit_of x) t r) e0 e1

-- Replacing one character of an address, a digit or a dot, by a different digit or dot changes its
-- checksum, on every ledger.
pub check_checksum_substitution :
    (ledger_id pre post : Bytes) (c c' : ℕ)
    → IsAddressChar c
    → IsAddressChar c'
    → c ≢ c'
    → check_checksum ledger_id (pre ++ c ∷ post) ≢ check_checksum ledger_id (pre ++ c' ∷ post)
check_checksum_substitution ledger_id pre post c c' h h' ne e =
    let (_, e0, e1, _) =
      check_checksum_injective ledger_id (pre ++ c ∷ post) (pre ++ c' ∷ post) e in
    ne (
      digit_of_injective c c' h h'
        (substituted c c' post h h' true pre zero_sums zero_sums-IsReduced e0 e1))

-- Swapping two different neighbours of an address, digits or dots, changes its checksum, on every
-- ledger.
pub check_checksum_transposition :
    (ledger_id pre post : Bytes) (c c' : ℕ)
    → IsAddressChar c
    → IsAddressChar c'
    → c ≢ c'
    → check_checksum ledger_id (pre ++ c ∷ c' ∷ post)
      ≢ check_checksum ledger_id (pre ++ c' ∷ c ∷ post)
check_checksum_transposition ledger_id pre post c c' h h' ne e =
    let (_, e0, e1, _) =
      check_checksum_injective ledger_id (pre ++ c ∷ c' ∷ post) (pre ++ c' ∷ c ∷ post) e in
    ne (
      digit_of_injective c c' h h'
        (swapped c c' post h h' true pre zero_sums zero_sums-IsReduced e0 e1))

-- Every checksum is five lower-case letters.
pub check_checksum_form :
    (ledger_id address : Bytes)
    → (length (check_checksum ledger_id address) ≡ 5)
      × All IsLetter (check_checksum ledger_id address)
unfolding check_checksum
check_checksum_form ledger_id address = letters_form _
