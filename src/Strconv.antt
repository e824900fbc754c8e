-- ===== src/Strconv.antt =====
-- The parts of Go's strconv, strings and encoding/hex that the SDK calls, over lists of bytes.
pub mod Decimal
pub mod Hex
pub mod Split
use hedera_sdk_go.Prelude.{
  ℕ, zero, suc, ◌+◌, ◌-◌, ◌*◌, ◌/◌, ◌%◌, ◌^◌, Bool, true, false, ◌||◌, ◌&&◌, List, [], ◌∷◌, Option,
  none, some, ltb, leb, ◌==◌, if◌then◌else◌,
}
use hedera_sdk_go.Prelude.Int.{ℤ, pos, neg}
use hedera_sdk_go.Prelude.Outcome.{Outcome, ok, err, bad_number, ◌>>=◌}
use hedera_sdk_go.Prelude.Text.{Bytes}

abbrev pub is_digit : ℕ → Bool
is_digit c = leb b'0' c && leb c b'9'

-- The digits of n in front of `out`; fuel n is enough, since n / 10 < n for a positive n.
unfoldable pub digits : ℕ → ℕ → Bytes → Bytes
digits zero n out = out
digits (suc f) n out =
    let more = digits f (n / 10) ((b'0' + n % 10) ∷ out) in if n == 0 then out else more

-- `fmt.Sprintf("%d", n)` and `strconv.FormatInt(n, 10)` of a number that is not negative.
unfoldable pub format : ℕ → Bytes
unfolding digits
format n = if n == 0 then b'0' ∷ [] else digits n n []

-- The value of a run of digits behind `n`; `none` on another byte.
unfoldable pub scan : ℕ → Bytes → Option ℕ
scan n [] = some n
scan n (c ∷ s) = let rest = scan (n * 10 + (c - b'0')) s in if is_digit c then rest else none

-- The syntax of an unsigned number: one digit at least.
unfoldable pub scan_number : Bytes → Option ℕ
unfolding scan
scan_number [] = none
scan_number (c ∷ s) = scan 0 (c ∷ s)

-- `strconv.ParseUint(s, 10, 64)`.
unfoldable pub parse_uint : Bytes → Outcome ℕ
unfolding scan_number
parse_uint s = elim (scan_number s) [
  | none ↦ err bad_number
  | some n ↦ if ltb n (2 ^ 64) then ok n else err bad_number
]

-- The range check of `strconv.ParseInt(s, 10, 64)`, behind the sign.
unfoldable pub in_int64 : Bool → Option ℕ → Outcome ℤ
in_int64 negative none = err bad_number
in_int64 false (some n) = if ltb n (2 ^ 63) then ok (pos n) else err bad_number
in_int64 true (some n) = if leb n (2 ^ 63) then ok (neg (pos n)) else err bad_number

-- `strconv.ParseInt(s, 10, 64)` and, where an int has 64 bits, `strconv.Atoi(s)`.
unfoldable pub atoi : Bytes → Outcome ℤ
unfolding scan_number in_int64
atoi [] = err bad_number
atoi (c ∷ s) =
    if c == b'-'
    then in_int64 true (scan_number s)
    else if c == b'+'
    then in_int64 false (scan_number s)
    else in_int64 false (scan_number (c ∷ s))

-- `strings.Contains(s, sep)` for one byte.
unfoldable pub contains : ℕ → Bytes → Bool
contains sep [] = false
contains sep (c ∷ s) = c == sep || contains sep s

-- The text before the first `sep`, and the text behind it if there is one.
unfoldable pub cut : ℕ → Bytes → Bytes × Option Bytes
cut sep [] = ([], none)
cut sep (c ∷ s) = let rest = cut sep s in if c == sep then ([], some s) else (c ∷ rest.0, rest.1)

-- `strings.SplitN(s, sep, n)` for one byte and n > 0: n parts at most.
unfoldable pub split_n : ℕ → ℕ → Bytes → List Bytes
unfolding cut
split_n sep zero s = []
split_n sep (suc zero) s = s ∷ []
split_n sep (suc (suc n)) s = elim (cut sep s).1 [
  | none ↦ (cut sep s).0 ∷ []
  | some rest ↦ (cut sep s).0 ∷ split_n sep (suc n) rest
]

-- The digit of a value below 16.
abbrev pub hex_digit : ℕ → ℕ
hex_digit d = if ltb d 10 then b'0' + d else 87 + d

-- The value of a hexadecimal digit, in either case.
abbrev pub hex_value : ℕ → Option ℕ
hex_value c =
    if is_digit c
    then some (c - b'0')
    else if leb b'a' c && leb c b'f'
    then some (c - 87)
    else if leb b'A' c && leb c b'F'
    then some (c - 55)
    else none

-- `hex.EncodeToString`.
unfoldable pub hex_encode : Bytes → Bytes
hex_encode [] = []
hex_encode (b ∷ bs) = hex_digit (b / 16) ∷ hex_digit (b % 16) ∷ hex_encode bs

-- `hex.DecodeString`; `none` stands for its error.
unfoldable pub hex_decode : Bytes → Option Bytes
hex_decode [] = some []
hex_decode (c ∷ []) = none
hex_decode (c ∷ d ∷ s) = elim (hex_value c) [
  | none ↦ none
  | some hi ↦ elim (hex_value d) [
    | none ↦ none
    | some lo ↦ elim (hex_decode s) [ none ↦ none | some bs ↦ some ((hi * 16 + lo) ∷ bs) ]
  ]
]
