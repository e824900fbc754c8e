-- ===== src/EntityId.antt =====
-- entity_id.go: the checksum of an entity id on a ledger, and the check of an address with one.
-- The ints of the source stay below 2 ^ 63 here: every one is reduced modulo 26 ^ 5 or less before
-- it is multiplied by at most 1000003.
pub mod Regexp
pub mod Letters
pub mod Detection
pub mod Address
pub mod Validate
mod Examples
use hedera_sdk_go.Prelude.{
  ℕ, zero, suc, ◌+◌, ◌-◌, ◌*◌, ◌/◌, ◌%◌, Bool, true, false, List, [], ◌∷◌, ◌++◌, Option, none, some,
  ◌==◌, if◌then◌else◌, length, map,
}
use hedera_sdk_go.Prelude.Int.{ℤ}
use hedera_sdk_go.Prelude.Outcome.{
  Outcome, ok, err, panic, bad_format, bad_checksum_status, checksum_mismatch, out_of_range, ◌>>=◌,
}
use hedera_sdk_go.Prelude.Text.{Bytes, bytes_eq}
use hedera_sdk_go.Strconv.{is_digit, atoi}
use Regexp.{Match, find_address}

abbrev pub p3 : ℕ
p3 = 17576

abbrev pub p5 : ℕ
p5 = 11881376

abbrev pub w : ℕ
w = 31

abbrev pub m : ℕ
m = 1000003

-- A '.' counts 10, a digit its value; `Atoi` gives 0 on any other character.
unfoldable pub digit_of : ℕ → ℕ
digit_of j = if j == b'.' then 10 else if is_digit j then j - b'0' else 0

-- The loop over the digits, from the parity of the index.
pub record Sums : Type 0 where
  pub s : ℕ
  pub s0 : ℕ
  pub s1 : ℕ

unfoldable pub sum_digit : Bool → ℕ → Sums → Sums
sum_digit even d t = record {
  s = (w * t.s + d) % p3;
  s0 = if even then (t.s0 + d) % 11 else t.s0;
  s1 = if even then t.s1 else (t.s1 + d) % 11;
}

unfoldable pub sum_digits : Bool → List ℕ → Sums → Sums
sum_digits even [] t = t
sum_digits true (d ∷ ds) t = sum_digits false ds (sum_digit true d t)
sum_digits false (d ∷ ds) t = sum_digits true ds (sum_digit false d t)

-- The loop over the ledger id.
unfoldable pub sum_ledger : ℕ → Bytes → ℕ
sum_ledger sh [] = sh
sum_ledger sh (b ∷ h) = sum_ledger ((w * sh + b) % p5) h

-- The last loop: k letters in front of `answer`, the lowest digit to base 26 first.
unfoldable pub letters : ℕ → ℕ → Bytes → Bytes
letters zero checksum answer = answer
letters (suc k) checksum answer = letters k (checksum / 26) ((b'a' + checksum % 26) ∷ answer)

unfoldable pub zero_sums : Sums
zero_sums = record { s = 0; s0 = 0; s1 = 0 }

-- The number that the letters spell, from the length of the address, its sums and the ledger's.
unfoldable pub checksum_number : ℕ → Sums → ℕ → ℕ
checksum_number n t sh = ((((n % 5) * 11 + t.s0) * 11 + t.s1) * p3 + t.s + sh) % p5 * m % p5

-- `_CheckChecksum`: the ledger id is followed by six zero bytes.
unfoldable pub check_checksum : Bytes → Bytes → Bytes
unfolding sum_digits sum_digit sum_ledger letters checksum_number zero_sums digit_of
check_checksum ledger_id address =
    let t = sum_digits true (map digit_of address) zero_sums in
    let sh = sum_ledger 0 (ledger_id ++ (0 ∷ 0 ∷ 0 ∷ 0 ∷ 0 ∷ 0 ∷ [])) in
    letters 5 (checksum_number (length address) t sh) []

-- `_ParseAddressResult`
pub record ParseAddressResult : Type 0 where
  pub status : ℕ
  pub num1 : ℤ
  pub num2 : ℤ
  pub num3 : ℤ
  pub correct_checksum : Bytes
  pub given_checksum : Bytes
  pub no_checksum_format : Bytes
  pub with_checksum_format : Bytes

-- `_ChecksumVerify`
unfoldable pub checksum_verify : ℕ → Outcome (Unit {0})
checksum_verify num =
    if num == 0
    then err bad_format
    else if num == 1
    then err checksum_mismatch
    else if num == 2
    then ok tt
    else if num == 3
    then ok tt
    else err bad_checksum_status

-- The switch over the checksum that the address gives.
unfoldable pub checksum_status : Bytes → Bytes → ℕ
checksum_status given correct =
    if bytes_eq given [] then 2 else if bytes_eq given correct then 3 else 1

-- What `_ChecksumParseAddress` does with a match; without one it reads past the end of a nil slice.
parse_match : Bytes → Option Match → Outcome ParseAddressResult
unfolding checksum_status
parse_match ledger_id none = panic out_of_range
parse_match ledger_id (some a) = do
  num1 ← atoi a.num1
  num2 ← atoi a.num2
  num3 ← atoi a.num3
  let ad = a.num1 ++ (b'.' ∷ (a.num2 ++ (b'.' ∷ a.num3)))
  let checksum = check_checksum ledger_id ad
  ok (record {
    status = checksum_status a.checksum checksum;
    num1 = num1;
    num2 = num2;
    num3 = num3;
    correct_checksum = checksum;
    given_checksum = a.checksum;
    no_checksum_format = ad;
    with_checksum_format = ad ++ (b'(' ∷ (checksum ++ b')' ∷ []));
  })

-- `_ChecksumParseAddress`
unfoldable pub checksum_parse_address : Bytes → Bytes → Outcome ParseAddressResult
unfolding parse_match
checksum_parse_address ledger_id address = parse_match ledger_id (find_address address)
