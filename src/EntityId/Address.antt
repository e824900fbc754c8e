-- ===== src/EntityId/Address.antt =====
-- `_ChecksumParseAddress` of entity_id.go on the text of an id.
use native.Mathlib.Decide.{ℕ_discrete}
use mathlib.Core.Path.{subst}
use hedera_sdk_go.Prelude.{
  ℕ, ◌^◌, ◌≤◌, ◌≡◌, refl, sym, ap, ◌∙◌, false, ◌&&◌, [], ◌∷◌, ◌++◌, some, arith, All, append-nil,
  ltb, if◌then◌else◌,
}
use hedera_sdk_go.Prelude.Int.{pos}
use hedera_sdk_go.Prelude.Outcome.{ok, err, bad_number}
use hedera_sdk_go.Prelude.Text.{Bytes}
use hedera_sdk_go.Strconv.{is_digit, format}
use hedera_sdk_go.Strconv.Decimal.{IsDigit, format-IsDigit, atoi-format, format_head, format-zero}
use hedera_sdk_go.Id.{dotted}
use hedera_sdk_go.EntityId.{
  check_checksum, checksum_parse_address, ParseAddressResult, parse_match, checksum_status,
}
use hedera_sdk_go.EntityId.Regexp.{
  Match, digit_run, match_number, match_dot, match_tail, match_address, find_address,
}

-- The text is empty or begins with another character than a digit.
abbrev EndsNumber : Bytes → Type 0
EndsNumber [] = Unit
EndsNumber (c ∷ s) = is_digit c ≡ false

digit_run-append :
    (s rest : Bytes) → All IsDigit s → EndsNumber rest → digit_run (s ++ rest) ≡ (s, rest)
unfolding digit_run
digit_run-append [] [] h k = refl
digit_run-append [] (c ∷ rest) h k = rw k
digit_run-append (c ∷ s) rest (hc, hs) k = ground (arith, digit_run-append s rest hs k)

match_number_head :
    (c : ℕ) (s rest : Bytes)
    → b'1' ≤ c
    → c ≤ b'9'
    → All IsDigit s
    → EndsNumber rest
    → match_number ((c ∷ s) ++ rest) ≡ some (c ∷ s, rest)
unfolding match_number
match_number_head c s rest lo hi hs k = ground (arith, digit_run-append s rest hs k)

match_number_zero : (rest : Bytes) → match_number (b'0' ∷ rest) ≡ some (b'0' ∷ [], rest)
unfolding match_number
match_number_zero rest = refl

match_number-format :
    (n : ℕ) (rest : Bytes)
    → EndsNumber rest
    → match_number (format n ++ rest) ≡ some (format n, rest)
match_number-format n rest k = elim (ℕ_discrete n 0) [
  | yes e ↦ rw (e, format-zero) (match_number_zero rest)
  | no ne ↦
      let (c, s, e, lo, hi) = format_head n (omega arith) in
      let tail : All IsDigit (c ∷ s) = subst (All IsDigit) e (format-IsDigit n) in
      rw e (match_number_head c s rest lo hi tail.1 k)
]

match_address-dotted :
    (a b c : ℕ)
    → match_address (dotted a b c)
      ≡ some (record { num1 = format a; num2 = format b; num3 = format c; checksum = [] })
unfolding match_address dotted match_dot match_tail
match_address-dotted a b c = rw (
  match_number-format a (b'.' ∷ (format b ++ (b'.' ∷ format c))) refl,
  match_number-format b (b'.' ∷ format c) refl,
  last,
)
  where
    last : match_number (format c) ≡ some (format c, [])
    last = ap match_number (sym (append-nil (format c))) ∙ match_number-format c [] tt

find_address_here : (s : Bytes) (a : Match) → match_address s ≡ some a → find_address s ≡ some a
unfolding find_address
find_address_here [] a e = e
find_address_here (c ∷ s) a e = rw (e, find_address)

-- The result for an address with no checksum: status 2 and the right checksum.
abbrev pub parsed : Bytes → ℕ → ℕ → ℕ → ParseAddressResult
parsed ledger_id a b c = record {
  status = 2;
  num1 = pos a;
  num2 = pos b;
  num3 = pos c;
  correct_checksum = check_checksum ledger_id (dotted a b c);
  given_checksum = [];
  no_checksum_format = dotted a b c;
  with_checksum_format =
      dotted a b c ++ (b'(' ∷ (check_checksum ledger_id (dotted a b c) ++ b')' ∷ []));
}

-- On the text of an id whose parts are int64 values, `_ChecksumParseAddress` succeeds with status
-- 2, the parts and the checksum of that text; on one with a larger part it is an error.
pub checksum_parse_address-dotted :
    (ledger_id : Bytes) (a b c : ℕ)
    → checksum_parse_address ledger_id (dotted a b c) ≡ (
        if ltb a (2 ^ 63) && ltb b (2 ^ 63) && ltb c (2 ^ 63)
        then ok (parsed ledger_id a b c)
        else err bad_number)
unfolding checksum_parse_address dotted checksum_status
checksum_parse_address-dotted ledger_id a b c =
    rw
      (
        find_address_here (dotted a b c) _ (match_address-dotted a b c),
        parse_match,
        atoi-format a,
        atoi-format b,
        atoi-format c,
      )
      (ground arith)
