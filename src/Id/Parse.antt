-- ===== src/Id/Parse.antt =====
-- What id.go reads back from the text of an entity id.
use hedera_sdk_go.Prelude.{
  ℕ, ◌^◌, ◌<◌, ◌≡◌, refl, [], ◌∷◌, ◌++◌, Option, none, some, arith, All, All-append, ltb,
  if◌then◌else◌, ◌&&◌,
}
use hedera_sdk_go.Prelude.Int.{pos}
use hedera_sdk_go.Prelude.Outcome.{Outcome, ok, err, bad_number}
use hedera_sdk_go.Prelude.Text.{Bytes}
use hedera_sdk_go.Strconv.{format, split_n}
use hedera_sdk_go.Strconv.Decimal.{IsDigit, format-IsDigit, atoi-format}
use hedera_sdk_go.Strconv.Split.{Lacks, contains-Lacks, contains_mid, split_n_mid, split_n-Lacks}
use hedera_sdk_go.Id.{dotted, ParsedId, split_checksum, split_address, id_from_string}

IsDigit-Lacks : (sep : ℕ) (s : Bytes) → sep < b'0' → All IsDigit s → Lacks sep s
IsDigit-Lacks sep [] h _ = tt
IsDigit-Lacks sep (c ∷ s) h (hc, hs) = (omega arith, IsDigit-Lacks sep s h hs)

format-Lacks : (sep n : ℕ) → sep < b'0' → Lacks sep (format n)
format-Lacks sep n h = IsDigit-Lacks sep (format n) h (format-IsDigit n)

dotted-Lacks : (a b c : ℕ) → Lacks b'-' (dotted a b c)
unfolding dotted
dotted-Lacks a b c = All-append _ (format a) _ (format-Lacks b'-' a (omega arith)) (
  omega arith,
  All-append _ (format b) _ (format-Lacks b'-' b (omega arith))
      (omega arith, format-Lacks b'-' c (omega arith)),
)

pub split_checksum-dotted : (a b c : ℕ) → split_checksum (dotted a b c) ≡ ok (dotted a b c, none)
unfolding split_checksum
split_checksum-dotted a b c = rw (contains-Lacks b'-' (dotted a b c) (dotted-Lacks a b c))

split_checksum_mid :
    (s checksum : Bytes)
    → Lacks b'-' s
    → split_checksum (s ++ b'-' ∷ checksum) ≡ ok (s, some checksum)
unfolding split_checksum
split_checksum_mid s checksum h =
    rw (contains_mid b'-' s checksum, split_n_mid b'-' 0 s checksum h) (unfold split_n in refl)

pub split_address-dotted :
    (a b c : ℕ) → split_address (dotted a b c) ≡ ok (format a, format b, format c)
unfolding split_address dotted
split_address-dotted a b c = rw (
  split_n_mid b'.' 1 (format a) (format b ++ (b'.' ∷ format c)) (format-Lacks b'.' a (omega arith)),
  split_n_mid b'.' 0 (format b) (format c) (format-Lacks b'.' b (omega arith)),
  split_n-Lacks b'.' 0 (format c) (format-Lacks b'.' c (omega arith)),
)

-- The id with these parts, if each is an int64 that is not negative, and the error of a bad number
-- otherwise.
abbrev pub read_back : ℕ → ℕ → ℕ → Option Bytes → Outcome ParsedId
read_back a b c checksum =
    if ltb a (2 ^ 63) && ltb b (2 ^ 63) && ltb c (2 ^ 63)
    then ok (record { shard = pos a; realm = pos b; num = pos c; checksum = checksum })
    else err bad_number

id_from_parts :
    (s : Bytes) (a b c : ℕ) (checksum : Option Bytes)
    → split_checksum s ≡ ok (dotted a b c, checksum)
    → id_from_string s ≡ read_back a b c checksum
unfolding id_from_string
id_from_parts s a b c checksum e =
    rw (e, split_address-dotted a b c, atoi-format a, atoi-format b, atoi-format c) (ground arith)

-- The text `{shard}.{realm}.{num}` that the SDK prints is read back as these numbers, with no
-- checksum, exactly when each of them is an int64; otherwise reading it is an error.
pub id_from_string-dotted : (a b c : ℕ) → id_from_string (dotted a b c) ≡ read_back a b c none
id_from_string-dotted a b c = id_from_parts (dotted a b c) a b c none (split_checksum-dotted a b c)

-- With `-` and any text behind it, that text is the checksum, dashes in it included.
pub id_from_string_checksum :
    (a b c : ℕ) (checksum : Bytes)
    → id_from_string (dotted a b c ++ b'-' ∷ checksum) ≡ read_back a b c (some checksum)
id_from_string_checksum a b c checksum =
    id_from_parts _ a b c (some checksum)
      (split_checksum_mid (dotted a b c) checksum (dotted-Lacks a b c))
