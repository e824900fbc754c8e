-- ===== src/TransactionId.antt =====
-- transaction_id.go and the timestamps of time.go: the text of a transaction id. A start is its
-- number of nanoseconds.
pub mod RoundTrip
mod Examples
use hedera_sdk_go.Prelude.{
  ℕ, suc, ◌-◌, ◌*◌, ◌/◌, ◌%◌, ◌^◌, Bool, true, false, [], ◌∷◌, ◌++◌, Option, none, some, ltb, leb,
  ◌==◌, if◌then◌else◌,
}
use hedera_sdk_go.Prelude.Int.{ℤ, pos, negsuc, neg, ◌+ℤ◌}
use hedera_sdk_go.Prelude.Outcome.{Outcome, ok, err, bad_format, ◌>>=◌}
use hedera_sdk_go.Prelude.Text.{Bytes, codes, bytes_eq}
use hedera_sdk_go.Strconv.{format, scan_number, atoi, cut}
use hedera_sdk_go.AccountId
use hedera_sdk_go.AccountId.{AccountId}
use hedera_sdk_go.TokenId.{format_int}

pub record TransactionId (Key : Type 0) : Type 0 where
  pub account_id : Option (AccountId Key)
  pub valid_start : Option ℤ
  pub scheduled : Bool
  pub nonce : Option ℤ  -- int32

-- `services.Timestamp`
pub record Timestamp : Type 0 where
  pub seconds : ℤ
  pub nanos : ℕ

-- `_TimeToProtobuf`: the whole seconds, cut down, and the nanoseconds behind them.
unfoldable pub time_to_protobuf : ℤ → Timestamp
time_to_protobuf (pos n) = record { seconds = pos (n / 1000000000); nanos = n % 1000000000 }
time_to_protobuf (negsuc n) = record {
  seconds = negsuc (n / 1000000000);
  nanos = 999999999 - n % 1000000000;
}

-- `time.Unix`
unfoldable pub unix : ℤ → ℤ → ℤ
unix (pos seconds) nanos = pos (seconds * 1000000000) +ℤ nanos
unix (negsuc seconds) nanos = neg (pos (suc seconds * 1000000000)) +ℤ nanos

abbrev pub scheduled_text : Bool → Bytes
scheduled_text true = b'?' ∷ codes "scheduled"
scheduled_text false = []

abbrev pub nonce_text : Option ℤ → Bytes
nonce_text none = []
nonce_text (some nonce) = b'/' ∷ format_int nonce

abbrev pub start_text : Timestamp → Bytes
start_text t = format_int t.seconds ++ b'.' ∷ format t.nanos

-- The account and the start, where both are set.
abbrev pub base_text : Bytes → ℤ → Bytes
base_text account start = account ++ b'@' ∷ start_text (time_to_protobuf start)

-- `strconv.ParseInt(s, 10, 32)` with its error dropped: 0 for no number, the nearest int32 for a
-- number out of range.
unfoldable pub int32_of : Bool → Option ℕ → ℤ
int32_of negative none = pos 0
int32_of false (some n) = if ltb n (2 ^ 31) then pos n else pos 2147483647
int32_of true (some n) = if leb n (2 ^ 31) then neg (pos n) else neg (pos 2147483648)

unfoldable pub parse_int32 : Bytes → ℤ
unfolding scan_number int32_of
parse_int32 [] = pos 0
parse_int32 (c ∷ s) =
    if c == b'-'
    then int32_of true (scan_number s)
    else if c == b'+'
    then int32_of false (scan_number s)
    else int32_of false (scan_number (c ∷ s))

abbrev pub is_scheduled : Option Bytes → Bool
is_scheduled none = false
is_scheduled (some s) = bytes_eq s (codes "scheduled")

abbrev pub nonce_of : Option Bytes → Option ℤ
nonce_of none = none
nonce_of (some s) = some (parse_int32 s)

module _ {Key : Type 0} where
  -- `String`, with the text of a key as an argument.
  unfoldable pub to_string : (Key → Bytes) → TransactionId Key → Bytes
  unfolding AccountId.to_string
  to_string key_string id =
      let tail = scheduled_text id.scheduled ++ nonce_text id.nonce in
      elim id.account_id [
        | none ↦ tail
        | some account ↦ elim id.valid_start [
          | none ↦ tail
          | some start ↦ base_text (AccountId.to_string key_string account) start ++ tail
        ]
      ]

  -- The account and the start; `strings.SplitN` into two parts is a cut at the first separator.
  unfoldable pub read_base :
      (Bytes → Option Key) → Bytes → Bool → Option ℤ → Outcome (TransactionId Key)
  unfolding AccountId.from_string
  read_base public_key_from_string s scheduled nonce = elim (cut b'@' s).1 [
    | none ↦ err bad_format
    | some start ↦ do
      account ← AccountId.from_string public_key_from_string (cut b'@' s).0
      elim (cut b'.' start).1 [
        | none ↦ err bad_format
        | some nanos ↦ do
          seconds ← atoi (cut b'.' start).0
          nano ← atoi nanos
          ok (record {
            account_id = some account;
            valid_start = some (unix seconds nano);
            scheduled = scheduled;
            nonce = nonce;
          })
      ]
  ]

  -- `TransactionIdFromString`
  unfoldable pub from_string : (Bytes → Option Key) → Bytes → Outcome (TransactionId Key)
  unfolding read_base
  from_string public_key_from_string s =
      read_base public_key_from_string (cut b'?' (cut b'/' s).0).0
        (is_scheduled (cut b'?' (cut b'/' s).0).1) (nonce_of (cut b'/' s).1)
