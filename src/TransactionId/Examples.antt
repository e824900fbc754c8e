-- ===== src/TransactionId/Examples.antt =====
-- A transaction id of transaction_id.go at concrete values, with byte strings for keys.
use hedera_sdk_go.Prelude.{◌≡◌, refl, true, Option, none, some, arith, length, ltb, if◌then◌else◌}
use hedera_sdk_go.Prelude.Int.{negsuc, IsInt64}
use hedera_sdk_go.Prelude.Outcome.{ok}
use hedera_sdk_go.Prelude.Text.{Bytes, codes}
use hedera_sdk_go.Strconv.{format}
use hedera_sdk_go.AccountId
use hedera_sdk_go.AccountId.{AccountId}
use hedera_sdk_go.AccountId.Laws.{IsNumbered}
use hedera_sdk_go.TokenId.{format_int}
use hedera_sdk_go.Id.{dotted}
use hedera_sdk_go.TransactionId.{TransactionId, time_to_protobuf, to_string, from_string}
use hedera_sdk_go.TransactionId.RoundTrip.{from_string-to_string}

abbrev key_text : Bytes → Bytes
key_text k = k

-- A reader of keys that takes texts of 64 characters and more.
abbrev read_key : Bytes → Option Bytes
read_key s = if ltb (length s) 64 then none else some s

abbrev account_3 : AccountId Bytes
account_3 = record { shard = 0; realm = 0; account = 3; alias_key = none; checksum = none }

-- A start 1.5 seconds before 1970, and a negative nonce.
abbrev early_id : TransactionId Bytes
early_id = record {
  account_id = some account_3;
  valid_start = some (negsuc 1499999999);
  scheduled = true;
  nonce = some (negsuc 6);
}

early_text : to_string key_text early_id ≡ codes "0.0.3@-2.500000000?scheduled/-7"
unfolding to_string AccountId.to_string dotted format format_int time_to_protobuf
early_text = refl

account_3-IsNumbered : IsNumbered account_3
account_3-IsNumbered = record {
  shard-lt = omega arith;
  realm-lt = omega arith;
  account-lt = omega arith;
  no_alias = refl;
}

digits_refused : read_key (format 3) ≡ none
unfolding format
digits_refused = refl

seconds_fit : IsInt64 (time_to_protobuf (negsuc 1499999999)).seconds
unfolding time_to_protobuf
seconds_fit = omega arith

from_string-to_string_example : from_string read_key (to_string key_text early_id) ≡ ok early_id
from_string-to_string_example =
    from_string-to_string read_key key_text account_3 (negsuc 1499999999) true (some (negsuc 6))
      account_3-IsNumbered digits_refused seconds_fit (omega arith)
