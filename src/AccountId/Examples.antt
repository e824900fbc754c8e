-- ===== src/AccountId/Examples.antt =====
-- Account ids of account_id.go at concrete values, with byte strings for keys.
use hedera_sdk_go.Prelude.{
  ◌≡◌, ◌∷◌, [], refl, true, false, Option, some, none, arith, length, if◌then◌else◌, ltb,
}
use hedera_sdk_go.Prelude.Text.{Bytes, codes}
use hedera_sdk_go.Client.{Client}
use hedera_sdk_go.Strconv.{format}
use hedera_sdk_go.AccountId.{AccountId, is_zero}
use hedera_sdk_go.AccountId.Laws.{IsNumbered}

abbrev key_text : Bytes → Bytes
key_text k = k

-- A reader of keys that takes texts of 64 characters and more.
abbrev read_key : Bytes → Option Bytes
read_key s = if ltb (length s) 64 then none else some s

abbrev account_3 : AccountId Bytes
account_3 = record {
  shard = 0;
  realm = 0;
  account = 3;
  alias_key = none;
  checksum = some (codes "vfmkw");
}

abbrev account_large : AccountId Bytes
account_large = record account_3 { account = 18446744073709551615 }

abbrev aliased : AccountId Bytes
aliased = record account_3 { account = 0; alias_key = some (codes "302a") }

abbrev testnet_client : Client
testnet_client = record {
  ledger_id = some (record { ledger_id_bytes = 1 ∷ [] });
  auto_validate_checksums = true;
}

account_3-IsNumbered : IsNumbered account_3
account_3-IsNumbered = record {
  shard-lt = omega arith;
  realm-lt = omega arith;
  account-lt = omega arith;
  no_alias = refl;
}

digits_refused : read_key (format 3) ≡ none
unfolding format
digits_refused = refl

not_zero : is_zero account_3 ≡ false
unfolding is_zero
not_zero = refl
