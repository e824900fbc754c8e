-- ===== src/AccountId.antt =====
-- account_id.go. The type of public keys, their texts and their protobuf bytes, which crypto.go
-- takes from its cryptographic libraries, are arguments. JSON and marshalling are not modelled.
pub mod Laws
mod Examples
use hedera_sdk_go.Prelude.{
  ℕ, Bool, true, ◌&&◌, not, ◌++◌, ◌∷◌, Option, none, some, ◌==◌, if◌then◌else◌, is_some,
}
use hedera_sdk_go.Prelude.Int.{ℤ, negsuc, to_uint64, to_int64, eq_ℤ}
use hedera_sdk_go.Prelude.Outcome.{Outcome, ok, err, has_alias, ◌>>=◌}
use hedera_sdk_go.Prelude.Text.{Bytes, bytes_eq}
use hedera_sdk_go.Client.{Client}
use hedera_sdk_go.Strconv.{format}
use hedera_sdk_go.Id.{
  dotted, account_id_from_string, id_from_solidity_address, id_to_solidity_address,
}
use hedera_sdk_go.EntityId.Validate.{validate_numbers, string_with_checksum}
use hedera_sdk_go.Compare.{Comparison, equal, compare_then, then_compare, compare_bytes}

pub record AccountId (Key : Type 0) : Type 0 where
  pub shard : ℕ  -- uint64
  pub realm : ℕ  -- uint64
  pub account : ℕ  -- uint64
  pub alias_key : Option Key
  pub checksum : Option Bytes

-- The `oneof` of `services.AccountID`.
pub data AccountField : Type 0 where
  unset : AccountField
  account_num : ℤ → AccountField
  alias : Bytes → AccountField

-- `services.AccountID`
pub record AccountIdMessage : Type 0 where
  pub shard_num : ℤ
  pub realm_num : ℤ
  pub field : AccountField

module _ {Key : Type 0} where
  -- `AccountID{}`
  abbrev pub zero_account : AccountId Key
  zero_account = record { shard = 0; realm = 0; account = 0; alias_key = none; checksum = none }

  -- `AccountIDFromString`, with `PublicKeyFromString` as an argument.
  unfoldable pub from_string : (Bytes → Option Key) → Bytes → Outcome (AccountId Key)
  from_string public_key_from_string s = do
    parsed ← account_id_from_string public_key_from_string s
    ok (
        if eq_ℤ parsed.num (negsuc 0)
        then (record {
          shard = to_uint64 parsed.shard;
          realm = to_uint64 parsed.realm;
          account = 0;
          alias_key = parsed.alias;
          checksum = parsed.checksum;
        })
        else (record {
          shard = to_uint64 parsed.shard;
          realm = to_uint64 parsed.realm;
          account = to_uint64 parsed.num;
          alias_key = none;
          checksum = parsed.checksum;
        }))

  unfoldable pub from_solidity_address : Bytes → Outcome (AccountId Key)
  from_solidity_address s = do
    parts ← id_from_solidity_address s
    ok (record {
      shard = parts.0;
      realm = parts.1;
      account = parts.2;
      alias_key = none;
      checksum = none;
    })

  unfoldable pub to_solidity_address : AccountId Key → Bytes
  to_solidity_address id = id_to_solidity_address id.shard id.realm id.account

  -- `_IsZero`
  unfoldable pub is_zero : AccountId Key → Bool
  is_zero id = id.shard == 0 && id.realm == 0 && id.account == 0 && not (is_some id.alias_key)

  -- The guard of `ValidateChecksum` behind the test of the alias, and the check.
  checked_on : AccountId Key → Option Client → Outcome (Unit {0})
  unfolding is_zero
  checked_on id none = ok tt
  checked_on id (some client) = elim client.ledger_id [
    | none ↦ ok tt
    | some ledger ↦
        if is_zero id
        then ok tt
        else validate_numbers ledger id.shard id.realm id.account id.checksum
  ]

  unfoldable pub validate_checksum : AccountId Key → Option Client → Outcome (Unit {0})
  unfolding checked_on
  validate_checksum id client = if is_some id.alias_key then err has_alias else checked_on id client

  unfoldable pub to_string_with_checksum : AccountId Key → Client → Outcome Bytes
  to_string_with_checksum id client =
      if is_some id.alias_key
      then err has_alias
      else string_with_checksum client id.shard id.realm id.account

  -- `String`, with the text of a key as an argument.
  unfoldable pub to_string : (Key → Bytes) → AccountId Key → Bytes
  to_string key_string id = elim id.alias_key [
    | none ↦ dotted id.shard id.realm id.account
    | some key ↦ format id.shard ++ (b'.' ∷ (format id.realm ++ (b'.' ∷ key_string key)))
  ]

  -- `_ToProtobuf`; `marshal_key` gives the bytes of the protobuf message of a key.
  unfoldable pub to_protobuf : (Key → Bytes) → AccountId Key → AccountIdMessage
  to_protobuf marshal_key id = record {
    shard_num = to_int64 id.shard;
    realm_num = to_int64 id.realm;
    field = elim id.alias_key [
      | none ↦ account_num (to_int64 id.account)
      | some key ↦ alias (marshal_key key)
    ];
  }

  -- `_AccountIDFromProtobuf`; `unmarshal_key` reads a public key from protobuf bytes.
  field_from_protobuf : (Bytes → Option Key) → ℤ → ℤ → AccountField → AccountId Key
  field_from_protobuf unmarshal_key shard_num realm_num unset = zero_account
  field_from_protobuf unmarshal_key shard_num realm_num (account_num n) = record {
    shard = to_uint64 shard_num;
    realm = to_uint64 realm_num;
    account = to_uint64 n;
    alias_key = none;
    checksum = none;
  }
  field_from_protobuf unmarshal_key shard_num realm_num (alias bytes) = elim (unmarshal_key bytes) [
    | none ↦ zero_account
    | some key ↦ record {
      shard = to_uint64 shard_num;
      realm = to_uint64 realm_num;
      account = 0;
      alias_key = some key;
      checksum = none;
    }
  ]

  unfoldable pub from_protobuf :
      (Bytes → Option Key) → Option AccountIdMessage → Option (AccountId Key)
  unfolding field_from_protobuf
  from_protobuf unmarshal_key none = none
  from_protobuf unmarshal_key (some pb) =
      some (field_from_protobuf unmarshal_key pb.shard_num pb.realm_num pb.field)

  -- The texts of the aliases are compared where both ids have one.
  abbrev pub same_alias : (Key → Bytes) → Option Key → Option Key → Bool
  same_alias key_string (some a) (some b) = bytes_eq (key_string a) (key_string b)
  same_alias key_string none b = true
  same_alias key_string (some a) none = true

  -- `_Equals`
  unfoldable pub equals : (Key → Bytes) → AccountId Key → AccountId Key → Bool
  equals key_string id other =
      id.shard == other.shard
      && id.realm == other.realm
      && id.account == other.account
      && same_alias key_string id.alias_key other.alias_key

  abbrev pub compare_alias : (Key → Bytes) → Option Key → Option Key → Comparison
  compare_alias key_string (some a) (some b) = compare_bytes (key_string a) (key_string b)
  compare_alias key_string none b = equal
  compare_alias key_string (some a) none = equal

  unfoldable pub compare : (Key → Bytes) → AccountId Key → AccountId Key → Comparison
  compare key_string id given = compare_then id.shard given.shard (
      compare_then id.realm given.realm (
        then_compare (compare_alias key_string id.alias_key given.alias_key)
          (compare_then id.account given.account equal)))
