-- ===== src/TokenId.antt =====
-- token_id.go and nft_id.go. `TokenID` and `NftID` values are records; `services.TokenID`, the
-- protobuf message, is a record of int64 values. Marshalling to bytes is not modelled.
pub mod Checksum
pub mod Order
mod Examples
use hedera_sdk_go.Prelude.{ℕ, ◌+◌, Bool, ◌&&◌, ◌∷◌, ◌++◌, Option, none, some, ◌==◌, if◌then◌else◌}
use hedera_sdk_go.Prelude.Int.{ℤ, pos, negsuc, to_uint64, to_int64, pos_part, neg_part}
use hedera_sdk_go.Prelude.Outcome.{Outcome, ok, panic, wrong_format, ◌>>=◌}
use hedera_sdk_go.Prelude.Text.{Bytes}
use hedera_sdk_go.Client.{Client}
use hedera_sdk_go.Strconv.{atoi, format, cut}
use hedera_sdk_go.Id.{dotted, id_from_string, id_from_solidity_address, id_to_solidity_address}
use hedera_sdk_go.EntityId.Validate.{validate_numbers, string_with_checksum}
use hedera_sdk_go.Compare.{Comparison, equal, compare_then}

pub record TokenId : Type 0 where
  pub shard : ℕ  -- uint64
  pub realm : ℕ  -- uint64
  pub token : ℕ  -- uint64
  pub checksum : Option Bytes

-- `services.TokenID`
pub record TokenIdMessage : Type 0 where
  pub shard_num : ℤ
  pub realm_num : ℤ
  pub token_num : ℤ

unfoldable pub from_protobuf : Option TokenIdMessage → Option TokenId
from_protobuf none = none
from_protobuf (some pb) = some (record {
  shard = to_uint64 pb.shard_num;
  realm = to_uint64 pb.realm_num;
  token = to_uint64 pb.token_num;
  checksum = none;
})

unfoldable pub to_protobuf : TokenId → TokenIdMessage
to_protobuf id = record {
  shard_num = to_int64 id.shard;
  realm_num = to_int64 id.realm;
  token_num = to_int64 id.token;
}

-- `String`
unfoldable pub to_string : TokenId → Bytes
to_string id = dotted id.shard id.realm id.token

unfoldable pub to_string_with_checksum : TokenId → Client → Outcome Bytes
to_string_with_checksum id client = string_with_checksum client id.shard id.realm id.token

unfoldable pub from_string : Bytes → Outcome TokenId
from_string s = do
  parsed ← id_from_string s
  ok (record {
    shard = to_uint64 parsed.shard;
    realm = to_uint64 parsed.realm;
    token = to_uint64 parsed.num;
    checksum = parsed.checksum;
  })

-- `_IsZero`
unfoldable pub is_zero : TokenId → Bool
is_zero id = id.shard == 0 && id.realm == 0 && id.token == 0

-- The guard `!id._IsZero() && client != nil && client.network.ledgerID != nil` of
-- `ValidateChecksum`, and the check behind it.
unfoldable pub validate_checksum : TokenId → Option Client → Outcome (Unit {0})
unfolding is_zero
validate_checksum id none = ok tt
validate_checksum id (some client) = elim client.ledger_id [
  | none ↦ ok tt
  | some ledger ↦
      if is_zero id then ok tt else validate_numbers ledger id.shard id.realm id.token id.checksum
]

unfoldable pub from_solidity_address : Bytes → Outcome TokenId
from_solidity_address s = do
  parts ← id_from_solidity_address s
  ok (record { shard = parts.0; realm = parts.1; token = parts.2; checksum = none })

unfoldable pub to_solidity_address : TokenId → Bytes
to_solidity_address id = id_to_solidity_address id.shard id.realm id.token

unfoldable pub compare : TokenId → TokenId → Comparison
compare id given =
    compare_then id.shard given.shard
      (compare_then id.realm given.realm (compare_then id.token given.token equal))

-- nft_id.go

pub record NftId : Type 0 where
  pub token_id : TokenId
  pub serial_number : ℤ  -- int64

-- `TokenID.Nft`
unfoldable pub nft : TokenId → ℤ → NftId
nft id serial = record { token_id = id; serial_number = serial }

-- `%d` of an int64.
unfoldable pub format_int : ℤ → Bytes
format_int (pos n) = format n
format_int (negsuc n) = b'-' ∷ format (n + 1)

-- `NftID.String`
unfoldable pub nft_to_string : NftId → Bytes
unfolding format_int
nft_to_string id = format_int id.serial_number ++ (b'@' ∷ to_string id.token_id)

-- `NftIDFromString`, with the second part of `strings.Split(s, "@")`, which ends at the next '@'.
unfoldable pub nft_from_string : Bytes → Outcome NftId
nft_from_string s = elim (cut b'@' s).1 [
  | none ↦ panic wrong_format
  | some rest ↦ do
    parsed ← id_from_string (cut b'@' rest).0
    serial ← atoi (cut b'@' s).0
    ok (record {
      token_id = record {
        shard = to_uint64 parsed.shard;
        realm = to_uint64 parsed.realm;
        token = to_uint64 parsed.num;
        checksum = parsed.checksum;
      };
      serial_number = serial;
    })
]

-- `NftID._IsZero`
unfoldable pub nft_is_zero : NftId → Bool
nft_is_zero id =
    is_zero id.token_id && pos_part id.serial_number == 0 && neg_part id.serial_number == 0

-- `NftID.Validate`
unfoldable pub nft_validate : NftId → Option Client → Outcome (Unit {0})
nft_validate id none = ok tt
nft_validate id (some client) = elim client.ledger_id [
  | none ↦ ok tt
  | some _ ↦ if nft_is_zero id then ok tt else validate_checksum id.token_id (some client)
]
