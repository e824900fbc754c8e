-- ===== src/TokenId/Checksum.antt =====
-- Texts and checksums of token_id.go and nft_id.go.
use hedera_sdk_go.Prelude.{◌^◌, ◌<◌, ◌≡◌, ◌↔◌, refl, true, false, ◌∷◌, ◌++◌, none, some, arith}
use hedera_sdk_go.Prelude.Outcome.{ok}
use hedera_sdk_go.Prelude.Text.{Bytes}
use hedera_sdk_go.LedgerId.{LedgerId}
use hedera_sdk_go.Client.{Client}
use hedera_sdk_go.Id.{dotted}
use hedera_sdk_go.Id.Parse.{id_from_string-dotted, id_from_string_checksum}
use hedera_sdk_go.EntityId.{check_checksum}
use hedera_sdk_go.EntityId.Validate.{
  validate_numbers_lem, string_with_checksum_lem, compare_checksum_iff, are_int64,
}
use hedera_sdk_go.TokenId.{
  TokenId, to_string, to_string_with_checksum, from_string, is_zero, validate_checksum,
}

-- Each part of the id is an int64, which the SDK's reader asks of it.
pub record FitsInt64 (id : TokenId) : Type 0 where
  pub shard-lt : id.shard < 2 ^ 63
  pub realm-lt : id.realm < 2 ^ 63
  pub token-lt : id.token < 2 ^ 63

are_int64_of : (id : TokenId) → FitsInt64 id → are_int64 id.shard id.realm id.token ≡ true
are_int64_of id h = ground arith

-- The text of a token id whose parts are int64 values is read back as that id, without its
-- checksum.
pub from_string-to_string :
    (id : TokenId) → FitsInt64 id → from_string (to_string id) ≡ ok (record id { checksum = none })
unfolding from_string to_string
from_string-to_string id h =
    rw (id_from_string-dotted id.shard id.realm id.token, are_int64_of id h) (ground arith)

-- With a client whose network has a ledger id, a token id that is not zero and has int64 parts
-- passes `ValidateChecksum` exactly when it carries the checksum of its text on that ledger.
pub validate_checksum_iff :
    (id : TokenId) (client : Client) (ledger : LedgerId)
    → client.ledger_id ≡ some ledger
    → is_zero id ≡ false
    → FitsInt64 id
    → (validate_checksum id (some client) ≡ ok tt)
      ↔ (id.checksum ≡ some (check_checksum ledger.ledger_id_bytes (to_string id)))
unfolding validate_checksum to_string
validate_checksum_iff id client ledger e nz h =
    rw (e, validate_checksum)
      (rw
        (nz, validate_numbers_lem ledger id.shard id.realm id.token id.checksum, are_int64_of id h)
        (compare_checksum_iff _ id.checksum))

-- On a client whose network has a ledger id, the text with checksum of a token id that is not zero
-- and has int64 parts can be produced; reading it gives the id with that checksum, and the result
-- passes `ValidateChecksum` on the same client.
pub from_string-to_string_with_checksum :
    (id : TokenId) (client : Client) (ledger : LedgerId)
    → client.ledger_id ≡ some ledger
    → is_zero id ≡ false
    → FitsInt64 id
    → (s : Bytes) × (checked : TokenId) × (to_string_with_checksum id client ≡ ok s)
      × (from_string s ≡ ok checked)
      × (checked ≡ record id { checksum = checked.checksum })
      × (validate_checksum checked (some client) ≡ ok tt)
unfolding to_string_with_checksum from_string to_string is_zero
from_string-to_string_with_checksum id client ledger e nz h = (
  dotted id.shard id.realm id.token ++ (b'-' ∷ correct),
  checked,
  rw (string_with_checksum_lem client ledger id.shard id.realm id.token e, are_int64_of id h),
  rw (id_from_string_checksum id.shard id.realm id.token correct, are_int64_of id h) (ground arith),
  refl,
  (validate_checksum_iff checked client ledger e nz (omega arith)).1 refl,
)
  where
    correct : Bytes
    correct = check_checksum ledger.ledger_id_bytes (dotted id.shard id.realm id.token)

    checked : TokenId
    checked = record id { checksum = some correct }
