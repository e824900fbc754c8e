-- ===== src/TokenId/Examples.antt =====
-- Token ids of token_id.go at concrete values.
use hedera_sdk_go.Prelude.{◌≡◌, ◌↔◌, refl, [], ◌∷◌, some, true, false, arith}
use hedera_sdk_go.Prelude.Outcome.{ok}
use hedera_sdk_go.Prelude.Text.{Bytes, codes}
use hedera_sdk_go.LedgerId.{LedgerId}
use hedera_sdk_go.Client.{Client}
use hedera_sdk_go.EntityId.{check_checksum}
use hedera_sdk_go.TokenId.{
  TokenId, to_string, to_string_with_checksum, from_string, is_zero, validate_checksum,
}
use hedera_sdk_go.TokenId.Checksum.{validate_checksum_iff, from_string-to_string_with_checksum}

abbrev token_123 : TokenId
token_123 = record { shard = 0; realm = 0; token = 123; checksum = some (codes "esxsf") }

abbrev token_124 : TokenId
token_124 = record token_123 { token = 124 }

abbrev token_large : TokenId
token_large = record token_123 { shard = 4294967301; token = 18446744073709551615 }

abbrev testnet_id : LedgerId
testnet_id = record { ledger_id_bytes = 1 ∷ [] }

abbrev testnet_client : Client
testnet_client = record { ledger_id = some testnet_id; auto_validate_checksums = true }

testnet_checksum : check_checksum (1 ∷ []) (codes "0.0.123") ≡ codes "esxsf"
unfolding check_checksum
testnet_checksum = refl

not_zero : is_zero token_123 ≡ false
unfolding is_zero
not_zero = refl

validate_checksum_iff_example :
    (validate_checksum token_123 (some testnet_client) ≡ ok tt)
    ↔ (some (codes "esxsf") ≡ some (check_checksum (1 ∷ []) (to_string token_123)))
validate_checksum_iff_example =
    validate_checksum_iff token_123 testnet_client testnet_id refl not_zero (omega arith)

from_string-to_string_with_checksum_example :
    (s : Bytes) × (checked : TokenId) × (to_string_with_checksum token_124 testnet_client ≡ ok s)
    × (from_string s ≡ ok checked)
    × (checked ≡ record token_124 { checksum = checked.checksum })
    × (validate_checksum checked (some testnet_client) ≡ ok tt)
from_string-to_string_with_checksum_example =
    from_string-to_string_with_checksum token_124 testnet_client testnet_id refl token_124-not_zero
      (omega arith)
  where
    token_124-not_zero : is_zero token_124 ≡ false
    token_124-not_zero = unfold is_zero in refl
