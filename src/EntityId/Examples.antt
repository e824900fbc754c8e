-- ===== src/EntityId/Examples.antt =====
-- Checksums of entity_id.go at concrete addresses.
use hedera_sdk_go.Prelude.{◌≡◌, ◌≢◌, refl, [], ◌∷◌, inl, inr, arith}
use hedera_sdk_go.Prelude.Text.{codes}
use hedera_sdk_go.EntityId.{check_checksum}
use hedera_sdk_go.EntityId.Detection.{check_checksum_substitution, check_checksum_transposition}

mainnet_123 : check_checksum (0 ∷ []) (codes "0.0.123") ≡ codes "vfmkw"
unfolding check_checksum
mainnet_123 = refl

check_checksum_substitution_example :
    check_checksum (0 ∷ []) (codes "0.0.123") ≢ check_checksum (0 ∷ []) (codes "0.0.173")
check_checksum_substitution_example =
    check_checksum_substitution (0 ∷ []) (codes "0.0.1") (codes "3") b'2' b'7' (inl (omega arith))
      (inl (omega arith)) (omega arith)

check_checksum_transposition_example :
    check_checksum (0 ∷ []) (codes "0.0.123") ≢ check_checksum (0 ∷ []) (codes "0.01.23")
check_checksum_transposition_example =
    check_checksum_transposition (0 ∷ []) (codes "0.0") (codes "23") b'.' b'1' (inr refl)
      (inl (omega arith)) (omega arith)
