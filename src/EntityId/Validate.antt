-- ===== src/EntityId/Validate.antt =====
-- What the `ValidateChecksum` methods of the entity ids share: the check of three numbers and a
-- checksum on a ledger, and the text of an id with its checksum. The methods repeat this code.
use hedera_sdk_go.Prelude.{
  ℕ, ◌^◌, ◌≡◌, ◌↔◌, Bool, ◌&&◌, not, [], ◌∷◌, ◌++◌, Option, none, some, is_some, arith, ltb,
  if◌then◌else◌,
}
use hedera_sdk_go.Prelude.Outcome.{
  Outcome, ok, err, checksum_missing, checksum_mismatch, network_name_missing, bad_number, ◌>>=◌,
  ◌>>◌,
}
use hedera_sdk_go.Prelude.Text.{Bytes, bytes_eq, bytes_eq_self, eq_of_bytes_eq}
use hedera_sdk_go.LedgerId.{LedgerId}
use hedera_sdk_go.Client.{Client, get_ledger_id, get_network_name}
use hedera_sdk_go.Id.{dotted}
use hedera_sdk_go.EntityId.{check_checksum, checksum_parse_address, checksum_verify}
use hedera_sdk_go.EntityId.Address.{checksum_parse_address-dotted}

unfoldable pub compare_checksum : Bytes → Option Bytes → Outcome (Unit {0})
compare_checksum correct none = err checksum_missing
compare_checksum correct (some given) =
    if bytes_eq correct given then ok tt else err checksum_mismatch

unfoldable pub validate_numbers : LedgerId → ℕ → ℕ → ℕ → Option Bytes → Outcome (Unit {0})
unfolding compare_checksum
validate_numbers ledger shard realm num checksum = do
  temp ← checksum_parse_address ledger.ledger_id_bytes (dotted shard realm num)
  checksum_verify temp.status
  compare_checksum temp.correct_checksum checksum

-- The checksum that the text of an id carries: empty where the network has no ledger id.
unfoldable pub checksum_for : Client → ℕ → ℕ → ℕ → Outcome Bytes
checksum_for client shard realm num = elim client.ledger_id [
  | none ↦ ok []
  | some ledger ↦ do
    temp ← checksum_parse_address ledger.ledger_id_bytes (dotted shard realm num)
    ok temp.correct_checksum
]

unfoldable pub string_with_checksum : Client → ℕ → ℕ → ℕ → Outcome Bytes
unfolding checksum_for
string_with_checksum client shard realm num =
    if not (is_some (get_network_name client)) && not (is_some (get_ledger_id client))
    then err network_name_missing
    else (checksum_for client shard realm num >>= λ checksum.
        ok (dotted shard realm num ++ (b'-' ∷ checksum)))

abbrev pub are_int64 : ℕ → ℕ → ℕ → Bool
are_int64 a b c = ltb a (2 ^ 63) && ltb b (2 ^ 63) && ltb c (2 ^ 63)

-- The check comes down to one comparison, behind the range of the numbers.
pub validate_numbers_lem :
    (ledger : LedgerId) (a b c : ℕ) (checksum : Option Bytes)
    → validate_numbers ledger a b c checksum ≡ (
        if are_int64 a b c
        then compare_checksum (check_checksum ledger.ledger_id_bytes (dotted a b c)) checksum
        else err bad_number)
unfolding validate_numbers checksum_verify
validate_numbers_lem ledger a b c checksum =
    rw (checksum_parse_address-dotted ledger.ledger_id_bytes a b c) (ground arith)

pub compare_checksum_iff :
    (correct : Bytes) (checksum : Option Bytes)
    → (compare_checksum correct checksum ≡ ok tt) ↔ (checksum ≡ some correct)
unfolding compare_checksum
compare_checksum_iff correct none = (λ h. cc, λ h. cc)
compare_checksum_iff correct (some given) =
    (λ h. ground (arith, eq_of_bytes_eq correct given), λ h. ground (arith, bytes_eq_self correct))

pub string_with_checksum_lem :
    (client : Client) (ledger : LedgerId) (a b c : ℕ)
    → client.ledger_id ≡ some ledger
    → string_with_checksum client a b c ≡ (
        if are_int64 a b c
        then ok (dotted a b c ++ (b'-' ∷ check_checksum ledger.ledger_id_bytes (dotted a b c)))
        else err bad_number)
unfolding string_with_checksum get_ledger_id get_network_name
string_with_checksum_lem client ledger a b c e =
    rw (e, get_ledger_id, get_network_name, checksum_for)
      (rw (checksum_parse_address-dotted ledger.ledger_id_bytes a b c) (ground arith))
