-- ===== src/LedgerId.antt =====
-- ledger_id.go and network_name.go: the ledger that an id belongs to.
pub mod RoundTrip
use hedera_sdk_go.Prelude.{Bool, [], ◌∷◌, Option, none, some, if◌then◌else◌}
use hedera_sdk_go.Prelude.Outcome.{Outcome, ok, err, bad_hex, unknown_network}
use hedera_sdk_go.Prelude.Text.{Bytes, codes, bytes_eq}
use hedera_sdk_go.Strconv.{hex_encode, hex_decode}

pub data NetworkName : Type 0 where
  mainnet testnet previewnet other : NetworkName

-- `NetworkName.String`
unfoldable pub network_name_string : NetworkName → Bytes
network_name_string mainnet = codes "mainnet"
network_name_string testnet = codes "testnet"
network_name_string previewnet = codes "previewnet"
network_name_string other = codes "other"

pub record LedgerId : Type 0 where
  pub ledger_id_bytes : Bytes

unfoldable pub new_ledger_id_mainnet : LedgerId
new_ledger_id_mainnet = record { ledger_id_bytes = 0 ∷ [] }

unfoldable pub new_ledger_id_testnet : LedgerId
new_ledger_id_testnet = record { ledger_id_bytes = 1 ∷ [] }

unfoldable pub new_ledger_id_previewnet : LedgerId
new_ledger_id_previewnet = record { ledger_id_bytes = 2 ∷ [] }

decoded : Option Bytes → Outcome LedgerId
decoded none = err bad_hex
decoded (some bytes) = ok (record { ledger_id_bytes = bytes })

-- `LedgerIDFromString`
unfoldable pub ledger_id_from_string : Bytes → Outcome LedgerId
unfolding decoded
ledger_id_from_string id =
    if bytes_eq id (codes "mainnet")
    then ok (record { ledger_id_bytes = 0 ∷ [] })
    else if bytes_eq id (codes "testnet")
    then ok (record { ledger_id_bytes = 1 ∷ [] })
    else if bytes_eq id (codes "previewnet")
    then ok (record { ledger_id_bytes = 2 ∷ [] })
    else decoded (hex_decode id)

-- `LedgerIDFromNetworkName`
unfoldable pub ledger_id_from_network_name : NetworkName → Outcome LedgerId
unfolding network_name_string
ledger_id_from_network_name network =
    if bytes_eq (network_name_string network) (codes "mainnet")
    then ok (record { ledger_id_bytes = 0 ∷ [] })
    else if bytes_eq (network_name_string network) (codes "testnet")
    then ok (record { ledger_id_bytes = 1 ∷ [] })
    else if bytes_eq (network_name_string network) (codes "previewnet")
    then ok (record { ledger_id_bytes = 2 ∷ [] })
    else err unknown_network

unfoldable pub is_mainnet : LedgerId → Bool
is_mainnet id = bytes_eq (hex_encode id.ledger_id_bytes) (codes "00")

unfoldable pub is_testnet : LedgerId → Bool
is_testnet id = bytes_eq (hex_encode id.ledger_id_bytes) (codes "01")

unfoldable pub is_previewnet : LedgerId → Bool
is_previewnet id = bytes_eq (hex_encode id.ledger_id_bytes) (codes "02")

-- `LedgerID.String`
unfoldable pub ledger_id_string : LedgerId → Bytes
ledger_id_string id =
    let h = hex_encode id.ledger_id_bytes in
    if bytes_eq h (codes "00")
    then codes "mainnet"
    else if bytes_eq h (codes "01")
    then codes "testnet"
    else if bytes_eq h (codes "02")
    then codes "previewnet"
    else h

-- `LedgerID.ToNetworkName`, whose error is always nil.
unfoldable pub to_network_name : LedgerId → NetworkName
to_network_name id =
    let h = hex_encode id.ledger_id_bytes in
    if bytes_eq h (codes "00")
    then mainnet
    else if bytes_eq h (codes "01")
    then testnet
    else if bytes_eq h (codes "02")
    then previewnet
    else other
