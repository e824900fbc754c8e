-- ===== src/Client.antt =====
-- The part of client.go and network.go that entity ids read: the ledger of the client's network and
-- the switch for automatic checks.
use hedera_sdk_go.Prelude.{Bool, [], Option, none, some}
use hedera_sdk_go.LedgerId.{LedgerId, NetworkName, to_network_name}

pub record Client : Type 0 where
  pub ledger_id : Option LedgerId
  pub auto_validate_checksums : Bool

-- `GetLedgerID`: never nil, an empty ledger id where the network has none.
unfoldable pub get_ledger_id : Client → Option LedgerId
get_ledger_id c = elim c.ledger_id [
  | none ↦ some (record { ledger_id_bytes = [] })
  | some id ↦ some id
]

-- `GetNetworkName`: nil where the network has no ledger id.
unfoldable pub get_network_name : Client → Option NetworkName
get_network_name c = elim c.ledger_id [ none ↦ none | some id ↦ some (to_network_name id) ]
