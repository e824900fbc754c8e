-- ===== src/ManagedNodeAddress/Examples.antt =====
-- Addresses of managed_node_address.go at concrete texts.
use hedera_sdk_go.Prelude.{◌≡◌, refl, some}
use hedera_sdk_go.Prelude.Outcome.{ok, err, no_address}
use hedera_sdk_go.Prelude.Text.{codes}
use hedera_sdk_go.Strconv.{parse_uint}
use hedera_sdk_go.ManagedNodeAddress.{ManagedNodeAddress, host_and_port, address_from_string}

abbrev testnet_node : ManagedNodeAddress
testnet_node = record { address = some (codes "0.testnet.hedera.com"); port = 50211 }

no_port : address_from_string (codes "0.testnet.hedera.com") ≡ err no_address
unfolding address_from_string host_and_port
no_port = refl

-- The port is cut to 32 bits after it is read.
large_port :
    address_from_string (codes "a:4294967297")
    ≡ ok (record { address = some (codes "a"); port = 1 })
unfolding address_from_string host_and_port parse_uint
large_port = refl
