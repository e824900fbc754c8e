-- ===== src/ManagedNodeAddress/RoundTrip.antt =====
-- Texts and transport security of managed_node_address.go.
use hedera_sdk_go.Prelude.{
  ℕ, ◌^◌, ◌<◌, ◌≡◌, ◌≢◌, ◌⊎◌, refl, true, false, [], ◌∷◌, ◌++◌, none, some, arith, All,
}
use hedera_sdk_go.Prelude.Outcome.{ok}
use hedera_sdk_go.Prelude.Text.{Bytes}
use hedera_sdk_go.Strconv.{is_digit, format}
use hedera_sdk_go.Strconv.Decimal.{IsDigit, format-IsDigit, format-ne-nil, parse_uint-format}
use hedera_sdk_go.ManagedNodeAddress.{
  ManagedNodeAddress, is_visible, all_of, last_colon, is_cons, host_and_port, from_match,
  address_from_string, is_transport_security, to_insecure, to_secure, address_string,
}

last_colon_digits : (s : Bytes) → All IsDigit s → last_colon s ≡ none
unfolding last_colon
last_colon_digits [] h = refl
last_colon_digits (c ∷ s) (hc, hs) = rw (last_colon_digits s hs, last_colon) (ground arith)

last_colon_mid :
    (host port : Bytes) → All IsDigit port → last_colon (host ++ (b':' ∷ port)) ≡ some (host, port)
unfolding last_colon
last_colon_mid [] port h = rw (last_colon_digits port h, last_colon) refl
last_colon_mid (c ∷ host) port h = rw (last_colon_mid host port h, last_colon) refl

all_of_digits : (s : Bytes) → All IsDigit s → all_of is_digit s ≡ true
unfolding all_of
all_of_digits [] h = refl
all_of_digits (c ∷ s) (hc, hs) = ground (arith, all_of_digits s hs)

is_cons_of : (s : Bytes) → s ≢ [] → is_cons s ≡ true
is_cons_of [] h = absurd (h refl)
is_cons_of (c ∷ s) h = refl

host_and_port_mid :
    (host port : Bytes)
    → host ≢ []
    → all_of is_visible host ≡ true
    → port ≢ []
    → All IsDigit port
    → host_and_port (host ++ (b':' ∷ port)) ≡ some (host, port)
unfolding host_and_port
host_and_port_mid host port hn hv pn pd =
    rw (last_colon_mid host port pd, host_and_port)
      (rw (is_cons_of host hn, hv, is_cons_of port pn, all_of_digits port pd))

-- An address with a visible host, colons in it included, and a uint32 port is read back from its
-- text.
pub address_from_string-address_string :
    (host : Bytes) (port : ℕ)
    → host ≢ []
    → all_of is_visible host ≡ true
    → port < 2 ^ 32
    → address_from_string (address_string (record { address = some host; port = port }))
      ≡ ok (record { address = some host; port = port })
unfolding address_from_string address_string
address_from_string-address_string host port hn hv h =
    rw
      (
        host_and_port_mid host (format port) hn hv (format-ne-nil port) (format-IsDigit port),
        from_match,
      )
      (rw (parse_uint-format port (omega arith)) (ground arith))

-- Changing the transport twice is changing it once, to the last choice; the result of `_ToInsecure`
-- is never a secure port; and an address that has the wanted transport already is left as it is.
pub transport_round_trip :
    (a : ManagedNodeAddress)
    → (to_insecure (to_secure a) ≡ to_insecure a)
      × (to_secure (to_insecure a) ≡ to_secure a)
      × (is_transport_security (to_insecure a) ≡ false)
      × ((is_transport_security a ≡ false) ⊎ (to_secure a ≡ a))
      × ((is_transport_security a ≡ true) ⊎ (to_insecure a ≡ a))
unfolding to_insecure to_secure is_transport_security
transport_round_trip a = (ground arith, ground arith, ground arith, ground arith, ground arith)
