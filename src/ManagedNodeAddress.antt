-- ===== src/ManagedNodeAddress.antt =====
-- managed_node_address.go: the host and port of a node. `_Equals`, which compares string pointers
-- and has no caller, is left out.
pub mod RoundTrip
mod Examples
use hedera_sdk_go.Prelude.{
  ℕ, ◌%◌, ◌^◌, Bool, true, false, ◌&&◌, ◌||◌, not, [], ◌∷◌, ◌++◌, Option, none, some, ◌==◌,
  if◌then◌else◌,
}
use hedera_sdk_go.Prelude.Outcome.{Outcome, ok, err, no_address, ◌>>=◌}
use hedera_sdk_go.Prelude.Text.{Bytes}
use hedera_sdk_go.Strconv.{is_digit, format, parse_uint}

pub record ManagedNodeAddress : Type 0 where
  pub address : Option Bytes
  pub port : ℕ  -- uint32

-- `\S`: no tab, line feed, form feed, carriage return or space.
abbrev pub is_visible : ℕ → Bool
is_visible c = not (c == 9 || c == 10 || c == 12 || c == 13 || c == 32)

unfoldable pub all_of : (ℕ → Bool) → Bytes → Bool
all_of p [] = true
all_of p (c ∷ s) = p c && all_of p s

-- The texts in front of and behind the last ':'.
unfoldable pub last_colon : Bytes → Option (Bytes × Bytes)
last_colon [] = none
last_colon (c ∷ s) = elim (last_colon s) [
  | some (host, port) ↦ some (c ∷ host, port)
  | none ↦ if c == b':' then some ([], s) else none
]

abbrev pub is_cons : Bytes → Bool
is_cons [] = false
is_cons (_ ∷ _) = true

-- The groups of `^(\S+):(\d+)$`: the second holds no ':', so the last one divides them.
unfoldable pub host_and_port : Bytes → Option (Bytes × Bytes)
unfolding last_colon all_of
host_and_port s = elim (last_colon s) [
  | none ↦ none
  | some (host, port) ↦
      if is_cons host && all_of is_visible host && (is_cons port && all_of is_digit port)
      then some (host, port)
      else none
]

-- `_ManagedNodeAddressFromString`; `uint32(port)` keeps the low 32 bits.
from_match : Option (Bytes × Bytes) → Outcome ManagedNodeAddress
from_match none = err no_address
from_match (some (host, digits)) = do
  port ← parse_uint digits
  ok (record { address = some host; port = port % 2 ^ 32 })

unfoldable pub address_from_string : Bytes → Outcome ManagedNodeAddress
unfolding from_match
address_from_string s = from_match (host_and_port s)

unfoldable pub is_transport_security : ManagedNodeAddress → Bool
is_transport_security a = a.port == 50212 || a.port == 443

unfoldable pub to_insecure : ManagedNodeAddress → ManagedNodeAddress
to_insecure a = record {
  address = a.address;
  port = if a.port == 50212 then 50211 else if a.port == 443 then 5600 else a.port;
}

unfoldable pub to_secure : ManagedNodeAddress → ManagedNodeAddress
to_secure a =
    if a.port == 50211
    then record { address = a.address; port = 50212 }
    else if a.port == 5600
    then record { address = a.address; port = 443 }
    else record { address = a.address; port = a.port }

-- `_String`, without the lines that it prints.
unfoldable pub address_string : ManagedNodeAddress → Bytes
address_string a = elim a.address [ none ↦ [] | some host ↦ host ++ (b':' ∷ format a.port) ]
