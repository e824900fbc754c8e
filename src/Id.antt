-- ===== src/Id.antt =====
-- id.go: reading an entity id from its text and from a Solidity address, and printing the address.
-- An int of the source has 64 bits and is an integer here.
pub mod Parse
pub mod Solidity
mod Examples
use hedera_sdk_go.Prelude.{
  ℕ, zero, suc, ◌+◌, ◌*◌, ◌/◌, ◌%◌, ◌^◌, List, [], ◌∷◌, ◌++◌, Option, none, some, ◌==◌,
  if◌then◌else◌, length, take, drop,
}
use hedera_sdk_go.Prelude.Int.{ℤ, negsuc}
use hedera_sdk_go.Prelude.Outcome.{
  Outcome, ok, err, panic, bad_format, bad_hex, bad_length, out_of_range, ◌>>=◌,
}
use hedera_sdk_go.Prelude.Text.{Bytes}
use hedera_sdk_go.Strconv.{contains, split_n, atoi, format, hex_encode, hex_decode}

-- `fmt.Sprintf("%d.%d.%d", shard, realm, num)`
unfoldable pub dotted : ℕ → ℕ → ℕ → Bytes
dotted shard realm num = format shard ++ (b'.' ∷ (format realm ++ (b'.' ∷ format num)))

pub record ParsedId : Type 0 where
  pub shard : ℤ
  pub realm : ℤ
  pub num : ℤ
  pub checksum : Option Bytes

-- The parts in front of and behind a '-'.
checksum_parts : List Bytes → Outcome (Bytes × Option Bytes)
checksum_parts (s ∷ checksum ∷ []) = ok (s, some checksum)
checksum_parts (s ∷ checksum ∷ _ ∷ _) = err bad_format
checksum_parts _ = panic out_of_range

unfoldable pub split_checksum : Bytes → Outcome (Bytes × Option Bytes)
unfolding checksum_parts
split_checksum s = if contains b'-' s then checksum_parts (split_n b'-' 2 s) else ok (s, none)

three_parts : List Bytes → Outcome (Bytes × Bytes × Bytes)
three_parts (a ∷ b ∷ c ∷ []) = ok (a, b, c)
three_parts _ = err bad_format

unfoldable pub split_address : Bytes → Outcome (Bytes × Bytes × Bytes)
unfolding three_parts
split_address s = three_parts (split_n b'.' 3 s)

-- `_IdFromString`
unfoldable pub id_from_string : Bytes → Outcome ParsedId
id_from_string s = do
  head ← split_checksum s
  values ← split_address head.0
  shard ← atoi values.0
  realm ← atoi values.1
  num ← atoi values.2
  ok (record { shard = shard; realm = realm; num = num; checksum = head.1 })

pub record ParsedContractId : Type 0 where
  pub shard : ℤ
  pub realm : ℤ
  pub num : ℤ
  pub checksum : Option Bytes
  pub evm_address : Option Bytes

-- The number, or else a hexadecimal address under the number -1.
num_or_evm : ℤ → ℤ → Option Bytes → Bytes → Outcome ℤ → Outcome ParsedContractId
num_or_evm shard realm checksum s (ok num) =
    ok (record { shard = shard; realm = realm; num = num; checksum = checksum; evm_address = none })
num_or_evm shard realm checksum s (err e) = elim (hex_decode s) [
  | none ↦ err e
  | some evm ↦ ok (record {
    shard = shard;
    realm = realm;
    num = negsuc 0;
    checksum = checksum;
    evm_address = some evm;
  })
]
num_or_evm shard realm checksum s (panic p) = panic p

-- `_ContractIDFromString`
unfoldable pub contract_id_from_string : Bytes → Outcome ParsedContractId
unfolding num_or_evm
contract_id_from_string s = do
  head ← split_checksum s
  values ← split_address head.0
  shard ← atoi values.0
  realm ← atoi values.1
  num_or_evm shard realm head.1 values.2 (atoi values.2)

pub record ParsedAccountId (Key : Type 0) : Type 0 where
  pub shard : ℤ
  pub realm : ℤ
  pub num : ℤ
  pub checksum : Option Bytes
  pub alias : Option Key

-- `PublicKeyFromString`, of crypto.go, is an argument; `none` stands for its error.
module _ {Key : Type 0} (public_key_from_string : Bytes → Option Key) where
  alias_or_num : ℤ → ℤ → Option Bytes → Bytes → Option Key → Outcome (ParsedAccountId Key)
  alias_or_num shard realm checksum s none = do
    num ← atoi s
    ok (record { shard = shard; realm = realm; num = num; checksum = checksum; alias = none })
  alias_or_num shard realm checksum s (some key) = ok (record {
    shard = shard;
    realm = realm;
    num = negsuc 0;
    checksum = checksum;
    alias = some key;
  })

  -- `_AccountIDFromString`
  unfoldable pub account_id_from_string : Bytes → Outcome (ParsedAccountId Key)
  unfolding alias_or_num
  account_id_from_string s = do
    head ← split_checksum s
    values ← split_address head.0
    shard ← atoi values.0
    realm ← atoi values.1
    alias_or_num shard realm head.1 values.2 (public_key_from_string values.2)

-- `binary.BigEndian.PutUint32` and `PutUint64`: the k low bytes of n, the highest first.
unfoldable pub put_uint : ℕ → ℕ → Bytes
put_uint zero n = []
put_uint (suc k) n = put_uint k (n / 256) ++ (n % 256) ∷ []

-- `binary.BigEndian.Uint32` and `Uint64`, behind the value n.
unfoldable pub read_uint : ℕ → Bytes → ℕ
read_uint n [] = n
read_uint n (b ∷ bs) = read_uint (n * 256 + b) bs

-- `_IdToSolidityAddress`: `uint32(shard)` keeps the low 32 bits.
unfoldable pub id_to_solidity_address : ℕ → ℕ → ℕ → Bytes
id_to_solidity_address shard realm num =
    hex_encode (put_uint 4 (shard % 2 ^ 32) ++ (put_uint 8 realm ++ put_uint 8 num))

-- `_IdFromSolidityAddress`, behind the decoding.
address_fields : Option Bytes → Outcome (ℕ × ℕ × ℕ)
address_fields none = err bad_hex
address_fields (some bytes) =
    if length bytes == 20
    then ok (
      read_uint 0 (take 4 bytes),
      read_uint 0 (take 8 (drop 4 bytes)),
      read_uint 0 (take 8 (drop 12 bytes)),
    )
    else err bad_length

unfoldable pub id_from_solidity_address : Bytes → Outcome (ℕ × ℕ × ℕ)
unfolding address_fields
id_from_solidity_address s = address_fields (hex_decode s)
