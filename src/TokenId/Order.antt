-- ===== src/TokenId/Order.antt =====
-- The order of token ids, and their protobuf and Solidity forms.
use hedera_sdk_go.Prelude.{◌^◌, ◌%◌, ◌<◌, ◌≡◌, ◌↔◌, none, some, arith}
use hedera_sdk_go.Prelude.Int.{to_uint64-to_int64}
use hedera_sdk_go.Prelude.Outcome.{ok}
use hedera_sdk_go.Compare.{less, equal, flip}
use hedera_sdk_go.Id.Solidity.{id_from_solidity_address-id_to_solidity_address}
use hedera_sdk_go.TokenId.{
  TokenId, compare, from_protobuf, to_protobuf, from_solidity_address, to_solidity_address,
}

-- Swapping the arguments flips the result.
pub compare-flip : (a b : TokenId) → compare b a ≡ flip (compare a b)
unfolding compare
compare-flip a b = ground arith

-- `Compare` is 0 exactly for ids with the same numbers, whatever their checksums.
pub compare_equal_iff :
    (a b : TokenId)
    → (compare a b ≡ equal) ↔ ((a.shard ≡ b.shard) × (a.realm ≡ b.realm) × (a.token ≡ b.token))
unfolding compare
compare_equal_iff a b = (λ h. ground arith, λ h. ground arith)

-- `Less` is transitive, so `sort.Sort` may rely on it.
pub compare_trans : (a b c : TokenId) → compare a b ≡ less → compare b c ≡ less → compare a c ≡ less
unfolding compare
compare_trans a b c h k = ground arith

pub record FitsUint64 (id : TokenId) : Type 0 where
  pub shard-lt : id.shard < 2 ^ 64
  pub realm-lt : id.realm < 2 ^ 64
  pub token-lt : id.token < 2 ^ 64

-- A token id goes through its protobuf message unchanged but for the checksum, also where a part
-- does not fit an int64.
pub from_protobuf-to_protobuf :
    (id : TokenId)
    → FitsUint64 id
    → from_protobuf (some (to_protobuf id)) ≡ some (record id { checksum = none })
unfolding from_protobuf to_protobuf
from_protobuf-to_protobuf id h = λ i. some (record {
  shard = to_uint64-to_int64 id.shard h.shard-lt i;
  realm = to_uint64-to_int64 id.realm h.realm-lt i;
  token = to_uint64-to_int64 id.token h.token-lt i;
  checksum = none;
})

-- Through its Solidity address a token id keeps its realm and number, and the low 32 bits of its
-- shard.
pub from_solidity_address-to_solidity_address :
    (id : TokenId)
    → FitsUint64 id
    → from_solidity_address (to_solidity_address id)
      ≡ ok (record id { shard = id.shard % 2 ^ 32; checksum = none })
unfolding from_solidity_address to_solidity_address
from_solidity_address-to_solidity_address id h =
    rw
      (id_from_solidity_address-id_to_solidity_address id.shard id.realm id.token h.realm-lt
        h.token-lt).1
