-- ===== src/AccountId/Laws.antt =====
-- Texts, checksums, comparison and protobuf messages of account_id.go.
use hedera_sdk_go.Prelude.{
  ◌^◌, ◌<◌, ◌≡◌, ◌↔◌, refl, true, false, Option, none, some, arith, Option-cases, inl, inr,
}
use hedera_sdk_go.Prelude.Int.{to_uint64-to_int64}
use hedera_sdk_go.Prelude.Outcome.{ok}
use hedera_sdk_go.Prelude.Text.{Bytes, bytes_eq, eq_of_bytes_eq}
use hedera_sdk_go.LedgerId.{LedgerId}
use hedera_sdk_go.Client.{Client}
use hedera_sdk_go.Compare.{equal, flip, compare_bytes-flip, compare_bytes_self, eq_of_compare_bytes}
use hedera_sdk_go.Strconv.{format}
use hedera_sdk_go.Strconv.Decimal.{atoi-format}
use hedera_sdk_go.Id.{account_id_from_string}
use hedera_sdk_go.Id.Parse.{split_checksum-dotted, split_address-dotted}
use hedera_sdk_go.EntityId.{check_checksum}
use hedera_sdk_go.EntityId.Validate.{validate_numbers_lem, compare_checksum_iff, are_int64}
use hedera_sdk_go.AccountId.{
  AccountId, to_string, from_string, is_zero, validate_checksum, equals, compare, same_alias,
  compare_alias, from_protobuf, to_protobuf, field_from_protobuf,
}

-- Each part of the id is an int64, and it has no alias.
pub record IsNumbered {Key : Type 0} (id : AccountId Key) : Type 0 where
  pub shard-lt : id.shard < 2 ^ 63
  pub realm-lt : id.realm < 2 ^ 63
  pub account-lt : id.account < 2 ^ 63
  pub no_alias : id.alias_key ≡ none

are_int64_of :
    {Key : Type 0} (id : AccountId Key)
    → IsNumbered id
    → are_int64 id.shard id.realm id.account ≡ true
are_int64_of id h = ground arith

module _ {Key : Type 0} (key_string : Key → Bytes) where
  -- The text of an account id without alias, whose parts are int64 values, is read back as that id
  -- without its checksum, when `PublicKeyFromString` refuses the digits of its number.
  pub from_string-to_string_numbered :
      (public_key_from_string : Bytes → Option Key) (id : AccountId Key)
      → IsNumbered id
      → public_key_from_string (format id.account) ≡ none
      → from_string public_key_from_string (to_string key_string id)
        ≡ ok (record id { checksum = none })
  unfolding from_string to_string account_id_from_string
  from_string-to_string_numbered public_key_from_string id h e =
      rw
        (
          h.no_alias,
          split_checksum-dotted id.shard id.realm id.account,
          split_address-dotted id.shard id.realm id.account,
          atoi-format id.shard,
          atoi-format id.realm,
          e,
        )
        (rw (atoi-format id.account) (ground arith))

  -- With a client whose network has a ledger id, an account id without alias that is not zero and
  -- has int64 parts passes `ValidateChecksum` exactly when it carries the checksum of its text on
  -- that ledger.
  pub validate_checksum_iff_numbered :
      (id : AccountId Key) (client : Client) (ledger : LedgerId)
      → client.ledger_id ≡ some ledger
      → is_zero id ≡ false
      → IsNumbered id
      → (validate_checksum id (some client) ≡ ok tt)
        ↔ (id.checksum ≡ some (check_checksum ledger.ledger_id_bytes (to_string key_string id)))
  unfolding validate_checksum to_string
  validate_checksum_iff_numbered id client ledger e nz h =
      rw (h.no_alias, e, nz)
        (rw
          (validate_numbers_lem ledger id.shard id.realm id.account id.checksum, are_int64_of id h)
          (compare_checksum_iff _ id.checksum))

  compare_alias-flip :
      (a b : Option Key) → compare_alias key_string b a ≡ flip (compare_alias key_string a b)
  compare_alias-flip (some a) (some b) = compare_bytes-flip (key_string a) (key_string b)
  compare_alias-flip none none = refl
  compare_alias-flip none (some b) = refl
  compare_alias-flip (some a) none = refl

  -- Swapping the arguments flips the result, whatever aliases the ids have.
  pub compare-flip : (a b : AccountId Key) → compare key_string b a ≡ flip (compare key_string a b)
  unfolding compare
  compare-flip a b = ground (arith, compare_alias-flip a.alias_key b.alias_key)

  compare_alias_iff :
      (a b : Option Key)
      → (compare_alias key_string a b ≡ equal) ↔ (same_alias key_string a b ≡ true)
  compare_alias_iff (some a) (some b) = (
    eq_of_compare_bytes (key_string a) (key_string b),
    λ h. rw (eq_of_bytes_eq (key_string a) (key_string b) h) (compare_bytes_self (key_string b)),
  )
  compare_alias_iff none none = (λ h. refl, λ h. refl)
  compare_alias_iff none (some b) = (λ h. refl, λ h. refl)
  compare_alias_iff (some a) none = (λ h. refl, λ h. refl)

  -- `Compare` is 0 exactly for the ids that `_Equals` takes for the same.
  pub compare_equal_iff_equals :
      (a b : AccountId Key) → (compare key_string a b ≡ equal) ↔ (equals key_string a b ≡ true)
  unfolding compare equals
  compare_equal_iff_equals a b =
      let h = compare_alias_iff a.alias_key b.alias_key in (λ k. ground arith, λ k. ground arith)

  -- `_Equals` is not transitive: an id without alias equals the ids with the same numbers and any
  -- alias, so two ids with aliases of different texts both equal it and not each other.
  pub equals_alias :
      (a : AccountId Key) (k l : Key)
      → bytes_eq (key_string k) (key_string l) ≡ false
      → (equals key_string (record a { alias_key = some k }) (record a { alias_key = none }) ≡ true)
        × (equals key_string (record a { alias_key = none }) (record a { alias_key = some l })
            ≡ true)
        × (equals key_string (record a { alias_key = some k }) (record a { alias_key = some l })
            ≡ false)
  unfolding equals
  equals_alias a k l h = (ground arith, ground arith, ground arith)

-- An account id whose parts are uint64 values goes through its protobuf message unchanged but
-- for the checksum, when the bytes of a key are read back as that key and an id with an alias
-- has the number 0.
pub from_protobuf-to_protobuf_account :
    {Key : Type 0} (marshal_key : Key → Bytes) (unmarshal_key : Bytes → Option Key)
    (id : AccountId Key)
    → ((key : Key) → unmarshal_key (marshal_key key) ≡ some key)
    → id.shard < 2 ^ 64
    → id.realm < 2 ^ 64
    → id.account < 2 ^ 64
    → ((key : Key) → id.alias_key ≡ some key → id.account ≡ 0)
    → from_protobuf unmarshal_key (some (to_protobuf marshal_key id))
      ≡ some (record id { checksum = none })
unfolding from_protobuf to_protobuf field_from_protobuf
from_protobuf-to_protobuf_account marshal_key unmarshal_key id h s r a z =
    elim (Option-cases id.alias_key) [
      | inl e ↦
          rw (e, to_uint64-to_int64 id.shard s, to_uint64-to_int64 id.realm r)
            (rw (to_uint64-to_int64 id.account a) (cc))
      | inr (key, e) ↦
          rw (e, field_from_protobuf, h key)
            (rw (to_uint64-to_int64 id.shard s, to_uint64-to_int64 id.realm r) (cc (z key e)))
    ]
