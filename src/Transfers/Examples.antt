-- ===== src/Transfers/Examples.antt =====
-- Transfers of transfer_transaction.go at concrete values; alias keys are byte strings, transaction
-- ids and contents are numbers.
use hedera_sdk_go.Prelude.{
  ◌++◌, ℕ, ◌≡◌, refl, Bool, true, false, List, [], ◌∷◌, none, some, arith, map, ◌==◌, ◌&&◌,
}
use hedera_sdk_go.Prelude.Int.{to_int64, to_uint64, ℤ, pos, negsuc, ◌+ℤ◌}
use hedera_sdk_go.Prelude.Outcome.{ok}
use hedera_sdk_go.Prelude.Text.{Bytes, codes}
use hedera_sdk_go.Client.{Client}
use hedera_sdk_go.AccountId
use hedera_sdk_go.AccountId.{AccountId}
use hedera_sdk_go.TokenId
use hedera_sdk_go.TokenId.{TokenId}
use hedera_sdk_go.EntityId.{check_checksum, checksum_parse_address, checksum_verify}
use hedera_sdk_go.EntityId.Regexp.{find_address}
use hedera_sdk_go.EntityId.Validate.{validate_numbers}
use hedera_sdk_go.Id.{dotted}
use hedera_sdk_go.Strconv.{format, atoi}
use hedera_sdk_go.Transaction.{new_transaction}
use hedera_sdk_go.Transfers.{
  is_equal, HbarTransfer, TransferTransaction, add_hbar_transfer, add_approved_hbar_transfer,
}
use hedera_sdk_go.Transfers.Tokens.{add_approved_token_transfer_with_decimals}
use hedera_sdk_go.Transfers.Validate.{validate_network_on_ids}
use hedera_sdk_go.Transfers.Sums.{
  total, Fits, with_approval, add_hbar_transfer-total,
  add_approved_token_transfer_with_decimals-every_approval,
}
use hedera_sdk_go.Transfers.Accounts.{
  Call, adds, adds_approved, accounts, AreApart, run, run-AreApart,
}
use hedera_sdk_go.Transfers.Checks.{validate_network_on_ids-ignores_tokens}

abbrev key_text : Bytes → Bytes
key_text k = k

abbrev account : ℕ → AccountId Bytes
account n = record { shard = 0; realm = 0; account = n; alias_key = none; checksum = none }

abbrev transfer_of : ℕ → ℤ → HbarTransfer Bytes
transfer_of n value = record { account_id = account n; amount = value; is_approved = false }

-- A token id with a checksum that is not the one of testnet, which is esxsf.
abbrev wrong_token : TokenId
wrong_token = record { shard = 0; realm = 0; token = 123; checksum = some (codes "aaaaa") }

abbrev testnet_client : Client
testnet_client = record {
  ledger_id = some (record { ledger_id_bytes = 1 ∷ [] });
  auto_validate_checksums = true;
}

-- -5 from account 3 and 5 to account 4, and the same for the token.
abbrev balanced : TransferTransaction Bytes ℕ ℕ
balanced = record {
  transaction = new_transaction;
  token_transfers =
      (
        wrong_token,
        record {
          transfers = transfer_of 3 (negsuc 4) ∷ transfer_of 4 (pos 5) ∷ [];
          expected_decimals = none;
        },
      )
      ∷ [];
  hbar_transfers = transfer_of 3 (negsuc 4) ∷ transfer_of 4 (pos 5) ∷ [];
  nft_transfers = [];
}

abbrev same_token : TokenId → TokenId → Bool
same_token a b = a.shard == b.shard && a.realm == b.realm && a.token == b.token

fits : Fits (pos 7) balanced.hbar_transfers
unfolding ◌+ℤ◌
fits = omega arith

add_hbar_transfer-total_example :
    (total (add_hbar_transfer key_text (account 4) (pos 7) balanced).hbar_transfers
      ≡ pos 7 +ℤ total balanced.hbar_transfers)
    × (total (add_approved_hbar_transfer key_text (account 4) (pos 7) true balanced).hbar_transfers
        ≡ pos 7 +ℤ total balanced.hbar_transfers)
    × ((add_hbar_transfer key_text (account 4) (pos 7) balanced).token_transfers
        ≡ balanced.token_transfers)
    × ((add_hbar_transfer key_text (account 4) (pos 7) balanced).nft_transfers
        ≡ balanced.nft_transfers)
    × ((add_approved_hbar_transfer key_text (account 4) (pos 7) true balanced).token_transfers
        ≡ balanced.token_transfers)
    × ((add_approved_hbar_transfer key_text (account 4) (pos 7) true balanced).nft_transfers
        ≡ balanced.nft_transfers)
add_hbar_transfer-total_example =
    add_hbar_transfer-total key_text (account 4) (pos 7) true balanced fits

is_of_4 : is_equal (AccountId.compare key_text (account 4) (account 4)) ≡ true
unfolding AccountId.compare
is_of_4 = refl

is_not_of_4 : is_equal (AccountId.compare key_text (account 3) (account 4)) ≡ false
unfolding AccountId.compare
is_not_of_4 = refl

token_is_found : is_equal (TokenId.compare wrong_token wrong_token) ≡ true
unfolding TokenId.compare
token_is_found = refl

add_approved_token_transfer_with_decimals-every_approval_example :
    (add_approved_token_transfer_with_decimals key_text same_token wrong_token
      (account 4)
      (pos 2)
      8
      true
      balanced).token_transfers
    ≡ (
      wrong_token,
      record {
        transfers =
            map (with_approval true) (transfer_of 3 (negsuc 4) ∷ [])
            ++ record {
              account_id = account 4;
              amount = to_int64 (to_uint64 (pos 2 +ℤ pos 5));
              is_approved = true;
            }
              ∷ map (with_approval true) [];
        expected_decimals = some 8;
      },
    )
      ∷ []
add_approved_token_transfer_with_decimals-every_approval_example =
    add_approved_token_transfer_with_decimals-every_approval key_text same_token wrong_token
      wrong_token (account 4) (pos 2) 8 true
      (record {
        transfers = transfer_of 3 (negsuc 4) ∷ transfer_of 4 (pos 5) ∷ [];
        expected_decimals = none;
      })
      [] (transfer_of 3 (negsuc 4) ∷ []) [] (transfer_of 4 (pos 5)) balanced refl token_is_found
      refl (is_not_of_4, tt) is_of_4

balanced-AreApart : AreApart key_text (accounts balanced.hbar_transfers)
unfolding AccountId.compare
balanced-AreApart = ((refl, tt), (tt, tt))

abbrev two_adds : List (Call Bytes)
two_adds = adds (account 4) (pos 1) ∷ adds_approved (account 5) (negsuc 0) true ∷ []

run-AreApart_example : AreApart key_text (accounts (run key_text two_adds balanced).hbar_transfers)
run-AreApart_example = run-AreApart key_text two_adds balanced balanced-AreApart

-- Account 3 with its checksum on testnet.
abbrev checked_transfer : HbarTransfer Bytes
checked_transfer = record (transfer_of 3 (pos 1)) {
  account_id = record (account 3) { checksum = some (codes "dmqui") };
}

-- The wrong token, with one transfer to account 3.
abbrev checked : TransferTransaction Bytes ℕ ℕ
checked = record balanced {
  token_transfers =
      (wrong_token, record { transfers = checked_transfer ∷ []; expected_decimals = none }) ∷ [];
  hbar_transfers = checked_transfer ∷ [];
}

account_passes :
    AccountId.validate_checksum checked_transfer.account_id (some testnet_client) ≡ ok tt
unfolding AccountId.validate_checksum validate_numbers checksum_parse_address find_address dotted
    format atoi checksum_verify check_checksum
account_passes = refl

validate_network_on_ids-ignores_tokens_example :
    validate_network_on_ids (some testnet_client) checked ≡ ok tt
validate_network_on_ids-ignores_tokens_example =
    validate_network_on_ids-ignores_tokens testnet_client checked refl
      (omega arith, (account_passes, tt), tt) refl (account_passes, tt)
