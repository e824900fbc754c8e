-- ===== src/Transfers/Validate.antt =====
-- `_ValidateNetworkOnIDs` of transfer_transaction.go.
use hedera_sdk_go.Prelude.{List, [], ◌∷◌, Option, none, some, if◌then◌else◌}
use hedera_sdk_go.Prelude.Outcome.{Outcome, ok, ◌>>◌}
use hedera_sdk_go.Client.{Client}
use hedera_sdk_go.AccountId
use hedera_sdk_go.TokenId
use hedera_sdk_go.TokenId.{TokenId}
use hedera_sdk_go.Transfers.{HbarTransfer, TokenTransfer, NftTransfer, TransferTransaction}

module _ {Key : Type 0} where
  -- The loop over the transfers of a token, which writes the error that the token left.
  unfoldable pub check_transfers :
      Client → Outcome (Unit {0}) → List (HbarTransfer Key) → Outcome (Unit {0})
  check_transfers client e [] = e
  check_transfers client e (transfer ∷ transfers) =
      AccountId.validate_checksum transfer.account_id (some client)
      >> check_transfers client (ok tt) transfers

  unfoldable pub check_tokens : Client → List (TokenId × TokenTransfer Key) → Outcome (Unit {0})
  unfolding check_transfers
  check_tokens client [] = ok tt
  check_tokens client ((token, entry) ∷ entries) =
      check_transfers client (TokenId.validate_checksum token (some client)) entry.transfers
      >> check_tokens client entries

  unfoldable pub check_nft_list : Client → List (NftTransfer Key) → Outcome (Unit {0})
  check_nft_list client [] = ok tt
  check_nft_list client (transfer ∷ transfers) =
      AccountId.validate_checksum transfer.sender (some client)
      >> (AccountId.validate_checksum transfer.receiver (some client)
          >> check_nft_list client transfers)

  unfoldable pub check_nfts : Client → List (TokenId × List (NftTransfer Key)) → Outcome (Unit {0})
  unfolding check_nft_list
  check_nfts client [] = ok tt
  check_nfts client ((token, list) ∷ entries) =
      TokenId.validate_checksum token (some client)
      >> (check_nft_list client list >> check_nfts client entries)

module _ {Key TxId Data : Type 0} where
  -- `_ValidateNetworkOnIDs`
  unfoldable pub validate_network_on_ids :
      Option Client → TransferTransaction Key TxId Data → Outcome (Unit {0})
  unfolding check_tokens check_nfts check_transfers
  validate_network_on_ids none t = ok tt
  validate_network_on_ids (some client) t =
      if client.auto_validate_checksums
      then (check_tokens client t.token_transfers
          >> (check_nfts client t.nft_transfers >> check_transfers client (ok tt) t.hbar_transfers))
      else ok tt
