-- ===== src/Transfers/Checks.antt =====
-- What the check of the ids of transfer_transaction.go lets through.
use hedera_sdk_go.Prelude.{
  ◌≡◌, ◌<◌, refl, ap, ◌∙◌, true, List, [], ◌∷◌, some, arith, All, length, if◌then◌else◌,
}
use hedera_sdk_go.Prelude.Outcome.{Outcome, ok, ◌>>◌}
use hedera_sdk_go.Client.{Client}
use hedera_sdk_go.AccountId
use hedera_sdk_go.AccountId.{AccountId}
use hedera_sdk_go.TokenId
use hedera_sdk_go.TokenId.{TokenId}
use hedera_sdk_go.Transfers.{HbarTransfer, TokenTransfer, TransferTransaction}
use hedera_sdk_go.Transfers.Validate.{
  check_transfers, check_tokens, check_nfts, validate_network_on_ids,
}

-- The checksums of the accounts are right.
abbrev pub AreValid : {Key : Type 0} → Client → List (HbarTransfer Key) → Type 0
AreValid client transfers =
    All (λ transfer. AccountId.validate_checksum transfer.account_id (some client) ≡ ok tt)
      transfers

-- Each token has a transfer, and the checksums of its accounts are right; that of the token is open.
abbrev pub AreUsed : {Key : Type 0} → Client → List (TokenId × TokenTransfer Key) → Type 0
AreUsed client [] = Unit
AreUsed client ((token, entry) ∷ entries) =
    (0 < length entry.transfers) × AreValid client entry.transfers × AreUsed client entries

module _ {Key : Type 0} where
  check_transfers-AreValid :
      (client : Client) (transfers : List (HbarTransfer Key))
      → AreValid client transfers
      → check_transfers client (ok tt) transfers ≡ ok tt
  unfolding check_transfers
  check_transfers-AreValid client [] h = refl
  check_transfers-AreValid client (transfer ∷ transfers) (h, hs) =
      rw h (check_transfers-AreValid client transfers hs)

  -- The error of the token is lost at the first transfer.
  check_transfers_used :
      (client : Client) (e : Outcome (Unit {0})) (transfers : List (HbarTransfer Key))
      → 0 < length transfers
      → AreValid client transfers
      → check_transfers client e transfers ≡ ok tt
  unfolding check_transfers
  check_transfers_used client e [] lt h = absurd (omega arith)
  check_transfers_used client e (transfer ∷ transfers) lt (h, hs) =
      rw h (check_transfers-AreValid client transfers hs)

  check_tokens-AreUsed :
      (client : Client) (entries : List (TokenId × TokenTransfer Key))
      → AreUsed client entries
      → check_tokens client entries ≡ ok tt
  unfolding check_tokens
  check_tokens-AreUsed client [] h = refl
  check_tokens-AreUsed client ((token, entry) ∷ entries) (lt, h, hs) =
      rw
        (check_transfers_used client (TokenId.validate_checksum token (some client)) entry.transfers
          lt h)
        (check_tokens-AreUsed client entries hs)

module _ {Key TxId Data : Type 0} where
  -- For a client that checks ids, a transfer transaction without NFTs passes the check if the
  -- checksums of all its accounts are right and each token has a transfer, whatever the checksums of
  -- the tokens.
  pub validate_network_on_ids-ignores_tokens :
      (client : Client) (t : TransferTransaction Key TxId Data)
      → client.auto_validate_checksums ≡ true
      → AreUsed client t.token_transfers
      → t.nft_transfers ≡ []
      → AreValid client t.hbar_transfers
      → validate_network_on_ids (some client) t ≡ ok tt
  unfolding validate_network_on_ids check_nfts
  validate_network_on_ids-ignores_tokens client t c used none_left valid =
      ap
        (λ b.
          if b
          then (check_tokens client t.token_transfers
              >> (check_nfts client t.nft_transfers
                  >> check_transfers client (ok tt) t.hbar_transfers))
          else ok tt)
        c
      ∙ rw
          (
            check_tokens-AreUsed client t.token_transfers used,
            none_left,
            check_transfers-AreValid client t.hbar_transfers valid,
          )
          refl
