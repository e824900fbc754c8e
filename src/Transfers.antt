-- ===== src/Transfers.antt =====
-- transfer_transaction.go: the transfers of hbars, tokens and NFTs, their approvals and the check of
-- their ids. An Hbar is its tinybars. A map from token ids is a list of entries in the order of a
-- walk; `same_key` is the equality of its keys, which compares checksums as pointers.
pub mod Tokens
pub mod Validate
pub mod Sums
pub mod Accounts
pub mod Checks
mod Examples
use hedera_sdk_go.Prelude.{
  ℕ, Bool, true, false, List, [], ◌∷◌, ◌++◌, Option, none, some, map, if◌then◌else◌,
}
use hedera_sdk_go.Prelude.Int.{ℤ}
use hedera_sdk_go.Prelude.Outcome.{◌>>=◌}
use hedera_sdk_go.Prelude.Text.{Bytes, bytes_eq}
use hedera_sdk_go.Compare.{Comparison, equal, less, greater}
use hedera_sdk_go.AccountId
use hedera_sdk_go.AccountId.{AccountId}
use hedera_sdk_go.TokenId
use hedera_sdk_go.TokenId.{TokenId}
use hedera_sdk_go.ManagedNode.{add_int64}
use hedera_sdk_go.Transaction.{Transaction, require_not_frozen}

abbrev pub is_equal : Comparison → Bool
is_equal equal = true
is_equal less = false
is_equal greater = false

-- `_HbarTransfer`
pub record HbarTransfer (Key : Type 0) : Type 0 where
  pub account_id : AccountId Key
  pub amount : ℤ
  pub is_approved : Bool

-- `_TokenTransfer`
pub record TokenTransfer (Key : Type 0) : Type 0 where
  pub transfers : List (HbarTransfer Key)
  pub expected_decimals : Option ℕ  -- uint32

-- `TokenNftTransfer`
pub record NftTransfer (Key : Type 0) : Type 0 where
  pub sender : AccountId Key
  pub receiver : AccountId Key
  pub serial_number : ℤ
  pub is_approved : Bool

abbrev pub add_amount : {Key : Type 0} → ℤ → HbarTransfer Key → HbarTransfer Key
add_amount value transfer = record transfer { amount = add_int64 value transfer.amount }

abbrev pub approve : {Key : Type 0} → Bool → HbarTransfer Key → HbarTransfer Key
approve approval transfer = record transfer { is_approved = approval }

pub record TransferTransaction (Key TxId Data : Type 0) : Type 0 where
  pub transaction : Transaction (AccountId Key) TxId Data
  pub token_transfers : List (TokenId × TokenTransfer Key)
  pub hbar_transfers : List (HbarTransfer Key)
  pub nft_transfers : List (TokenId × List (NftTransfer Key))

-- `text` prints the alias key of an account.
module _ {Key : Type 0} (text : Key → Bytes) where
  -- The first transfer of the account, changed; none where the account has none.
  unfoldable pub merged :
      (HbarTransfer Key → HbarTransfer Key)
      → AccountId Key
      → List (HbarTransfer Key)
      → Option (List (HbarTransfer Key))
  merged change account [] = none
  merged change account (transfer ∷ transfers) =
      if is_equal (AccountId.compare text transfer.account_id account)
      then some (change transfer ∷ transfers)
      else elim (merged change account transfers) [
        | none ↦ none
        | some rest ↦ some (transfer ∷ rest)
      ]

  -- The loops of the hbar transfers, with the approval that a new transfer gets.
  unfoldable pub with_hbar :
      (HbarTransfer Key → HbarTransfer Key)
      → AccountId Key
      → ℤ
      → Bool
      → List (HbarTransfer Key)
      → List (HbarTransfer Key)
  unfolding merged
  with_hbar change account amount approval transfers = elim (merged change account transfers) [
    | none ↦
        transfers ++ record { account_id = account; amount = amount; is_approved = approval } ∷ []
    | some changed ↦ changed
  ]

module _ {Key TxId Data : Type 0} where
  abbrev pub not_frozen_first :
      TransferTransaction Key TxId Data → TransferTransaction Key TxId Data
  not_frozen_first t = record t { transaction = require_not_frozen t.transaction }

module _ {Key TxId Data : Type 0} (text : Key → Bytes) where
  unfoldable pub add_hbar_transfer :
      AccountId Key → ℤ → TransferTransaction Key TxId Data → TransferTransaction Key TxId Data
  unfolding with_hbar
  add_hbar_transfer account amount t = record (not_frozen_first t) {
    hbar_transfers = with_hbar text (add_amount amount) account amount false t.hbar_transfers;
  }

  unfoldable pub add_approved_hbar_transfer :
      AccountId Key
      → ℤ
      → Bool
      → TransferTransaction Key TxId Data
      → TransferTransaction Key TxId Data
  unfolding with_hbar
  add_approved_hbar_transfer account amount approval t = record (not_frozen_first t) {
    hbar_transfers =
        with_hbar text (λ transfer. approve approval (add_amount amount transfer)) account amount
          approval t.hbar_transfers;
  }

  -- The approvals are set without a look at whether the transaction is frozen.
  unfoldable pub set_hbar_transfer_approval :
      AccountId Key → Bool → TransferTransaction Key TxId Data → TransferTransaction Key TxId Data
  set_hbar_transfer_approval spender approval t = record t {
    hbar_transfers =
        map
          (λ transfer.
            if bytes_eq (AccountId.to_string text transfer.account_id)
              (AccountId.to_string text spender)
            then approve approval transfer
            else transfer)
          t.hbar_transfers;
  }
