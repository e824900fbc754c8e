-- ===== src/Transfers/Tokens.antt =====
-- The token and NFT transfers of transfer_transaction.go. A map from token ids is a list of entries
-- in the order of a walk; `same_key` is the equality of its keys, which compares checksums as
-- pointers.
use hedera_sdk_go.Prelude.{
  ℕ, Bool, false, List, [], ◌∷◌, ◌++◌, Option, none, some, map, if◌then◌else◌,
}
use hedera_sdk_go.Prelude.Int.{ℤ, eq_ℤ}
use hedera_sdk_go.Prelude.Text.{Bytes}
use hedera_sdk_go.AccountId
use hedera_sdk_go.AccountId.{AccountId}
use hedera_sdk_go.TokenId
use hedera_sdk_go.TokenId.{TokenId, NftId}
use hedera_sdk_go.Transfers.{
  is_equal, HbarTransfer, TokenTransfer, NftTransfer, TransferTransaction, add_amount, approve,
  merged, not_frozen_first,
}

-- The entry of a map, changed; none where the key is missing.
abbrev pub changed_at {ℓ} :
    {V : Type ℓ} → (TokenId → Bool) → (V → V) → List (TokenId × V) → Option (List (TokenId × V))
changed_at is_key change [] = none
changed_at is_key change ((token, v) ∷ entries) =
    if is_key token
    then some ((token, change v) ∷ entries)
    else elim (changed_at is_key change entries) [
      | none ↦ none
      | some rest ↦ some ((token, v) ∷ rest)
    ]

-- `m[key] = append(m[key], …)`, and `m[key] = …` where the key is missing.
abbrev pub change_or_put {ℓ} :
    {V : Type ℓ}
    → (TokenId → TokenId → Bool)
    → TokenId
    → (V → V)
    → V
    → List (TokenId × V)
    → List (TokenId × V)
change_or_put same_key token change v entries = elim (changed_at (same_key token) change entries) [
  | none ↦ entries ++ (token, v) ∷ []
  | some changed ↦ changed
]

module _ {Key : Type 0} where
  -- The first loop of the token transfers: the first entry of the token, in the order of the walk,
  -- whose transfers have the account.
  unfoldable pub merged_tokens :
      (TokenTransfer Key → Option (TokenTransfer Key))
      → TokenId
      → List (TokenId × TokenTransfer Key)
      → Option (List (TokenId × TokenTransfer Key))
  merged_tokens merge token [] = none
  merged_tokens merge token ((key, transfer) ∷ entries) =
      let rest : Option (List (TokenId × TokenTransfer Key)) =
        elim (merged_tokens merge token entries) [
          | none ↦ none
          | some changed ↦ some ((key, transfer) ∷ changed)
        ] in
      elim (if is_equal (TokenId.compare key token) then merge transfer else none) [
        | none ↦ rest
        | some changed ↦ some ((key, changed) ∷ entries)
      ]

  abbrev pub expect : ℕ → TokenTransfer Key → TokenTransfer Key
  expect decimal entry = record entry { expected_decimals = some decimal }

  -- What the first loop does with an entry of the token: the first transfer of the account is
  -- changed, and then the entry.
  unfoldable pub merge_entry :
      (Key → Bytes)
      → (HbarTransfer Key → HbarTransfer Key)
      → (TokenTransfer Key → TokenTransfer Key)
      → AccountId Key
      → TokenTransfer Key
      → Option (TokenTransfer Key)
  unfolding merged
  merge_entry text change finish account entry = elim (merged text change account entry.transfers) [
    | none ↦ none
    | some transfers ↦ some (finish (record entry { transfers = transfers }))
  ]

module _ {Key TxId Data : Type 0} (text : Key → Bytes) (same_key : TokenId → TokenId → Bool) where
  -- The four functions that add a token transfer: what they do with the transfer and with the
  -- token's entry where the account is found, the approval of a new transfer, and what they do with
  -- the entry behind that.
  unfoldable pub add_token :
      (HbarTransfer Key → HbarTransfer Key)
      → (TokenTransfer Key → TokenTransfer Key)
      → TokenId
      → AccountId Key
      → ℤ
      → Bool
      → (TokenTransfer Key → TokenTransfer Key)
      → TransferTransaction Key TxId Data
      → TransferTransaction Key TxId Data
  unfolding merged_tokens merge_entry
  add_token change finish token account value approval decimals t =
      let new : HbarTransfer Key = record {
        account_id = account;
        amount = value;
        is_approved = approval;
      } in
      record (not_frozen_first t) {
        token_transfers =
            elim (merged_tokens (merge_entry text change finish account) token t.token_transfers) [
              | some changed ↦ changed
              | none ↦
                  change_or_put same_key token
                    (λ entry. decimals (record entry { transfers = entry.transfers ++ new ∷ [] }))
                    (decimals (record { transfers = new ∷ []; expected_decimals = none }))
                    t.token_transfers
            ];
      }

  unfoldable pub add_token_transfer :
      TokenId
      → AccountId Key
      → ℤ
      → TransferTransaction Key TxId Data
      → TransferTransaction Key TxId Data
  unfolding add_token
  add_token_transfer token account value =
      add_token (add_amount value) (λ entry. entry) token account value false (λ entry. entry)

  unfoldable pub add_token_transfer_with_decimals :
      TokenId
      → AccountId Key
      → ℤ
      → ℕ
      → TransferTransaction Key TxId Data
      → TransferTransaction Key TxId Data
  unfolding add_token
  add_token_transfer_with_decimals token account value decimal =
      add_token (add_amount value) (expect decimal) token account value false (expect decimal)

  unfoldable pub add_approved_token_transfer :
      TokenId
      → AccountId Key
      → ℤ
      → Bool
      → TransferTransaction Key TxId Data
      → TransferTransaction Key TxId Data
  unfolding add_token
  add_approved_token_transfer token account value approval =
      add_token (λ transfer. approve approval (add_amount value transfer)) (λ entry. entry) token
        account value approval (λ entry. entry)

  -- Where the account is found, the inner loop approves every transfer of the token.
  unfoldable pub add_approved_token_transfer_with_decimals :
      TokenId
      → AccountId Key
      → ℤ
      → ℕ
      → Bool
      → TransferTransaction Key TxId Data
      → TransferTransaction Key TxId Data
  unfolding add_token
  add_approved_token_transfer_with_decimals token account value decimal approval =
      add_token (add_amount value)
        (λ entry.
          expect decimal (record entry { transfers = map (approve approval) entry.transfers }))
        token account value approval (expect decimal)

  unfoldable pub add_approved_nft_transfer :
      NftId
      → AccountId Key
      → AccountId Key
      → Bool
      → TransferTransaction Key TxId Data
      → TransferTransaction Key TxId Data
  add_approved_nft_transfer nft sender receiver approval t =
      let new : NftTransfer Key = record {
        sender = sender;
        receiver = receiver;
        serial_number = nft.serial_number;
        is_approved = approval;
      } in
      record (not_frozen_first t) {
        nft_transfers =
            change_or_put same_key nft.token_id (λ list. list ++ new ∷ []) (new ∷ [])
              t.nft_transfers;
      }

  unfoldable pub add_nft_transfer :
      NftId
      → AccountId Key
      → AccountId Key
      → TransferTransaction Key TxId Data
      → TransferTransaction Key TxId Data
  unfolding add_approved_nft_transfer
  add_nft_transfer nft sender receiver = add_approved_nft_transfer nft sender receiver false

module _ {Key TxId Data : Type 0} where
  unfoldable pub set_nft_transfer_approval :
      NftId → Bool → TransferTransaction Key TxId Data → TransferTransaction Key TxId Data
  set_nft_transfer_approval nft approval t = record t {
    nft_transfers =
        map
          (λ entry.
            if is_equal (TokenId.compare entry.0 nft.token_id)
            then (
              entry.0,
              map
                  (λ transfer.
                    if eq_ℤ transfer.serial_number nft.serial_number
                    then record transfer { is_approved = approval }
                    else transfer)
                  entry.1,
            )
            else entry)
          t.nft_transfers;
  }

module _ {Key TxId Data : Type 0} (text : Key → Bytes) where
  unfoldable pub set_token_transfer_approval :
      TokenId
      → AccountId Key
      → Bool
      → TransferTransaction Key TxId Data
      → TransferTransaction Key TxId Data
  set_token_transfer_approval token account approval t = record t {
    token_transfers =
        map
          (λ entry.
            if is_equal (TokenId.compare entry.0 token)
            then (
              entry.0,
              record entry.1 {
                transfers =
                    map
                      (λ transfer.
                        if is_equal (AccountId.compare text transfer.account_id account)
                        then approve approval transfer
                        else transfer)
                      entry.1.transfers;
              },
            )
            else entry)
          t.token_transfers;
  }
