-- ===== src/Transfers/Sums.antt =====
-- The amounts and the accounts of the hbar transfers of transfer_transaction.go, and its approvals
-- of token transfers.
use hedera_sdk_go.Prelude.{
  ℕ, ◌≡◌, refl, sym, ap, ◌∙◌, Bool, true, false, List, [], ◌∷◌, ◌++◌, Option, none, some, arith,
  All, map, Bool-cases, inl, inr,
}
use hedera_sdk_go.Prelude.Int.{
  ℤ, pos, ◌+ℤ◌, +ℤ_assoc, +ℤ_comm, IsInt64, to_int64, to_uint64, to_int64-to_uint64,
}
use mathlib.Core.List.{map-append}
use hedera_sdk_go.Prelude.Text.{Bytes}
use hedera_sdk_go.AccountId
use hedera_sdk_go.AccountId.{AccountId}
use hedera_sdk_go.TokenId
use hedera_sdk_go.TokenId.{TokenId}
use hedera_sdk_go.ManagedNode.{add_int64}
use hedera_sdk_go.Transfers.{
  is_equal, HbarTransfer, TokenTransfer, TransferTransaction, add_amount, approve, merged,
  with_hbar, add_hbar_transfer, add_approved_hbar_transfer,
}
use hedera_sdk_go.Transfers.Tokens.{
  merge_entry, merged_tokens, add_token, expect, add_approved_token_transfer_with_decimals,
}

-- What the transfers add up to.
abbrev pub total : {Key : Type 0} → List (HbarTransfer Key) → ℤ
total [] = pos 0
total (transfer ∷ transfers) = transfer.amount +ℤ total transfers

-- Adding the amount to a transfer of the list does not leave int64.
abbrev pub Fits : {Key : Type 0} → ℤ → List (HbarTransfer Key) → Type 0
Fits amount transfers = All (λ transfer. IsInt64 (amount +ℤ transfer.amount)) transfers

total-append :
    {Key : Type 0} (xs : List (HbarTransfer Key)) (transfer : HbarTransfer Key)
    → total (xs ++ transfer ∷ []) ≡ transfer.amount +ℤ total xs
total-append [] transfer = refl
total-append (x ∷ xs) transfer =
    ap (λ s. x.amount +ℤ s) (total-append xs transfer)
    ∙ (sym (+ℤ_assoc x.amount transfer.amount (total xs))
        ∙ (ap (λ s. s +ℤ total xs) (+ℤ_comm x.amount transfer.amount)
            ∙ +ℤ_assoc transfer.amount x.amount (total xs)))

module _ {Key : Type 0} (text : Key → Bytes) where
  -- What `merged` gives: transfers whose total is the old one and the amount.
  abbrev AddsUp : ℤ → List (HbarTransfer Key) → Option (List (HbarTransfer Key)) → Type 0
  AddsUp amount transfers none = Unit
  AddsUp amount transfers (some changed) = total changed ≡ amount +ℤ total transfers

  AddsUp-kept :
      (amount : ℤ) (transfer : HbarTransfer Key) (transfers : List (HbarTransfer Key))
      (o : Option (List (HbarTransfer Key)))
      → AddsUp amount transfers o
      → AddsUp amount
          (transfer ∷ transfers)
          (elim o [ none ↦ none | some rest ↦ some (transfer ∷ rest) ])
  AddsUp-kept amount transfer transfers none h = tt
  AddsUp-kept amount transfer transfers (some rest) h =
      ap (λ s. transfer.amount +ℤ s) h
      ∙ (sym (+ℤ_assoc transfer.amount amount (total transfers))
          ∙ (ap (λ s. s +ℤ total transfers) (+ℤ_comm transfer.amount amount)
              ∙ +ℤ_assoc amount transfer.amount (total transfers)))

  merged-AddsUp :
      (change : HbarTransfer Key → HbarTransfer Key) (account : AccountId Key) (amount : ℤ)
      (transfers : List (HbarTransfer Key))
      → ((h : HbarTransfer Key) → (change h).amount ≡ add_int64 amount h.amount)
      → Fits amount transfers
      → AddsUp amount transfers (merged text change account transfers)
  unfolding merged
  merged-AddsUp change account amount [] adds fits = tt
  merged-AddsUp change account amount (transfer ∷ transfers) adds (f, fits) =
      elim (Bool-cases (is_equal (AccountId.compare text transfer.account_id account))) [
        | inl e ↦ rw e (
            ap (λ s. s +ℤ total transfers)
              (adds transfer ∙ to_int64-to_uint64 (amount +ℤ transfer.amount) f)
            ∙ +ℤ_assoc amount transfer.amount (total transfers))
        | inr e ↦ rw e (
            AddsUp-kept amount transfer transfers (merged text change account transfers)
              (merged-AddsUp change account amount transfers adds fits))
      ]

  with_merged :
      (amount : ℤ) (new : HbarTransfer Key) (transfers : List (HbarTransfer Key))
      (o : Option (List (HbarTransfer Key)))
      → new.amount ≡ amount
      → AddsUp amount transfers o
      → total (elim o [ none ↦ transfers ++ new ∷ [] | some changed ↦ changed ])
        ≡ amount +ℤ total transfers
  with_merged amount new transfers none e h =
      total-append transfers new ∙ ap (λ s. s +ℤ total transfers) e
  with_merged amount new transfers (some changed) e h = h

  with_hbar-total :
      (change : HbarTransfer Key → HbarTransfer Key) (account : AccountId Key) (amount : ℤ)
      (approval : Bool) (transfers : List (HbarTransfer Key))
      → ((h : HbarTransfer Key) → (change h).amount ≡ add_int64 amount h.amount)
      → Fits amount transfers
      → total (with_hbar text change account amount approval transfers) ≡ amount +ℤ total transfers
  unfolding with_hbar
  with_hbar-total change account amount approval transfers adds fits =
      with_merged amount (record { account_id = account; amount = amount; is_approved = approval })
        transfers (merged text change account transfers) refl
        (merged-AddsUp change account amount transfers adds fits)

merged_tokens_first :
    {Key : Type 0} (merge : TokenTransfer Key → Option (TokenTransfer Key)) (token key : TokenId)
    (entry changed : TokenTransfer Key) (entries : List (TokenId × TokenTransfer Key))
    → is_equal (TokenId.compare key token) ≡ true
    → merge entry ≡ some changed
    → merged_tokens merge token ((key, entry) ∷ entries) ≡ some ((key, changed) ∷ entries)
unfolding merged_tokens
merged_tokens_first merge token key entry changed entries k m = ground arith

-- A transfer with another approval.
abbrev pub with_approval : {Key : Type 0} → Bool → HbarTransfer Key → HbarTransfer Key
with_approval approval h = record {
  account_id = h.account_id;
  amount = h.amount;
  is_approved = approval;
}

module _ {Key : Type 0} (text : Key → Bytes) where
  merged_at :
      (change : HbarTransfer Key → HbarTransfer Key) (account : AccountId Key)
      (front : List (HbarTransfer Key)) (found : HbarTransfer Key)
      (behind : List (HbarTransfer Key))
      → All (λ h. is_equal (AccountId.compare text h.account_id account) ≡ false) front
      → is_equal (AccountId.compare text found.account_id account) ≡ true
      → merged text change account (front ++ found ∷ behind) ≡ some (front ++ change found ∷ behind)
  unfolding merged
  merged_at change account [] found behind others same = rw same refl
  merged_at change account (h ∷ front) found behind (other, others) same =
      rw (other, merged_at change account front found behind others same) refl

  merge_entry-merged :
      (change : HbarTransfer Key → HbarTransfer Key)
      (finish : TokenTransfer Key → TokenTransfer Key) (account : AccountId Key)
      (entry : TokenTransfer Key) (changed : List (HbarTransfer Key))
      → merged text change account entry.transfers ≡ some changed
      → merge_entry text change finish account entry
        ≡ some (finish (record entry { transfers = changed }))
  unfolding merge_entry
  merge_entry-merged change finish account entry changed m =
      ap
        (λ (o : Option (List (HbarTransfer Key))). elim o [
          | none ↦ none
          | some transfers ↦ some (finish (record entry { transfers = transfers }))
        ])
        m

module _ {Key TxId Data : Type 0} (text : Key → Bytes) where
  -- Adding an amount for an account, with or without an approval, adds just this amount to the total
  -- of the hbar transfers, where no sum of it and a transfer that stands there leaves int64. The
  -- token and NFT transfers stay.
  pub add_hbar_transfer-total :
      (account : AccountId Key) (amount : ℤ) (approval : Bool)
      (t : TransferTransaction Key TxId Data)
      → Fits amount t.hbar_transfers
      → (total (add_hbar_transfer text account amount t).hbar_transfers
          ≡ amount +ℤ total t.hbar_transfers)
        × (total (add_approved_hbar_transfer text account amount approval t).hbar_transfers
            ≡ amount +ℤ total t.hbar_transfers)
        × ((add_hbar_transfer text account amount t).token_transfers ≡ t.token_transfers)
        × ((add_hbar_transfer text account amount t).nft_transfers ≡ t.nft_transfers)
        × ((add_approved_hbar_transfer text account amount approval t).token_transfers
            ≡ t.token_transfers)
        × ((add_approved_hbar_transfer text account amount approval t).nft_transfers
            ≡ t.nft_transfers)
  unfolding add_hbar_transfer add_approved_hbar_transfer
  add_hbar_transfer-total account amount approval t fits = (
    with_hbar-total text (add_amount amount) account amount false t.hbar_transfers (λ h. refl) fits,
    with_hbar-total text (λ h. approve approval (add_amount amount h)) account amount approval
        t.hbar_transfers (λ h. refl) fits,
    refl,
    refl,
    refl,
    refl,
  )

  add_token_merged :
      (same_key : TokenId → TokenId → Bool) (change : HbarTransfer Key → HbarTransfer Key)
      (finish decimals : TokenTransfer Key → TokenTransfer Key) (token : TokenId)
      (account : AccountId Key) (value : ℤ) (approval : Bool)
      (t : TransferTransaction Key TxId Data) (changed : List (TokenId × TokenTransfer Key))
      → merged_tokens (merge_entry text change finish account) token t.token_transfers
        ≡ some changed
      → (add_token text same_key change finish token account value approval decimals
          t).token_transfers
        ≡ changed
  unfolding add_token
  add_token_merged same_key change finish decimals token account value approval t changed h =
      rw (h, add_token) refl

  -- Where the first entry of the map is of a token with the same number, and a transfer in it is of
  -- the account and none in front of this one is, adding an approved transfer with decimals adds the
  -- value to this transfer's amount, as an int64, and gives its approval to every transfer of the
  -- entry, of other accounts too; the decimals are set, and other entries stay.
  pub add_approved_token_transfer_with_decimals-every_approval :
      (same_key : TokenId → TokenId → Bool) (token key : TokenId) (account : AccountId Key)
      (value : ℤ) (decimal : ℕ) (approval : Bool) (entry : TokenTransfer Key)
      (entries : List (TokenId × TokenTransfer Key)) (front behind : List (HbarTransfer Key))
      (found : HbarTransfer Key) (t : TransferTransaction Key TxId Data)
      → t.token_transfers ≡ (key, entry) ∷ entries
      → is_equal (TokenId.compare key token) ≡ true
      → entry.transfers ≡ front ++ found ∷ behind
      → All (λ h. is_equal (AccountId.compare text h.account_id account) ≡ false) front
      → is_equal (AccountId.compare text found.account_id account) ≡ true
      → (add_approved_token_transfer_with_decimals text same_key token account value decimal
          approval t).token_transfers
        ≡ (
          key,
          record {
            transfers =
                map (with_approval approval) front
                ++ record {
                  account_id = found.account_id;
                  amount = to_int64 (to_uint64 (value +ℤ found.amount));
                  is_approved = approval;
                }
                  ∷ map (with_approval approval) behind;
            expected_decimals = some decimal;
          },
        )
          ∷ entries
  unfolding add_approved_token_transfer_with_decimals
  add_approved_token_transfer_with_decimals-every_approval same_key token key account value decimal
        approval entry entries front behind found t e k split others same =
      let changed = front ++ add_amount value found ∷ behind in
      let finish = λ (entry' : TokenTransfer Key).
        expect decimal (record entry' { transfers = map (approve approval) entry'.transfers }) in
      let merge = merge_entry text (add_amount value) finish account in
      let m : merged text (add_amount value) account entry.transfers ≡ some changed =
        ap (merged text (add_amount value) account) split
        ∙ merged_at text (add_amount value) account front found behind others same in
      add_token_merged same_key (add_amount value) finish (expect decimal) token account value
        approval t _
        (ap (merged_tokens merge token) e
          ∙ merged_tokens_first merge token key entry
              (finish (record entry { transfers = changed })) entries k
              (merge_entry-merged text (add_amount value) finish account entry changed m))
      ∙ ap
          (λ transfers.
            (key, record { transfers = transfers; expected_decimals = some decimal }) ∷ entries)
          (map-append (approve approval) front (add_amount value found ∷ behind))
