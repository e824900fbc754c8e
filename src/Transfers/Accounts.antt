-- ===== src/Transfers/Accounts.antt =====
-- The accounts of the hbar transfers of transfer_transaction.go over histories of calls.
use hedera_sdk_go.Prelude.{
  ◌≡◌, refl, ap, Bool, false, List, [], ◌∷◌, ◌++◌, Option, none, some, All, All-append, Bool-cases,
  inl, inr,
}
use hedera_sdk_go.Prelude.Int.{ℤ}
use hedera_sdk_go.Prelude.Text.{Bytes}
use hedera_sdk_go.AccountId
use hedera_sdk_go.AccountId.{AccountId}
use hedera_sdk_go.Transfers.{
  is_equal, HbarTransfer, TransferTransaction, add_amount, approve, merged, with_hbar,
  add_hbar_transfer, add_approved_hbar_transfer,
}

pub data Call (Key : Type 0) : Type 0 where
  adds : AccountId Key → ℤ → Call Key
  adds_approved : AccountId Key → ℤ → Bool → Call Key

abbrev pub accounts : {Key : Type 0} → List (HbarTransfer Key) → List (AccountId Key)
accounts [] = []
accounts (transfer ∷ transfers) = transfer.account_id ∷ accounts transfers

accounts-append :
    {Key : Type 0} (xs : List (HbarTransfer Key)) (transfer : HbarTransfer Key)
    → accounts (xs ++ transfer ∷ []) ≡ accounts xs ++ transfer.account_id ∷ []
accounts-append [] transfer = refl
accounts-append (x ∷ xs) transfer = ap (λ l. x.account_id ∷ l) (accounts-append xs transfer)

module _ {Key : Type 0} (text : Key → Bytes) where
  -- No earlier account compares as equal to a later one.
  abbrev pub AreApart : List (AccountId Key) → Type 0
  AreApart [] = Unit
  AreApart (account ∷ accounts) =
      All (λ later. is_equal (AccountId.compare text account later) ≡ false) accounts
      × AreApart accounts

  -- What `merged` gives: the same accounts, or, where there is none, accounts that all differ.
  abbrev Finds : AccountId Key → List (HbarTransfer Key) → Option (List (HbarTransfer Key)) → Type 0
  Finds account transfers none =
      All (λ earlier. is_equal (AccountId.compare text earlier account) ≡ false)
        (accounts transfers)
  Finds account transfers (some changed) = accounts changed ≡ accounts transfers

  Finds-kept :
      (account : AccountId Key) (transfer : HbarTransfer Key) (transfers : List (HbarTransfer Key))
      (o : Option (List (HbarTransfer Key)))
      → is_equal (AccountId.compare text transfer.account_id account) ≡ false
      → Finds account transfers o
      → Finds account
          (transfer ∷ transfers)
          (elim o [ none ↦ none | some rest ↦ some (transfer ∷ rest) ])
  Finds-kept account transfer transfers none e h = (e, h)
  Finds-kept account transfer transfers (some rest) e h = ap (λ l. transfer.account_id ∷ l) h

  merged-Finds :
      (change : HbarTransfer Key → HbarTransfer Key) (account : AccountId Key)
      (transfers : List (HbarTransfer Key))
      → ((h : HbarTransfer Key) → (change h).account_id ≡ h.account_id)
      → Finds account transfers (merged text change account transfers)
  unfolding merged
  merged-Finds change account [] keeps = tt
  merged-Finds change account (transfer ∷ transfers) keeps =
      elim (Bool-cases (is_equal (AccountId.compare text transfer.account_id account))) [
        | inl e ↦ rw e (ap (λ a. a ∷ accounts transfers) (keeps transfer))
        | inr e ↦ rw e (
            Finds-kept account transfer transfers (merged text change account transfers) e
              (merged-Finds change account transfers keeps))
      ]

  AreApart-append :
      (list : List (AccountId Key)) (account : AccountId Key)
      → All (λ earlier. is_equal (AccountId.compare text earlier account) ≡ false) list
      → AreApart list
      → AreApart (list ++ account ∷ [])
  AreApart-append [] account h d = (tt, tt)
  AreApart-append (a ∷ list) account (h, hs) (d, ds) =
      (All-append _ list (account ∷ []) d (h, tt), AreApart-append list account hs ds)

  found-AreApart :
      (new : HbarTransfer Key) (transfers : List (HbarTransfer Key))
      (o : Option (List (HbarTransfer Key)))
      → Finds new.account_id transfers o
      → AreApart (accounts transfers)
      → AreApart (accounts (elim o [ none ↦ transfers ++ new ∷ [] | some changed ↦ changed ]))
  found-AreApart new transfers none h d =
      rw (accounts-append transfers new) (AreApart-append (accounts transfers) new.account_id h d)
  found-AreApart new transfers (some changed) h d = rw h d

  with_hbar-AreApart :
      (change : HbarTransfer Key → HbarTransfer Key) (account : AccountId Key) (amount : ℤ)
      (approval : Bool) (transfers : List (HbarTransfer Key))
      → ((h : HbarTransfer Key) → (change h).account_id ≡ h.account_id)
      → AreApart (accounts transfers)
      → AreApart (accounts (with_hbar text change account amount approval transfers))
  unfolding with_hbar
  with_hbar-AreApart change account amount approval transfers keeps d =
      found-AreApart (record { account_id = account; amount = amount; is_approved = approval })
        transfers (merged text change account transfers)
        (merged-Finds change account transfers keeps) d

module _ {Key TxId Data : Type 0} (text : Key → Bytes) where
  pub run : List (Call Key) → TransferTransaction Key TxId Data → TransferTransaction Key TxId Data
  run [] t = t
  run (adds account amount ∷ calls) t = run calls (add_hbar_transfer text account amount t)
  run (adds_approved account amount approval ∷ calls) t =
      run calls (add_approved_hbar_transfer text account amount approval t)

  -- If no account of the hbar transfers compares as equal to a later one, this is so after
  -- any additions: each account has one transfer.
  pub run-AreApart :
      (calls : List (Call Key)) (t : TransferTransaction Key TxId Data)
      → AreApart text (accounts t.hbar_transfers)
      → AreApart text (accounts (run calls t).hbar_transfers)
  unfolding run add_hbar_transfer add_approved_hbar_transfer
  run-AreApart [] t d = d
  run-AreApart (adds account amount ∷ calls) t d =
      run-AreApart calls (add_hbar_transfer text account amount t) (
        with_hbar-AreApart text (add_amount amount) account amount false t.hbar_transfers
          (λ h. refl) d)
  run-AreApart (adds_approved account amount approval ∷ calls) t d =
      run-AreApart calls (add_approved_hbar_transfer text account amount approval t) (
        with_hbar-AreApart text (λ h. approve approval (add_amount amount h)) account amount
          approval t.hbar_transfers (λ h. refl) d)
