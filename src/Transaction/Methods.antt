-- ===== src/Transaction/Methods.antt =====
-- The methods that each kind of transaction has, as account_create_transaction.go writes them: the
-- files of the other kinds repeat them word by word, over the same embedded `Transaction` of
-- transaction.go, apart from the three schedule transactions, which have no `AddSignature`. Two
-- keys have the same text exactly when they are the same key.
use hedera_sdk_go.Prelude.{
  ℕ, zero, suc, ◌+◌, Bool, true, false, ◌||◌, List, [], ◌∷◌, ◌++◌, Option, none, some,
  if◌then◌else◌, length, ◌==◌,
}
use hedera_sdk_go.Prelude.Int.{ℤ, pos, ltb_ℤ, to_uint64, to_int64}
use hedera_sdk_go.Prelude.Outcome.{
  Outcome, ok, panic, nil_pointer, negative_backoff, backoffs_out_of_order, ◌>>=◌,
}
use hedera_sdk_go.Prelude.Text.{Bytes, bytes_eq}
use hedera_sdk_go.LockableSlice.{LockableSlice, get, set, set_locked}
use hedera_sdk_go.LockableSlice
use hedera_sdk_go.Transaction.{
  PublicKey, ed25519_key, ecdsa_key, to_signature_pair, SignedTransaction, Signer, Transaction,
  asserted, require_not_frozen, require_one_node_account_id, set_transaction_id,
  set_node_account_ids, sign_with,
}

-- `key.String() == pk.String()`
unfoldable pub key_eq : PublicKey → PublicKey → Bool
key_eq (ed25519_key a) (ed25519_key b) = bytes_eq a b
key_eq (ed25519_key a) (ecdsa_key b) = false
key_eq (ecdsa_key a) (ed25519_key b) = false
key_eq (ecdsa_key a) (ecdsa_key b) = bytes_eq a b

-- `_KeyAlreadySigned`, on the keys of the transaction.
abbrev pub key_already_signed : PublicKey → List PublicKey → Bool
key_already_signed pk [] = false
key_already_signed pk (key ∷ keys) = if key_eq key pk then true else key_already_signed pk keys

abbrev pub all_asserted {ℓ} : {A : Type ℓ} → List (Option A) → Outcome (List A)
all_asserted [] = ok []
all_asserted (o ∷ items) = asserted o >>= λ a. all_asserted items >>= λ rest. ok (a ∷ rest)

module _ {Node TxId Data : Type 0} where
  -- `SignWith`; `Sign` passes the public key and the signer of a private key.
  unfoldable pub method_sign_with :
      PublicKey → Signer Node TxId Data → Transaction Node TxId Data → Transaction Node TxId Data
  unfolding sign_with
  method_sign_with key signer t =
      if key_already_signed key t.public_keys then t else sign_with key signer t

  -- The loop of `AddSignature`, with the rounds that are left.
  unfoldable pub add_pairs :
      ℕ
      → ℕ
      → PublicKey
      → Bytes
      → LockableSlice (SignedTransaction Node TxId Data)
      → Outcome (LockableSlice (SignedTransaction Node TxId Data))
  add_pairs zero index key signature s = ok s
  add_pairs (suc rounds) index key signature s = get index s >>= λ item. elim item [
    | none ↦ panic nil_pointer
    | some tx ↦
        set index
          (some (record tx { sig_pairs = tx.sig_pairs ++ to_signature_pair key signature ∷ [] })) s
        >>= add_pairs rounds (index + 1) key signature
  ]

  -- `AddSignature`
  unfoldable pub add_signature :
      PublicKey → Bytes → Transaction Node TxId Data → Outcome (Transaction Node TxId Data)
  unfolding require_one_node_account_id add_pairs
  add_signature key signature t = require_one_node_account_id t >>= λ _.
      if key_already_signed key t.public_keys || length t.signed_transactions.slice == 0
      then ok t
      else (do
        signed ←
            add_pairs (length t.signed_transactions.slice) 0 key signature t.signed_transactions
        ok (record t {
          transactions = LockableSlice.new;
          public_keys = t.public_keys ++ key ∷ [];
          transaction_signers = t.transaction_signers ++ none ∷ [];
          transaction_ids = set_locked true t.transaction_ids;
          signed_transactions = signed;
        }))

  -- `GetMaxTransactionFee`, in tinybars.
  unfoldable pub get_max_transaction_fee : Transaction Node TxId Data → ℤ
  get_max_transaction_fee t = to_int64 t.transaction_fee

  unfoldable pub set_max_transaction_fee :
      ℤ → Transaction Node TxId Data → Transaction Node TxId Data
  unfolding require_not_frozen
  set_max_transaction_fee fee t = record (require_not_frozen t) { transaction_fee = to_uint64 fee }

  unfoldable pub get_transaction_memo : Transaction Node TxId Data → Bytes
  get_transaction_memo t = t.memo

  unfoldable pub set_transaction_memo :
      Bytes → Transaction Node TxId Data → Transaction Node TxId Data
  unfolding require_not_frozen
  set_transaction_memo memo t = record (require_not_frozen t) { memo = memo }

  unfoldable pub get_transaction_valid_duration : Transaction Node TxId Data → ℤ
  get_transaction_valid_duration t = elim t.transaction_valid_duration [
    | none ↦ pos 0
    | some duration ↦ duration
  ]

  unfoldable pub set_transaction_valid_duration :
      ℤ → Transaction Node TxId Data → Transaction Node TxId Data
  unfolding require_not_frozen
  set_transaction_valid_duration duration t = record (require_not_frozen t) {
    transaction_valid_duration = some duration;
  }

  unfoldable pub method_set_transaction_id :
      TxId → Transaction Node TxId Data → Outcome (Transaction Node TxId Data)
  unfolding require_not_frozen set_transaction_id
  method_set_transaction_id id t = set_transaction_id id (require_not_frozen t)

  unfoldable pub method_set_node_account_ids :
      List Node → Transaction Node TxId Data → Outcome (Transaction Node TxId Data)
  unfolding require_not_frozen set_node_account_ids
  method_set_node_account_ids nodes t = set_node_account_ids nodes (require_not_frozen t)

  unfoldable pub get_node_account_ids : Transaction Node TxId Data → Outcome (List Node)
  get_node_account_ids t = all_asserted t.node_account_ids.slice

  -- `SetMinBackoff`: a backoff that is nil has no nanoseconds to compare with.
  unfoldable pub set_min_backoff :
      ℤ → Transaction Node TxId Data → Outcome (Transaction Node TxId Data)
  set_min_backoff min t = if ltb_ℤ min (pos 0) then panic negative_backoff else elim t.max_backoff [
    | none ↦ panic nil_pointer
    | some max ↦
        if ltb_ℤ max min
        then panic backoffs_out_of_order
        else ok (record t { min_backoff = some min })
  ]

  unfoldable pub get_min_backoff : Transaction Node TxId Data → ℤ
  get_min_backoff t = elim t.min_backoff [ none ↦ pos 250000000 | some min ↦ min ]

  -- `SetMaxBackoff`
  unfoldable pub set_max_backoff :
      ℤ → Transaction Node TxId Data → Outcome (Transaction Node TxId Data)
  set_max_backoff max t = if ltb_ℤ max (pos 0) then panic negative_backoff else elim t.min_backoff [
    | none ↦ panic nil_pointer
    | some min ↦
        if ltb_ℤ max min
        then panic backoffs_out_of_order
        else ok (record t { max_backoff = some max })
  ]

  unfoldable pub get_max_backoff : Transaction Node TxId Data → ℤ
  get_max_backoff t = elim t.max_backoff [ none ↦ pos 8000000000 | some max ↦ max ]
