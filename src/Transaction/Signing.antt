-- ===== src/Transaction/Signing.antt =====
-- `_SignTransaction` of transaction.go.
pub mod Laws
use hedera_sdk_go.Prelude.{
  ℕ, Bool, true, false, ◌&&◌, not, List, [], ◌∷◌, ◌++◌, Option, none, some, if◌then◌else◌, length,
  ltb,
}
use hedera_sdk_go.Prelude.Outcome.{Outcome, ok, panic, out_of_range, nil_pointer, ◌>>=◌}
use hedera_sdk_go.Prelude.Text.{Bytes, bytes_eq}
use hedera_sdk_go.LockableSlice.{get, set}
use hedera_sdk_go.Transaction.{
  Body, PublicKey, ed25519_key, ecdsa_key, Signature, ed25519, ecdsa_secp256k1, SigPair,
  to_signature_pair, SignedTransaction, Signer, Transaction, asserted,
}

-- The bytes of a signature of the kind that the key makes.
abbrev pub signature_of : PublicKey → Signature → Option Bytes
signature_of (ed25519_key _) (ed25519 s) = some s
signature_of (ecdsa_key _) (ecdsa_secp256k1 s) = some s
signature_of _ _ = none

abbrev pub key_bytes : PublicKey → Bytes
key_bytes (ed25519_key k) = k
key_bytes (ecdsa_key k) = k

module _ {Node TxId Data : Type 0} where
  -- `bytes.Equal(t.Ed25519, this.transactionSigners[0](bodyBytes)) && len(t.Ed25519) > 0`, and the
  -- same for ECDSA: the signature is compared with that of the first signer.
  abbrev pub is_by_first : Body Node TxId Data → Signer Node TxId Data → Option Bytes → Outcome Bool
  is_by_first body first none = ok false
  is_by_first body none (some s) = panic nil_pointer
  is_by_first body (some sign) (some s) = ok (bytes_eq s (sign body) && ltb 0 (length s))

  -- The loop that looks for a key whose signature stands first already.
  unfoldable pub signed_already :
      Bool
      → Body Node TxId Data
      → SigPair
      → Signer Node TxId Data
      → List PublicKey
      → List (Signer Node TxId Data)
      → Outcome Bool
  signed_already regenerate body pair first [] signers = ok false
  signed_already regenerate body pair first (key ∷ keys) [] = panic out_of_range
  signed_already regenerate body pair first (key ∷ keys) (none ∷ signers) =
      signed_already regenerate body pair first keys signers
  signed_already regenerate body pair first (key ∷ keys) (some sign ∷ signers) =
      let rest = signed_already regenerate body pair first keys signers in
      if bytes_eq pair.pub_key_prefix (key_bytes key)
      then (if regenerate
          then (is_by_first body first (signature_of key pair.signature) >>= λ done.
              if done then ok true else rest)
          else ok true)
      else rest

  -- `transactionSigners[0]`, read only where the list has an item.
  abbrev pub first_signer : List (Signer Node TxId Data) → Signer Node TxId Data
  first_signer [] = none
  first_signer (s ∷ signers) = s

  abbrev pub already : Transaction Node TxId Data → SignedTransaction Node TxId Data → Outcome Bool
  already t tx = elim tx.sig_pairs [
    | [] ↦ ok false
    | pair ∷ _ ↦
        signed_already t.regenerate_transaction_id tx.body pair (first_signer t.transaction_signers)
          t.public_keys t.transaction_signers
  ]

  -- `this.signedTransactions._Get(index).(*services.SignedTransaction)`
  unfoldable pub get_signed :
      ℕ → Transaction Node TxId Data → Outcome (SignedTransaction Node TxId Data)
  get_signed index t = get index t.signed_transactions >>= asserted

  unfoldable pub set_signed :
      ℕ
      → SignedTransaction Node TxId Data
      → Transaction Node TxId Data
      → Outcome (Transaction Node TxId Data)
  set_signed index tx t = do
    signed ← set index (some tx) t.signed_transactions
    ok (record t { signed_transactions = signed })

  -- The signatures are dropped where the transaction may get a new id.
  unfoldable pub reset_signatures :
      ℕ → Transaction Node TxId Data → Outcome (Transaction Node TxId Data)
  unfolding get_signed set_signed
  reset_signatures index t =
      if t.regenerate_transaction_id && not t.transaction_ids.locked
      then (do tx ← get_signed index t; set_signed index (record tx { sig_pairs = [] }) t)
      else ok t

  -- The last loop: each signer that is not nil appends its signature of the body.
  unfoldable pub append_signatures :
      ℕ
      → Body Node TxId Data
      → List PublicKey
      → List (Signer Node TxId Data)
      → Transaction Node TxId Data
      → Outcome (Transaction Node TxId Data)
  unfolding get_signed set_signed
  append_signatures index body [] signers t = ok t
  append_signatures index body (key ∷ keys) [] t = panic out_of_range
  append_signatures index body (key ∷ keys) (none ∷ signers) t =
      append_signatures index body keys signers t
  append_signatures index body (key ∷ keys) (some sign ∷ signers) t = do
    tx ← get_signed index t
    next ←
        set_signed index
          (record tx { sig_pairs = tx.sig_pairs ++ to_signature_pair key (sign body) ∷ [] }) t
    append_signatures index body keys signers next

  -- `_SignTransaction`
  unfoldable pub sign_transaction :
      ℕ → Transaction Node TxId Data → Outcome (Transaction Node TxId Data)
  unfolding signed_already get_signed reset_signatures append_signatures
  sign_transaction index t = do
    initial ← get_signed index t
    done ← already t initial
    if done
        then ok t
        else (reset_signatures index t
            >>= append_signatures index initial.body t.public_keys t.transaction_signers)
