-- ===== src/Transaction/Signing/Laws.antt =====
-- What signing of transaction.go makes of a transaction without signatures.
use hedera_sdk_go.Prelude.{
  ℕ, ◌<◌, ◌≡◌, refl, ap, ◌∙◌, sym, false, ◌&&◌, not, List, [], ◌∷◌, ◌++◌, none, some, arith, length,
  get_elem?, get_elem?-set_self, set-set, append-nil, append_assoc, Bool-cases, inl, inr,
  length-set, if◌then◌else◌,
}
use hedera_sdk_go.Prelude
use hedera_sdk_go.Prelude.Outcome.{ok, ◌>>=◌}
use hedera_sdk_go.LockableSlice.Locking.{get-some, set_in_range}
use hedera_sdk_go.Transaction.{
  Body, PublicKey, SigPair, to_signature_pair, SignedTransaction, Signer, Transaction,
}
use hedera_sdk_go.Transaction.Signing.{
  get_signed, set_signed, reset_signatures, append_signatures, sign_transaction, already,
}

module _ {Node TxId Data : Type 0} where
  -- The signatures that the signers which are not nil make of a body, in their order.
  abbrev pub signatures :
      List PublicKey → List (Signer Node TxId Data) → Body Node TxId Data → List SigPair
  signatures [] signers body = []
  signatures (key ∷ keys) [] body = []
  signatures (key ∷ keys) (none ∷ signers) body = signatures keys signers body
  signatures (key ∷ keys) (some sign ∷ signers) body =
      to_signature_pair key (sign body) ∷ signatures keys signers body

  -- The transaction with another signed transaction at an index.
  abbrev pub stored :
      ℕ → SignedTransaction Node TxId Data → Transaction Node TxId Data → Transaction Node TxId Data
  stored index tx t = record t {
    signed_transactions = record t.signed_transactions {
      slice = Prelude.set t.signed_transactions.slice index (some tx);
    };
  }

  abbrev pub HasSigned : ℕ → SignedTransaction Node TxId Data → Transaction Node TxId Data → Type 0
  HasSigned index tx t = get_elem? t.signed_transactions.slice index ≡ some (some tx)

  pub get_signed-HasSigned :
      (index : ℕ) (tx : SignedTransaction Node TxId Data) (t : Transaction Node TxId Data)
      → HasSigned index tx t
      → get_signed index t ≡ ok tx
  unfolding get_signed
  get_signed-HasSigned index tx t e = rw (get-some index (some tx) t.signed_transactions e) refl

  pub set_signed-stored :
      (index : ℕ) (tx : SignedTransaction Node TxId Data) (t : Transaction Node TxId Data)
      → t.signed_transactions.locked ≡ false
      → index < length t.signed_transactions.slice
      → set_signed index tx t ≡ ok (stored index tx t)
  unfolding set_signed
  set_signed-stored index tx t h e =
      rw (set_in_range index (some tx) t.signed_transactions h e) refl

  pub stored-HasSigned :
      (index : ℕ) (tx : SignedTransaction Node TxId Data) (t : Transaction Node TxId Data)
      → index < length t.signed_transactions.slice
      → HasSigned index tx (stored index tx t)
  stored-HasSigned index tx t e = get_elem?-set_self t.signed_transactions.slice index (some tx) e

  stored-lt :
      (index : ℕ) (tx : SignedTransaction Node TxId Data) (t : Transaction Node TxId Data)
      → index < length t.signed_transactions.slice
      → index < length (stored index tx t).signed_transactions.slice
  stored-lt index tx t h = omega (arith, length-set t.signed_transactions.slice index (some tx))

  pub stored-stored :
      (index : ℕ) (a b : SignedTransaction Node TxId Data) (t : Transaction Node TxId Data)
      → stored index b (stored index a t) ≡ stored index b t
  stored-stored index a b t =
      ap
        (λ items. record t { signed_transactions = record t.signed_transactions { slice = items } })
        (set-set t.signed_transactions.slice index (some a) (some b))

  -- The transaction with signatures behind those that it has.
  abbrev pub with_signatures :
      List SigPair → SignedTransaction Node TxId Data → SignedTransaction Node TxId Data
  with_signatures pairs tx = record tx { sig_pairs = tx.sig_pairs ++ pairs }

  append_signatures-stored :
      (index : ℕ) (body : Body Node TxId Data) (keys : List PublicKey)
      (signers : List (Signer Node TxId Data)) (tx : SignedTransaction Node TxId Data)
      (t : Transaction Node TxId Data)
      → t.signed_transactions.locked ≡ false
      → index < length t.signed_transactions.slice
      → length keys ≡ length signers
      → append_signatures index body keys signers (stored index tx t)
        ≡ ok (stored index (with_signatures (signatures keys signers body) tx) t)
  unfolding append_signatures
  append_signatures-stored index body [] signers tx t h e l =
      ap (λ pairs. ok (stored index (record tx { sig_pairs = pairs }) t))
        (sym (append-nil tx.sig_pairs))
  append_signatures-stored index body (key ∷ keys) [] tx t h e l = absurd (omega arith)
  append_signatures-stored index body (key ∷ keys) (none ∷ signers) tx t h e l =
      append_signatures-stored index body keys signers tx t h e (omega arith)
  append_signatures-stored index body (key ∷ keys) (some sign ∷ signers) tx t h e l =
      let pair = to_signature_pair key (sign body) in
      let next : SignedTransaction Node TxId Data = with_signatures (pair ∷ []) tx in
      rw
        (
          get_signed-HasSigned index tx (stored index tx t) (stored-HasSigned index tx t e),
          set_signed-stored index next (stored index tx t) h (stored-lt index tx t e),
        )
        (ap (append_signatures index body keys signers) (stored-stored index tx next t)
          ∙ append_signatures-stored index body keys signers next t h e (omega arith)
          ∙ ap (λ pairs. ok (stored index (record tx { sig_pairs = pairs }) t))
              (append_assoc tx.sig_pairs (pair ∷ []) (signatures keys signers body)))

  abbrev pub unsigned : Body Node TxId Data → SignedTransaction Node TxId Data
  unsigned body = record { body = body; sig_pairs = [] }

  reset_signatures-stored :
      (index : ℕ) (body : Body Node TxId Data) (t : Transaction Node TxId Data)
      → t.signed_transactions.locked ≡ false
      → index < length t.signed_transactions.slice
      → reset_signatures index (stored index (unsigned body) t)
        ≡ ok (stored index (unsigned body) t)
  unfolding reset_signatures
  reset_signatures-stored index body t h lt =
      let tx = unsigned body in
      elim (Bool-cases (t.regenerate_transaction_id && not t.transaction_ids.locked)) [
        | inr k ↦ rw k refl
        | inl k ↦ rw k (
            rw
              (
                get_signed-HasSigned index tx (stored index tx t) (stored-HasSigned index tx t lt),
                set_signed-stored index tx (stored index tx t) h (stored-lt index tx t lt),
              )
              (ap ok (stored-stored index tx tx t)))
      ]

  -- Signing a transaction that stands at an index and has no signature, with as many signers as
  -- keys, succeeds: it has the signatures of all signers that are not nil, in their order, and
  -- nothing else changes.
  pub sign_transaction-stored :
      (index : ℕ) (body : Body Node TxId Data) (t : Transaction Node TxId Data)
      → t.signed_transactions.locked ≡ false
      → index < length t.signed_transactions.slice
      → length t.public_keys ≡ length t.transaction_signers
      → sign_transaction index (stored index (unsigned body) t)
        ≡ ok (
            stored index
              (record {
                body = body;
                sig_pairs = signatures t.public_keys t.transaction_signers body;
              })
              t)
  unfolding sign_transaction
  sign_transaction-stored index body t h lt l =
      let tx = unsigned body in
      let u = stored index tx t in
      ap
        (λ m. m >>= λ initial.
          (already u initial >>= λ done.
          if done
          then ok u
          else (reset_signatures index u
              >>= append_signatures index initial.body t.public_keys t.transaction_signers)))
        (get_signed-HasSigned index tx u (stored-HasSigned index tx t lt))
      ∙ ap (λ m. m >>= append_signatures index body t.public_keys t.transaction_signers)
          (reset_signatures-stored index body t h lt)
      ∙ append_signatures-stored index body t.public_keys t.transaction_signers tx t h lt l
