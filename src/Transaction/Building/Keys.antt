-- ===== src/Transaction/Building/Keys.antt =====
-- Building a transaction changes neither its keys and signers nor its backoffs.
use hedera_sdk_go.Prelude.{
  ℕ, zero, suc, ◌≡◌, refl, List, [], ◌∷◌, Option, none, some, Bool-cases, inl, inr, Option-cases,
  ◌&&◌, not, length, ◌==◌,
}
use hedera_sdk_go.Prelude.Outcome.{◌>>=◌, IfOk, IfOk-bind, IfOk-chain}
use hedera_sdk_go.Prelude.Text.{Bytes}
use hedera_sdk_go.LockableSlice.{get_current}
use hedera_sdk_go.LockableSlice
use hedera_sdk_go.Transaction.{
  PublicKey, Signer, Body, SignedTransaction, BuiltTransaction, Transaction, asserted, is_frozen,
}
use hedera_sdk_go.Transaction.Signing.{
  get_signed, set_signed, already, reset_signatures, append_signatures, sign_transaction,
}
use hedera_sdk_go.Transaction.Building.{
  built_before, padded, updated_body, build_anew, build_transaction, build_from,
  build_all_transactions, to_bytes,
}
use hedera_sdk_go.Transaction.Signatures.{
  get_signatures, signatures_from, get_transaction_hash_per_node, hashes_from,
}

module _ {Node TxId Data : Type 0} where
  -- The keys, the signers and the backoffs are the same.
  abbrev pub Keeps : Transaction Node TxId Data → Transaction Node TxId Data → Type 0
  Keeps t u =
      (u.public_keys ≡ t.public_keys)
      × (u.transaction_signers ≡ t.transaction_signers)
      × (u.min_backoff ≡ t.min_backoff)
      × (u.max_backoff ≡ t.max_backoff)

  module _ (t : Transaction Node TxId Data) where
    set_signed-Keeps :
        (index : ℕ) (tx : SignedTransaction Node TxId Data) (u : Transaction Node TxId Data)
        → Keeps t u
        → IfOk (Keeps t) (set_signed index tx u)
    unfolding set_signed
    set_signed-Keeps index tx u h =
        IfOk-bind (Keeps t) (LockableSlice.set index (some tx) u.signed_transactions) _ λ _ _. h

    reset_signatures-Keeps :
        (index : ℕ) (u : Transaction Node TxId Data)
        → Keeps t u
        → IfOk (Keeps t) (reset_signatures index u)
    unfolding reset_signatures
    reset_signatures-Keeps index u h =
        elim (Bool-cases (u.regenerate_transaction_id && not u.transaction_ids.locked)) [
          | inl e ↦
              rw e (IfOk-bind (Keeps t) (get_signed index u) _ λ tx _. set_signed-Keeps index _ u h)
          | inr e ↦ rw e h
        ]

    append_signatures-Keeps :
        (index : ℕ) (body : Body Node TxId Data) (keys : List PublicKey)
        (signers : List (Signer Node TxId Data)) (u : Transaction Node TxId Data)
        → Keeps t u
        → IfOk (Keeps t) (append_signatures index body keys signers u)
    unfolding append_signatures
    append_signatures-Keeps index body [] signers u h = h
    append_signatures-Keeps index body (key ∷ keys) [] u h = tt
    append_signatures-Keeps index body (key ∷ keys) (none ∷ signers) u h =
        append_signatures-Keeps index body keys signers u h
    append_signatures-Keeps index body (key ∷ keys) (some sign ∷ signers) u h =
        IfOk-bind (Keeps t) (get_signed index u) _ λ tx _.
          IfOk-chain (Keeps t) (Keeps t) (set_signed index _ u) _ (set_signed-Keeps index _ u h)
            λ next k. append_signatures-Keeps index body keys signers next k

    sign_transaction-Keeps :
        (index : ℕ) (u : Transaction Node TxId Data)
        → Keeps t u
        → IfOk (Keeps t) (sign_transaction index u)
    unfolding sign_transaction
    sign_transaction-Keeps index u h = IfOk-bind (Keeps t) (get_signed index u) _ λ initial _.
        IfOk-bind (Keeps t) (already u initial) _ λ done _. elim (Bool-cases done) [
          | inl e ↦ rw e h
          | inr e ↦ rw e (
              IfOk-chain (Keeps t) (Keeps t) (reset_signatures index u) _
                (reset_signatures-Keeps index u h)
                λ next k.
                  append_signatures-Keeps index initial.body u.public_keys u.transaction_signers
                    next k)
        ]

    build_anew-Keeps :
        (index : ℕ) (u : Transaction Node TxId Data)
        → Keeps t u
        → IfOk (λ r. Keeps t r.0) (build_anew index u)
    unfolding build_anew
    build_anew-Keeps index u h =
        let Q : Transaction Node TxId Data × BuiltTransaction Node TxId Data → Type 0 =
          λ r. Keeps t r.0 in
        IfOk-bind Q (get_signed index u) _ λ signed _.
          IfOk-bind Q (get_current u.transaction_ids >>= asserted) _ λ id _.
            IfOk-bind Q (updated_body index u id signed.body) _ λ body _.
              IfOk-chain (Keeps t) Q (set_signed index _ u) _ (set_signed-Keeps index _ u h)
                λ stored k.
                  IfOk-chain (Keeps t) Q (sign_transaction index stored) _
                    (sign_transaction-Keeps index stored k)
                    λ after l.
                      IfOk-bind Q (get_current after.signed_transactions >>= asserted) _ λ tx _. l

    build_transaction-Keeps :
        (index : ℕ) (u : Transaction Node TxId Data)
        → Keeps t u
        → IfOk (λ r. Keeps t r.0) (build_transaction index u)
    unfolding build_transaction padded
    build_transaction-Keeps index u h =
        IfOk-bind (λ r. Keeps t r.0) (built_before index u) _
          λ before _. elim (Option-cases before) [
            | inl e ↦ rw e (build_anew-Keeps index (padded index u) h)
            | inr (tx, e) ↦ rw e h
          ]

    build_from-Keeps :
        (n i : ℕ) (u : Transaction Node TxId Data)
        → Keeps t u
        → IfOk (λ r. Keeps t r.0) (build_from n i u)
    unfolding build_from
    build_from-Keeps zero i u h = h
    build_from-Keeps (suc n) i u h =
        IfOk-chain (λ r. Keeps t r.0) (λ r. Keeps t r.0) (build_transaction i u) _
          (build_transaction-Keeps i u h)
          λ built k.
            IfOk-chain (λ r. Keeps t r.0) (λ r. Keeps t r.0) (build_from n (suc i) built.0) _
              (build_from-Keeps n (suc i) built.0 k) λ rest l. l

    pub to_bytes-Keeps : IfOk (λ r. Keeps t r.0) (to_bytes t)
    unfolding to_bytes build_all_transactions
    to_bytes-Keeps = elim (Bool-cases (is_frozen t)) [
      | inl e ↦ rw e (
          IfOk-chain (λ r. Keeps t r.0) (λ r. Keeps t r.0) (build_all_transactions t) _
            (build_from-Keeps _ 0 t (refl, refl, refl, refl)) λ built k. k)
      | inr e ↦ rw e tt
    ]

    pub get_signatures-Keeps :
        (public_key_from_bytes : Bytes → Option PublicKey)
        → IfOk (λ r. Keeps t r.0) (get_signatures public_key_from_bytes t)
    unfolding get_signatures
    get_signatures-Keeps public_key_from_bytes =
        elim (Bool-cases (length t.signed_transactions.slice == 0)) [
          | inl e ↦ rw e (refl, refl, refl, refl)
          | inr e ↦ rw e (
              IfOk-bind (λ r. Keeps t r.0)
                (signatures_from public_key_from_bytes t.signed_transactions 0
                  t.node_account_ids.slice)
                _ λ found _. (refl, refl, refl, refl))
        ]

    pub get_transaction_hash_per_node-Keeps :
        (sha384 : BuiltTransaction Node TxId Data → Bytes)
        → IfOk (λ r. Keeps t r.0) (get_transaction_hash_per_node sha384 t)
    unfolding get_transaction_hash_per_node build_all_transactions
    get_transaction_hash_per_node-Keeps sha384 = elim (Bool-cases (is_frozen t)) [
      | inl e ↦ rw e (
          IfOk-chain (λ r. Keeps t r.0) (λ r. Keeps t r.0) (build_all_transactions t) _
            (build_from-Keeps _ 0 t (refl, refl, refl, refl))
            λ built k.
              IfOk-bind (λ r. Keeps t r.0)
                (hashes_from sha384 built.1 0 built.0.node_account_ids.slice) _ λ hashes _. k)
      | inr e ↦ rw e tt
    ]
