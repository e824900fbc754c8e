-- ===== src/Transaction/Signatures.antt =====
-- `GetSignatures`, `GetTransactionHash` and `GetTransactionHashPerNode` of transaction.go. A map
-- from nodes is the list of its assignments, of which the last one for a node counts; `none` stands
-- for the zero account id.
pub mod Laws
use hedera_sdk_go.Prelude.{
  ℕ, suc, true, List, [], ◌∷◌, Option, none, some, if◌then◌else◌, length, ◌==◌, get_elem?,
}
use hedera_sdk_go.Prelude.Outcome.{
  Outcome, ok, err, panic, bad_key, nil_pointer, out_of_range, not_frozen, ◌>>=◌,
}
use hedera_sdk_go.Prelude.Text.{Bytes}
use hedera_sdk_go.LockableSlice.{LockableSlice, get, set_locked}
use hedera_sdk_go.Transaction.{
  PublicKey, Signature, SigPair, ed25519, ecdsa_secp256k1, other, SignedTransaction,
  BuiltTransaction, Transaction, is_frozen,
}
use hedera_sdk_go.Transaction.Building.{build_all_transactions}

-- The signature that the switch takes; ECDSA signatures over secp256k1 have no case, and `other`
-- stands for those of contracts, RSA and ECDSA over P-384.
abbrev pub taken : Signature → Option Bytes
taken (ed25519 s) = some s
taken (ecdsa_secp256k1 s) = none
taken (other s) = some s

-- The inner loop; the keys of the map are new pointers.
unfoldable pub signatures_of :
    (Bytes → Option PublicKey) → List SigPair → Outcome (List (PublicKey × Bytes))
signatures_of public_key_from_bytes [] = ok []
signatures_of public_key_from_bytes (pair ∷ pairs) =
    elim (public_key_from_bytes pair.pub_key_prefix) [
      | none ↦ err bad_key
      | some key ↦ signatures_of public_key_from_bytes pairs >>= λ rest.
          elim (taken pair.signature) [ none ↦ ok rest | some s ↦ ok ((key, s) ∷ rest) ]
    ]

module _ {Node TxId Data : Type 0} where
  -- The loop over the nodes, from the index i on.
  unfoldable pub signatures_from :
      (Bytes → Option PublicKey)
      → LockableSlice (SignedTransaction Node TxId Data)
      → ℕ
      → List (Option Node)
      → Outcome (List (Option Node × List (PublicKey × Bytes)))
  unfolding signatures_of
  signatures_from public_key_from_bytes signed i [] = ok []
  signatures_from public_key_from_bytes signed i (node ∷ nodes) = get i signed >>= λ item.
      elim item [
        | none ↦ panic nil_pointer
        | some tx ↦ do
          inner ← signatures_of public_key_from_bytes tx.sig_pairs
          rest ← signatures_from public_key_from_bytes signed (suc i) nodes
          ok ((node, inner) ∷ rest)
      ]

  -- `GetSignatures`, with `PublicKeyFromBytes` as an argument.
  unfoldable pub get_signatures :
      (Bytes → Option PublicKey)
      → Transaction Node TxId Data
      → Outcome (Transaction Node TxId Data × List (Option Node × List (PublicKey × Bytes)))
  unfolding signatures_from
  get_signatures public_key_from_bytes t =
      if length t.signed_transactions.slice == 0 then ok (t, []) else (do
        found ←
            signatures_from public_key_from_bytes t.signed_transactions 0 t.node_account_ids.slice
        ok (record t { transaction_ids = set_locked true t.transaction_ids }, found))

  -- The hashes of the built transactions of the nodes.
  unfoldable pub hashes_from :
      (BuiltTransaction Node TxId Data → Bytes)
      → List (BuiltTransaction Node TxId Data)
      → ℕ
      → List (Option Node)
      → Outcome (List (Node × Bytes))
  hashes_from sha384 built i [] = ok []
  hashes_from sha384 built i (none ∷ nodes) = hashes_from sha384 built (suc i) nodes
  hashes_from sha384 built i (some node ∷ nodes) = elim (get_elem? built i) [
    | none ↦ panic out_of_range
    | some tx ↦ hashes_from sha384 built (suc i) nodes >>= λ rest. ok ((node, sha384 tx) ∷ rest)
  ]

  -- `GetTransactionHashPerNode`, with the hash of the bytes as an argument.
  unfoldable pub get_transaction_hash_per_node :
      (BuiltTransaction Node TxId Data → Bytes)
      → Transaction Node TxId Data
      → Outcome (Transaction Node TxId Data × List (Node × Bytes))
  unfolding is_frozen build_all_transactions hashes_from
  get_transaction_hash_per_node sha384 t =
      if is_frozen t
      then (do
        built ← build_all_transactions t
        hashes ← hashes_from sha384 built.1 0 built.0.node_account_ids.slice
        ok (record built.0 { transaction_ids = set_locked true built.0.transaction_ids }, hashes))
      else err not_frozen
