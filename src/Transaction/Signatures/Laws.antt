-- ===== src/Transaction/Signatures/Laws.antt =====
-- Which signatures `GetSignatures` of transaction.go gives back.
use hedera_sdk_go.Prelude.{
  ◌≡◌, refl, ap, ◌∙◌, true, List, [], ◌∷◌, Option, some, length, ◌==◌, get_elem?, if◌then◌else◌,
}
use hedera_sdk_go.Prelude.Outcome.{ok, ◌>>=◌}
use hedera_sdk_go.Prelude.Text.{Bytes}
use hedera_sdk_go.LockableSlice.{LockableSlice, set_locked}
use hedera_sdk_go.LockableSlice.Locking.{get-some}
use hedera_sdk_go.Transaction.{
  Body, PublicKey, SigPair, ed25519_key, ecdsa_key, to_signature_pair, SignedTransaction,
  Transaction,
}
use hedera_sdk_go.Transaction.Signing.{key_bytes}
use hedera_sdk_go.Transaction.Signatures.{signatures_of, signatures_from, get_signatures}

-- The pairs of keys and signatures whose key is an ed25519 one.
abbrev pub ed25519_only : List (PublicKey × Bytes) → List (PublicKey × Bytes)
ed25519_only [] = []
ed25519_only ((ed25519_key k, s) ∷ pairs) = (ed25519_key k, s) ∷ ed25519_only pairs
ed25519_only ((ecdsa_key k, s) ∷ pairs) = ed25519_only pairs

-- The pairs of a signature map that the keys make.
abbrev pub pairs_of : List (PublicKey × Bytes) → List SigPair
pairs_of [] = []
pairs_of ((key, s) ∷ pairs) = to_signature_pair key s ∷ pairs_of pairs

-- Each key is read back from its bytes.
abbrev pub AreRead : (Bytes → Option PublicKey) → List (PublicKey × Bytes) → Type 0
AreRead public_key_from_bytes [] = Unit
AreRead public_key_from_bytes ((key, s) ∷ pairs) =
    (public_key_from_bytes (key_bytes key) ≡ some key) × AreRead public_key_from_bytes pairs

module _ (public_key_from_bytes : Bytes → Option PublicKey) where
  signatures_of-pairs_of :
      (pairs : List (PublicKey × Bytes))
      → AreRead public_key_from_bytes pairs
      → signatures_of public_key_from_bytes (pairs_of pairs) ≡ ok (ed25519_only pairs)
  unfolding signatures_of
  signatures_of-pairs_of [] h = refl
  signatures_of-pairs_of ((ed25519_key k, s) ∷ pairs) (e, h) =
      rw (e, signatures_of-pairs_of pairs h) refl
  signatures_of-pairs_of ((ecdsa_key k, s) ∷ pairs) (e, h) =
      rw (e, signatures_of-pairs_of pairs h) refl

module _ {Node TxId Data : Type 0} (public_key_from_bytes : Bytes → Option PublicKey) where
  signatures_from_one :
      (node : Node) (body : Body Node TxId Data) (pairs : List (PublicKey × Bytes))
      (signed : LockableSlice (SignedTransaction Node TxId Data))
      → signed.slice ≡ some (record { body = body; sig_pairs = pairs_of pairs }) ∷ []
      → AreRead public_key_from_bytes pairs
      → signatures_from public_key_from_bytes signed 0 (some node ∷ [])
        ≡ ok ((some node, ed25519_only pairs) ∷ [])
  unfolding signatures_from
  signatures_from_one node body pairs signed e h =
      rw
        (
          get-some 0 (some (record { body = body; sig_pairs = pairs_of pairs })) signed
              (ap (λ l. get_elem? l 0) e),
          signatures_of-pairs_of public_key_from_bytes pairs h,
        )
        refl

  -- `GetSignatures` of a transaction with one node and one signed transaction, whose keys are read
  -- back from their bytes, gives the signatures of its ed25519 keys, in their order, and none of its
  -- ECDSA keys; it locks the ids.
  pub get_signatures-ed25519_only :
      (node : Node) (body : Body Node TxId Data) (pairs : List (PublicKey × Bytes))
      (t : Transaction Node TxId Data)
      → t.node_account_ids.slice ≡ some node ∷ []
      → t.signed_transactions.slice ≡ some (record { body = body; sig_pairs = pairs_of pairs }) ∷ []
      → AreRead public_key_from_bytes pairs
      → get_signatures public_key_from_bytes t
        ≡ ok (
          record t { transaction_ids = set_locked true t.transaction_ids },
          (some node, ed25519_only pairs) ∷ [],
        )
  unfolding get_signatures
  get_signatures-ed25519_only node body pairs t n e h =
      let locked = λ (found : List (Option Node × List (PublicKey × Bytes))).
        ok (record t { transaction_ids = set_locked true t.transaction_ids }, found) in
      ap
        (λ (l : List (Option (SignedTransaction Node TxId Data))).
          if length l == 0
          then ok (t, [])
          else (signatures_from public_key_from_bytes t.signed_transactions 0
                t.node_account_ids.slice
              >>= locked))
        e
      ∙ (ap (λ l. signatures_from public_key_from_bytes t.signed_transactions 0 l >>= locked) n
          ∙ ap (λ m. m >>= locked) (signatures_from_one node body pairs t.signed_transactions e h))
