-- ===== src/Transaction/Dispatch/Calls.antt =====
-- Histories of calls of the functions of transaction.go that change a transaction of any kind, but
-- for TransactionExecute; TransactionSign does what TransactionSignWth does.
use hedera_sdk_go.Prelude.{
  ◌≡◌, refl, ◌∙◌, Bool, true, false, ◌||◌, List, [], ◌∷◌, ◌++◌, Option, none, some, arith, All,
  All-append, length, length-append, ◌==◌, Bool-cases, inl, inr,
}
use hedera_sdk_go.Prelude.Int.{ℤ, pos, ltb_ℤ, ◌≤ℤ◌}
use hedera_sdk_go.Prelude.Outcome.{
  Outcome, ok, err, panic, ◌>>=◌, IfOk, IfOk-bind, IfOk-eq, >>=-eq_ok,
}
use hedera_sdk_go.Prelude.Text.{Bytes}
use hedera_sdk_go.LockableSlice.{LockableSlice, push, clear, set_locked}
use hedera_sdk_go.LockableSlice
use hedera_sdk_go.Transaction.{
  PublicKey, Signer, BuiltTransaction, Transaction, set_transaction_id, set_node_account_ids,
  sign_with, push_nodes, require_one_node_account_id, require_not_frozen, is_frozen,
}
use hedera_sdk_go.Transaction.Methods.{
  key_eq, key_already_signed, add_pairs, method_sign_with, add_signature, method_set_transaction_id,
  set_transaction_memo, set_max_transaction_fee, set_transaction_valid_duration,
  method_set_node_account_ids, set_min_backoff, set_max_backoff,
}
use hedera_sdk_go.Transaction.Dispatch.{
  Kind, AnyTransaction, as_pointer, switch, is_common, has_add_signature, transaction_sign_with,
  transaction_add_signature, transaction_set_transaction_id, transaction_set_transaction_memo,
  transaction_set_max_transaction_fee, transaction_set_transaction_valid_duration,
  transaction_set_node_account_ids, transaction_set_min_backoff, transaction_set_max_backoff,
  transaction_to_bytes, transaction_get_signatures, transaction_get_transaction_hash_per_node,
}
use hedera_sdk_go.Transaction.Building.{to_bytes}
use hedera_sdk_go.Transaction.Building.Keys.{
  Keeps, to_bytes-Keeps, get_signatures-Keeps, get_transaction_hash_per_node-Keeps,
}
use hedera_sdk_go.Transaction.Signatures.{get_signatures, get_transaction_hash_per_node}

-- A call of TransactionSignWth, TransactionAddSignature, one of the seven setters,
-- TransactionToBytes, TransactionGetSignatures or TransactionGetTransactionHashPerNode, which lock
-- the ids, the first and the last of them behind a build. TransactionExecute is no call of a history.
pub data Call (Node TxId Data : Type 0) : Type 0 where
  signs : PublicKey → Signer Node TxId Data → Call Node TxId Data
  adds_signature : PublicKey → Bytes → Call Node TxId Data
  sets_id : TxId → Call Node TxId Data
  sets_memo : Bytes → Call Node TxId Data
  sets_fee sets_duration sets_min sets_max : ℤ → Call Node TxId Data
  sets_nodes : List Node → Call Node TxId Data
  gets_bytes : Call Node TxId Data
  gets_signatures : (Bytes → Option PublicKey) → Call Node TxId Data
  gets_hashes : (BuiltTransaction Node TxId Data → Bytes) → Call Node TxId Data

-- The keys are pairwise different.
abbrev pub AreDistinct : List PublicKey → Type 0
AreDistinct [] = Unit
AreDistinct (key ∷ keys) = All (λ later. key_eq key later ≡ false) keys × AreDistinct keys

-- Where both backoffs are set, neither is negative and the least one is not above the greatest.
abbrev pub InOrder : Option ℤ → Option ℤ → Type 0
InOrder none max = Unit
InOrder (some min) none = pos 0 ≤ℤ min
InOrder (some min) (some max) = (pos 0 ≤ℤ min) × (min ≤ℤ max)

AreDistinct-append :
    (key : PublicKey) (keys : List PublicKey)
    → key_already_signed key keys ≡ false
    → AreDistinct keys
    → AreDistinct (keys ++ key ∷ [])
AreDistinct-append key [] h d = (tt, tt)
AreDistinct-append key (k ∷ keys) h (d, e) =
    let apart : (key_eq k key ≡ false) × (key_already_signed key keys ≡ false) = ground arith in
    (All-append _ keys (key ∷ []) d (apart.0, tt), AreDistinct-append key keys apart.1 e)

set_min_backoff-InOrder :
    (min : ℤ) (most : Option ℤ)
    → ltb_ℤ min (pos 0) ≡ false
    → ((max : ℤ) → most ≡ some max → ltb_ℤ max min ≡ false)
    → InOrder (some min) most
set_min_backoff-InOrder min none h k = ground arith
set_min_backoff-InOrder min (some max) h k = ground (arith, k max refl)

one_more :
    {A B : Type 0} (xs : List A) (ys : List B) (x : A) (y : B)
    → length xs ≡ length ys
    → length (xs ++ x ∷ []) ≡ length (ys ++ y ∷ [])
one_more xs ys x y e = omega (arith, e, length-append xs (x ∷ []), length-append ys (y ∷ []))

module _ {Node TxId Data : Type 0} where
  unfoldable pub step :
      Call Node TxId Data → AnyTransaction Node TxId Data → Outcome (AnyTransaction Node TxId Data)
  step (signs key signer) i = transaction_sign_with key signer i
  step (adds_signature key signature) i = transaction_add_signature key signature i
  step (sets_id id) i = transaction_set_transaction_id id i
  step (sets_memo memo) i = transaction_set_transaction_memo memo i
  step (sets_fee fee) i = transaction_set_max_transaction_fee fee i
  step (sets_duration duration) i = transaction_set_transaction_valid_duration duration i
  step (sets_min min) i = transaction_set_min_backoff min i
  step (sets_max max) i = transaction_set_max_backoff max i
  step (sets_nodes nodes) i = transaction_set_node_account_ids nodes i
  step gets_bytes i = transaction_to_bytes i >>= λ r. ok r.0
  step (gets_signatures reader) i = transaction_get_signatures reader i >>= λ r. ok r.0
  step (gets_hashes sha384) i = transaction_get_transaction_hash_per_node sha384 i >>= λ r. ok r.0

  unfoldable pub run :
      List (Call Node TxId Data)
      → AnyTransaction Node TxId Data
      → Outcome (AnyTransaction Node TxId Data)
  run [] i = ok i
  run (c ∷ cs) i = step c i >>= run cs

  -- Each key has its signer, no key stands twice, and the backoffs are in order.
  abbrev pub IsConsistent : Transaction Node TxId Data → Type 0
  IsConsistent t =
      (length t.public_keys ≡ length t.transaction_signers)
      × AreDistinct t.public_keys
      × InOrder t.min_backoff t.max_backoff

  pub pure_IfOk :
      (P : Transaction Node TxId Data → Type 0) (b : Bool) (kind : Kind)
      {t : Transaction Node TxId Data}
      → P t
      → IfOk (λ j. P j.transaction × (j.kind ≡ kind)) (switch b (ok (as_pointer kind t)))
  pure_IfOk P true kind h = (h, refl)
  pure_IfOk P false kind h = tt

  pub method_IfOk :
      (P : Transaction Node TxId Data → Type 0) (b : Bool) (kind : Kind)
      (m : Outcome (Transaction Node TxId Data))
      → IfOk P m
      → IfOk (λ j. P j.transaction × (j.kind ≡ kind)) (switch b (m >>= λ t. ok (as_pointer kind t)))
  method_IfOk P true kind (ok t) h = (h, refl)
  method_IfOk P true kind (err e) h = tt
  method_IfOk P true kind (panic p) h = tt
  method_IfOk P false kind m h = tt

  -- The interface value with the transaction that a getter leaves.
  abbrev left_by :
      {B : Type 0}
      → AnyTransaction Node TxId Data
      → Transaction Node TxId Data × B
      → AnyTransaction Node TxId Data × B
  left_by i r = (record i { transaction = r.0 }, r.1)

  pub getter_IfOk :
      {B : Type 0} (P : Transaction Node TxId Data → Type 0) (b : Bool)
      (i : AnyTransaction Node TxId Data) (m : Outcome (Transaction Node TxId Data × B))
      → IfOk (λ r. P r.0) m
      → IfOk
          (λ (j : AnyTransaction Node TxId Data). P j.transaction × (j.kind ≡ i.kind))
          (switch b (m >>= λ r. ok (left_by i r)) >>= λ r. ok r.0)
  getter_IfOk P true i (ok r) h = (h, refl)
  getter_IfOk P true i (err e) h = tt
  getter_IfOk P true i (panic p) h = tt
  getter_IfOk P false i m h = tt

  Keeps-IsConsistent :
      (t u : Transaction Node TxId Data) → Keeps t u → IsConsistent t → IsConsistent u
  Keeps-IsConsistent t u (keys, signers, min, max) c = rw (keys, signers, min, max) c

  Keeps-IfOk :
      {B : Type 0} (t : Transaction Node TxId Data) (m : Outcome (Transaction Node TxId Data × B))
      → IsConsistent t
      → IfOk (λ r. Keeps t r.0) m
      → IfOk (λ r. IsConsistent r.0) m
  Keeps-IfOk t (ok r) c h = Keeps-IsConsistent t r.0 h c
  Keeps-IfOk t (err e) c h = tt
  Keeps-IfOk t (panic p) c h = tt

  method_sign_with-IsConsistent :
      (key : PublicKey) (signer : Signer Node TxId Data) (t : Transaction Node TxId Data)
      → IsConsistent t
      → IsConsistent (method_sign_with key signer t)
  unfolding method_sign_with sign_with
  method_sign_with-IsConsistent key signer t c =
      elim (Bool-cases (key_already_signed key t.public_keys)) [
        | inl e ↦ rw e c
        | inr e ↦ rw e (
            (
              one_more t.public_keys t.transaction_signers key signer c.0,
              AreDistinct-append key t.public_keys e c.1,
              c.2,
            ))
      ]

  require_not_frozen-IsConsistent :
      (t : Transaction Node TxId Data) → IsConsistent t → IsConsistent (require_not_frozen t)
  unfolding require_not_frozen
  require_not_frozen-IsConsistent t c = elim (Bool-cases (is_frozen t)) [
    | inl e ↦ rw e c
    | inr e ↦ rw e c
  ]

  add_signature-IsConsistent :
      (key : PublicKey) (signature : Bytes) (t : Transaction Node TxId Data)
      → IsConsistent t
      → IfOk IsConsistent (add_signature key signature t)
  unfolding add_signature
  add_signature-IsConsistent key signature t c =
      IfOk-bind IsConsistent (require_one_node_account_id t) _ λ _ _.
        elim (Bool-cases
          (key_already_signed key t.public_keys || length t.signed_transactions.slice == 0)) [
            | inl e ↦ rw e c
            | inr e ↦
                let keys = AreDistinct-append key t.public_keys (ground arith) c.1 in
                let signers = one_more t.public_keys t.transaction_signers key none c.0 in
                rw e (
                  IfOk-bind IsConsistent
                    (add_pairs (length t.signed_transactions.slice) 0 key signature
                      t.signed_transactions)
                    (λ signed. ok (record t {
                      transactions = LockableSlice.new;
                      public_keys = t.public_keys ++ key ∷ [];
                      transaction_signers = t.transaction_signers ++ none ∷ [];
                      transaction_ids = set_locked true t.transaction_ids;
                      signed_transactions = signed;
                    }))
                    λ signed _. (signers, keys, c.2))
          ]

  method_set_transaction_id-IsConsistent :
      (id : TxId) (t : Transaction Node TxId Data)
      → IsConsistent t
      → IfOk IsConsistent (method_set_transaction_id id t)
  unfolding method_set_transaction_id set_transaction_id
  method_set_transaction_id-IsConsistent id t c =
      let d = require_not_frozen-IsConsistent t c in
      IfOk-bind IsConsistent (clear (require_not_frozen t).transaction_ids) _
        λ cleared _. IfOk-bind IsConsistent (push (some id ∷ []) cleared) _ λ pushed _. d

  method_set_node_account_ids-IsConsistent :
      (nodes : List Node) (t : Transaction Node TxId Data)
      → IsConsistent t
      → IfOk IsConsistent (method_set_node_account_ids nodes t)
  unfolding method_set_node_account_ids set_node_account_ids
  method_set_node_account_ids-IsConsistent nodes t c =
      let d = require_not_frozen-IsConsistent t c in
      IfOk-bind IsConsistent (push_nodes nodes (require_not_frozen t).node_account_ids) _
        λ pushed _. d

  set_min_backoff-IsConsistent :
      (min : ℤ) (t : Transaction Node TxId Data)
      → IsConsistent t
      → IfOk IsConsistent (set_min_backoff min t)
  unfolding set_min_backoff
  set_min_backoff-IsConsistent min t c = ground arith

  set_max_backoff-IsConsistent :
      (max : ℤ) (t : Transaction Node TxId Data)
      → IsConsistent t
      → IfOk IsConsistent (set_max_backoff max t)
  unfolding set_max_backoff
  set_max_backoff-IsConsistent max t c = ground arith

  step-IsConsistent :
      (c : Call Node TxId Data) (i : AnyTransaction Node TxId Data)
      → IsConsistent i.transaction
      → IfOk (λ j. IsConsistent j.transaction × (j.kind ≡ i.kind)) (step c i)
  unfolding step transaction_sign_with transaction_add_signature transaction_set_transaction_id
      transaction_set_transaction_memo transaction_set_max_transaction_fee
      transaction_set_transaction_valid_duration transaction_set_node_account_ids
      transaction_set_min_backoff transaction_set_max_backoff set_transaction_memo
      set_max_transaction_fee set_transaction_valid_duration transaction_to_bytes
      transaction_get_signatures transaction_get_transaction_hash_per_node
  step-IsConsistent (signs key signer) i c =
      pure_IfOk IsConsistent (is_common i.kind) i.kind
        (method_sign_with-IsConsistent key signer i.transaction c)
  step-IsConsistent (adds_signature key signature) i c =
      method_IfOk IsConsistent (has_add_signature i.kind) i.kind
        (add_signature key signature i.transaction)
        (add_signature-IsConsistent key signature i.transaction c)
  step-IsConsistent (sets_id id) i c =
      method_IfOk IsConsistent (is_common i.kind) i.kind
        (method_set_transaction_id id i.transaction)
        (method_set_transaction_id-IsConsistent id i.transaction c)
  step-IsConsistent (sets_memo memo) i c =
      pure_IfOk IsConsistent (is_common i.kind) i.kind
        (require_not_frozen-IsConsistent i.transaction c)
  step-IsConsistent (sets_fee fee) i c =
      pure_IfOk IsConsistent (is_common i.kind) i.kind
        (require_not_frozen-IsConsistent i.transaction c)
  step-IsConsistent (sets_duration duration) i c =
      pure_IfOk IsConsistent (is_common i.kind) i.kind
        (require_not_frozen-IsConsistent i.transaction c)
  step-IsConsistent (sets_min min) i c =
      method_IfOk IsConsistent (is_common i.kind) i.kind (set_min_backoff min i.transaction)
        (set_min_backoff-IsConsistent min i.transaction c)
  step-IsConsistent (sets_max max) i c =
      method_IfOk IsConsistent (is_common i.kind) i.kind (set_max_backoff max i.transaction)
        (set_max_backoff-IsConsistent max i.transaction c)
  step-IsConsistent (sets_nodes nodes) i c =
      method_IfOk IsConsistent (is_common i.kind) i.kind
        (method_set_node_account_ids nodes i.transaction)
        (method_set_node_account_ids-IsConsistent nodes i.transaction c)
  step-IsConsistent gets_bytes i c =
      getter_IfOk IsConsistent (is_common i.kind) i (to_bytes i.transaction)
        (Keeps-IfOk i.transaction _ c (to_bytes-Keeps i.transaction))
  step-IsConsistent (gets_signatures reader) i c =
      getter_IfOk IsConsistent (is_common i.kind) i (get_signatures reader i.transaction)
        (Keeps-IfOk i.transaction _ c (get_signatures-Keeps i.transaction reader))
  step-IsConsistent (gets_hashes sha384) i c =
      getter_IfOk IsConsistent (is_common i.kind) i
        (get_transaction_hash_per_node sha384 i.transaction)
        (Keeps-IfOk i.transaction _ c (get_transaction_hash_per_node-Keeps i.transaction sha384))

  -- A history of calls of TransactionSignWth, TransactionAddSignature, the setters of the id, the
  -- memo, the fee, the duration, the nodes and the two backoffs, TransactionToBytes,
  -- TransactionGetSignatures and TransactionGetTransactionHashPerNode that succeeds, on a transaction
  -- whose keys are pairwise different and have one signer each, and whose backoffs are in order where
  -- both are set, keeps all that, and the kind. TransactionExecute is no call of a history.
  pub run-IsConsistent :
      (calls : List (Call Node TxId Data)) (i : AnyTransaction Node TxId Data)
      {j : AnyTransaction Node TxId Data}
      → IsConsistent i.transaction
      → run calls i ≡ ok j
      → IsConsistent j.transaction × (j.kind ≡ i.kind)
  unfolding run
  run-IsConsistent [] i c e = ground arith
  run-IsConsistent (call ∷ calls) i c e =
      let (k, first, rest) = >>=-eq_ok (step call i) (run calls) e in
      let (d, kept) =
        IfOk-eq (λ j. IsConsistent j.transaction × (j.kind ≡ i.kind)) (step call i)
          (step-IsConsistent call i c) first in
      let (f, same) = run-IsConsistent calls k d rest in (f, same ∙ kept)
