-- ===== src/Transaction/Dispatch/Frozen.antt =====
-- Calls of the functions of transaction.go on a transaction that has been frozen.
use hedera_sdk_go.Prelude.{
  ℕ, zero, suc, ◌+◌, ◌≡◌, refl, ap, ◌∙◌, Bool, true, false, ◌||◌, List, [], ◌∷◌, ◌++◌, Option, none,
  some, arith, map, length, length-map, get_elem?, lt_of_get_elem?, ◌==◌, Bool-cases, inl, inr,
}
use hedera_sdk_go.Prelude
use hedera_sdk_go.Prelude.Int.{ℤ}
use hedera_sdk_go.Prelude.Outcome.{
  Outcome, ok, panic, nil_pointer, locked_slice, ◌>>=◌, IfOk, IfOk-bind, IfOk-eq, IfOk-mono,
  >>=-eq_ok,
}
use hedera_sdk_go.Prelude.Text.{Bytes}
use hedera_sdk_go.LockableSlice.{LockableSlice, push, clear, set_locked, get, set}
use hedera_sdk_go.LockableSlice.Locking.{set_in_range}
use hedera_sdk_go.LockableSlice
use hedera_sdk_go.Transaction.{
  Body, PublicKey, SigPair, to_signature_pair, Signer, SignedTransaction, Transaction,
  set_transaction_id, set_node_account_ids, sign_with, push_nodes, require_one_node_account_id,
  require_not_frozen, is_frozen,
}
use hedera_sdk_go.Transaction.Methods.{
  key_already_signed, add_pairs, method_sign_with, add_signature, method_set_transaction_id,
  set_transaction_memo, set_max_transaction_fee, set_transaction_valid_duration,
  method_set_node_account_ids, set_min_backoff, set_max_backoff,
}
use hedera_sdk_go.Transaction.Dispatch.{
  AnyTransaction, is_common, has_add_signature, transaction_sign_with, transaction_add_signature,
  transaction_set_transaction_id, transaction_set_transaction_memo,
  transaction_set_max_transaction_fee, transaction_set_transaction_valid_duration,
  transaction_set_node_account_ids, transaction_set_min_backoff, transaction_set_max_backoff,
  transaction_get_signatures,
}
use hedera_sdk_go.Transaction.Signatures.{get_signatures, signatures_from}
use hedera_sdk_go.Transaction.Dispatch.Calls.{
  Call, signs, adds_signature, sets_id, sets_memo, sets_fee, sets_duration, sets_min, sets_max,
  sets_nodes, gets_bytes, gets_signatures, gets_hashes, step, run, pure_IfOk, method_IfOk,
  getter_IfOk,
}

-- The calls that ask for a transaction that is not frozen.
unfoldable pub is_guarded : {Node TxId Data : Type 0} → Call Node TxId Data → Bool
is_guarded (sets_id id) = true
is_guarded (sets_memo memo) = true
is_guarded (sets_fee fee) = true
is_guarded (sets_duration duration) = true
is_guarded (sets_nodes nodes) = true
is_guarded call = false

-- The calls that build a transaction.
unfoldable pub is_building : {Node TxId Data : Type 0} → Call Node TxId Data → Bool
is_building gets_bytes = true
is_building (gets_hashes sha384) = true
is_building call = false

abbrev pub any_building : {Node TxId Data : Type 0} → List (Call Node TxId Data) → Bool
any_building [] = false
any_building (call ∷ calls) = is_building call || any_building calls

abbrev pub any_guarded : {Node TxId Data : Type 0} → List (Call Node TxId Data) → Bool
any_guarded [] = false
any_guarded (call ∷ calls) = is_guarded call || any_guarded calls

get_elem?_of_get :
    {A : Type 0} (i : ℕ) (s : LockableSlice A) {a : Option A}
    → get i s ≡ ok a
    → get_elem? s.slice i ≡ some a
unfolding get
get_elem?_of_get i s e = ground arith

set_locked_panics :
    {A : Type 0} (i : ℕ) (a : Option A) (s : LockableSlice A)
    → s.locked ≡ true
    → set i a s ≡ panic locked_slice
unfolding set
set_locked_panics i a s h = rw h refl

module _ {Node TxId Data : Type 0} where
  abbrev pub body_in : Option (SignedTransaction Node TxId Data) → Option (Body Node TxId Data)
  body_in none = none
  body_in (some tx) = some tx.body

  -- The bodies that are to be signed.
  abbrev pub bodies : Transaction Node TxId Data → List (Option (Body Node TxId Data))
  bodies t = map body_in t.signed_transactions.slice

  -- The bodies are these, and the error is noted if it was before or the call notes it.
  abbrev pub Follows : Transaction Node TxId Data → Bool → Transaction Node TxId Data → Type 0
  Follows t guarded u = (bodies u ≡ bodies t) × (u.is_freeze_error ≡ t.is_freeze_error || guarded)

  require_not_frozen-Follows :
      (t : Transaction Node TxId Data) → is_frozen t ≡ true → Follows t true (require_not_frozen t)
  unfolding require_not_frozen
  require_not_frozen-Follows t h = rw h (refl, ground arith)

  map-body_in-set :
      (xs : List (Option (SignedTransaction Node TxId Data))) (index : ℕ)
      {tx : SignedTransaction Node TxId Data} (pairs : SignedTransaction Node TxId Data)
      → get_elem? xs index ≡ some (some tx)
      → pairs.body ≡ tx.body
      → map body_in (Prelude.set xs index (some pairs)) ≡ map body_in xs
  map-body_in-set [] index pairs h k = refl
  map-body_in-set (x ∷ xs) zero pairs h k = ground arith
  map-body_in-set (x ∷ xs) (suc index) pairs h k =
      ap (λ l. body_in x ∷ l) (map-body_in-set xs index pairs h k)

  abbrev KeepsBodies :
      LockableSlice (SignedTransaction Node TxId Data)
      → LockableSlice (SignedTransaction Node TxId Data)
      → Type 0
  KeepsBodies s u = map body_in u.slice ≡ map body_in s.slice

  set-KeepsBodies :
      (index : ℕ) {tx : SignedTransaction Node TxId Data} (pairs : SignedTransaction Node TxId Data)
      (s : LockableSlice (SignedTransaction Node TxId Data))
      {u : LockableSlice (SignedTransaction Node TxId Data)}
      → get_elem? s.slice index ≡ some (some tx)
      → pairs.body ≡ tx.body
      → set index (some pairs) s ≡ ok u
      → KeepsBodies s u
  set-KeepsBodies index pairs s {u} e b h = elim (Bool-cases s.locked) [
    | inl l ↦ cc (set_locked_panics index (some pairs) s l)
    | inr l ↦
        let written = set_in_range index (some pairs) s l (lt_of_get_elem? s.slice index e) in
        let same : u.slice ≡ Prelude.set s.slice index (some pairs) = ground (arith, written) in
        rw same (map-body_in-set s.slice index pairs e b)
  ]

  write_pair_bodies :
      (index : ℕ) (pair : SigPair) (item : Option (SignedTransaction Node TxId Data))
      (s : LockableSlice (SignedTransaction Node TxId Data))
      (rest : LockableSlice (SignedTransaction Node TxId Data)
        → Outcome (LockableSlice (SignedTransaction Node TxId Data)))
      → ((u : LockableSlice (SignedTransaction Node TxId Data)) → IfOk (KeepsBodies u) (rest u))
      → get_elem? s.slice index ≡ some item
      → IfOk (KeepsBodies s) (elim item [
        | none ↦ panic nil_pointer
        | some tx ↦
            set index (some (record tx { sig_pairs = tx.sig_pairs ++ pair ∷ [] })) s >>= rest
      ])
  write_pair_bodies index pair none s rest h e = tt
  write_pair_bodies index pair (some tx) s rest h e =
      let pairs : SignedTransaction Node TxId Data = record tx {
        sig_pairs = tx.sig_pairs ++ pair ∷ [];
      } in
      IfOk-bind (KeepsBodies s) (set index (some pairs) s) rest λ u written.
        IfOk-mono (KeepsBodies u) (KeepsBodies s) (rest u)
          (λ v k. k ∙ set-KeepsBodies index pairs s e refl written) (h u)

  add_pairs_bodies :
      (rounds index : ℕ) (key : PublicKey) (signature : Bytes)
      (s : LockableSlice (SignedTransaction Node TxId Data))
      → IfOk (KeepsBodies s) (add_pairs rounds index key signature s)
  unfolding add_pairs
  add_pairs_bodies zero index key signature s = refl
  add_pairs_bodies (suc rounds) index key signature s =
      IfOk-bind (KeepsBodies s) (get index s) _ λ item e.
        write_pair_bodies index (to_signature_pair key signature) item s
          (add_pairs rounds (index + 1) key signature)
          (add_pairs_bodies rounds (index + 1) key signature) (get_elem?_of_get index s e)

  method_sign_with-Follows :
      (key : PublicKey) (signer : Signer Node TxId Data) (t : Transaction Node TxId Data)
      → Follows t false (method_sign_with key signer t)
  unfolding method_sign_with sign_with
  method_sign_with-Follows key signer t = elim (Bool-cases (key_already_signed key t.public_keys)) [
    | inl e ↦ rw e (refl, ground arith)
    | inr e ↦ rw e (refl, ground arith)
  ]

  add_signature-Follows :
      (key : PublicKey) (signature : Bytes) (t : Transaction Node TxId Data)
      → IfOk (Follows t false) (add_signature key signature t)
  unfolding add_signature
  add_signature-Follows key signature t =
      let pairs =
        add_pairs (length t.signed_transactions.slice) 0 key signature t.signed_transactions in
      IfOk-bind (Follows t false) (require_one_node_account_id t) _ λ _ _.
        elim (Bool-cases
          (key_already_signed key t.public_keys || length t.signed_transactions.slice == 0)) [
            | inl e ↦ rw e (refl, ground arith)
            | inr e ↦ rw e (
                IfOk-bind (Follows t false) pairs
                  (λ signed. ok (record t {
                    transactions = LockableSlice.new;
                    public_keys = t.public_keys ++ key ∷ [];
                    transaction_signers = t.transaction_signers ++ none ∷ [];
                    transaction_ids = set_locked true t.transaction_ids;
                    signed_transactions = signed;
                  }))
                  λ signed written. (
                    IfOk-eq (KeepsBodies t.signed_transactions) pairs
                        (add_pairs_bodies (length t.signed_transactions.slice) 0 key signature
                          t.signed_transactions)
                        written,
                    ground arith,
                  ))
          ]

  method_set_transaction_id-Follows :
      (id : TxId) (t : Transaction Node TxId Data)
      → is_frozen t ≡ true
      → IfOk (Follows t true) (method_set_transaction_id id t)
  unfolding method_set_transaction_id set_transaction_id
  method_set_transaction_id-Follows id t h =
      let d = require_not_frozen-Follows t h in
      IfOk-bind (Follows t true) (clear (require_not_frozen t).transaction_ids) _
        λ cleared _. IfOk-bind (Follows t true) (push (some id ∷ []) cleared) _ λ pushed _. d

  method_set_node_account_ids-Follows :
      (nodes : List Node) (t : Transaction Node TxId Data)
      → is_frozen t ≡ true
      → IfOk (Follows t true) (method_set_node_account_ids nodes t)
  unfolding method_set_node_account_ids set_node_account_ids
  method_set_node_account_ids-Follows nodes t h =
      let d = require_not_frozen-Follows t h in
      IfOk-bind (Follows t true) (push_nodes nodes (require_not_frozen t).node_account_ids) _
        λ pushed _. d

  set_backoffs-Follows :
      (d : ℤ) (t : Transaction Node TxId Data)
      → IfOk (Follows t false) (set_min_backoff d t) × IfOk (Follows t false) (set_max_backoff d t)
  unfolding set_min_backoff set_max_backoff
  set_backoffs-Follows d t = (ground arith, ground arith)

  get_signatures-Follows :
      (reader : Bytes → Option PublicKey) (t : Transaction Node TxId Data)
      → IfOk (λ r. Follows t false r.0) (get_signatures reader t)
  unfolding get_signatures
  get_signatures-Follows reader t = elim (Bool-cases (length t.signed_transactions.slice == 0)) [
    | inl e ↦ rw e (refl, ground arith)
    | inr e ↦ rw e (
        IfOk-bind (λ r. Follows t false r.0)
          (signatures_from reader t.signed_transactions 0 t.node_account_ids.slice) _
          λ found _. (refl, ground arith))
  ]

  step-Follows :
      (c : Call Node TxId Data) (i : AnyTransaction Node TxId Data)
      → is_frozen i.transaction ≡ true
      → is_building c ≡ false
      → IfOk
          (λ j. Follows i.transaction (is_guarded c) j.transaction × (j.kind ≡ i.kind))
          (step c i)
  unfolding step is_guarded is_building transaction_get_signatures transaction_sign_with
      transaction_add_signature transaction_set_transaction_id transaction_set_transaction_memo
      transaction_set_max_transaction_fee transaction_set_transaction_valid_duration
      transaction_set_node_account_ids transaction_set_min_backoff transaction_set_max_backoff
      set_transaction_memo set_max_transaction_fee set_transaction_valid_duration
  step-Follows (signs key signer) i h b =
      pure_IfOk (Follows i.transaction false) (is_common i.kind) i.kind
        (method_sign_with-Follows key signer i.transaction)
  step-Follows (adds_signature key signature) i h b =
      method_IfOk (Follows i.transaction false) (has_add_signature i.kind) i.kind
        (add_signature key signature i.transaction)
        (add_signature-Follows key signature i.transaction)
  step-Follows (sets_id id) i h b =
      method_IfOk (Follows i.transaction true) (is_common i.kind) i.kind
        (method_set_transaction_id id i.transaction)
        (method_set_transaction_id-Follows id i.transaction h)
  step-Follows (sets_memo memo) i h b =
      pure_IfOk (Follows i.transaction true) (is_common i.kind) i.kind
        (require_not_frozen-Follows i.transaction h)
  step-Follows (sets_fee fee) i h b =
      pure_IfOk (Follows i.transaction true) (is_common i.kind) i.kind
        (require_not_frozen-Follows i.transaction h)
  step-Follows (sets_duration duration) i h b =
      pure_IfOk (Follows i.transaction true) (is_common i.kind) i.kind
        (require_not_frozen-Follows i.transaction h)
  step-Follows (sets_min min) i h b =
      method_IfOk (Follows i.transaction false) (is_common i.kind) i.kind
        (set_min_backoff min i.transaction) (set_backoffs-Follows min i.transaction).0
  step-Follows (sets_max max) i h b =
      method_IfOk (Follows i.transaction false) (is_common i.kind) i.kind
        (set_max_backoff max i.transaction) (set_backoffs-Follows max i.transaction).1
  step-Follows (sets_nodes nodes) i h b =
      method_IfOk (Follows i.transaction true) (is_common i.kind) i.kind
        (method_set_node_account_ids nodes i.transaction)
        (method_set_node_account_ids-Follows nodes i.transaction h)
  step-Follows gets_bytes i h b = absurd (cc)
  step-Follows (gets_signatures reader) i h b =
      getter_IfOk (Follows i.transaction false) (is_common i.kind) i
        (get_signatures reader i.transaction) (get_signatures-Follows reader i.transaction)
  step-Follows (gets_hashes sha384) i h b = absurd (cc)

  bodies-is_frozen :
      (t u : Transaction Node TxId Data)
      → bodies u ≡ bodies t
      → is_frozen t ≡ true
      → is_frozen u ≡ true
  unfolding is_frozen
  bodies-is_frozen t u e h = ground (
    arith,
    ap (length {0}) e,
    length-map body_in t.signed_transactions.slice,
    length-map body_in u.signed_transactions.slice,
  )

  -- A history of calls of TransactionSignWth, TransactionAddSignature, TransactionGetSignatures and
  -- the setters of the id, the memo, the fee, the duration, the nodes and the two backoffs that
  -- succeeds on a frozen transaction changes none of the bodies that are signed, and the freeze error
  -- is set behind it exactly if it was before or one of the calls was a setter of the id, the memo,
  -- the fee, the duration or the nodes. A call of TransactionToBytes or of
  -- TransactionGetTransactionHashPerNode, which build and so may write bodies anew, is excluded, and
  -- TransactionExecute is no call of a history.
  pub run-frozen :
      (calls : List (Call Node TxId Data)) (i : AnyTransaction Node TxId Data)
      {j : AnyTransaction Node TxId Data}
      → is_frozen i.transaction ≡ true
      → any_building calls ≡ false
      → run calls i ≡ ok j
      → (bodies j.transaction ≡ bodies i.transaction)
        × (j.transaction.is_freeze_error ≡ i.transaction.is_freeze_error || any_guarded calls)
  unfolding run
  run-frozen [] i h b e = ground arith
  run-frozen (call ∷ calls) i h b e =
      let apart : (is_building call ≡ false) × (any_building calls ≡ false) = ground arith in
      let (k, first, rest) = >>=-eq_ok (step call i) (run calls) e in
      let (d, kept) =
        IfOk-eq (λ j. Follows i.transaction (is_guarded call) j.transaction × (j.kind ≡ i.kind))
          (step call i) (step-Follows call i h apart.0) first in
      let (same, noted) =
        run-frozen calls k (bodies-is_frozen i.transaction k.transaction d.0 h) apart.1 rest in
      (same ∙ d.0, ground arith)
