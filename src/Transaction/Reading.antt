-- ===== src/Transaction/Reading.antt =====
-- `TransactionFromBytes` and `_TransactionCompare` of transaction.go, from the unmarshalled list of
-- signed transactions to the transaction that the constructors of the kinds start from. An id or a
-- node that a body lacks is the one that stands for the zero value.
pub mod Laws
use hedera_sdk_go.Prelude.{
  Bool, true, false, List, [], ◌∷◌, ◌++◌, Option, none, some, if◌then◌else◌, map, length, ltb,
}
use hedera_sdk_go.Prelude.Int.{pos}
use hedera_sdk_go.Prelude.Outcome.{
  Outcome, ok, err, panic, out_of_range, bad_key, bodies_differ, ◌>>=◌,
}
use hedera_sdk_go.Prelude.Text.{Bytes}
use hedera_sdk_go.LockableSlice.{LockableSlice}
use hedera_sdk_go.LockableSlice
use hedera_sdk_go.Transaction.{Body, PublicKey, SigPair, SignedTransaction, Transaction}

-- What the reading asks of other files: the comparison of ids, of nodes and of contents (fee,
-- duration, memo and data), the zero id and node, and `PublicKeyFromBytes`.
pub record Reader (Node TxId Data : Type 0) : Type 0 where
  pub same_id : TxId → TxId → Bool
  pub same_node : Node → Node → Bool
  pub same_content : Data → Data → Bool
  pub zero_id : TxId
  pub zero_node : Node
  pub public_key_from_bytes : Bytes → Option PublicKey

module _ {Node TxId Data : Type 0} (reader : Reader Node TxId Data) where
  -- Whether all bodies have the content of the first.
  unfoldable pub all_like : Data → List (SignedTransaction Node TxId Data) → Bool
  all_like content [] = true
  all_like content (tx ∷ list) =
      let rest = all_like content list in
      if reader.same_content content tx.body.content then rest else false

  -- `_TransactionCompare`, which reads the first body of any list.
  unfoldable pub transaction_compare : List (SignedTransaction Node TxId Data) → Outcome Bool
  unfolding all_like
  transaction_compare [] = panic out_of_range
  transaction_compare (tx ∷ list) = ok (all_like tx.body.content list)

  -- The keys of the signatures of the first transaction.
  unfoldable pub read_keys : List SigPair → Outcome (List PublicKey)
  read_keys [] = ok []
  read_keys (pair ∷ pairs) = elim (reader.public_key_from_bytes pair.pub_key_prefix) [
    | none ↦ err bad_key
    | some key ↦ read_keys pairs >>= λ keys. ok (key ∷ keys)
  ]

  abbrev pub or_zero {ℓ} : {A : Type ℓ} → A → Option A → A
  or_zero zero none = zero
  or_zero zero (some a) = a

  abbrev pub has_like {ℓ} : {A : Type ℓ} → (A → A → Bool) → A → List A → Bool
  has_like same a [] = false
  has_like same a (b ∷ items) = if same b a then true else has_like same a items

  -- The ids and the nodes that have been found, in their order.
  pub record Found : Type 0 where
    pub ids : List TxId
    pub nodes : List Node

  -- What the loop does with one body: `found` is shared by the search for the id and the search
  -- for the node, and is not reset between them.
  unfoldable pub add_found : Body Node TxId Data → Found → Found
  add_found body f =
      let id = or_zero reader.zero_id body.transaction_id in
      let node = or_zero reader.zero_node body.node_account_id in
      if has_like reader.same_id id f.ids then f else (record {
        ids = f.ids ++ id ∷ [];
        nodes = if has_like reader.same_node node f.nodes then f.nodes else f.nodes ++ node ∷ [];
      })

  unfoldable pub find_all : List (SignedTransaction Node TxId Data) → Found → Found
  unfolding add_found
  find_all [] f = f
  find_all (tx ∷ list) f = find_all list (add_found tx.body f)

  -- The slice of the items, locked where there are any.
  abbrev pub locked_slice_of {ℓ} : {A : Type ℓ} → List A → LockableSlice A
  locked_slice_of items = record {
    slice = map some items;
    locked = ltb 0 (length items);
    index = 0;
  }

  abbrev pub open_slice_of {ℓ} : {A : Type ℓ} → List A → LockableSlice A
  open_slice_of items = record { slice = map some items; locked = false; index = 0 }

  -- `TransactionFromBytes`, up to the switch over the kind of the first body.
  unfoldable pub transaction_from_bytes :
      List (SignedTransaction Node TxId Data) → Outcome (Transaction Node TxId Data)
  unfolding transaction_compare read_keys find_all
  transaction_from_bytes [] = transaction_compare [] >>= λ _. panic out_of_range
  transaction_from_bytes (tx ∷ list) = do
    same ← transaction_compare (tx ∷ list)
    keys ← if same then read_keys tx.sig_pairs else err bodies_differ
    let found = find_all (tx ∷ list) (record { ids = []; nodes = [] })
    ok (record {
      max_retry = pos 10;
      transaction_fee = 0;
      memo = [];
      transaction_valid_duration = none;
      transaction_ids = locked_slice_of found.ids;
      transactions =
          open_slice_of (map (λ s. record { signed_transaction_bytes = some s }) (tx ∷ list));
      signed_transactions = open_slice_of (tx ∷ list);
      node_account_ids = locked_slice_of found.nodes;
      public_keys = keys;
      transaction_signers = map (λ _. none) keys;
      is_freeze_error = false;
      max_backoff = none;
      min_backoff = none;
      regenerate_transaction_id = false;
      grpc_deadline = none;
    })
