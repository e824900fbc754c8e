-- ===== src/Transaction/Freezing.antt =====
-- `_TransactionFreezeWith` of transaction.go makes one signed transaction for each node.
use hedera_sdk_go.Prelude.{
  ◌≡◌, refl, ap, ◌∙◌, sym, true, false, List, [], ◌∷◌, ◌++◌, Option, none, some, arith, map,
  append-nil, append_assoc, length-append,
}
use hedera_sdk_go.Prelude.Outcome.{ok, ◌>>=◌}
use hedera_sdk_go.LockableSlice.{LockableSlice, push, set_locked, is_empty}
use hedera_sdk_go.Transaction.{
  Body, SignedTransaction, Transaction, FreezeClient, push_nodes, push_signed, with_nodes_of,
  transaction_freeze_with, is_frozen, set_node_account_ids,
}

push-unlocked {ℓ} :
    {A : Type ℓ} (items : List (Option A)) (s : LockableSlice A)
    → s.locked ≡ false
    → push items s ≡ ok (record s { slice = s.slice ++ items })
unfolding push
push-unlocked items s h = rw (h, push) refl

pub push_nodes-append :
    {Node : Type 0} (nodes : List Node) (s : LockableSlice Node)
    → s.locked ≡ false
    → push_nodes nodes s ≡ ok (record s { slice = s.slice ++ map some nodes })
unfolding push_nodes
push_nodes-append [] s h = ap (λ items. ok (record s { slice = items })) (sym (append-nil s.slice))
push_nodes-append (n ∷ nodes) s h =
    ap (λ m. m >>= push_nodes nodes) (push-unlocked (some n ∷ []) s h)
    ∙ push_nodes-append nodes (record s { slice = s.slice ++ some n ∷ [] }) h
    ∙ ap (λ items. ok (record s { slice = items }))
        (append_assoc s.slice (some n ∷ []) (map some nodes))

module _ {Node TxId Data : Type 0} where
  -- The unsigned transaction of a node.
  abbrev pub unsigned_for : Body Node TxId Data → Node → Option (SignedTransaction Node TxId Data)
  unsigned_for body n =
      some (record { body = record body { node_account_id = some n }; sig_pairs = [] })

  push_signed-append :
      (body : Body Node TxId Data) (nodes : List Node)
      (s : LockableSlice (SignedTransaction Node TxId Data))
      → s.locked ≡ false
      → push_signed body (map some nodes) s
        ≡ ok (record s { slice = s.slice ++ map (unsigned_for body) nodes })
  unfolding push_signed
  push_signed-append body [] s h =
      ap (λ items. ok (record s { slice = items })) (sym (append-nil s.slice))
  push_signed-append body (n ∷ nodes) s h =
      ap (λ m. m >>= push_signed body (map some nodes))
        (push-unlocked (unsigned_for body n ∷ []) s h)
      ∙ push_signed-append body nodes (record s { slice = s.slice ++ unsigned_for body n ∷ [] }) h
      ∙ ap (λ items. ok (record s { slice = items }))
          (append_assoc s.slice (unsigned_for body n ∷ []) (map (unsigned_for body) nodes))

  -- The transaction with nodes set.
  abbrev pub pinned_to : List Node → Transaction Node TxId Data → Transaction Node TxId Data
  pinned_to nodes t = record t {
    node_account_ids = record t.node_account_ids { slice = map some nodes; locked = true };
  }

  set_node_account_ids-pinned_to :
      (nodes : List Node) (t : Transaction Node TxId Data)
      → t.node_account_ids.slice ≡ []
      → t.node_account_ids.locked ≡ false
      → set_node_account_ids nodes t ≡ ok (pinned_to nodes t)
  unfolding set_node_account_ids set_locked
  set_node_account_ids-pinned_to nodes t e l =
      rw (push_nodes-append nodes t.node_account_ids l) (rw e refl)

  with_nodes_of-pinned_to :
      (client : Option (FreezeClient Node)) (n : Node) (nodes : List Node)
      (t : Transaction Node TxId Data)
      → with_nodes_of client (pinned_to (n ∷ nodes) t)
        ≡ ok (pinned_to (n ∷ nodes) t).node_account_ids
  unfolding with_nodes_of is_empty
  with_nodes_of-pinned_to client n nodes t = ground arith

  -- Setting one node or more on a transaction that has none, and whose nodes and signed transactions
  -- are not locked, and freezing it, with a client or without, succeeds: the transaction has just
  -- these nodes, locked, one unsigned transaction for each of them is appended to its signed
  -- transactions, in their order, and it is frozen.
  pub freeze_with-set_node_account_ids :
      (client : Option (FreezeClient Node)) (body : Body Node TxId Data) (n : Node)
      (nodes : List Node) (t : Transaction Node TxId Data)
      → t.node_account_ids.slice ≡ []
      → t.node_account_ids.locked ≡ false
      → t.signed_transactions.locked ≡ false
      → (after : Transaction Node TxId Data) × ((set_node_account_ids (n ∷ nodes) t
            >>= transaction_freeze_with client body)
          ≡ ok after)
        × (after.node_account_ids.slice ≡ map some (n ∷ nodes))
        × (after.node_account_ids.locked ≡ true)
        × (after.signed_transactions.slice
            ≡ t.signed_transactions.slice ++ map (unsigned_for body) (n ∷ nodes))
        × (is_frozen after ≡ true)
  unfolding transaction_freeze_with is_frozen
  freeze_with-set_node_account_ids client body n nodes t e l s = (
    record t {
      node_account_ids = record t.node_account_ids { slice = map some (n ∷ nodes); locked = true };
      regenerate_transaction_id = elim client [
        | none ↦ t.regenerate_transaction_id
        | some c ↦ c.default_regenerate_transaction_ids
      ];
      signed_transactions = record t.signed_transactions {
        slice = t.signed_transactions.slice ++ map (unsigned_for body) (n ∷ nodes);
      };
    },
    ap (λ m. m >>= transaction_freeze_with client body)
          (set_node_account_ids-pinned_to (n ∷ nodes) t e l)
        ∙ rw (with_nodes_of-pinned_to client n nodes t)
            (rw (push_signed-append body (n ∷ nodes) t.signed_transactions s) refl),
    refl,
    refl,
    refl,
    ground (arith, length-append t.signed_transactions.slice (map (unsigned_for body) (n ∷ nodes))),
  )
