-- ===== src/Transaction/Reading/Laws.antt =====
-- What reading a list of transactions of transaction.go keeps of its ids and nodes.
use hedera_sdk_go.Prelude.{◌≡◌, refl, true, List, [], ◌∷◌, some, All, map}
use hedera_sdk_go.Prelude.Outcome.{ok}
use hedera_sdk_go.Transaction.{SignedTransaction, Transaction, PublicKey}
use hedera_sdk_go.Transaction.Reading.{
  Reader, transaction_compare, transaction_from_bytes, read_keys, find_all, add_found, or_zero,
  all_like,
}

module _ {Node TxId Data : Type 0} (reader : Reader Node TxId Data) where
  abbrev pub id_of : SignedTransaction Node TxId Data → TxId
  id_of tx = or_zero reader reader.zero_id tx.body.transaction_id

  abbrev pub node_of : SignedTransaction Node TxId Data → Node
  node_of tx = or_zero reader reader.zero_node tx.body.node_account_id

  find_all-same :
      (id : TxId) (nodes : List Node) (list : List (SignedTransaction Node TxId Data))
      → All (λ tx. reader.same_id id (id_of tx) ≡ true) list
      → find_all reader list (record { ids = id ∷ []; nodes = nodes })
        ≡ record { ids = id ∷ []; nodes = nodes }
  unfolding find_all add_found
  find_all-same id nodes [] h = refl
  find_all-same id nodes (tx ∷ list) (e, h) = rw e (find_all-same id nodes list h)

  -- A list of transactions that share one transaction id, whose bodies have the same content, and whose
  -- first one has keys that can be read, is read as a transaction with that id and the node
  -- of the first one alone, also when the others are for other nodes.
  pub transaction_from_bytes-one_id :
      (tx : SignedTransaction Node TxId Data) (list : List (SignedTransaction Node TxId Data))
      (keys : List PublicKey)
      → All (λ other. reader.same_id (id_of tx) (id_of other) ≡ true) list
      → all_like reader tx.body.content list ≡ true
      → read_keys reader tx.sig_pairs ≡ ok keys
      → (t : Transaction Node TxId Data) × (transaction_from_bytes reader (tx ∷ list) ≡ ok t)
        × (t.transaction_ids.slice ≡ some (id_of tx) ∷ [])
        × (t.node_account_ids.slice ≡ some (node_of tx) ∷ [])
        × (t.signed_transactions.slice ≡ map some (tx ∷ list))
  unfolding transaction_from_bytes transaction_compare add_found find_all
  transaction_from_bytes-one_id tx list keys h c k =
      rw (c, k, find_all-same (id_of tx) (node_of tx ∷ []) list h) (_, refl, refl, refl, refl)
