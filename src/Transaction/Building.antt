-- ===== src/Transaction/Building.antt =====
-- `_BuildTransaction`, `_BuildAllTransactions` and the requests of transaction.go.
pub mod Laws
pub mod Keys
use hedera_sdk_go.Prelude.{
  ℕ, zero, suc, ◌+◌, ◌-◌, ◌*◌, true, ◌&&◌, not, List, [], ◌∷◌, ◌++◌, Option, none, some,
  if◌then◌else◌, length, ltb,
}
use hedera_sdk_go.Prelude.Outcome.{Outcome, ok, err, not_frozen, ◌>>=◌}
use hedera_sdk_go.LockableSlice.{get, get_current, get_next, advance, set_locked}
use hedera_sdk_go.Transaction.{Body, BuiltTransaction, Transaction, asserted, is_frozen}
use hedera_sdk_go.Transaction.Signing.{get_signed, set_signed, sign_transaction}

-- n nil items.
abbrev pub nils {ℓ} : {A : Type ℓ} → ℕ → List (Option A)
nils zero = []
nils (suc n) = none ∷ nils n

module _ {Node TxId Data : Type 0} where
  -- A transaction of `transactions` that stands at the index and has bytes.
  unfoldable pub built_before :
      ℕ → Transaction Node TxId Data → Outcome (Option (BuiltTransaction Node TxId Data))
  built_before index t =
      if ltb index (length t.transactions.slice)
      then (get index t.transactions >>= λ o. ok (elim o [
        | none ↦ none
        | some tx ↦ elim tx.signed_transaction_bytes [ none ↦ none | some _ ↦ some tx ]
      ]))
      else ok none

  -- The list of built transactions is filled with nil up to the index.
  unfoldable pub padded : ℕ → Transaction Node TxId Data → Transaction Node TxId Data
  padded index t = record t {
    transactions = record t.transactions {
      slice = t.transactions.slice ++ nils (index - length t.transactions.slice);
    };
  }

  -- The body with the node of the transaction, where it may change or has none, and with the
  -- current transaction id.
  unfoldable pub updated_body :
      ℕ → Transaction Node TxId Data → TxId → Body Node TxId Data → Outcome (Body Node TxId Data)
  updated_body index t id body =
      let changes = not t.node_account_ids.locked && ltb index (length t.node_account_ids.slice) in
      elim body.node_account_id [
        | none ↦
            (get_current t.node_account_ids >>= asserted >>= λ node.
            ok (record body { node_account_id = some node; transaction_id = some id }))
        | some n ↦
            if changes
            then (get_current t.node_account_ids >>= asserted >>= λ node.
                ok (record body { node_account_id = some node; transaction_id = some id }))
            else ok (record body { transaction_id = some id })
      ]

  -- `_BuildTransaction` behind the look at `transactions`. What it returns is the current item of
  -- `signedTransactions`, whose index nothing moves on.
  unfoldable pub build_anew :
      ℕ
      → Transaction Node TxId Data
      → Outcome (Transaction Node TxId Data × BuiltTransaction Node TxId Data)
  unfolding updated_body
  build_anew index t = do
    signed ← get_signed index t
    id ← get_current t.transaction_ids >>= asserted
    body ← updated_body index t id signed.body
    stored ← set_signed index (record signed { body = body }) t
    after ← sign_transaction index stored
    tx ← get_current after.signed_transactions >>= asserted
    ok (after, record { signed_transaction_bytes = some tx })

  -- `_BuildTransaction`
  unfoldable pub build_transaction :
      ℕ
      → Transaction Node TxId Data
      → Outcome (Transaction Node TxId Data × BuiltTransaction Node TxId Data)
  unfolding built_before padded build_anew
  build_transaction index t = do
    before ← built_before index t
    elim before [ some tx ↦ ok (t, tx) | none ↦ build_anew index (padded index t) ]

  -- The loop of `_BuildAllTransactions` from the index i on, n rounds.
  unfoldable pub build_from :
      ℕ
      → ℕ
      → Transaction Node TxId Data
      → Outcome (Transaction Node TxId Data × List (BuiltTransaction Node TxId Data))
  unfolding build_transaction
  build_from zero i t = ok (t, [])
  build_from (suc n) i t = do
    built ← build_transaction i t
    rest ← build_from n (suc i) built.0
    ok (rest.0, built.1 ∷ rest.1)

  unfoldable pub build_all_transactions :
      Transaction Node TxId Data
      → Outcome (Transaction Node TxId Data × List (BuiltTransaction Node TxId Data))
  unfolding build_from
  build_all_transactions t = build_from (length t.signed_transactions.slice) 0 t

  -- `ToBytes`: the list of the built transactions; the ids are locked.
  unfoldable pub to_bytes :
      Transaction Node TxId Data
      → Outcome (Transaction Node TxId Data × List (BuiltTransaction Node TxId Data))
  unfolding build_all_transactions is_frozen
  to_bytes t =
      if is_frozen t
      then (do
        built ← build_all_transactions t
        ok (record built.0 { transaction_ids = set_locked true built.0.transaction_ids }, built.1))
      else err not_frozen

  -- The index that `_TransactionMakeRequest` builds.
  unfoldable pub request_index : Transaction Node TxId Data → ℕ
  request_index t =
      length t.node_account_ids.slice * t.transaction_ids.index + t.node_account_ids.index

  -- `_TransactionMakeRequest`
  unfoldable pub transaction_make_request :
      Transaction Node TxId Data
      → Outcome (Transaction Node TxId Data × BuiltTransaction Node TxId Data)
  unfolding request_index build_transaction
  transaction_make_request t = build_transaction (request_index t) t

  -- `_TransactionAdvanceRequest`
  unfoldable pub transaction_advance_request :
      Transaction Node TxId Data → Transaction Node TxId Data
  transaction_advance_request t = record t { node_account_ids = (advance t.node_account_ids).0 }

  -- `_TransactionGetNodeAccountID`
  unfoldable pub transaction_get_node_account_id : Transaction Node TxId Data → Outcome Node
  transaction_get_node_account_id t = get_current t.node_account_ids >>= asserted

  -- The id that `_TransactionMapResponse` takes from the transaction; hashing is left out.
  unfoldable pub transaction_map_response :
      Transaction Node TxId Data → Outcome (Transaction Node TxId Data × TxId)
  transaction_map_response t = do
    next ← get_next t.transaction_ids
    id ← asserted next.1
    ok (record t { transaction_ids = next.0 }, id)
