-- ===== src/Query/Sending.antt =====
-- What `_Execute` of executable.go does with a query: the operations of its loop, over those of the
-- client's network, which are arguments.
use hedera_sdk_go.Prelude.{Bool, false, ◌&&◌, List, [], ◌∷◌, Option, some, length, ltb}
use hedera_sdk_go.Prelude.Outcome.{Outcome, ok, panic, out_of_range, ◌>>=◌}
use hedera_sdk_go.LockableSlice.{LockableSlice}
use hedera_sdk_go.LockableSlice
use hedera_sdk_go.Executable.{Operations, Reply}
use hedera_sdk_go.Query.{
  AccountAmount, Payment, Header, Query, Status, query_get_node_account_id, query_should_retry,
}

-- What the loop calls on the network and its nodes; W is their state.
pub record NetworkOperations (W Node AccountId Req Resp : Type 0) : Type 0 where
  pub account_id : Node → AccountId
  pub get_node_for_account_id : AccountId → W → Option Node
  pub get_node : W → Outcome (W × Node)
  pub in_use : Node → W → W
  pub is_healthy : Node → W → Bool
  pub has_channel : Node → W → Bool
  pub increase_backoff : Node → W → Outcome W
  pub decrease_backoff : Node → W → W
  pub call : Node → Req → W → W × Reply Resp

-- The list with the account of its first item replaced.
unfoldable pub first_paid :
    {AccountId : Type 0}
    → AccountId
    → List (AccountAmount AccountId)
    → Outcome (List (AccountAmount AccountId))
first_paid node [] = panic out_of_range
first_paid node (a ∷ amounts) = ok (record a { account_id = node } ∷ amounts)

module _ {AccountId TxId Pair : Type 0} where
  -- The first payment, made out to the node. Its signature stays.
  unfoldable pub pay_node :
      AccountId → List (Payment AccountId TxId Pair) → Outcome (List (Payment AccountId TxId Pair))
  unfolding first_paid
  pay_node node [] = ok []
  pay_node node (p ∷ payments) = do
    amounts ← first_paid node p.body.account_amounts
    ok (
        record p { body = record p.body { node_account_id = node; account_amounts = amounts } }
        ∷ payments)

  -- The branch for a query that has no nodes of its own.
  unfoldable pub make_request_for :
      (Query AccountId TxId Pair → Outcome (Query AccountId TxId Pair × Header AccountId TxId Pair))
      → AccountId
      → Query AccountId TxId Pair
      → Outcome (Query AccountId TxId Pair × Header AccountId TxId Pair)
  unfolding pay_node
  make_request_for make node q = do
    payments ← pay_node node q.payment_transactions
    ids ← LockableSlice.set 0 (some node) q.node_account_ids
    make (record q { payment_transactions = payments; node_account_ids = ids })

module _ {W Node AccountId TxId Pair Resp : Type 0}
    (net : NetworkOperations W Node AccountId (Header AccountId TxId Pair) Resp)
    (status : Resp → Status)
    (make : Query AccountId TxId Pair
      → Outcome (Query AccountId TxId Pair × Header AccountId TxId Pair))
    (advance : Query AccountId TxId Pair → Query AccountId TxId Pair) where
  -- What the loop of `_Execute` does for a query. A query has no transaction id to draw anew.
  unfoldable pub query_operations :
      Operations (Query AccountId TxId Pair × W) Node (Header AccountId TxId Pair) Resp Resp
  unfolding make_request_for query_get_node_account_id query_should_retry
  query_operations = record {
    is_transaction = false;
    is_pinned = λ s. s.0.node_account_ids.locked && ltb 0 (length s.0.node_account_ids.slice);
    make_request = λ s. make s.0 >>= λ r. ok ((r.0, s.1), r.1);
    node_for_request =
        λ s. query_get_node_account_id s.0 >>= λ id. ok (net.get_node_for_account_id id s.1);
    get_node = λ s. net.get_node s.1 >>= λ r. ok ((s.0, r.0), r.1);
    make_request_for =
        λ node s. make_request_for make (net.account_id node) s.0 >>= λ r. ok ((r.0, s.1), r.1);
    in_use = λ node s. (s.0, net.in_use node s.1);
    is_healthy = λ node s. net.is_healthy node s.1;
    advance_request = λ s. (advance s.0, s.1);
    has_channel = λ node s. net.has_channel node s.1;
    increase_backoff = λ node s. net.increase_backoff node s.1 >>= λ w. ok (s.0, w);
    call = λ node req s. let r = net.call node req s.1 in ((s.0, r.0), r.1);
    decrease_backoff = λ node s. (s.0, net.decrease_backoff node s.1);
    should_retry = λ s resp. query_should_retry (status resp);
    may_regenerate = λ s. false;
    regenerate = λ s. ok s;
    map_response = λ s resp node req. ok (s, resp);
  }
