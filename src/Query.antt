-- ===== src/Query.antt =====
-- query.go, with what executable.go does for a query: the payments of a query and the requests that
-- it is sent as. A protobuf message stands for its own bytes; the fields of a body that every payment
-- has alike are those that the code sets.
pub mod Sending
pub mod Laws
pub mod Cost
mod Examples
use hedera_sdk_go.Prelude.{
  ℕ, ◌+◌, Bool, true, ◌&&◌, List, [], ◌∷◌, ◌++◌, Option, none, some, length, ltb, get_elem?,
  if◌then◌else◌,
}
use hedera_sdk_go.Prelude.Int.{ℤ, pos, neg, to_int64, to_uint64}
use hedera_sdk_go.Prelude.Outcome.{Outcome, ok, panic, out_of_range, ◌>>=◌}
use hedera_sdk_go.LockableSlice.{LockableSlice, new, push, clear, set_locked, get_current, advance}
use hedera_sdk_go.Executable.{ExecutionState, retry, finished, error}
use hedera_sdk_go.Transaction.{asserted, push_nodes}

-- The statuses that `_QueryShouldRetry` tells apart.
pub data Status : Type 0 where
  platform_transaction_not_created busy status_ok other_status : Status

pub data ResponseType : Type 0 where
  answer_only cost_answer : ResponseType

pub record AccountAmount (AccountId : Type 0) : Type 0 where
  pub account_id : AccountId
  pub amount : ℤ

pub record PaymentBody (AccountId TxId : Type 0) : Type 0 where
  pub transaction_id : TxId
  pub node_account_id : AccountId
  pub transaction_fee : ℕ
  pub transaction_valid_duration : ℕ
  pub account_amounts : List (AccountAmount AccountId)

-- A payment, with its body and the pair of the operator's key and signature.
pub record Payment (AccountId TxId Pair : Type 0) : Type 0 where
  pub body : PaymentBody AccountId TxId
  pub sig_pair : Pair

-- The operator, with what its signer and its public key make of a body.
pub record Operator (AccountId TxId Pair : Type 0) : Type 0 where
  pub account_id : AccountId
  pub sign : PaymentBody AccountId TxId → Pair

pub record Header (AccountId TxId Pair : Type 0) : Type 0 where
  pub payment : Option (Payment AccountId TxId Pair)
  pub response_type : ResponseType

pub record Query (AccountId TxId Pair : Type 0) : Type 0 where
  pub payment_transaction_ids : LockableSlice TxId
  pub node_account_ids : LockableSlice AccountId
  pub max_query_payment : ℤ
  pub query_payment : ℤ
  pub payment_transactions : List (Payment AccountId TxId Pair)
  pub is_payment_required : Bool
  pub max_retry : ℤ
  pub pb_header : Header AccountId TxId Pair

-- `-a` of an int64.
abbrev pub neg_int64 : ℤ → ℤ
neg_int64 a = to_int64 (to_uint64 (neg a))

unfoldable pub query_should_retry : Status → ExecutionState
query_should_retry platform_transaction_not_created = retry
query_should_retry busy = retry
query_should_retry status_ok = finished
query_should_retry other_status = error

module _ {AccountId TxId Pair : Type 0} where
  unfoldable pub new_query : Bool → Header AccountId TxId Pair → Query AccountId TxId Pair
  new_query is_payment_required header = record {
    payment_transaction_ids = new;
    node_account_ids = new;
    max_query_payment = pos 0;
    query_payment = pos 0;
    payment_transactions = [];
    is_payment_required = is_payment_required;
    max_retry = pos 10;
    pb_header = header;
  }

  unfoldable pub query_set_node_account_ids :
      List AccountId → Query AccountId TxId Pair → Outcome (Query AccountId TxId Pair)
  unfolding push_nodes
  query_set_node_account_ids ids q = do
    slice ← push_nodes ids q.node_account_ids
    ok (record q { node_account_ids = set_locked true slice })

  unfoldable pub query_get_node_account_id : Query AccountId TxId Pair → Outcome AccountId
  unfolding get_current
  query_get_node_account_id q = get_current q.node_account_ids >>= asserted

  unfoldable pub set_max_query_payment : ℤ → Query AccountId TxId Pair → Query AccountId TxId Pair
  set_max_query_payment payment q = record q { max_query_payment = payment }

  unfoldable pub set_query_payment : ℤ → Query AccountId TxId Pair → Query AccountId TxId Pair
  set_query_payment amount q = record q { query_payment = amount }

  unfoldable pub set_max_retry : ℤ → Query AccountId TxId Pair → Query AccountId TxId Pair
  set_max_retry count q = record q { max_retry = count }

  unfoldable pub get_payment_transaction_id : Query AccountId TxId Pair → Outcome TxId
  get_payment_transaction_id q = get_current q.payment_transaction_ids >>= asserted

  unfoldable pub set_payment_transaction_id :
      TxId → Query AccountId TxId Pair → Outcome (Query AccountId TxId Pair)
  set_payment_transaction_id id q = do
    cleared ← clear q.payment_transaction_ids
    pushed ← push (some id ∷ []) cleared
    ok (record q { payment_transaction_ids = set_locked true pushed })

  -- The header with the payment at the index of the payment's ids, where there are payments.
  unfoldable pub with_payment :
      ResponseType
      → Query AccountId TxId Pair
      → Outcome (Query AccountId TxId Pair × Header AccountId TxId Pair)
  with_payment response q =
      let header : Header AccountId TxId Pair = record q.pb_header { response_type = response } in
      if q.is_payment_required && ltb 0 (length q.payment_transactions)
      then (elim (get_elem? q.payment_transactions q.payment_transaction_ids.index) [
        | none ↦ panic out_of_range
        | some p ↦
            let paid = record header { payment = some p } in
            ok (record q { pb_header = paid }, paid)
      ])
      else ok (record q { pb_header = header }, header)

  unfoldable pub query_make_request :
      Query AccountId TxId Pair → Outcome (Query AccountId TxId Pair × Header AccountId TxId Pair)
  unfolding with_payment
  query_make_request = with_payment answer_only

  unfoldable pub cost_query_make_request :
      Query AccountId TxId Pair → Outcome (Query AccountId TxId Pair × Header AccountId TxId Pair)
  unfolding with_payment
  cost_query_make_request = with_payment cost_answer

  unfoldable pub query_advance_request : Query AccountId TxId Pair → Query AccountId TxId Pair
  unfolding advance
  query_advance_request q = record q {
    payment_transaction_ids =
        if q.is_payment_required && ltb 0 (length q.payment_transactions)
        then (advance q.payment_transaction_ids).0
        else q.payment_transaction_ids;
    node_account_ids = (advance q.node_account_ids).0;
  }

  unfoldable pub cost_query_advance_request : Query AccountId TxId Pair → Query AccountId TxId Pair
  unfolding advance
  cost_query_advance_request q = record q {
    payment_transaction_ids = (advance q.payment_transaction_ids).0;
    node_account_ids = (advance q.node_account_ids).0;
  }

  -- The operator pays the cost to the node.
  unfoldable pub make_payment_transaction :
      TxId → AccountId → Operator AccountId TxId Pair → ℤ → Payment AccountId TxId Pair
  make_payment_transaction id node operator cost =
      let body : PaymentBody AccountId TxId = record {
        transaction_id = id;
        node_account_id = node;
        transaction_fee = 100000000;
        transaction_valid_duration = 120;
        account_amounts =
            record { account_id = node; amount = cost }
            ∷ record { account_id = operator.account_id; amount = neg_int64 cost }
            ∷ [];
      } in
      record { body = body; sig_pair = operator.sign body }

  -- The loop of `_QueryGeneratePayments`.
  unfoldable pub generate_from :
      Operator AccountId TxId Pair
      → ℤ
      → List (Option AccountId)
      → Query AccountId TxId Pair
      → Outcome (Query AccountId TxId Pair)
  unfolding make_payment_transaction
  generate_from operator cost [] q = ok q
  generate_from operator cost (item ∷ items) q =
      let next = generate_from operator cost items in
      do
        id ← get_current q.payment_transaction_ids >>= asserted
        node ← asserted item
        next (record q {
          payment_transactions =
              q.payment_transactions ++ make_payment_transaction id node operator cost ∷ [];
        })

  unfoldable pub query_generate_payments :
      Operator AccountId TxId Pair
      → ℤ
      → Query AccountId TxId Pair
      → Outcome (Query AccountId TxId Pair)
  unfolding generate_from
  query_generate_payments operator cost q = generate_from operator cost q.node_account_ids.slice q
