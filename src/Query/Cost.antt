-- ===== src/Query/Cost.antt =====
-- GetCost and Execute of a query that is paid for, as account_info_query.go has them and the other
-- queries repeat. The building of the query's own message and the reading of its answer are left out.
pub mod Limit
use hedera_sdk_go.Prelude.{ℕ, ◌+◌, ◌%◌, ◌^◌, [], ◌∷◌, ◌++◌, Option, none, some, map, if◌then◌else◌}
use hedera_sdk_go.Prelude.Int.{ℤ, pos, to_int64, ltb_ℤ, eq_ℤ}
use hedera_sdk_go.Prelude.Outcome.{
  Outcome, ok, err, panic, no_client, max_query_payment_exceeded, ◌>>=◌, ◌>>◌,
}
use hedera_sdk_go.LockableSlice.{push, clear, get_current}
use hedera_sdk_go.Executable.{execute}
use hedera_sdk_go.Transaction.{asserted}
use hedera_sdk_go.Query.{
  Operator, Header, Query, Status, make_payment_transaction, query_generate_payments,
  query_make_request, cost_query_make_request, query_advance_request, cost_query_advance_request,
}
use hedera_sdk_go.Query.Sending.{NetworkOperations, query_operations}

-- What a query is executed with: the client's operator and its limit, the outcome of the check of the
-- ids, the transaction id that is generated, the zero ids, and the attempts and the largest backoff.
pub record Setting (AccountId TxId Pair : Type 0) : Type 0 where
  pub operator : Option (Operator AccountId TxId Pair)
  pub client_max_query_payment : ℤ
  pub valid : Outcome (Unit {0})
  pub generated : TxId
  pub zero_id : TxId
  pub zero_account : AccountId
  pub max_attempts : ℕ
  pub max_backoff : ℤ

-- The query, the network's state and the least backoff, which change, and the outcome.
pub record Answer (Q W A : Type 0) : Type 0 where
  pub query : Q
  pub world : W
  pub min_backoff : ℤ
  pub result : Outcome A

module _ {AccountId TxId Pair : Type 0} (setting : Setting AccountId TxId Pair) where
  -- The payments of nothing that a request for the cost carries, one for each node.
  unfoldable pub with_dummies :
      Operator AccountId TxId Pair → Query AccountId TxId Pair → Query AccountId TxId Pair
  unfolding make_payment_transaction
  with_dummies operator q =
      let dummy = make_payment_transaction setting.zero_id setting.zero_account operator (pos 0) in
      record q {
        payment_transactions =
            q.payment_transactions
            ++ (if q.node_account_ids.locked
                then map (λ _. dummy) q.node_account_ids.slice
                else dummy ∷ []);
      }

  -- `maxQueryPayment` of the query, or of the client.
  unfoldable pub limit_of : Query AccountId TxId Pair → ℤ
  limit_of q =
      if eq_ℤ q.max_query_payment (pos 0)
      then setting.client_max_query_payment
      else q.max_query_payment

  -- A fresh payment transaction id, where none was set.
  unfoldable pub with_id : Query AccountId TxId Pair → Outcome (Query AccountId TxId Pair)
  with_id q = if q.payment_transaction_ids.locked then ok q else (do
    cleared ← clear q.payment_transaction_ids
    pushed ← push (some setting.generated ∷ []) cleared
    ok (record q { payment_transaction_ids = pushed }))

  -- The payments of the cost, to each node or to none.
  unfoldable pub with_payments :
      Operator AccountId TxId Pair
      → ℤ
      → Query AccountId TxId Pair
      → Outcome (Query AccountId TxId Pair)
  unfolding query_generate_payments make_payment_transaction
  with_payments operator cost q =
      let q' = record q { payment_transactions = [] } in
      if q.node_account_ids.locked then query_generate_payments operator cost q' else (do
        id ← get_current q.payment_transaction_ids >>= asserted
        ok (record q {
          payment_transactions =
              make_payment_transaction id setting.zero_account operator cost ∷ [];
        }))

  module _ {W Node Resp : Type 0}
      (net : NetworkOperations W Node AccountId (Header AccountId TxId Pair) Resp)
      (status : Resp → Status) (cost_of : Resp → ℕ) where
    abbrev Reached : Type 0 → Type 0
    Reached = Answer (Query AccountId TxId Pair) W

    -- `int64(Header.Cost)`, and 25 tinybars at least.
    unfoldable pub at_least_25 : Resp → ℤ
    at_least_25 resp =
        let cost = to_int64 (cost_of resp % 2 ^ 64) in if ltb_ℤ cost (pos 25) then pos 25 else cost

    -- GetCost behind its checks.
    unfoldable pub ask_cost :
        Operator AccountId TxId Pair → ℤ → Query AccountId TxId Pair → W → Reached ℤ
    unfolding with_dummies at_least_25 execute query_operations cost_query_make_request
        cost_query_advance_request
    ask_cost operator min_backoff q w =
        let run =
          execute (query_operations net status cost_query_make_request cost_query_advance_request)
            setting.max_backoff min_backoff setting.max_attempts (with_dummies operator q, w) in
        record {
          query = run.state.0;
          world = run.state.1;
          min_backoff = run.min_backoff;
          result = run.result >>= λ resp. ok (at_least_25 resp);
        }

    -- GetCost
    unfoldable pub get_cost : ℤ → Query AccountId TxId Pair → W → Reached ℤ
    unfolding ask_cost
    get_cost min_backoff q w =
        let stop : Outcome ℤ → Reached ℤ =
          λ r. record { query = q; world = w; min_backoff = min_backoff; result = r } in
        elim setting.operator [
          | none ↦ stop (err no_client)
          | some operator ↦ elim setting.valid [
            | err e ↦ stop (err e)
            | panic p ↦ stop (panic p)
            | ok _ ↦ ask_cost operator min_backoff q w
          ]
        ]

    -- The part of Execute that finds the cost: what the query is to pay, or what its answer costs if
    -- the limit allows it.
    unfoldable pub choose_cost : ℤ → Query AccountId TxId Pair → W → Reached ℤ
    unfolding get_cost limit_of
    choose_cost min_backoff q w =
        if eq_ℤ q.query_payment (pos 0)
        then (let asked = get_cost min_backoff q w in
            record asked {
              result = asked.result >>= λ actual.
                  if ltb_ℤ (limit_of q) actual then err max_query_payment_exceeded else ok actual;
            })
        else record { query = q; world = w; min_backoff = min_backoff; result = ok q.query_payment }

    -- The last part of Execute: the payments, and the request.
    unfoldable pub pay_and_send : Operator AccountId TxId Pair → Reached ℤ → Reached Resp
    unfolding with_payments execute query_operations query_make_request query_advance_request
    pay_and_send operator chosen =
        elim (chosen.result >>= λ cost. with_payments operator cost chosen.query) [
          | err e ↦ record {
            query = chosen.query;
            world = chosen.world;
            min_backoff = chosen.min_backoff;
            result = err e;
          }
          | panic p ↦ record {
            query = chosen.query;
            world = chosen.world;
            min_backoff = chosen.min_backoff;
            result = panic p;
          }
          | ok q ↦
              let run =
                execute (query_operations net status query_make_request query_advance_request)
                  setting.max_backoff chosen.min_backoff setting.max_attempts (q, chosen.world) in
              record {
                query = run.state.0;
                world = run.state.1;
                min_backoff = run.min_backoff;
                result = run.result;
              }
        ]

    -- Execute
    unfoldable pub execute_query : ℤ → Query AccountId TxId Pair → W → Reached Resp
    unfolding choose_cost pay_and_send with_id
    execute_query min_backoff q w =
        let stop : Outcome Resp → Reached Resp =
          λ r. record { query = q; world = w; min_backoff = min_backoff; result = r } in
        elim setting.operator [
          | none ↦ stop (err no_client)
          | some operator ↦ elim (setting.valid >> with_id q) [
            | err e ↦ stop (err e)
            | panic p ↦ stop (panic p)
            | ok q' ↦ pay_and_send operator (choose_cost min_backoff q' w)
          ]
        ]
