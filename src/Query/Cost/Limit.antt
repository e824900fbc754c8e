-- ===== src/Query/Cost/Limit.antt =====
-- The payments of a query stay within its limit.
use hedera_sdk_go.Prelude.{ℕ, List, [], ◌∷◌}
use hedera_sdk_go.Prelude.Int.{ℤ, pos}
use hedera_sdk_go.Prelude.Outcome.{Outcome}
use hedera_sdk_go.Query.{AccountAmount, Payment, Header, Query, Status}
use hedera_sdk_go.Query.Sending.{NetworkOperations}
use hedera_sdk_go.Query.Cost.{Setting, Answer, choose_cost}

module _ {AccountId TxId Pair : Type 0} where
  -- What a payment gives its first account, the node.
  abbrev pub amount_paid : Payment AccountId TxId Pair → ℤ
  amount_paid p = first_amount p.body.account_amounts
    where
      first_amount : List (AccountAmount AccountId) → ℤ
      first_amount [] = pos 0
      first_amount (a ∷ _) = a.amount

  module _ (setting : Setting AccountId TxId Pair) where
    module _ {W Node Resp : Type 0}
        (net : NetworkOperations W Node AccountId (Header AccountId TxId Pair) Resp)
        (status : Resp → Status) (cost_of : Resp → ℕ) (min_backoff : ℤ)
        (q : Query AccountId TxId Pair) (w : W) where
      abbrev chosen : Answer (Query AccountId TxId Pair) W ℤ
      chosen = choose_cost setting net status cost_of min_backoff q w
