-- ===== src/Node/Transport.antt =====
-- What the change of transport of node.go does to the backoff of a node.
use hedera_sdk_go.Prelude.{ℕ, ◌^◌, ◌<◌, ◌≡◌, Bool, arith, true}
use hedera_sdk_go.Prelude.Int.{ℤ, pos, ◌+ℤ◌, ltb_ℤ}
use hedera_sdk_go.ManagedNode.{increase_backoff, is_healthy}
use hedera_sdk_go.Node.{Node, node_with_transport}

-- A copy with the other transport has the maximal backoff 0, so that after a failure its backoff is
-- 0 and it is healthy at any later instant, whatever the node's own maximum is.
pub increase_backoff-node_with_transport :
    {Key Channel Book : Type 0} (secure : Bool) (now later : ℤ) (b : ℕ) (n : Node Key Channel Book)
    → n.managed.current_backoff ≡ pos b
    → 0 < b
    → b < 2 ^ 62
    → ltb_ℤ now later ≡ true
    → ((increase_backoff now (node_with_transport secure n).managed).current_backoff ≡ pos 0)
      × (is_healthy later (increase_backoff now (node_with_transport secure n).managed) ≡ true)
unfolding increase_backoff is_healthy node_with_transport ◌+ℤ◌
increase_backoff-node_with_transport secure now later b n e p s h = (ground arith, ground arith)
