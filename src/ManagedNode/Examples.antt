-- ===== src/ManagedNode/Examples.antt =====
-- Runs of managed_node.go at concrete nodes.
use hedera_sdk_go.Prelude.{none, some, ◌*◌}
use hedera_sdk_go.Prelude.Text.{codes}
use hedera_sdk_go.Prelude.Int.{pos}
use hedera_sdk_go.ManagedNode.{ManagedNode, second, hour}

abbrev fresh : ManagedNode
fresh = record {
  address = some (record { address = some (codes "10.0.0.1"); port = 50211 });
  current_backoff = pos (8 * second);
  last_used = pos 5;
  use_count = pos 0;
  min_backoff = pos (8 * second);
  max_backoff = pos hour;
  bad_grpc_status_count = pos 0;
  readmit_time = none;
}
