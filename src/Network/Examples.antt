-- ===== src/Network/Examples.antt =====
-- Networks of managed_network.go and network.go at concrete nodes; keys of accounts are texts, and
-- connections and address books are numbers.
use hedera_sdk_go.Prelude.{
  ◌++◌, map, ℕ, ◌+◌, ◌*◌, ◌<◌, ◌≡◌, refl, ◌&&◌, ◌||◌, ◌⊎◌, List, [], ◌∷◌, some, none, true, false,
  ◌==◌, if◌then◌else◌, is_some, drop,
}
use hedera_sdk_go.Prelude.Int.{pos, negsuc}
use hedera_sdk_go.Prelude.Outcome.{ok, panic, out_of_range}
use hedera_sdk_go.Prelude.Text.{Bytes, codes}
use hedera_sdk_go.AccountId.{AccountId, to_string}
use hedera_sdk_go.Strconv.{format}
use hedera_sdk_go.Id.{dotted}
use hedera_sdk_go.ManagedNode.{second, hour}
use hedera_sdk_go.Node.{Host, Node, Heap, get_key}
use hedera_sdk_go.ManagedNetwork.{ManagedNetwork, lookup, healthy_at, readmit_nodes}
use hedera_sdk_go.ManagedNetwork.Health.{has, IsDistinct, has-readmit_nodes}
use hedera_sdk_go.ManagedNetwork.Replace.{key_at, address_at, managed_set_network}
use hedera_sdk_go.ManagedNetwork.Replace.Kept.{kept_nodes, new_among, managed_set_network-nodes}
use hedera_sdk_go.Network.{Network, network_increase_backoff}
use hedera_sdk_go.Network.Backoff.{without, network_increase_backoff-healthy}

abbrev host : Host Bytes ℕ
host = record { key_string = λ k. k; close_channel = λ c. ok tt }

abbrev account : ℕ → AccountId Bytes
account n = record { shard = 0; realm = 0; account = n; alias_key = none; checksum = none }

-- The node r has the account r + 3; the node 1 is unhealthy until the instant 100.
abbrev node_of : ℕ → Node Bytes ℕ ℕ
node_of r = record {
  managed = record {
    address = some (record { address = some (codes "10.0.0.1"); port = 50211 });
    current_backoff = pos (8 * second);
    last_used = pos 5;
    use_count = pos 0;
    min_backoff = pos (8 * second);
    max_backoff = pos hour;
    bad_grpc_status_count = pos 0;
    readmit_time = if r == 1 then some (pos 100) else none;
  };
  account_id = account (r + 3);
  channel = some r;
  address_book = none;
  verify_certificate = true;
}

abbrev heap : Heap Bytes ℕ ℕ
heap = record { node = node_of; next = 5 }

abbrev three_nodes : ManagedNetwork Bytes ℕ ℕ
three_nodes = record {
  heap = heap;
  network = [];
  nodes = 0 ∷ 1 ∷ 2 ∷ [];
  healthy_nodes = 0 ∷ 2 ∷ [];
  max_node_attempts = negsuc 0;
  min_backoff = pos (8 * second);
  max_backoff = pos hour;
  max_nodes_per_transaction = none;
  ledger_id = none;
  transport_security = false;
  verify_certificate = false;
  min_node_readmit_period = pos (8 * second);
  max_node_readmit_period = pos hour;
  earliest_readmit_time = pos 0;
}

abbrev three_network : Network Bytes ℕ ℕ
three_network = record { managed = three_nodes; address_book = none }

has-readmit_nodes_example :
    ((r : ℕ)
      → has r (readmit_nodes (pos 200) three_nodes).healthy_nodes
        ≡ (has r (0 ∷ 2 ∷ []) || (has r (0 ∷ 1 ∷ 2 ∷ []) && healthy_at (pos 200) heap r)))
    × IsDistinct (readmit_nodes (pos 200) three_nodes).healthy_nodes
has-readmit_nodes_example = has-readmit_nodes (pos 200) three_nodes (refl, (refl, tt))

network_increase_backoff-healthy_example :
    ((has 2 (0 ∷ 2 ∷ []) ≡ true)
      × ((network_increase_backoff (pos 7) 2 three_network).1 ≡ ok tt)
      × ((network_increase_backoff (pos 7) 2 three_network).0.managed.healthy_nodes
          ≡ without 2 (0 ∷ 2 ∷ [])))
    ⊎ (((has 2 (0 ∷ 2 ∷ []) ≡ false)
          × (0 < 2)
          × ((network_increase_backoff (pos 7) 2 three_network).1 ≡ ok tt)
          × ((network_increase_backoff (pos 7) 2 three_network).0.managed.healthy_nodes
              ≡ drop 1 (0 ∷ 2 ∷ [])))
        ⊎ ((three_nodes.healthy_nodes ≡ [])
            × ((network_increase_backoff (pos 7) 2 three_network).1 ≡ panic out_of_range)))
network_increase_backoff-healthy_example =
    network_increase_backoff-healthy (pos 7) 2 three_network (refl, (refl, tt))

abbrev new_nodes : List (Bytes × ℕ)
new_nodes = (codes "10.0.0.1:50211", 3) ∷ (codes "10.0.0.2:50211", 4) ∷ []

managed_set_network-nodes_example :
    ((managed_set_network host (pos 7) new_nodes three_nodes).1 ≡ ok tt)
    × ((managed_set_network host (pos 7) new_nodes three_nodes).0.nodes
        ≡ kept_nodes host new_nodes three_nodes
          ++ new_among host heap
              (map (key_at host heap) (kept_nodes host new_nodes three_nodes))
              (map (address_at host heap) (kept_nodes host new_nodes three_nodes))
              new_nodes)
managed_set_network-nodes_example =
    managed_set_network-nodes host (λ c. refl) (pos 7) new_nodes three_nodes

not_key_0 : is_some (lookup (key_at host heap 0) new_nodes) ≡ false
unfolding get_key to_string dotted format
not_key_0 = refl

not_key_1 : is_some (lookup (key_at host heap 1) new_nodes) ≡ false
unfolding get_key to_string dotted format
not_key_1 = refl

not_key_2 : is_some (lookup (key_at host heap 2) new_nodes) ≡ false
unfolding get_key to_string dotted format
not_key_2 = refl
