-- ===== src/ManagedNetwork/Replace.antt =====
-- managed_network.go: grouping nodes by their keys, replacing the nodes of a network, closing them
-- and changing their transport.
pub mod Kept
use hedera_sdk_go.Prelude.{
  ℕ, zero, suc, ◌+◌, Bool, true, false, ◌&&◌, List, [], ◌∷◌, ◌++◌, none, if◌then◌else◌, take, drop,
  is_some,
}
use hedera_sdk_go.Prelude.Int.{ℤ}
use hedera_sdk_go.Prelude.Outcome.{Outcome, ok, err, panic, ◌>>=◌}
use hedera_sdk_go.Prelude.Text.{Bytes, bytes_eq}
use hedera_sdk_go.ManagedNode.{get_address}
use hedera_sdk_go.Node.{Host, Heap, write, allocate, get_key, close_node, node_with_transport}
use hedera_sdk_go.ManagedNetwork.{ManagedNetwork, lookup, insert_into, any_of, healthy_at}

-- What `_GetNodesToRemove` collects: the indices of the nodes whose key fails the test, the highest
-- first; i is the index of the first node of the list.
unfoldable pub indices_to_remove : (ℕ → Bool) → ℕ → List ℕ → List ℕ
indices_to_remove keeps i [] = []
indices_to_remove keeps i (r ∷ nodes) =
    indices_to_remove keeps (suc i) nodes ++ (if keeps r then [] else i ∷ [])

-- `append(newNodes[:index], newNodes[index+1:]...)`, which is also `newNodes[:index]` at the last
-- index.
abbrev pub remove_at {ℓ} : {A : Type ℓ} → ℕ → List A → List A
remove_at i items = take i items ++ drop (suc i) items

abbrev pub same_flag : Bool → Bool → Bool
same_flag true b = b
same_flag false true = false
same_flag false false = true

-- The node at an index that `_GetNodesToRemove` gave.
abbrev pub node_at : ℕ → List ℕ → ℕ
node_at i [] = 0
node_at zero (r ∷ nodes) = r
node_at (suc i) (r ∷ nodes) = node_at i nodes

module _ {Key Channel Book : Type 0} where
  -- The copies of the nodes with the other transport.
  unfoldable pub copy_nodes : Bool → List ℕ → Heap Key Channel Book → Heap Key Channel Book × List ℕ
  copy_nodes secure [] heap = (heap, [])
  copy_nodes secure (r ∷ nodes) heap =
      let (later, copies) =
        copy_nodes secure nodes (allocate (node_with_transport secure (heap.node r)) heap) in
      (later, heap.next ∷ copies)

module _ {Key Channel Book : Type 0} (host : Host Key Channel) where
  abbrev pub key_at : Heap Key Channel Book → ℕ → Bytes
  key_at heap r = get_key host (heap.node r)

  abbrev pub address_at : Heap Key Channel Book → ℕ → Bytes
  address_at heap r = get_address (heap.node r).managed

  -- `_CreateNetworkFromNodes`, from the map and the list that the nodes before gave.
  unfoldable pub create_from :
      ℤ
      → Heap Key Channel Book
      → List ℕ
      → List (Bytes × List ℕ)
      → List ℕ
      → List (Bytes × List ℕ) × List ℕ
  create_from now heap [] network healthy_nodes = (network, healthy_nodes)
  create_from now heap (r ∷ nodes) network healthy_nodes =
      create_from now heap nodes (insert_into (key_at heap r) r network)
        (if healthy_at now heap r then healthy_nodes ++ r ∷ [] else healthy_nodes)

  unfoldable pub create_network_from_nodes :
      ℤ → Heap Key Channel Book → List ℕ → List (Bytes × List ℕ) × List ℕ
  unfolding create_from
  create_network_from_nodes now heap nodes = create_from now heap nodes [] []

  -- The nodes, grouped anew, as `_SetNetwork` and `_SetTransportSecurity` store them.
  unfoldable pub with_nodes :
      ℤ
      → Heap Key Channel Book
      → List ℕ
      → ManagedNetwork Key Channel Book
      → ManagedNetwork Key Channel Book
  unfolding create_network_from_nodes
  with_nodes now heap nodes this =
      let created = create_network_from_nodes now heap nodes in
      record this { heap = heap; nodes = nodes; network = created.0; healthy_nodes = created.1 }

  unfoldable pub get_nodes_to_remove : List (Bytes × ℕ) → Heap Key Channel Book → List ℕ → List ℕ
  unfolding indices_to_remove
  get_nodes_to_remove network heap nodes =
      indices_to_remove (λ r. is_some (lookup (key_at heap r) network)) 0 nodes

  -- The first loop of `_SetNetwork`: close the node at each index and take it out.
  unfoldable pub remove_nodes :
      List ℕ → List ℕ → Heap Key Channel Book → Heap Key Channel Book × Outcome (List ℕ)
  remove_nodes [] nodes heap = (heap, ok nodes)
  remove_nodes (i ∷ indices) nodes heap =
      let r = node_at i nodes in
      let (closed, outcome) = close_node host (heap.node r) in
      let rest = remove_nodes indices (remove_at i nodes) (write r closed heap) in
      elim outcome [
        | ok _ ↦ rest
        | err e ↦ (write r closed heap, err e)
        | panic p ↦ (write r closed heap, panic p)
      ]

  -- The last loop of `_SetNetwork`: the new nodes whose key or address is not among the kept ones.
  unfoldable pub add_nodes : Heap Key Channel Book → List ℕ → List (Bytes × ℕ) → List ℕ → List ℕ
  add_nodes heap kept [] new_nodes = new_nodes
  add_nodes heap kept ((key, value) ∷ entries) new_nodes = add_nodes heap kept entries (
      if any_of (λ r. bytes_eq (key_at heap r) key) kept
        && any_of (λ r. bytes_eq (address_at heap r) (address_at heap value)) kept
      then new_nodes
      else new_nodes ++ value ∷ [])

  -- What `_SetNetwork` stores behind its first loop.
  unfoldable pub store_nodes :
      ℤ
      → List (Bytes × ℕ)
      → ManagedNetwork Key Channel Book
      → Heap Key Channel Book × Outcome (List ℕ)
      → ManagedNetwork Key Channel Book × Outcome (Unit {0})
  unfolding add_nodes with_nodes
  store_nodes now network this (heap, err e) = (record this { heap = heap }, err e)
  store_nodes now network this (heap, panic p) = (record this { heap = heap }, panic p)
  store_nodes now network this (heap, ok kept) = (
    record (with_nodes now heap (add_nodes heap kept network kept) this) { ledger_id = none },
    ok tt,
  )

  -- `_ManagedNetwork._SetNetwork`
  unfoldable pub managed_set_network :
      ℤ
      → List (Bytes × ℕ)
      → ManagedNetwork Key Channel Book
      → ManagedNetwork Key Channel Book × Outcome (Unit {0})
  unfolding get_nodes_to_remove remove_nodes store_nodes
  managed_set_network now network this =
      store_nodes now network this
        (remove_nodes (get_nodes_to_remove network this.heap this.nodes) this.nodes this.heap)

  -- `_Close`: the healthy nodes up to the first that fails to close.
  unfoldable pub close_all :
      List ℕ → Heap Key Channel Book → Heap Key Channel Book × Outcome (Unit {0})
  close_all [] heap = (heap, ok tt)
  close_all (r ∷ nodes) heap =
      let (closed, outcome) = close_node host (heap.node r) in
      let rest = close_all nodes (write r closed heap) in
      elim outcome [
        | ok _ ↦ rest
        | err e ↦ (write r closed heap, err e)
        | panic p ↦ (write r closed heap, panic p)
      ]

  -- `_ManagedNetwork._SetTransportSecurity`
  unfoldable pub managed_set_transport_security :
      ℤ
      → Bool
      → ManagedNetwork Key Channel Book
      → ManagedNetwork Key Channel Book × Outcome (Unit {0})
  unfolding close_all copy_nodes with_nodes
  managed_set_transport_security now secure this =
      let (heap, outcome) = close_all this.healthy_nodes this.heap in
      let (later, copies) = copy_nodes secure this.nodes heap in
      if same_flag this.transport_security secure
      then (record this { transport_security = secure }, ok tt)
      else elim outcome [
        | err e ↦ (record this { heap = heap }, err e)
        | panic p ↦ (record this { heap = heap }, panic p)
        | ok _ ↦ (record (with_nodes now later copies this) { transport_security = secure }, ok tt)
      ]
