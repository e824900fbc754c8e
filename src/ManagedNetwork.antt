-- ===== src/ManagedNetwork.antt =====
-- managed_network.go: the nodes of a network, by reference into a heap, and those of them that are
-- taken for healthy. A Go map is a list of entries in the order in which it is walked through, and
-- a method returns the network, also where it returns an error.
pub mod Groups
pub mod Health
pub mod Replace
use hedera_sdk_go.Prelude.{
  ℕ, ◌+◌, ◌-◌, ◌*◌, ◌/◌, Bool, true, false, List, [], ◌∷◌, ◌++◌, Option, none, some, ◌==◌,
  if◌then◌else◌, length, get_elem?,
}
use hedera_sdk_go.Prelude.Int.{ℤ, pos, negsuc, ltb_ℤ, ◌+ℤ◌}
use hedera_sdk_go.Prelude.Outcome.{Outcome, ok, panic, no_healthy_node, out_of_range, ◌>>=◌}
use hedera_sdk_go.Prelude.Text.{Bytes, bytes_eq}
use hedera_sdk_go.LedgerId.{LedgerId}
use hedera_sdk_go.ManagedNode.{is_healthy, set_min_backoff, set_max_backoff, second, hour}
use hedera_sdk_go.Node.{Node, Heap, write}

-- A map, in the order of a walk through it.
abbrev pub lookup {ℓ} : {A : Type ℓ} → Bytes → List (Bytes × A) → Option A
lookup key [] = none
lookup key ((k, a) ∷ entries) = if bytes_eq k key then some a else lookup key entries

-- `network[key] = append(network[key], item)`
unfoldable pub insert_into {ℓ} :
    {A : Type ℓ} → Bytes → A → List (Bytes × List A) → List (Bytes × List A)
insert_into key a [] = (key, a ∷ []) ∷ []
insert_into key a ((k, items) ∷ entries) =
    let rest = insert_into key a entries in
    if bytes_eq k key then (k, items ++ a ∷ []) ∷ entries else (k, items) ∷ rest

-- Whether some item passes the test.
abbrev pub any_of {ℓ} : {A : Type ℓ} → (A → Bool) → List A → Bool
any_of p [] = false
any_of p (a ∷ items) = if p a then true else any_of p items

abbrev pub keep {ℓ} : {A : Type ℓ} → (A → Bool) → List A → List A
keep p [] = []
keep p (a ∷ items) = if p a then a ∷ keep p items else keep p items

-- The second loop of `_ReadmitNodes`: a node that is not in the list of the healthy ones and is
-- healthy joins it. The first loop computes a time that is not kept.
unfoldable pub readmit : (ℕ → Bool) → List ℕ → List ℕ → List ℕ
readmit healthy [] healthy_nodes = healthy_nodes
readmit healthy (r ∷ nodes) healthy_nodes = readmit healthy nodes (
    if any_of (λ q. r == q) healthy_nodes
    then healthy_nodes
    else if healthy r
    then healthy_nodes ++ r ∷ []
    else healthy_nodes)

pub record ManagedNetwork (Key Channel Book : Type 0) : Type 0 where
  pub heap : Heap Key Channel Book
  pub network : List (Bytes × List ℕ)
  pub nodes : List ℕ
  pub healthy_nodes : List ℕ
  pub max_node_attempts : ℤ
  pub min_backoff : ℤ
  pub max_backoff : ℤ
  pub max_nodes_per_transaction : Option ℤ
  pub ledger_id : Option LedgerId
  pub transport_security : Bool
  pub verify_certificate : Bool
  pub min_node_readmit_period : ℤ
  pub max_node_readmit_period : ℤ
  pub earliest_readmit_time : ℤ

module _ {Key Channel Book : Type 0} where
  unfoldable pub new_managed_network : Heap Key Channel Book → ManagedNetwork Key Channel Book
  new_managed_network heap = record {
    heap = heap;
    network = [];
    nodes = [];
    healthy_nodes = [];
    max_node_attempts = negsuc 0;
    min_backoff = pos (8 * second);
    max_backoff = pos hour;
    max_nodes_per_transaction = none;
    ledger_id = none;
    transport_security = false;
    verify_certificate = false;
    min_node_readmit_period = pos (8 * second);
    max_node_readmit_period = pos hour;
    earliest_readmit_time = pos 0;
  }

  -- `_IsHealthy` of the node that a pointer refers to.
  abbrev pub healthy_at : ℤ → Heap Key Channel Book → ℕ → Bool
  healthy_at now heap r = is_healthy now (heap.node r).managed

  unfoldable pub readmit_nodes :
      ℤ → ManagedNetwork Key Channel Book → ManagedNetwork Key Channel Book
  unfolding readmit
  readmit_nodes now this = record this {
    healthy_nodes = readmit (healthy_at now this.heap) this.nodes this.healthy_nodes;
  }

  -- `_GetNumberOfNodesForTransaction`, behind the readmission. The numbers that the source compares
  -- as floats are small.
  unfoldable pub number_of_nodes : ManagedNetwork Key Channel Book → ℤ
  number_of_nodes this = elim this.max_nodes_per_transaction [
    | some max ↦ if ltb_ℤ max (pos (length this.network)) then max else pos (length this.network)
    | none ↦ pos ((length this.network + 3 - 1) / 3)
  ]

  unfoldable pub set_max_nodes_per_transaction :
      ℤ → ManagedNetwork Key Channel Book → ManagedNetwork Key Channel Book
  set_max_nodes_per_transaction max this = record this { max_nodes_per_transaction = some max }

  unfoldable pub set_max_node_attempts :
      ℤ → ManagedNetwork Key Channel Book → ManagedNetwork Key Channel Book
  set_max_node_attempts max this = record this { max_node_attempts = max }

  unfoldable pub set_min_node_readmit_period :
      ℤ → ℤ → ManagedNetwork Key Channel Book → ManagedNetwork Key Channel Book
  set_min_node_readmit_period now min this = record this {
    min_node_readmit_period = min;
    earliest_readmit_time = now +ℤ min;
  }

  unfoldable pub set_max_node_readmit_period :
      ℤ → ManagedNetwork Key Channel Book → ManagedNetwork Key Channel Book
  set_max_node_readmit_period max this = record this { max_node_readmit_period = max }

  -- A loop that updates the node of each pointer.
  unfoldable pub update_all :
      (Node Key Channel Book → Node Key Channel Book)
      → List ℕ
      → Heap Key Channel Book
      → Heap Key Channel Book
  update_all f [] heap = heap
  update_all f (r ∷ nodes) heap = update_all f nodes (write r (f (heap.node r)) heap)

  unfoldable pub network_set_min_backoff :
      ℤ → ManagedNetwork Key Channel Book → ManagedNetwork Key Channel Book
  unfolding update_all
  network_set_min_backoff d this = record this {
    min_backoff = d;
    heap =
        update_all (λ n. record n { managed = set_min_backoff d n.managed }) this.healthy_nodes
          this.heap;
  }

  unfoldable pub network_set_max_backoff :
      ℤ → ManagedNetwork Key Channel Book → ManagedNetwork Key Channel Book
  unfolding update_all
  network_set_max_backoff d this = record this {
    max_backoff = d;
    heap =
        update_all (λ n. record n { managed = set_max_backoff d n.managed }) this.healthy_nodes
          this.heap;
  }

  -- `_GetNode`, with the index that `rand.Int` draws, for a number of healthy nodes, as an argument.
  unfoldable pub get_node :
      ℤ → (ℕ → ℕ) → ManagedNetwork Key Channel Book → ManagedNetwork Key Channel Book × Outcome ℕ
  unfolding readmit_nodes
  get_node now draw this =
      let next = readmit_nodes now this in
      let healthy = next.healthy_nodes in
      (
        next,
        (if length healthy == 0
            then panic no_healthy_node
            else elim (get_elem? healthy (draw (length healthy))) [
              | none ↦ panic out_of_range
              | some r ↦ ok r
            ]),
      )

  unfoldable pub network_set_ledger_id :
      LedgerId → ManagedNetwork Key Channel Book → ManagedNetwork Key Channel Book
  network_set_ledger_id id this = record this { ledger_id = some id }

  unfoldable pub network_set_verify_certificate :
      Bool → ManagedNetwork Key Channel Book → ManagedNetwork Key Channel Book
  unfolding update_all
  network_set_verify_certificate verify this = record this {
    heap = update_all (λ n. record n { verify_certificate = verify }) this.nodes this.heap;
    verify_certificate = verify;
  }
