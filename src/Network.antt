-- ===== src/Network.antt =====
-- network.go: the network of a client, its nodes by account id and their health. Methods that only
-- pass a call on are the functions of ManagedNetwork.
pub mod Contents
pub mod Backoff
mod Examples
use hedera_sdk_go.Prelude.{
  ℕ, zero, suc, Bool, List, [], ◌∷◌, Option, none, some, ◌==◌, if◌then◌else◌, length, get_elem?,
}
use hedera_sdk_go.Prelude.Int.{ℤ, pos_part}
use hedera_sdk_go.Prelude.Outcome.{Outcome, ok, err, panic, out_of_range, ◌>>=◌}
use hedera_sdk_go.Prelude.Text.{Bytes, bytes_eq}
use hedera_sdk_go.LedgerId.{LedgerId}
use hedera_sdk_go.AccountId.{AccountId, to_string}
use hedera_sdk_go.ManagedNode.{increase_backoff}
use hedera_sdk_go.Node.{Host, Heap, write, allocate, new_node}
use hedera_sdk_go.ManagedNetwork.{
  ManagedNetwork, lookup, readmit_nodes, number_of_nodes, update_all, new_managed_network,
}
use hedera_sdk_go.ManagedNetwork.Replace.{
  remove_at, address_at, managed_set_network, managed_set_transport_security,
}

pub record Network (Key Channel Book : Type 0) : Type 0 where
  pub managed : ManagedNetwork Key Channel Book
  pub address_book : Option (AccountId Key → Book)

-- The place of a pointer in a list, 0 where it is missing, as `_IncreaseBackoff` looks for it.
unfoldable pub index_or_zero : ℕ → ℕ → List ℕ → ℕ
index_or_zero r i [] = 0
index_or_zero r i (q ∷ nodes) = if r == q then i else index_or_zero r (suc i) nodes

-- `temp[key] = value`
abbrev pub put {ℓ} : {A : Type ℓ} → Bytes → A → List (Bytes × A) → List (Bytes × A)
put key a [] = (key, a) ∷ []
put key a ((k, b) ∷ entries) =
    let rest = put key a entries in if bytes_eq k key then (k, a) ∷ entries else (k, b) ∷ rest

module _ {Key Channel Book : Type 0} where
  unfoldable pub new_network : Heap Key Channel Book → Network Key Channel Book
  new_network heap = record { managed = new_managed_network heap; address_book = none }

  -- The loop of `SetNetwork` that makes a node of each entry.
  unfoldable pub make_nodes :
      ℤ
      → ℤ
      → List (Bytes × AccountId Key)
      → Heap Key Channel Book
      → Heap Key Channel Book × Outcome (List (Bytes × ℕ))
  make_nodes now min_backoff [] heap = (heap, ok [])
  make_nodes now min_backoff ((url, id) ∷ net) heap = elim (new_node now id url min_backoff) [
    | err e ↦ (heap, err e)
    | panic p ↦ (heap, panic p)
    | ok n ↦
        let (later, outcome) = make_nodes now min_backoff net (allocate n heap) in
        (later, outcome >>= λ entries. ok ((url, heap.next) ∷ entries))
  ]

  -- `_IncreaseBackoff`: the node is taken out of the healthy ones, or the first of them where it is
  -- not among them; slicing an empty list panics.
  unfoldable pub network_increase_backoff :
      ℤ → ℕ → Network Key Channel Book → Network Key Channel Book × Outcome (Unit {0})
  unfolding index_or_zero
  network_increase_backoff now r this =
      let n = this.managed.heap.node r in
      let healthy = this.managed.healthy_nodes in
      let managed = record this.managed {
        heap = write r (record n { managed = increase_backoff now n.managed }) this.managed.heap;
      } in
      if length healthy == 0 then (record this { managed = managed }, panic out_of_range) else (
        record this {
          managed = record managed {
            healthy_nodes = remove_at (index_or_zero r 0 healthy) healthy;
          };
        },
        ok tt,
      )

  -- The entries of the address book, given to each node.
  abbrev pub give_books :
      (AccountId Key → Book) → List ℕ → Heap Key Channel Book → Heap Key Channel Book
  give_books book = update_all (λ n. record n { address_book = some (book n.account_id) })

  abbrev pub give_books_to_groups :
      (AccountId Key → Book) → List (Bytes × List ℕ) → Heap Key Channel Book → Heap Key Channel Book
  give_books_to_groups book [] heap = heap
  give_books_to_groups book ((_, nodes) ∷ network) heap =
      give_books_to_groups book network (give_books book nodes heap)

  -- `_SetLedgerID`; `book_of` gives the address book of a known ledger.
  unfoldable pub set_ledger_id :
      (LedgerId → Option (AccountId Key → Book))
      → LedgerId
      → Network Key Channel Book
      → Network Key Channel Book
  set_ledger_id book_of id this =
      let managed = record this.managed { ledger_id = some id } in
      if managed.transport_security
      then (let book : Option (AccountId Key → Book) = elim (book_of id) [
        | none ↦ this.address_book
        | some b ↦ some b
      ] in
          elim book [
            | none ↦ record { managed = managed; address_book = none }
            | some b ↦ record {
              managed = record managed {
                heap =
                    give_books_to_groups b managed.network
                      (give_books b managed.nodes managed.heap);
              };
              address_book = some b;
            }
          ])
      else record this { managed = managed }

  -- `_GetNodeAccountIDsForExecute`: the healthy nodes from index i on, `fuel` of them; the clock
  -- gives the time of each call of `_ReadmitNodes`.
  unfoldable pub account_ids_from :
      (ℕ → ℤ)
      → ℕ
      → ℕ
      → Network Key Channel Book
      → Network Key Channel Book × Outcome (List (AccountId Key))
  account_ids_from clock i zero this =
      (record this { managed = readmit_nodes (clock i) this.managed }, ok [])
  account_ids_from clock i (suc fuel) this =
      let next = record this { managed = readmit_nodes (clock i) this.managed } in
      let (later, outcome) = account_ids_from clock (suc i) fuel next in
      elim (get_elem? next.managed.healthy_nodes i) [
        | none ↦ (next, panic out_of_range)
        | some r ↦ (later, outcome >>= λ ids. ok ((next.managed.heap.node r).account_id ∷ ids))
      ]

  unfoldable pub get_node_account_ids_for_execute :
      (ℕ → ℤ) → Network Key Channel Book → Network Key Channel Book × Outcome (List (AccountId Key))
  unfolding account_ids_from
  get_node_account_ids_for_execute clock this =
      account_ids_from clock 0 (pos_part (number_of_nodes this.managed)) this

module _ {Key Channel Book : Type 0} (host : Host Key Channel) where
  -- `SetNetwork`: the nodes stand under their urls, `_ManagedNetwork._SetNetwork` looks for keys.
  unfoldable pub set_network :
      ℤ
      → List (Bytes × AccountId Key)
      → Network Key Channel Book
      → Network Key Channel Book × Outcome (Unit {0})
  unfolding make_nodes
  set_network now net this =
      let (heap, outcome) = make_nodes now this.managed.min_backoff net this.managed.heap in
      elim outcome [
        | err e ↦ (record this { managed = record this.managed { heap = heap } }, err e)
        | panic p ↦ (record this { managed = record this.managed { heap = heap } }, panic p)
        | ok network ↦
            let (managed, result) =
              managed_set_network host now network (record this.managed { heap = heap }) in
            (record this { managed = managed }, result)
      ]

  unfoldable pub network_from :
      Heap Key Channel Book → List ℕ → List (Bytes × AccountId Key) → List (Bytes × AccountId Key)
  network_from heap [] temp = temp
  network_from heap (r ∷ nodes) temp =
      network_from heap nodes (put (address_at host heap r) (heap.node r).account_id temp)

  -- `_GetNetwork`
  unfoldable pub get_network : Network Key Channel Book → List (Bytes × AccountId Key)
  unfolding network_from
  get_network this = network_from this.managed.heap this.managed.nodes []

  -- `node[0]` stands in front of the test of `ok`, so a missing account id panics.
  unfoldable pub get_node_for_account_id : AccountId Key → Network Key Channel Book → Outcome ℕ
  get_node_for_account_id id this =
      elim (lookup (to_string host.key_string id) this.managed.network) [
        | none ↦ panic out_of_range
        | some [] ↦ panic out_of_range
        | some (r ∷ _) ↦ ok r
      ]

  unfoldable pub set_transport_security :
      ℤ → Bool → Network Key Channel Book → Network Key Channel Book
  set_transport_security now secure this = record this {
    managed = (managed_set_transport_security host now secure this.managed).0;
  }
