-- ===== src/Node.antt =====
-- node.go: a node of the network with its account, connection and address book entry. Dialling a
-- connection (`_GetChannel`) is not modelled; the methods that pass a call on to the managed node
-- are the functions of ManagedNode. Nodes are shared by pointer, so they stand in a heap.
pub mod Transport
use hedera_sdk_go.Prelude.{ℕ, suc, Bool, true, Option, none, some, ◌==◌, if◌then◌else◌}
use hedera_sdk_go.Prelude.Int.{ℤ, pos}
use hedera_sdk_go.Prelude.Outcome.{Outcome, ok, ◌>>=◌}
use hedera_sdk_go.Prelude.Text.{Bytes}
use hedera_sdk_go.ManagedNodeAddress.{to_secure, to_insecure}
use hedera_sdk_go.ManagedNode.{ManagedNode, new_managed_node}
use hedera_sdk_go.AccountId.{AccountId, to_string}

-- What the libraries under the SDK give: the text of a public key, and closing a grpc connection.
pub record Host (Key Channel : Type 0) : Type 0 where
  pub key_string : Key → Bytes
  pub close_channel : Channel → Outcome (Unit {0})

pub record Node (Key Channel Book : Type 0) : Type 0 where
  pub managed : ManagedNode
  pub account_id : AccountId Key
  pub channel : Option Channel
  pub address_book : Option Book
  pub verify_certificate : Bool

-- The nodes that pointers refer to; `next` is the first pointer not in use.
pub record Heap (Key Channel Book : Type 0) : Type 0 where
  pub node : ℕ → Node Key Channel Book
  pub next : ℕ

module _ {Key Channel Book : Type 0} where
  -- A write through a pointer.
  abbrev pub write : ℕ → Node Key Channel Book → Heap Key Channel Book → Heap Key Channel Book
  write r n heap = record heap { node = λ q. if q == r then n else heap.node q }

  -- `&_Node{...}`
  abbrev pub allocate : Node Key Channel Book → Heap Key Channel Book → Heap Key Channel Book
  allocate n heap = record {
    node = λ q. if q == heap.next then n else heap.node q;
    next = suc heap.next;
  }

  unfoldable pub new_node : ℤ → AccountId Key → Bytes → ℤ → Outcome (Node Key Channel Book)
  new_node now account_id address min_backoff = do
    managed ← new_managed_node now address min_backoff
    ok (record {
      managed = managed;
      account_id = account_id;
      channel = none;
      address_book = none;
      verify_certificate = true;
    })

  -- `_ToSecure` and `_ToInsecure` copy the managed node but for its maximal backoff, which is 0 in
  -- the copy; a nil address would panic in both, and no node has one.
  unfoldable pub node_with_transport : Bool → Node Key Channel Book → Node Key Channel Book
  node_with_transport secure n = record n {
    managed = record n.managed {
      address = elim n.managed.address [
        | none ↦ none
        | some a ↦ some (if secure then to_secure a else to_insecure a)
      ];
      max_backoff = pos 0;
    };
  }

module _ {Key Channel Book : Type 0} (host : Host Key Channel) where
  unfoldable pub get_key : Node Key Channel Book → Bytes
  get_key n = to_string host.key_string n.account_id

  -- `_Close`: the connection is dropped also where closing it fails.
  unfoldable pub close_node : Node Key Channel Book → Node Key Channel Book × Outcome (Unit {0})
  close_node n = elim n.channel [
    | none ↦ (n, ok tt)
    | some c ↦ (record n { channel = none }, host.close_channel c)
  ]
