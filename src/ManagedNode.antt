-- ===== src/ManagedNode.antt =====
-- managed_node.go: the health and the backoff of one node. A duration or a count is an int64, whose
-- sums wrap around; an instant is the number of its nanoseconds; `time.Now()` is an argument.
pub mod Backoff
mod Examples
use hedera_sdk_go.Prelude.{ℕ, ◌-◌, ◌/◌, ◌^◌, Bool, true, suc, [], Option, none, some, if◌then◌else◌}
use hedera_sdk_go.Prelude.Int.{ℤ, pos, negsuc, to_uint64, to_int64, ◌+ℤ◌, neg, ltb_ℤ, eq_ℤ}
use hedera_sdk_go.Prelude.Outcome.{Outcome, ok, panic, nil_pointer, ◌>>=◌}
use hedera_sdk_go.Prelude.Text.{Bytes}
use hedera_sdk_go.ManagedNodeAddress.{ManagedNodeAddress, address_from_string, address_string}

-- int64 addition.
abbrev pub add_int64 : ℤ → ℤ → ℤ
add_int64 a b = to_int64 (to_uint64 (a +ℤ b))

-- `a / 2` on int64, which cuts towards zero.
abbrev pub half_int64 : ℤ → ℤ
half_int64 (pos n) = pos (n / 2)
half_int64 (negsuc n) = neg (pos (suc n / 2))

abbrev pub second : ℕ
second = 1000000000

abbrev pub hour : ℕ
hour = 3600000000000

pub record ManagedNode : Type 0 where
  pub address : Option ManagedNodeAddress
  pub current_backoff : ℤ
  pub last_used : ℤ
  pub use_count : ℤ
  pub min_backoff : ℤ
  pub max_backoff : ℤ
  pub bad_grpc_status_count : ℤ
  pub readmit_time : Option ℤ

unfoldable pub get_address : ManagedNode → Bytes
get_address node = elim node.address [ none ↦ [] | some a ↦ address_string a ]

unfoldable pub new_managed_node : ℤ → Bytes → ℤ → Outcome ManagedNode
new_managed_node now address min_backoff = do
  a ← address_from_string address
  ok (record {
    address = some a;
    current_backoff = min_backoff;
    last_used = now;
    use_count = pos 0;
    min_backoff = min_backoff;
    max_backoff = pos hour;
    bad_grpc_status_count = pos 0;
    readmit_time = none;
  })

-- The guarded assignment assigns the node's own old minimum.
unfoldable pub set_min_backoff : ℤ → ManagedNode → ManagedNode
set_min_backoff d node = record node {
  current_backoff =
      if eq_ℤ node.current_backoff node.min_backoff then node.min_backoff else node.current_backoff;
  min_backoff = d;
}

unfoldable pub set_max_backoff : ℤ → ManagedNode → ManagedNode
set_max_backoff d node = record node { max_backoff = d }

unfoldable pub in_use : ℤ → ManagedNode → ManagedNode
in_use now node = record node { use_count = add_int64 node.use_count (pos 1); last_used = now }

unfoldable pub is_healthy : ℤ → ManagedNode → Bool
is_healthy now node = elim node.readmit_time [ none ↦ true | some t ↦ ltb_ℤ t now ]

-- `currentBackoff *= 2`, cut to the maximum.
abbrev pub doubled : ManagedNode → ℤ
doubled node =
    let d = add_int64 node.current_backoff node.current_backoff in
    if ltb_ℤ node.max_backoff d then node.max_backoff else d

unfoldable pub increase_backoff : ℤ → ManagedNode → ManagedNode
increase_backoff now node = record node {
  bad_grpc_status_count = add_int64 node.bad_grpc_status_count (pos 1);
  current_backoff = doubled node;
  readmit_time = some (now +ℤ doubled node);
}

unfoldable pub decrease_backoff : ManagedNode → ManagedNode
decrease_backoff node = record node {
  current_backoff =
      let d = half_int64 node.current_backoff in
      if ltb_ℤ d node.min_backoff then node.min_backoff else d;
}

-- `Time.Sub`, which stops at the ends of int64.
abbrev pub sub_time : ℤ → ℤ → ℤ
sub_time a b =
    let d = a +ℤ neg b in
    if ltb_ℤ (pos (2 ^ 63 - 1)) d
    then pos (2 ^ 63 - 1)
    else if ltb_ℤ d (negsuc (2 ^ 63 - 1))
    then negsuc (2 ^ 63 - 1)
    else d

unfoldable pub wait : ManagedNode → Outcome ℤ
wait node = elim node.readmit_time [
  | none ↦ panic nil_pointer
  | some t ↦ ok (sub_time t node.last_used)
]
