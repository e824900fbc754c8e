-- ===== src/Transaction/Examples.antt =====
-- A transaction of transaction.go for two nodes; node ids, transaction ids and contents are numbers.
use hedera_sdk_go.Prelude.{
  if◌then◌else◌, List, Option, ℕ, ◌≡◌, ◌++◌, refl, true, false, [], ◌∷◌, none, some, arith, map,
  ◌==◌,
}
use hedera_sdk_go.Prelude.Outcome.{ok, ◌>>=◌}
use hedera_sdk_go.Prelude.Int.{pos}
use hedera_sdk_go.LockableSlice.{get_current, get, set_locked}
use hedera_sdk_go.Transaction.{
  PublicKey, ecdsa_key, Body, Transaction, ed25519_key, is_frozen, transaction_freeze_with,
  set_node_account_ids,
}
use hedera_sdk_go.Prelude.Text.{Bytes}
use hedera_sdk_go.Transaction.Signatures.{get_signatures}
use hedera_sdk_go.Transaction.Signatures.Laws.{pairs_of, get_signatures-ed25519_only}
use hedera_sdk_go.Transaction.Signing.{sign_transaction}
use hedera_sdk_go.Transaction.Signing.Laws.{
  HasSigned, unsigned, stored, signatures, sign_transaction-stored,
}
use hedera_sdk_go.Transaction.Reading.{Reader, all_like, read_keys, transaction_from_bytes}
use hedera_sdk_go.Transaction.Reading.Laws.{transaction_from_bytes-one_id}
use hedera_sdk_go.Transaction.Building.{build_transaction}
use hedera_sdk_go.Transaction.Building.Laws.{
  IsPinned, signed_for, build_transaction-behind, build_transaction-first,
}
use hedera_sdk_go.Transaction.Freezing.{unsigned_for, freeze_with-set_node_account_ids}

abbrev body_for : ℕ → Body ℕ ℕ ℕ
body_for n = record { node_account_id = some n; transaction_id = some 100; content = 7 }

abbrev two_nodes : Transaction ℕ ℕ ℕ
two_nodes = record {
  max_retry = pos 10;
  transaction_fee = 0;
  memo = [];
  transaction_valid_duration = none;
  transaction_ids = record { slice = some 100 ∷ []; locked = true; index = 0 };
  transactions = record { slice = []; locked = false; index = 0 };
  signed_transactions = record {
    slice = some (unsigned (body_for 3)) ∷ some (unsigned (body_for 4)) ∷ [];
    locked = false;
    index = 0;
  };
  node_account_ids = record { slice = some 3 ∷ some 4 ∷ []; locked = true; index = 1 };
  public_keys = ed25519_key (1 ∷ []) ∷ [];
  transaction_signers = some (λ body. 9 ∷ []) ∷ [];
  is_freeze_error = false;
  max_backoff = none;
  min_backoff = none;
  regenerate_transaction_id = true;
  grpc_deadline = none;
}

abbrev open_transaction : Transaction ℕ ℕ ℕ
open_transaction = record two_nodes {
  node_account_ids = record { slice = []; locked = false; index = 0 };
  signed_transactions = record { slice = []; locked = false; index = 0 };
}

has_current_id : get_current two_nodes.transaction_ids ≡ ok (some 100)
unfolding get_current get
has_current_id = refl

two_nodes-IsPinned_behind : IsPinned 1 (body_for 4) 100 two_nodes
two_nodes-IsPinned_behind = record {
  nodes_locked = refl;
  signed_unlocked = refl;
  signed_at_start = refl;
  has_old = refl;
  old_node = (4, refl);
  has_id = has_current_id;
  one_signer_each = refl;
}

two_nodes-IsPinned_first : IsPinned 0 (body_for 3) 100 two_nodes
two_nodes-IsPinned_first = record {
  nodes_locked = refl;
  signed_unlocked = refl;
  signed_at_start = refl;
  has_old = refl;
  old_node = (3, refl);
  has_id = has_current_id;
  one_signer_each = refl;
}

build_transaction-behind_example :
    (after : Transaction ℕ ℕ ℕ) × (build_transaction 1 two_nodes
      ≡ ok (after, record { signed_transaction_bytes = some (unsigned (body_for 3)) }))
    × HasSigned 1 (signed_for (body_for 4) 100 two_nodes) after
build_transaction-behind_example =
    build_transaction-behind 1 (body_for 4) 100 two_nodes (unsigned (body_for 3))
      two_nodes-IsPinned_behind refl refl (omega arith)

build_transaction-first_example :
    (after : Transaction ℕ ℕ ℕ) × (build_transaction 0 two_nodes
      ≡ ok (
        after,
        record { signed_transaction_bytes = some (signed_for (body_for 3) 100 two_nodes) },
      ))
    × HasSigned 0 (signed_for (body_for 3) 100 two_nodes) after
build_transaction-first_example =
    build_transaction-first (body_for 3) 100 two_nodes two_nodes-IsPinned_first refl

freeze_with-set_node_account_ids_example :
    (after : Transaction ℕ ℕ ℕ) × ((set_node_account_ids (3 ∷ 4 ∷ []) open_transaction
        >>= transaction_freeze_with none (body_for 0))
      ≡ ok after)
    × (after.node_account_ids.slice ≡ map some (3 ∷ 4 ∷ []))
    × (after.node_account_ids.locked ≡ true)
    × (after.signed_transactions.slice ≡ [] ++ map (unsigned_for (body_for 0)) (3 ∷ 4 ∷ []))
    × (is_frozen after ≡ true)
freeze_with-set_node_account_ids_example =
    freeze_with-set_node_account_ids none (body_for 0) 3 (4 ∷ []) open_transaction refl refl refl

sign_transaction-stored_example :
    sign_transaction 1 (stored 1 (unsigned (body_for 4)) two_nodes)
    ≡ ok (
        stored 1
          (record {
            body = body_for 4;
            sig_pairs = signatures two_nodes.public_keys two_nodes.transaction_signers (body_for 4);
          })
          two_nodes)
sign_transaction-stored_example =
    sign_transaction-stored 1 (body_for 4) two_nodes refl (omega arith) refl

-- Numbers that are compared as such, and keys that are read as ed25519.
abbrev plain_reader : Reader ℕ ℕ ℕ
plain_reader = record {
  same_id = ◌==◌;
  same_node = ◌==◌;
  same_content = ◌==◌;
  zero_id = 0;
  zero_node = 0;
  public_key_from_bytes = λ key. some (ed25519_key key);
}

all_alike : all_like plain_reader 7 (unsigned (body_for 4) ∷ []) ≡ true
unfolding all_like
all_alike = refl

no_keys : read_keys plain_reader [] ≡ ok []
unfolding read_keys
no_keys = refl

transaction_from_bytes-one_id_example :
    (t : Transaction ℕ ℕ ℕ) × (transaction_from_bytes plain_reader
        (unsigned (body_for 3) ∷ unsigned (body_for 4) ∷ [])
      ≡ ok t)
    × (t.transaction_ids.slice ≡ some 100 ∷ [])
    × (t.node_account_ids.slice ≡ some 3 ∷ [])
    × (t.signed_transactions.slice ≡ map some (unsigned (body_for 3) ∷ unsigned (body_for 4) ∷ []))
transaction_from_bytes-one_id_example =
    transaction_from_bytes-one_id plain_reader (unsigned (body_for 3)) (unsigned (body_for 4) ∷ [])
      [] (refl, tt) all_alike no_keys

-- A key of each kind with a signature.
abbrev two_signatures : List (PublicKey × Bytes)
two_signatures = (ed25519_key (1 ∷ []), 9 ∷ []) ∷ (ecdsa_key (2 ∷ []), 8 ∷ []) ∷ []

abbrev signed_twice : Transaction ℕ ℕ ℕ
signed_twice = record two_nodes {
  node_account_ids = record { slice = some 3 ∷ []; locked = true; index = 0 };
  signed_transactions = record {
    slice = some (record { body = body_for 3; sig_pairs = pairs_of two_signatures }) ∷ [];
    locked = false;
    index = 0;
  };
}

-- Keys whose first byte is 2 are ECDSA keys.
abbrev read_key : Bytes → Option PublicKey
read_key [] = none
read_key (c ∷ s) = if c == 2 then some (ecdsa_key (c ∷ s)) else some (ed25519_key (c ∷ s))

get_signatures-ed25519_only_example :
    get_signatures read_key signed_twice
    ≡ ok (
      record signed_twice { transaction_ids = set_locked true signed_twice.transaction_ids },
      (some 3, (ed25519_key (1 ∷ []), 9 ∷ []) ∷ []) ∷ [],
    )
get_signatures-ed25519_only_example =
    get_signatures-ed25519_only read_key 3 (body_for 3) two_signatures signed_twice refl refl
      (refl, (refl, tt))
