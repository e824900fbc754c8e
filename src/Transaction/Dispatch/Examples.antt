-- ===== src/Transaction/Dispatch/Examples.antt =====
-- A transfer of transaction.go and calls on it; node ids, transaction ids and contents are numbers.
use hedera_sdk_go.Prelude.{ℕ, ◌≡◌, ◌||◌, ◌==◌, refl, true, false, List, [], ◌∷◌, none, some, arith}
use hedera_sdk_go.Prelude.Int.{pos}
use hedera_sdk_go.Prelude.Outcome.{ok}
use hedera_sdk_go.LockableSlice
use hedera_sdk_go.LockableSlice.{LockableSlice, get, set}
use hedera_sdk_go.Transaction.{
  SignedTransaction, PublicKey, is_frozen, ed25519_key, to_signature_pair,
}
use hedera_sdk_go.Transaction.Methods.{key_eq, add_signature, add_pairs}
use hedera_sdk_go.Transaction.Reading.{Reader}
use hedera_sdk_go.Transaction.Dispatch.{
  Kind, AnyTransaction, is_common, transaction_sign_with, transaction_add_signature,
  transaction_set_transaction_memo,
}
use hedera_sdk_go.Transaction.Dispatch.Read.{crypto_transfer, read_transaction}
use hedera_sdk_go.Transaction.Dispatch.Calls.{
  Call, signs, adds_signature, sets_memo, step, run, IsConsistent, run-IsConsistent,
}
use hedera_sdk_go.Transaction.Dispatch.Frozen.{
  bodies, any_guarded, is_building, any_building, run-frozen,
}

abbrev some_key : PublicKey
some_key = ed25519_key (1 ∷ [])

abbrev other_key : PublicKey
other_key = ed25519_key (2 ∷ [])

-- One body for the node 3, with the id 100.
abbrev signed_once : SignedTransaction ℕ ℕ ℕ
signed_once = record {
  body = record { node_account_id = some 3; transaction_id = some 100; content = 7 };
  sig_pairs = [];
}

abbrev frozen_transfer : AnyTransaction ℕ ℕ ℕ
frozen_transfer = record {
  kind = Kind.transfer;
  is_pointer = false;
  transaction = record {
    max_retry = pos 10;
    transaction_fee = 0;
    memo = [];
    transaction_valid_duration = none;
    transaction_ids = record { slice = some 100 ∷ []; locked = true; index = 0 };
    transactions = record { slice = []; locked = false; index = 0 };
    signed_transactions = record { slice = some signed_once ∷ []; locked = false; index = 0 };
    node_account_ids = record { slice = some 3 ∷ []; locked = true; index = 0 };
    public_keys = some_key ∷ [];
    transaction_signers = none ∷ [];
    is_freeze_error = false;
    max_backoff = some (pos 8000000000);
    min_backoff = some (pos 250000000);
    regenerate_transaction_id = true;
    grpc_deadline = none;
  };
}

abbrev three_calls : List (Call ℕ ℕ ℕ)
three_calls =
    signs some_key none ∷ adds_signature other_key (9 ∷ []) ∷ sets_memo (104 ∷ 105 ∷ []) ∷ []

-- What the calls make of the transfer: a second key with its signature, and a memo.
abbrev called_transfer : AnyTransaction ℕ ℕ ℕ
called_transfer = record {
  kind = Kind.transfer;
  is_pointer = true;
  transaction = record frozen_transfer.transaction {
    memo = 104 ∷ 105 ∷ [];
    is_freeze_error = true;
    public_keys = some_key ∷ other_key ∷ [];
    transaction_signers = none ∷ none ∷ [];
    signed_transactions = record {
      slice =
          some (record signed_once { sig_pairs = to_signature_pair other_key (9 ∷ []) ∷ [] }) ∷ [];
      locked = false;
      index = 0;
    };
  };
}

run-three_calls : run three_calls frozen_transfer ≡ ok called_transfer
unfolding run step transaction_sign_with transaction_add_signature transaction_set_transaction_memo
    add_signature add_pairs get set LockableSlice.set_locked LockableSlice.new key_eq
run-three_calls = refl

frozen_transfer-is_common : is_common frozen_transfer.kind ≡ true
unfolding is_common
frozen_transfer-is_common = refl

frozen_transfer-is_frozen : is_frozen frozen_transfer.transaction ≡ true
unfolding is_frozen
frozen_transfer-is_frozen = refl

run-IsConsistent_example :
    IsConsistent called_transfer.transaction × (called_transfer.kind ≡ frozen_transfer.kind)
run-IsConsistent_example =
    run-IsConsistent three_calls frozen_transfer (omega arith) run-three_calls

three_calls_build_none : any_building three_calls ≡ false
unfolding is_building
three_calls_build_none = refl

run-frozen_example :
    (bodies called_transfer.transaction ≡ bodies frozen_transfer.transaction)
    × (called_transfer.transaction.is_freeze_error
        ≡ frozen_transfer.transaction.is_freeze_error || any_guarded three_calls)
run-frozen_example =
    run-frozen three_calls frozen_transfer frozen_transfer-is_frozen three_calls_build_none
      run-three_calls

-- Ids, nodes and contents that are numbers, compared as such, and keys that are read as ed25519.
abbrev number_reader : Reader ℕ ℕ ℕ
number_reader = record {
  same_id = ◌==◌;
  same_node = ◌==◌;
  same_content = ◌==◌;
  zero_id = 0;
  zero_node = 0;
  public_key_from_bytes = λ key. some (ed25519_key key);
}

abbrev read_transfer : AnyTransaction ℕ ℕ ℕ
read_transfer = record {
  kind = Kind.transfer;
  is_pointer = false;
  transaction = record frozen_transfer.transaction {
    transactions = record {
      slice = some (record { signed_transaction_bytes = some signed_once }) ∷ [];
      locked = false;
      index = 0;
    };
    public_keys = [];
    transaction_signers = [];
    max_backoff = none;
    min_backoff = none;
    regenerate_transaction_id = false;
  };
}

reads_transfer :
    read_transaction number_reader crypto_transfer (signed_once ∷ []) ≡ ok read_transfer
unfolding read_transaction
reads_transfer = refl
