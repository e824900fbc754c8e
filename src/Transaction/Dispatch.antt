-- ===== src/Transaction/Dispatch.antt =====
-- The functions of transaction.go that take a transaction of any kind and switch over its type, as
-- an interface value that holds a transaction or a pointer to one.
pub mod Read
pub mod Laws
pub mod Calls
pub mod Frozen
mod Examples
use hedera_sdk_go.Prelude.{Bool, true, false, List, if◌then◌else◌}
use hedera_sdk_go.Prelude.Int.{ℤ}
use hedera_sdk_go.Prelude.Outcome.{Outcome, ok, err, non_exhaustive, ◌>>=◌}
use hedera_sdk_go.Prelude.Text.{Bytes}
use hedera_sdk_go.Transaction.{PublicKey, Signer, BuiltTransaction, Transaction, get_transaction_id}
use hedera_sdk_go.Prelude.{Option}
use hedera_sdk_go.Transaction.Building.{to_bytes}
use hedera_sdk_go.Transaction.Signatures.{get_signatures, get_transaction_hash_per_node}
use hedera_sdk_go.Transaction.Methods.{
  method_sign_with, add_signature, method_set_transaction_id, set_transaction_memo,
  get_transaction_memo, set_max_transaction_fee, get_max_transaction_fee,
  set_transaction_valid_duration, get_transaction_valid_duration, method_set_node_account_ids,
  get_node_account_ids, set_min_backoff, get_min_backoff, set_max_backoff, get_max_backoff,
}

-- The types of transaction.
pub data Kind : Type 0 where
  account_create account_delete account_update contract_create contract_delete : Kind
  contract_execute contract_update file_append file_create file_delete file_update : Kind
  live_hash_add live_hash_delete schedule_create schedule_delete schedule_sign : Kind
  system_delete system_undelete token_associate token_burn token_create : Kind
  token_delete token_dissociate token_fee_schedule_update token_freeze : Kind
  token_grant_kyc token_mint token_revoke_kyc token_unfreeze token_update : Kind
  token_wipe topic_create topic_delete topic_message_submit topic_update transfer : Kind
  freeze token_pause token_unpause account_allowance_adjust : Kind
  account_allowance_approve account_allowance_delete : Kind

-- A transaction in an interface value; the fields that only its kind has are left out.
pub record AnyTransaction (Node TxId Data : Type 0) : Type 0 where
  pub kind : Kind
  pub is_pointer : Bool
  pub transaction : Transaction Node TxId Data

-- The kinds of the cases that the switches share, value and pointer alike.
unfoldable pub is_common : Kind → Bool
is_common freeze = false
is_common token_pause = false
is_common token_unpause = false
is_common account_allowance_adjust = false
is_common account_allowance_approve = false
is_common account_allowance_delete = false
is_common kind = true

-- The kinds of the cases of `TransactionAddSignature`.
unfoldable pub has_add_signature : Kind → Bool
unfolding is_common
has_add_signature schedule_create = false
has_add_signature schedule_delete = false
has_add_signature schedule_sign = false
has_add_signature kind = is_common kind

-- A switch: the body of the cases, or the error of the default.
abbrev pub switch {ℓ} : {A : Type ℓ} → Bool → Outcome A → Outcome A
switch has_case body = if has_case then body else err non_exhaustive

module _ {Node TxId Data : Type 0} where
  -- A method returns its receiver as a pointer.
  abbrev pub as_pointer : Kind → Transaction Node TxId Data → AnyTransaction Node TxId Data
  as_pointer kind t = record { kind = kind; is_pointer = true; transaction = t }

  -- `TransactionSign`, with the public key and the signer of the private key, which are what `Sign`
  -- passes to `SignWith`.
  unfoldable pub transaction_sign :
      PublicKey
      → Signer Node TxId Data
      → AnyTransaction Node TxId Data
      → Outcome (AnyTransaction Node TxId Data)
  unfolding is_common method_sign_with
  transaction_sign key signer i =
      switch (is_common i.kind) (ok (as_pointer i.kind (method_sign_with key signer i.transaction)))

  -- `TransactionSignWth`
  unfoldable pub transaction_sign_with :
      PublicKey
      → Signer Node TxId Data
      → AnyTransaction Node TxId Data
      → Outcome (AnyTransaction Node TxId Data)
  unfolding is_common method_sign_with
  transaction_sign_with key signer i =
      switch (is_common i.kind) (ok (as_pointer i.kind (method_sign_with key signer i.transaction)))

  -- `TransactionAddSignature`
  unfoldable pub transaction_add_signature :
      PublicKey → Bytes → AnyTransaction Node TxId Data → Outcome (AnyTransaction Node TxId Data)
  unfolding is_common has_add_signature add_signature
  transaction_add_signature key signature i =
      switch (has_add_signature i.kind)
        (add_signature key signature i.transaction >>= λ t. ok (as_pointer i.kind t))

  -- `TransactionSetTransactionID`
  unfoldable pub transaction_set_transaction_id :
      TxId → AnyTransaction Node TxId Data → Outcome (AnyTransaction Node TxId Data)
  unfolding is_common method_set_transaction_id
  transaction_set_transaction_id id i =
      switch (is_common i.kind)
        (method_set_transaction_id id i.transaction >>= λ t. ok (as_pointer i.kind t))

  -- `TransactionGetTransactionID`
  unfoldable pub transaction_get_transaction_id :
      AnyTransaction Node TxId Data → Outcome (Option TxId)
  unfolding is_common get_transaction_id
  transaction_get_transaction_id i = switch (is_common i.kind) (get_transaction_id i.transaction)

  -- `TransactionSetTransactionMemo`
  unfoldable pub transaction_set_transaction_memo :
      Bytes → AnyTransaction Node TxId Data → Outcome (AnyTransaction Node TxId Data)
  unfolding is_common set_transaction_memo
  transaction_set_transaction_memo memo i =
      switch (is_common i.kind) (ok (as_pointer i.kind (set_transaction_memo memo i.transaction)))

  -- `TransactionGetTransactionMemo`
  unfoldable pub transaction_get_transaction_memo : AnyTransaction Node TxId Data → Outcome Bytes
  unfolding is_common get_transaction_memo
  transaction_get_transaction_memo i =
      switch (is_common i.kind) (ok (get_transaction_memo i.transaction))

  -- `TransactionSetMaxTransactionFee`
  unfoldable pub transaction_set_max_transaction_fee :
      ℤ → AnyTransaction Node TxId Data → Outcome (AnyTransaction Node TxId Data)
  unfolding is_common set_max_transaction_fee
  transaction_set_max_transaction_fee fee i =
      switch (is_common i.kind) (ok (as_pointer i.kind (set_max_transaction_fee fee i.transaction)))

  -- `TransactionGetMaxTransactionFee`
  unfoldable pub transaction_get_max_transaction_fee : AnyTransaction Node TxId Data → Outcome ℤ
  unfolding is_common get_max_transaction_fee
  transaction_get_max_transaction_fee i =
      switch (is_common i.kind) (ok (get_max_transaction_fee i.transaction))

  -- `TransactionSetTransactionValidDuration`
  unfoldable pub transaction_set_transaction_valid_duration :
      ℤ → AnyTransaction Node TxId Data → Outcome (AnyTransaction Node TxId Data)
  unfolding is_common set_transaction_valid_duration
  transaction_set_transaction_valid_duration duration i =
      switch (is_common i.kind)
        (ok (as_pointer i.kind (set_transaction_valid_duration duration i.transaction)))

  -- `TransactionGetTransactionValidDuration`
  unfoldable pub transaction_get_transaction_valid_duration :
      AnyTransaction Node TxId Data → Outcome ℤ
  unfolding is_common get_transaction_valid_duration
  transaction_get_transaction_valid_duration i =
      switch (is_common i.kind) (ok (get_transaction_valid_duration i.transaction))

  -- `TransactionSetNodeAccountIDs`
  unfoldable pub transaction_set_node_account_ids :
      List Node → AnyTransaction Node TxId Data → Outcome (AnyTransaction Node TxId Data)
  unfolding is_common method_set_node_account_ids
  transaction_set_node_account_ids nodes i =
      switch (is_common i.kind)
        (method_set_node_account_ids nodes i.transaction >>= λ t. ok (as_pointer i.kind t))

  -- `TransactionGetNodeAccountIDs`
  unfoldable pub transaction_get_node_account_ids :
      AnyTransaction Node TxId Data → Outcome (List Node)
  unfolding is_common get_node_account_ids
  transaction_get_node_account_ids i =
      switch (is_common i.kind) (get_node_account_ids i.transaction)

  -- `TransactionSetMinBackoff`
  unfoldable pub transaction_set_min_backoff :
      ℤ → AnyTransaction Node TxId Data → Outcome (AnyTransaction Node TxId Data)
  unfolding is_common set_min_backoff
  transaction_set_min_backoff min i =
      switch (is_common i.kind)
        (set_min_backoff min i.transaction >>= λ t. ok (as_pointer i.kind t))

  -- `TransactionGetMinBackoff`
  unfoldable pub transaction_get_min_backoff : AnyTransaction Node TxId Data → Outcome ℤ
  unfolding is_common get_min_backoff
  transaction_get_min_backoff i = switch (is_common i.kind) (ok (get_min_backoff i.transaction))

  -- `TransactionSetMaxBackoff`
  unfoldable pub transaction_set_max_backoff :
      ℤ → AnyTransaction Node TxId Data → Outcome (AnyTransaction Node TxId Data)
  unfolding is_common set_max_backoff
  transaction_set_max_backoff max i =
      switch (is_common i.kind)
        (set_max_backoff max i.transaction >>= λ t. ok (as_pointer i.kind t))

  -- `TransactionGetMaxBackoff`
  unfoldable pub transaction_get_max_backoff : AnyTransaction Node TxId Data → Outcome ℤ
  unfolding is_common get_max_backoff
  transaction_get_max_backoff i = switch (is_common i.kind) (ok (get_max_backoff i.transaction))

  -- `TransactionToBytes`
  unfoldable pub transaction_to_bytes :
      AnyTransaction Node TxId Data
      → Outcome (AnyTransaction Node TxId Data × List (BuiltTransaction Node TxId Data))
  unfolding is_common to_bytes
  transaction_to_bytes i =
      switch (is_common i.kind)
        (to_bytes i.transaction >>= λ r. ok (record i { transaction = r.0 }, r.1))

  -- `TransactionGetSignatures`, with `PublicKeyFromBytes` as an argument.
  unfoldable pub transaction_get_signatures :
      (Bytes → Option PublicKey)
      → AnyTransaction Node TxId Data
      → Outcome (AnyTransaction Node TxId Data × List (Option Node × List (PublicKey × Bytes)))
  unfolding is_common get_signatures
  transaction_get_signatures public_key_from_bytes i = switch (is_common i.kind) (
      get_signatures public_key_from_bytes i.transaction >>= λ r.
      ok (record i { transaction = r.0 }, r.1))

  -- `TransactionGetTransactionHashPerNode`, with the hash of the bytes as an argument.
  unfoldable pub transaction_get_transaction_hash_per_node :
      (BuiltTransaction Node TxId Data → Bytes)
      → AnyTransaction Node TxId Data
      → Outcome (AnyTransaction Node TxId Data × List (Node × Bytes))
  unfolding is_common get_transaction_hash_per_node
  transaction_get_transaction_hash_per_node sha384 i = switch (is_common i.kind) (
      get_transaction_hash_per_node sha384 i.transaction >>= λ r.
      ok (record i { transaction = r.0 }, r.1))
