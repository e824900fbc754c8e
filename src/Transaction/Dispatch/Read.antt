-- ===== src/Transaction/Dispatch/Read.antt =====
-- The last step of `TransactionFromBytes` of transaction.go: the switch over the data of the first
-- body, which names the kind of the transaction.
use hedera_sdk_go.Prelude.{Bool, true, false, List, Option, none, some}
use hedera_sdk_go.Prelude.Outcome.{Outcome, ok, err, unknown_body, ◌>>=◌}
use hedera_sdk_go.Transaction.{SignedTransaction}
use hedera_sdk_go.Transaction.Reading.{Reader, transaction_from_bytes}
use hedera_sdk_go.Transaction.Dispatch.{Kind, AnyTransaction}

-- The type of `first.Data`; `other_data` is any that has no case.
pub data BodyData : Type 0 where
  contract_call contract_create_instance contract_update_instance : BodyData
  contract_delete_instance crypto_add_live_hash crypto_create_account : BodyData
  crypto_delete crypto_delete_live_hash crypto_transfer crypto_update_account : BodyData
  crypto_approve_allowance crypto_delete_allowance file_append file_create : BodyData
  file_delete file_update system_delete system_undelete freeze : BodyData
  consensus_create_topic consensus_update_topic consensus_delete_topic : BodyData
  consensus_submit_message token_creation token_freeze token_unfreeze : BodyData
  token_grant_kyc token_revoke_kyc token_deletion token_update token_mint : BodyData
  token_burn token_wipe token_associate token_dissociate schedule_create : BodyData
  schedule_sign schedule_delete token_fee_schedule_update token_pause : BodyData
  token_unpause other_data : BodyData

-- The kind of each case, and whether a pointer is returned.
unfoldable pub kind_of : BodyData → Option (Kind × Bool)
kind_of contract_call = some (Kind.contract_execute, false)
kind_of contract_create_instance = some (Kind.contract_create, false)
kind_of contract_update_instance = some (Kind.contract_update, false)
kind_of contract_delete_instance = some (Kind.contract_delete, false)
kind_of crypto_add_live_hash = some (Kind.live_hash_add, false)
kind_of crypto_create_account = some (Kind.account_create, false)
kind_of crypto_delete = some (Kind.account_delete, false)
kind_of crypto_delete_live_hash = some (Kind.live_hash_delete, false)
kind_of crypto_transfer = some (Kind.transfer, false)
kind_of crypto_update_account = some (Kind.account_update, true)
kind_of crypto_approve_allowance = some (Kind.account_allowance_approve, true)
kind_of crypto_delete_allowance = some (Kind.account_allowance_delete, true)
kind_of file_append = some (Kind.file_append, false)
kind_of file_create = some (Kind.file_create, false)
kind_of file_delete = some (Kind.file_delete, false)
kind_of file_update = some (Kind.file_update, false)
kind_of system_delete = some (Kind.system_delete, false)
kind_of system_undelete = some (Kind.system_undelete, false)
kind_of freeze = some (Kind.freeze, false)
kind_of consensus_create_topic = some (Kind.topic_create, false)
kind_of consensus_update_topic = some (Kind.topic_update, false)
kind_of consensus_delete_topic = some (Kind.topic_delete, false)
kind_of consensus_submit_message = some (Kind.topic_message_submit, false)
kind_of token_creation = some (Kind.token_create, false)
kind_of token_freeze = some (Kind.token_freeze, false)
kind_of token_unfreeze = some (Kind.token_unfreeze, false)
kind_of token_grant_kyc = some (Kind.token_grant_kyc, false)
kind_of token_revoke_kyc = some (Kind.token_revoke_kyc, false)
kind_of token_deletion = some (Kind.token_delete, false)
kind_of token_update = some (Kind.token_update, false)
kind_of token_mint = some (Kind.token_mint, false)
kind_of token_burn = some (Kind.token_burn, false)
kind_of token_wipe = some (Kind.token_wipe, false)
kind_of token_associate = some (Kind.token_associate, false)
kind_of token_dissociate = some (Kind.token_dissociate, false)
kind_of schedule_create = some (Kind.schedule_create, false)
kind_of schedule_sign = some (Kind.schedule_sign, false)
kind_of schedule_delete = some (Kind.schedule_delete, false)
kind_of token_fee_schedule_update = some (Kind.token_fee_schedule_update, false)
kind_of token_pause = some (Kind.token_pause, false)
kind_of token_unpause = some (Kind.token_unpause, false)
kind_of other_data = none

-- `TransactionFromBytes` with the switch at its end; the constructors of the kinds keep the
-- transaction as it was read.
unfoldable pub read_transaction :
    {Node TxId Data : Type 0}
    → Reader Node TxId Data
    → BodyData
    → List (SignedTransaction Node TxId Data)
    → Outcome (AnyTransaction Node TxId Data)
unfolding transaction_from_bytes kind_of
read_transaction reader first list = transaction_from_bytes reader list >>= λ t.
    elim (kind_of first) [
      | none ↦ err unknown_body
      | some (kind, is_pointer) ↦
          ok (record { kind = kind; is_pointer = is_pointer; transaction = t })
    ]
