-- ===== src/Transaction.antt =====
-- transaction.go: freezing, signing and building a transaction. Protobuf messages stand for their
-- own bytes, so marshalling and unmarshalling leave no trace; node ids, transaction ids and the
-- data of a body have any types, and a signer is any function from a body to a signature.
pub mod Signing
pub mod Building
pub mod Freezing
pub mod Reading
pub mod Methods
pub mod Signatures
pub mod Dispatch
mod Examples
use hedera_sdk_go.Prelude.{
  ℕ, ◌+◌, Bool, true, false, List, [], ◌∷◌, ◌++◌, Option, none, some, ◌==◌, ltb, if◌then◌else◌,
  length,
}
use hedera_sdk_go.Prelude.Int.{ℤ, pos}
use hedera_sdk_go.Prelude.Outcome.{
  Outcome, ok, err, panic, wrong_format, not_one_node, no_client_or_transaction_id_or_node_id,
  ◌>>=◌, ◌>>◌,
}
use hedera_sdk_go.Prelude.Text.{Bytes}
use hedera_sdk_go.LockableSlice.{LockableSlice, get_current, push, set_locked, clear, is_empty}
use hedera_sdk_go.LockableSlice

-- `services.TransactionBody`: what transaction.go reads and writes of it, and the rest.
pub record Body (Node TxId Data : Type 0) : Type 0 where
  pub node_account_id : Option Node
  pub transaction_id : Option TxId
  pub content : Data

-- `PublicKey` of crypto.go, by its bytes.
pub data PublicKey : Type 0 where
  ed25519_key ecdsa_key : Bytes → PublicKey

pub data Signature : Type 0 where
  ed25519 ecdsa_secp256k1 other : Bytes → Signature

pub record SigPair : Type 0 where
  pub pub_key_prefix : Bytes
  pub signature : Signature

-- `_ToSignaturePairProtobuf`
abbrev pub to_signature_pair : PublicKey → Bytes → SigPair
to_signature_pair (ed25519_key k) s = record { pub_key_prefix = k; signature = ed25519 s }
to_signature_pair (ecdsa_key k) s = record { pub_key_prefix = k; signature = ecdsa_secp256k1 s }

pub record SignedTransaction (Node TxId Data : Type 0) : Type 0 where
  pub body : Body Node TxId Data
  pub sig_pairs : List SigPair

-- `services.Transaction`, with `none` for empty bytes.
pub record BuiltTransaction (Node TxId Data : Type 0) : Type 0 where
  pub signed_transaction_bytes : Option (SignedTransaction Node TxId Data)

-- `TransactionSigner`, which may be nil in a list of signers.
abbrev pub Signer : Type 0 → Type 0 → Type 0 → Type 0
Signer Node TxId Data = Option (Body Node TxId Data → Bytes)

pub record Transaction (Node TxId Data : Type 0) : Type 0 where
  pub max_retry : ℤ
  pub transaction_fee : ℕ  -- uint64
  pub memo : Bytes
  pub transaction_valid_duration : Option ℤ
  pub transaction_ids : LockableSlice TxId
  pub transactions : LockableSlice (BuiltTransaction Node TxId Data)
  pub signed_transactions : LockableSlice (SignedTransaction Node TxId Data)
  pub node_account_ids : LockableSlice Node
  pub public_keys : List PublicKey
  pub transaction_signers : List (Signer Node TxId Data)
  pub is_freeze_error : Bool
  pub max_backoff : Option ℤ
  pub min_backoff : Option ℤ
  pub regenerate_transaction_id : Bool
  pub grpc_deadline : Option ℤ

-- What `_TransactionFreezeWith` asks of a client.
pub record FreezeClient (Node : Type 0) : Type 0 where
  pub node_account_ids_for_execute : Outcome (List Node)
  pub default_regenerate_transaction_ids : Bool

-- What a type assertion makes of an item of a slice.
abbrev pub asserted {ℓ} : {A : Type ℓ} → Option A → Outcome A
asserted none = panic wrong_format
asserted (some a) = ok a

-- The loop of `SetNodeAccountIDs` and of `_TransactionFreezeWith` that pushes node ids.
unfoldable pub push_nodes :
    {Node : Type 0} → List Node → LockableSlice Node → Outcome (LockableSlice Node)
push_nodes [] s = ok s
push_nodes (n ∷ nodes) s = push (some n ∷ []) s >>= push_nodes nodes

module _ {Node TxId Data : Type 0} where
  unfoldable pub new_transaction : Transaction Node TxId Data
  new_transaction = record {
    max_retry = pos 10;
    transaction_fee = 0;
    memo = [];
    transaction_valid_duration = some (pos 120000000000);
    transaction_ids = LockableSlice.new;
    transactions = LockableSlice.new;
    signed_transactions = LockableSlice.new;
    node_account_ids = LockableSlice.new;
    public_keys = [];
    transaction_signers = [];
    is_freeze_error = false;
    max_backoff = some (pos 8000000000);
    min_backoff = some (pos 250000000);
    regenerate_transaction_id = true;
    grpc_deadline = none;
  }

  unfoldable pub is_frozen : Transaction Node TxId Data → Bool
  is_frozen t = ltb 0 (length t.signed_transactions.slice)

  -- `_RequireNotFrozen` only notes an error.
  unfoldable pub require_not_frozen : Transaction Node TxId Data → Transaction Node TxId Data
  unfolding is_frozen
  require_not_frozen t = if is_frozen t then record t { is_freeze_error = true } else t

  unfoldable pub require_one_node_account_id : Transaction Node TxId Data → Outcome (Unit {0})
  require_one_node_account_id t =
      if length t.node_account_ids.slice == 1 then ok tt else panic not_one_node

  unfoldable pub set_transaction_id :
      TxId → Transaction Node TxId Data → Outcome (Transaction Node TxId Data)
  set_transaction_id id t = do
    cleared ← clear t.transaction_ids
    pushed ← push (some id ∷ []) cleared
    ok (record t { transaction_ids = set_locked true pushed })

  -- `GetTransactionID`, none for `TransactionID{}`.
  unfoldable pub get_transaction_id : Transaction Node TxId Data → Outcome (Option TxId)
  get_transaction_id t =
      if ltb 0 (length t.transaction_ids.slice)
      then (get_current t.transaction_ids >>= λ o. asserted o >>= λ id. ok (some id))
      else ok none

  unfoldable pub set_node_account_ids :
      List Node → Transaction Node TxId Data → Outcome (Transaction Node TxId Data)
  unfolding push_nodes
  set_node_account_ids nodes t = do
    pushed ← push_nodes nodes t.node_account_ids
    ok (record t { node_account_ids = set_locked true pushed })

  -- `_SignWith`
  unfoldable pub sign_with :
      PublicKey → Signer Node TxId Data → Transaction Node TxId Data → Transaction Node TxId Data
  sign_with key signer t = record t {
    transactions = LockableSlice.new;
    public_keys = t.public_keys ++ key ∷ [];
    transaction_signers = t.transaction_signers ++ signer ∷ [];
  }

  -- The loop of `_TransactionFreezeWith` over the nodes.
  unfoldable pub push_signed :
      Body Node TxId Data
      → List (Option Node)
      → LockableSlice (SignedTransaction Node TxId Data)
      → Outcome (LockableSlice (SignedTransaction Node TxId Data))
  push_signed body [] s = ok s
  push_signed body (none ∷ nodes) s = panic wrong_format
  push_signed body (some n ∷ nodes) s = do
    pushed ←
        push
          (some (record { body = record body { node_account_id = some n }; sig_pairs = [] }) ∷ []) s
    push_signed body nodes pushed

  -- The nodes of the transaction, or those of the client pushed.
  unfoldable pub with_nodes_of :
      Option (FreezeClient Node) → Transaction Node TxId Data → Outcome (LockableSlice Node)
  unfolding push_nodes
  with_nodes_of client t =
      if is_empty t.node_account_ids
      then elim client [
        | none ↦ err no_client_or_transaction_id_or_node_id
        | some c ↦ c.node_account_ids_for_execute >>= λ ids. push_nodes ids t.node_account_ids
      ]
      else ok t.node_account_ids

  -- `_TransactionFreezeWith`
  unfoldable pub transaction_freeze_with :
      Option (FreezeClient Node)
      → Body Node TxId Data
      → Transaction Node TxId Data
      → Outcome (Transaction Node TxId Data)
  unfolding with_nodes_of push_signed
  transaction_freeze_with client body t = do
    nodes ← with_nodes_of client t
    signed ← push_signed body nodes.slice t.signed_transactions
    ok (record t {
      node_account_ids = nodes;
      regenerate_transaction_id = elim client [
        | none ↦ t.regenerate_transaction_id
        | some c ↦ c.default_regenerate_transaction_ids
      ];
      signed_transactions = signed;
    })
