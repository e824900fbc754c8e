-- ===== src/Chunks.antt =====
-- The division of a long message into transactions: `FreezeWith` of
-- file_append_transaction.go and topic_message_submit_transaction.go. What the loops put into a
-- transaction body is a record; marshalling it is left out, and so are the fee and the memo. A
-- chunk size is not negative here; at 0 the division panics. The number of chunks wraps as Go's int
-- does; where it does not, neither do the positions of the pieces, which are ℕ. Node account ids
-- have any type A.
pub mod Pieces
mod Examples
use hedera_sdk_go.Prelude.{
  ℕ, zero, suc, ◌+◌, ◌-◌, ◌*◌, ◌/◌, ◌%◌, ◌^◌, Bool, List, [], ◌∷◌, ◌++◌, Option, none, some, ◌==◌,
  ltb, if◌then◌else◌, length, take, drop, map,
}
use hedera_sdk_go.Prelude.Int.{ℤ, pos, negsuc, neg, ◌+ℤ◌, to_int64, to_uint64}
use hedera_sdk_go.Prelude.Outcome.{
  Outcome, ok, err, panic, no_client_or_transaction_id, no_client_or_transaction_id_or_node_id,
  max_chunks_exceeded, divide_by_zero, ◌>>=◌, ◌>>◌,
}
use hedera_sdk_go.Prelude.Text.{Bytes}

-- What `FreezeWith` asks of a client: the nodes that `_GetNodeAccountIDsForExecute` gives, and the
-- start of the transaction id that `TransactionIDGenerate` makes for the operator, if there is one.
pub record ClientView {ℓ} (A : Type ℓ) : Type ℓ where
  pub node_account_ids_for_execute : Outcome (List A)
  pub operator_start : Option ℤ

-- A transaction in the making. The start of a transaction id, in nanoseconds, stands for the id;
-- the list of the ids begins with the current one.
pub record Chunked {ℓ} (A : Type ℓ) : Type ℓ where
  pub node_account_ids : List A
  pub transaction_ids : List ℤ
  pub contents : Bytes
  pub chunk_size : ℕ
  pub max_chunks : ℕ  -- uint64

-- The part of a transaction body that the loop over the chunks sets.
pub record Body {ℓ} (A : Type ℓ) : Type ℓ where
  pub node_account_id : A
  pub transaction_id : ℤ
  pub piece : Bytes
  pub initial_transaction_id : Option ℤ
  pub total : ℕ
  pub number : ℕ

pub record Frozen {ℓ} (A : Type ℓ) : Type ℓ where
  pub ids : List ℤ
  pub signed_transactions : List (Body A)

-- `contents[start:end]` of the i-th chunk.
unfoldable pub piece_at : ℕ → ℕ → Bytes → Bytes
piece_at size i contents =
    let start = i * size in
    let end = if ltb (length contents) (start + size) then length contents else start + size in
    take (end - start) (drop start contents)

-- `a / b` of an int, which rounds towards zero; b is positive.
abbrev pub div_int : ℤ → ℕ → ℤ
div_int (pos n) b = pos (n / b)
div_int (negsuc n) b = neg (pos (suc n / b))

-- `uint64((len(contents) + (chunkSize - 1)) / chunkSize)`, with the sum and the quotient of type int.
unfoldable pub count_chunks : ℕ → Bytes → Outcome ℕ
count_chunks size contents =
    if size == 0
    then panic divide_by_zero
    else ok (to_uint64 (div_int (to_int64 ((length contents + (size - 1)) % 2 ^ 64)) size))

-- A transaction id as a Go value: what is left of it here is the pointer to its start.
pub record SharedId : Type 0 where
  pub valid_start : ℕ

-- `*pointer = time`
abbrev pub write_time : ℕ → ℤ → (ℕ → ℤ) → ℕ → ℤ
write_time pointer time times q = if q == pointer then time else times q

module _ {ℓ} {A : Type ℓ} where
  -- The guard of `FreezeWith` on the nodes.
  unfoldable pub nodes_for : Option (ClientView A) → Chunked A → Outcome (List A)
  nodes_for client t =
      if length t.node_account_ids == 0
      then elim client [
        | none ↦ err no_client_or_transaction_id_or_node_id
        | some c ↦ c.node_account_ids_for_execute
      ]
      else ok t.node_account_ids

  -- `_InitTransactionID`: the current transaction id, or one made for the operator.
  unfoldable pub init_transaction_id : Option (ClientView A) → Chunked A → Outcome ℤ
  init_transaction_id client t = elim t.transaction_ids [
    | start ∷ _ ↦ ok start
    | [] ↦ elim client [
      | none ↦ err no_client_or_transaction_id
      | some c ↦ elim c.operator_start [
        | none ↦ err no_client_or_transaction_id
        | some start ↦ ok start
      ]
    ]
  ]

  -- The loop over the chunks from the i-th on, n of them: the id is pushed before its start moves
  -- on by a nanosecond. `body` fills the body of a chunk for a node, from the number of the chunk
  -- and the start of its id.
  unfoldable pub chunk_loop : (ℕ → ℤ → A → Body A) → List A → ℕ → ℕ → ℤ → Frozen A
  chunk_loop body nodes zero i start = record { ids = []; signed_transactions = [] }
  chunk_loop body nodes (suc n) i start =
      let rest = chunk_loop body nodes n (suc i) (start +ℤ pos 1) in
      record {
        ids = start ∷ rest.ids;
        signed_transactions = map (body i start) nodes ++ rest.signed_transactions;
      }

  -- What the two `FreezeWith` share; `validate` is what `_ValidateNetworkOnIDs` returns, and `loop`
  -- is the loop, from the number of chunks, the nodes and the start of the current id.
  unfoldable pub freeze_chunks :
      (ℕ → List A → ℤ → Frozen A)
      → Option (ClientView A)
      → Outcome (Unit {0})
      → Chunked A
      → Outcome (Frozen A)
  unfolding nodes_for init_transaction_id count_chunks
  freeze_chunks loop client validate t = do
    nodes ← nodes_for client t
    validate
    start ← init_transaction_id client t
    chunks ← count_chunks t.chunk_size t.contents
    if ltb t.max_chunks chunks then err max_chunks_exceeded else ok (loop chunks nodes start)

  unfoldable pub file_body : Chunked A → ℕ → ℕ → ℤ → A → Body A
  unfolding piece_at
  file_body t chunks i start node = record {
    node_account_id = node;
    transaction_id = start;
    piece = piece_at t.chunk_size i t.contents;
    initial_transaction_id = none;
    total = chunks;
    number = i + 1;
  }

  -- `FreezeWith` of a file append, for one that is not frozen: `none` where it is.
  unfoldable pub file_freeze_with :
      Bool → Option (ClientView A) → Outcome (Unit {0}) → Chunked A → Outcome (Option (Frozen A))
  unfolding freeze_chunks chunk_loop file_body
  file_freeze_with is_frozen client validate t =
      if is_frozen
      then ok none
      else (freeze_chunks
            (λ chunks nodes start. chunk_loop (file_body t chunks) nodes chunks 0 start) client
            validate t
          >>= λ frozen. ok (some frozen))

  -- The body of a chunk of a message, from the starts of the two ids of the loop.
  unfoldable pub topic_body : Chunked A → ℕ → ℕ → ℤ → ℤ → A → Body A
  unfolding piece_at
  topic_body t chunks i initial_start next_start node = record {
    node_account_id = node;
    transaction_id = next_start;
    piece = piece_at t.chunk_size i t.contents;
    initial_transaction_id = some initial_start;
    total = chunks;
    number = i + 1;
  }

  -- The loop over the chunks of a message. The ids reach their starts through pointers into
  -- `times`: a body reads the start of both, and behind it the start of the next id moves on.
  unfoldable pub topic_loop :
      (ℕ → ℤ → ℤ → A → Body A) → List A → SharedId → SharedId → ℕ → ℕ → (ℕ → ℤ) → Frozen A
  topic_loop body nodes initial_id next_id zero i times = record {
    ids = [];
    signed_transactions = [];
  }
  topic_loop body nodes initial_id next_id (suc n) i times =
      let next_start = times next_id.valid_start in
      let rest =
        topic_loop body nodes initial_id next_id n (suc i)
          (write_time next_id.valid_start (next_start +ℤ pos 1) times) in
      record {
        ids = next_start ∷ rest.ids;
        signed_transactions =
            map (body i (times initial_id.valid_start) next_start) nodes
            ++ rest.signed_transactions;
      }

  -- `FreezeWith` of a message, whose chunks have 1024 bytes. The current id has its start in cell 0,
  -- and the two ids of the loop are copies of it.
  unfoldable pub topic_freeze_with :
      Option (ClientView A) → Outcome (Unit {0}) → Chunked A → Outcome (Frozen A)
  unfolding freeze_chunks topic_body topic_loop
  topic_freeze_with client validate t =
      let message = record t { chunk_size = 1024 } in
      let current_id : SharedId = record { valid_start = 0 } in
      let initial_id = current_id in
      let next_id = initial_id in
      freeze_chunks
        (λ chunks nodes start.
          topic_loop (topic_body message chunks) nodes initial_id next_id chunks 0 (λ _. start))
        client validate message
