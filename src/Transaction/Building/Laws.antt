-- ===== src/Transaction/Building/Laws.antt =====
-- What `_BuildTransaction` of transaction.go returns for the transaction at an index.
use hedera_sdk_go.Prelude.{
  ℕ, ◌<◌, ◌≡◌, refl, ap, ◌∙◌, true, false, [], none, some, arith, length, get_elem?,
  get_elem?-set_self, get_elem?-set_other, lt_of_get_elem?,
}
use hedera_sdk_go.Prelude.Outcome.{ok}
use hedera_sdk_go.LockableSlice.{LockableSlice, get_current}
use hedera_sdk_go.LockableSlice
use hedera_sdk_go.LockableSlice.Locking.{get-some}
use hedera_sdk_go.Transaction.{Body, SignedTransaction, Transaction}
use hedera_sdk_go.Transaction.Signing.Laws.{
  signatures, stored, HasSigned, unsigned, get_signed-HasSigned, set_signed-stored,
  sign_transaction-stored,
}
use hedera_sdk_go.Transaction.Building.{
  built_before, padded, updated_body, build_anew, build_transaction,
}

module _ {Node TxId Data : Type 0} where
  -- A transaction with its nodes set, whose signed transactions are at their
  -- start and have one at the index, without signatures and for some node; with a current
  -- transaction id, and as many signers as keys.
  pub record IsPinned (index : ℕ) (old : Body Node TxId Data) (id : TxId)
      (t : Transaction Node TxId Data) : Type 0 where
    pub nodes_locked : t.node_account_ids.locked ≡ true
    pub signed_unlocked : t.signed_transactions.locked ≡ false
    pub signed_at_start : t.signed_transactions.index ≡ 0
    pub has_old : HasSigned index (unsigned old) t
    pub old_node : (n : Node) × (old.node_account_id ≡ some n)
    pub has_id : get_current t.transaction_ids ≡ ok (some id)
    pub one_signer_each : length t.public_keys ≡ length t.transaction_signers

  -- The body with the current transaction id, signed by all signers.
  abbrev pub signed_for :
      Body Node TxId Data → TxId → Transaction Node TxId Data → SignedTransaction Node TxId Data
  signed_for old id t =
      let body : Body Node TxId Data = record old { transaction_id = some id } in
      record { body = body; sig_pairs = signatures t.public_keys t.transaction_signers body }

  updated_body-pinned :
      (index : ℕ) (t : Transaction Node TxId Data) (id : TxId) (old : Body Node TxId Data)
      (n : Node)
      → t.node_account_ids.locked ≡ true
      → old.node_account_id ≡ some n
      → updated_body index t id old ≡ ok (record old { transaction_id = some id })
  unfolding updated_body
  updated_body-pinned index t id old n h e = rw (e, h) refl

  built_before-nothing :
      (index : ℕ) (t : Transaction Node TxId Data)
      → t.transactions.slice ≡ []
      → built_before index t ≡ ok none
  unfolding built_before
  built_before-nothing index t e = rw e (ground arith)

  get_current-start :
      (s : LockableSlice (SignedTransaction Node TxId Data)) (tx : SignedTransaction Node TxId Data)
      → s.index ≡ 0
      → get_elem? s.slice 0 ≡ some (some tx)
      → get_current s ≡ ok (some tx)
  unfolding get_current
  get_current-start s tx e h = ap (λ i. LockableSlice.get i s) e ∙ get-some 0 (some tx) s h

  padded-IsPinned :
      (index : ℕ) (old : Body Node TxId Data) (id : TxId) (t : Transaction Node TxId Data)
      → IsPinned index old id t
      → IsPinned index old id (padded index t)
  unfolding padded
  padded-IsPinned index old id t h = record {
    nodes_locked = h.nodes_locked;
    signed_unlocked = h.signed_unlocked;
    signed_at_start = h.signed_at_start;
    has_old = h.has_old;
    old_node = h.old_node;
    has_id = h.has_id;
    one_signer_each = h.one_signer_each;
  }

  -- Everything of `build_anew` but the transaction that is returned.
  build_anew-pinned :
      (index : ℕ) (old : Body Node TxId Data) (id : TxId) (t : Transaction Node TxId Data)
      (returned : SignedTransaction Node TxId Data)
      → IsPinned index old id t
      → HasSigned 0 returned (stored index (signed_for old id t) t)
      → build_anew index t
        ≡ ok (
          stored index (signed_for old id t) t,
          record { signed_transaction_bytes = some returned },
        )
  unfolding build_anew
  build_anew-pinned index old id t returned h e =
      let lt = lt_of_get_elem? t.signed_transactions.slice index h.has_old in
      rw
        (
          get_signed-HasSigned index (unsigned old) t h.has_old,
          h.has_id,
          updated_body-pinned index t id old h.old_node.0 h.nodes_locked h.old_node.1,
          set_signed-stored index (unsigned (record old { transaction_id = some id })) t
              h.signed_unlocked lt,
        )
        (rw
          (sign_transaction-stored index (record old { transaction_id = some id }) t
            h.signed_unlocked lt h.one_signer_each)
          (rw
            (get_current-start (stored index (signed_for old id t) t).signed_transactions returned
              h.signed_at_start e)
            refl))

  -- For a pinned transaction of which nothing is built, `_BuildTransaction` at an index behind the first signs the transaction at
  -- that index for the current transaction id, and returns the first signed transaction in its place, as
  -- it was before, also when that is for another node and has no signatures.
  pub build_transaction-behind :
      (index : ℕ) (old : Body Node TxId Data) (id : TxId) (t : Transaction Node TxId Data)
      (first : SignedTransaction Node TxId Data)
      → IsPinned index old id t
      → t.transactions.slice ≡ []
      → HasSigned 0 first t
      → 0 < index
      → (after : Transaction Node TxId Data) × (build_transaction index t
          ≡ ok (after, record { signed_transaction_bytes = some first }))
        × HasSigned index (signed_for old id t) after
  unfolding build_transaction padded
  build_transaction-behind index old id t first h none_built f lt = (
    stored index (signed_for old id t) (padded index t),
    rw (built_before-nothing index t none_built) (
        build_anew-pinned index old id (padded index t) first (padded-IsPinned index old id t h) (
          get_elem?-set_other t.signed_transactions.slice index 0 (some (signed_for old id t))
            (λ e. omega arith)
          ∙ f)),
    get_elem?-set_self t.signed_transactions.slice index (some (signed_for old id t))
        (lt_of_get_elem? t.signed_transactions.slice index h.has_old),
  )

  -- For a pinned transaction of which nothing is built, `_BuildTransaction` at the first index succeeds, and returns the first
  -- transaction with the current transaction id and the signatures of all signers.
  pub build_transaction-first :
      (old : Body Node TxId Data) (id : TxId) (t : Transaction Node TxId Data)
      → IsPinned 0 old id t
      → t.transactions.slice ≡ []
      → (after : Transaction Node TxId Data) × (build_transaction 0 t
          ≡ ok (after, record { signed_transaction_bytes = some (signed_for old id t) }))
        × HasSigned 0 (signed_for old id t) after
  unfolding build_transaction padded
  build_transaction-first old id t h none_built =
      let kept : HasSigned 0 (signed_for old id t) (stored 0 (signed_for old id t) t) =
        get_elem?-set_self t.signed_transactions.slice 0 (some (signed_for old id t))
          (lt_of_get_elem? t.signed_transactions.slice 0 h.has_old) in
      (
        stored 0 (signed_for old id t) (padded 0 t),
        rw (built_before-nothing 0 t none_built) (
            build_anew-pinned 0 old id (padded 0 t) (signed_for old id t)
              (padded-IsPinned 0 old id t h) kept),
        kept,
      )
