-- ===== src/Transaction/Dispatch/Laws.antt =====
-- What the functions of transaction.go that take a transaction of any kind give back.
use hedera_sdk_go.Prelude.{
  ◌≡◌, refl, ap, true, false, List, [], ◌∷◌, none, some, arith, Bool-cases, inl, inr, if◌then◌else◌,
}
use hedera_sdk_go.Prelude.Int.{ℤ, pos, ltb_ℤ, IsInt64, to_int64-to_uint64}
use hedera_sdk_go.Prelude.Outcome.{
  ok, err, panic, locked_slice, nil_pointer, bodies_differ, ◌>>=◌, >>=-eq_ok, IfOk, IfOk-bind,
  IfOk-eq,
}
use hedera_sdk_go.LockableSlice.{push, clear, set_locked, get_current, get}
use hedera_sdk_go.Transaction.{
  SignedTransaction, Transaction, set_transaction_id, get_transaction_id, require_not_frozen,
}
use hedera_sdk_go.Transaction.Methods.{method_set_transaction_id}
use hedera_sdk_go.Transaction.Reading.{
  Reader, transaction_from_bytes, read_keys, all_like, transaction_compare,
}
use hedera_sdk_go.Transaction.Dispatch.{
  AnyTransaction, is_common, transaction_set_transaction_id, transaction_get_transaction_id,
  transaction_set_max_transaction_fee, transaction_get_max_transaction_fee,
  transaction_set_min_backoff, transaction_set_max_backoff,
}
use hedera_sdk_go.Transaction.Dispatch.Read.{BodyData, read_transaction}

module _ {Node TxId Data : Type 0} where
  set_transaction_id_lem :
      (id : TxId) (t : Transaction Node TxId Data)
      → set_transaction_id id t ≡ (
          if t.transaction_ids.locked
          then panic locked_slice
          else ok (record t {
            transaction_ids = record t.transaction_ids { slice = some id ∷ []; locked = true };
          }))
  unfolding set_transaction_id clear push set_locked
  set_transaction_id_lem id t = elim (Bool-cases t.transaction_ids.locked) [
    | inl e ↦ rw e refl
    | inr e ↦ rw e refl
  ]

  get_transaction_id_lem :
      (id : TxId) (t : Transaction Node TxId Data)
      → t.transaction_ids.slice ≡ some id ∷ []
      → t.transaction_ids.index ≡ 0
      → get_transaction_id t ≡ ok (some id)
  unfolding get_transaction_id get_current get
  get_transaction_id_lem id t e z = rw (e, z) refl

  require_not_frozen_ids :
      (t : Transaction Node TxId Data) → (require_not_frozen t).transaction_ids ≡ t.transaction_ids
  unfolding require_not_frozen
  require_not_frozen_ids t = ground arith

  -- For each kind of the switches, a fee that is an int64 is read back as it was set, negative ones too.
  pub transaction_get_max_transaction_fee-set :
      (fee : ℤ) (i : AnyTransaction Node TxId Data)
      → is_common i.kind ≡ true
      → IsInt64 fee
      → (transaction_set_max_transaction_fee fee i >>= transaction_get_max_transaction_fee) ≡ ok fee
  unfolding transaction_set_max_transaction_fee transaction_get_max_transaction_fee
  transaction_get_max_transaction_fee-set fee i k h = rw (k, k) (ap ok (to_int64-to_uint64 fee h))

  -- For each kind of the switches, a transaction id is read back as it was set if the ids are not locked
  -- and their index is 0; if they are locked, setting one panics.
  pub transaction_get_transaction_id-set :
      (id : TxId) (i : AnyTransaction Node TxId Data)
      → is_common i.kind ≡ true
      → i.transaction.transaction_ids.index ≡ 0
      → (transaction_set_transaction_id id i >>= transaction_get_transaction_id)
        ≡ (if i.transaction.transaction_ids.locked then panic locked_slice else ok (some id))
  unfolding transaction_set_transaction_id transaction_get_transaction_id method_set_transaction_id
  transaction_get_transaction_id-set id i k z =
      let t = require_not_frozen i.transaction in
      let e = require_not_frozen_ids i.transaction in
      elim (Bool-cases i.transaction.transaction_ids.locked) [
        | inl l ↦ rw (k, set_transaction_id_lem id t, e, l) refl
        | inr l ↦
            rw (k, set_transaction_id_lem id t, e, l, k)
              (get_transaction_id_lem id
                (record t {
                  transaction_ids = record i.transaction.transaction_ids {
                    slice = some id ∷ [];
                    locked = true;
                  };
                })
                refl z)
      ]

module _ {Node TxId Data : Type 0} (reader : Reader Node TxId Data) where
  abbrev HasNoBackoffs : Transaction Node TxId Data → Type 0
  HasNoBackoffs t = (t.min_backoff ≡ none) × (t.max_backoff ≡ none)

  transaction_from_bytes_backoffs :
      (list : List (SignedTransaction Node TxId Data))
      → IfOk HasNoBackoffs (transaction_from_bytes reader list)
  unfolding transaction_from_bytes transaction_compare
  transaction_from_bytes_backoffs [] = tt
  transaction_from_bytes_backoffs (tx ∷ list) =
      IfOk-bind HasNoBackoffs
        (if all_like reader tx.body.content list
          then read_keys reader tx.sig_pairs
          else err bodies_differ)
        _ λ keys _. (refl, refl)

  -- A transaction of any kind that has been read from bytes has no backoffs, so setting either of them
  -- to a duration that is not negative panics, for each kind of the switches.
  pub read_transaction_backoffs :
      (first : BodyData) (list : List (SignedTransaction Node TxId Data)) (duration : ℤ)
      {i : AnyTransaction Node TxId Data}
      → read_transaction reader first list ≡ ok i
      → is_common i.kind ≡ true
      → ltb_ℤ duration (pos 0) ≡ false
      → (transaction_set_min_backoff duration i ≡ panic nil_pointer)
        × (transaction_set_max_backoff duration i ≡ panic nil_pointer)
  unfolding read_transaction transaction_set_min_backoff transaction_set_max_backoff
  read_transaction_backoffs first list duration {i} e k h =
      let (t, read, e') = >>=-eq_ok (transaction_from_bytes reader list) _ e in
      let unset : HasNoBackoffs t =
        IfOk-eq HasNoBackoffs (transaction_from_bytes reader list)
          (transaction_from_bytes_backoffs list) read in
      let same : i.transaction ≡ t = ground arith in rw (k, h, same, unset.0, unset.1) (refl, refl)
