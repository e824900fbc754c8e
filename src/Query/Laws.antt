-- ===== src/Query/Laws.antt =====
-- The payments of a query and the payment that a request carries.
use hedera_sdk_go.Prelude.{
  ℕ, zero, suc, ◌+◌, ◌%◌, ◌≡◌, refl, ap, sym, ◌∙◌, Bool, true, false, List, [], ◌∷◌, ◌++◌, Option,
  some, map, length, get_elem?, ltb, ◌==◌, ◌&&◌, arith, append_assoc, append-nil,
}
use hedera_sdk_go.Prelude.Int.{ℤ}
use hedera_sdk_go.Prelude.Outcome.{ok, ◌>>=◌}
use native.Mathlib.Nat.{mod-eq_of_lt}
use hedera_sdk_go.LockableSlice
use hedera_sdk_go.LockableSlice.{LockableSlice, advance, get_current}
use hedera_sdk_go.Query.{
  Payment, Operator, Query, make_payment_transaction, generate_from, query_generate_payments,
  query_get_node_account_id, query_make_request, query_advance_request,
}
use hedera_sdk_go.Query.Sending.{make_request_for}

advance_one :
    {TxId : Type 0} (s : LockableSlice TxId) (id : Option TxId)
    → s.slice ≡ id ∷ []
    → s.index ≡ 0
    → ((advance s).0.slice ≡ id ∷ []) × ((advance s).0.index ≡ 0)
unfolding advance
advance_one s id one index =
    let n : length s.slice ≡ 1 = ap length one in
    let t : (length s.slice == 0) ≡ false = rw n refl in
    let m : (s.index + 1) % length s.slice ≡ 0 = rw (n, index) refl in (rw t one, rw t m)

current_one :
    {A : Type 0} (s : LockableSlice A) (x : Option A)
    → s.slice ≡ x ∷ []
    → s.index ≡ 0
    → get_current s ≡ ok x
unfolding get_current
current_one s x one index = rw (one, index) refl

one_mod : (n : ℕ) → (0 + 1) % suc (suc n) ≡ 1
one_mod n = mod-eq_of_lt (omega arith)

current_second :
    {A : Type 0} (s : LockableSlice A) (x y : Option A) (rest : List (Option A))
    → s.slice ≡ x ∷ y ∷ rest
    → s.index ≡ 0
    → get_current (advance s).0 ≡ ok y
unfolding get_current advance
current_second s x y rest two index =
    let t : (length s.slice == 0) ≡ false = rw two (ground arith) in
    let m : (s.index + 1) % length s.slice ≡ 1 = rw (two, index) (one_mod (length rest)) in
    rw (t, m, two) refl

set_first :
    {A : Type 0} (s : LockableSlice A) (x : A)
    → s.slice ≡ []
    → s.locked ≡ false
    → (t : LockableSlice A) × (LockableSlice.set 0 (some x) s ≡ ok t)
unfolding LockableSlice.set
set_first s x none_yet free =
    (record s { slice = s.slice ++ some x ∷ [] }, rw (free, none_yet) refl)

charged :
    {A : Type 0} (b : Bool) (xs : List A) (x : A) (rest : List A)
    → b ≡ true
    → xs ≡ x ∷ rest
    → (b && ltb 0 (length xs)) ≡ true
charged b xs x rest e f = rw (e, f) (ground arith)

module _ {AccountId TxId Pair : Type 0} where
  -- The payment for each node of a list.
  abbrev pub payments_for :
      Operator AccountId TxId Pair → ℤ → TxId → List AccountId → List (Payment AccountId TxId Pair)
  payments_for operator cost id = map (λ node. make_payment_transaction id node operator cost)

  generate_from-payments :
      (operator : Operator AccountId TxId Pair) (cost : ℤ) (id : TxId) (nodes : List AccountId)
      (q : Query AccountId TxId Pair)
      → get_current q.payment_transaction_ids ≡ ok (some id)
      → generate_from operator cost (map some nodes) q
        ≡ ok (record q {
          payment_transactions = q.payment_transactions ++ payments_for operator cost id nodes;
        })
  unfolding generate_from
  generate_from-payments operator cost id [] q current =
      ap (λ ps. ok (record q { payment_transactions = ps }))
        (sym (append-nil q.payment_transactions))
  generate_from-payments operator cost id (node ∷ nodes) q current =
      let x = make_payment_transaction id node operator cost in
      let more = payments_for operator cost id nodes in
      rw current (
        generate_from-payments operator cost id nodes
          (record q { payment_transactions = q.payment_transactions ++ x ∷ [] }) current
        ∙ ap (λ ps. ok (record q { payment_transactions = ps }))
            (append_assoc q.payment_transactions (x ∷ []) more))

  -- Requests behind a number of rounds.
  abbrev pub advance_times : ℕ → Query AccountId TxId Pair → Query AccountId TxId Pair
  advance_times zero q = q
  advance_times (suc n) q = advance_times n (query_advance_request q)

  -- The payments of a query, `p` before `rest`, with the one id that they have.
  pub record IsPaid (p : Payment AccountId TxId Pair) (rest : List (Payment AccountId TxId Pair))
      (id : Option TxId) (q : Query AccountId TxId Pair) : Type 0 where
    pub required : q.is_payment_required ≡ true
    pub payments : q.payment_transactions ≡ p ∷ rest
    pub ids : q.payment_transaction_ids.slice ≡ id ∷ []
    pub index : q.payment_transaction_ids.index ≡ 0

  module _ (p : Payment AccountId TxId Pair) (rest : List (Payment AccountId TxId Pair))
      (id : Option TxId) where
    query_advance_request-IsPaid :
        (q : Query AccountId TxId Pair)
        → IsPaid p rest id q
        → IsPaid p rest id (query_advance_request q)
    unfolding query_advance_request
    query_advance_request-IsPaid q h =
        let some_paid =
          charged q.is_payment_required q.payment_transactions p rest h.required h.payments in
        let (slice, at) = advance_one q.payment_transaction_ids id h.ids h.index in
        record {
          required = h.required;
          payments = h.payments;
          ids = rw some_paid slice;
          index = rw some_paid at;
        }

    query_make_request-IsPaid :
        (q : Query AccountId TxId Pair)
        → IsPaid p rest id q
        → (query_make_request q >>= λ r. ok r.1.payment) ≡ ok (some p)
    unfolding query_make_request
    query_make_request-IsPaid q h =
        let some_paid =
          charged q.is_payment_required q.payment_transactions p rest h.required h.payments in
        let first : get_elem? q.payment_transactions q.payment_transaction_ids.index ≡ some p =
          rw (h.payments, h.index) refl in
        rw (some_paid, first) refl

    -- A query for several nodes has one payment transaction id, at whose index each request takes its
    -- payment: after any number of rounds the request carries the payment of the first node.
    pub request-first_payment :
        (n : ℕ) (q : Query AccountId TxId Pair)
        → IsPaid p rest id q
        → (query_make_request (advance_times n q) >>= λ r. ok r.1.payment) ≡ ok (some p)
    request-first_payment zero q h = query_make_request-IsPaid q h
    request-first_payment (suc n) q h =
        request-first_payment n (query_advance_request q) (query_advance_request-IsPaid q h)

module _ {AccountId TxId Pair : Type 0} (operator : Operator AccountId TxId Pair) (cost : ℤ)
    (id : TxId) where
  -- For a query with nodes of its own, a payment is made out to each node in order. The second node
  -- that the query turns to gets the payment of the first one.
  pub second_node-first_payment :
      (first second : AccountId) (nodes : List AccountId) (q : Query AccountId TxId Pair)
      → q.is_payment_required ≡ true
      → q.payment_transactions ≡ []
      → q.payment_transaction_ids.slice ≡ some id ∷ []
      → q.payment_transaction_ids.index ≡ 0
      → q.node_account_ids.slice ≡ map some (first ∷ second ∷ nodes)
      → q.node_account_ids.index ≡ 0
      → (paid : Query AccountId TxId Pair) × (query_generate_payments operator cost q ≡ ok paid)
        × (paid.payment_transactions ≡ payments_for operator cost id (first ∷ second ∷ nodes))
        × (query_get_node_account_id (query_advance_request paid) ≡ ok second)
        × ((query_make_request (query_advance_request paid) >>= λ r. ok r.1.payment)
            ≡ ok (some (make_payment_transaction id first operator cost)))
  unfolding query_generate_payments
  second_node-first_payment first second nodes q required empty ids index own at =
      let all = first ∷ second ∷ nodes in
      let payments = payments_for operator cost id all in
      let paid : Query AccountId TxId Pair = record q {
        payment_transactions = q.payment_transactions ++ payments;
      } in
      let p = make_payment_transaction id first operator cost in
      let rest = payments_for operator cost id (second ∷ nodes) in
      let made : q.payment_transactions ++ payments ≡ p ∷ rest = rw empty refl in
      let current : get_current q.payment_transaction_ids ≡ ok (some id) =
        current_one q.payment_transaction_ids (some id) ids index in
      let second_own : query_get_node_account_id (query_advance_request paid) ≡ ok second =
        unfold query_get_node_account_id in
        unfold query_advance_request in
        rw (current_second q.node_account_ids (some first) (some second) (map some nodes) own at)
          refl in
      (
        paid,
        ap (λ l. generate_from operator cost l q) own
            ∙ generate_from-payments operator cost id all q current,
        rw empty refl,
        second_own,
        request-first_payment p rest (some id) 1 paid
            (record { required = required; payments = made; ids = ids; index = index }),
      )

  -- A query without nodes of its own has one payment, made out to no node when it is signed. For the
  -- node that the loop picks its body becomes the one of a payment to this node, and its signature
  -- stays the one of the other body.
  pub picked_node-signature :
      (nobody node : AccountId) (q : Query AccountId TxId Pair)
      → q.is_payment_required ≡ true
      → q.payment_transactions ≡ make_payment_transaction id nobody operator cost ∷ []
      → q.payment_transaction_ids.index ≡ 0
      → q.node_account_ids.slice ≡ []
      → q.node_account_ids.locked ≡ false
      → (make_request_for query_make_request node q >>= λ r. ok r.1.payment)
        ≡ ok (
            some (record {
              body = (make_payment_transaction id node operator cost).body;
              sig_pair = operator.sign (make_payment_transaction id nobody operator cost).body;
            }))
  unfolding make_request_for query_make_request make_payment_transaction
  picked_node-signature nobody node q required paid index none_yet free =
      let (ids, added) = set_first q.node_account_ids node none_yet free in
      rw (paid, added) (rw (required, index) refl)
