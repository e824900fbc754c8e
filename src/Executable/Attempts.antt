-- ===== src/Executable/Attempts.antt =====
-- What `_Execute` of executable.go does in its rounds.
use hedera_sdk_go.Prelude.{
  ℕ, zero, suc, ◌+◌, ◌≤◌, ◌≡◌, true, List, [], ◌∷◌, ◌++◌, Option, none, arith, All, All-append,
  Bool-cases, inl, inr, ◌&&◌,
}
use hedera_sdk_go.Prelude.Int.{ℤ}
use hedera_sdk_go.Prelude.Outcome.{Error, Outcome, ok, err, panic}
use hedera_sdk_go.ManagedNode.{add_int64}
use hedera_sdk_go.Executable.{
  Operations, Event, sent, delayed, Turn, continues, returns, Reply, failed, answered,
  ExecutionState, retry, finished, error, expired, select, on_state, on_reply, on_node, on_selected,
  continue_with, return_with, take_turn, Run, keep_error, finish_turn, execute_from, execute,
  delay_for_attempt, default_retry_handler,
}

abbrev pub count_sent : {S Node Req : Type 0} → List (Event S Node Req) → ℕ
count_sent [] = 0
count_sent (sent s node req ∷ events) = suc (count_sent events)
count_sent (delayed d ∷ events) = count_sent events

count_sent-append :
    {S Node Req : Type 0} (xs ys : List (Event S Node Req))
    → count_sent (xs ++ ys) ≡ count_sent xs + count_sent ys
count_sent-append [] ys = omega arith
count_sent-append (sent s node req ∷ xs) ys = omega (arith, count_sent-append xs ys)
count_sent-append (delayed d ∷ xs) ys = omega (arith, count_sent-append xs ys)

abbrev pub events_of :
    {S Node Req Result : Type 0} → Turn S Node Req Result → List (Event S Node Req)
events_of (continues events s e) = events
events_of (returns events s result) = events

module _ {S Node Req Resp Result : Type 0} (ops : Operations S Node Req Resp Result) where
  -- A call goes to a node that is healthy and, behind the move to the next node, has a connection.
  abbrev pub IsDue : Event S Node Req → Type 0
  IsDue (sent s node req) =
      (ops.is_healthy node s ≡ true) × (ops.has_channel node (ops.advance_request s) ≡ true)
  IsDue (delayed d) = Unit

  -- What a round may do: calls that are due, and one at most.
  abbrev pub IsFair : Turn S Node Req Result → Type 0
  IsFair turn = All IsDue (events_of turn) × (count_sent (events_of turn) ≤ 1)

  abbrev Fair : List (Event S Node Req) → Type 0
  Fair events = All IsDue events × (count_sent events ≤ 1)

  continue_with-IsFair :
      (events : List (Event S Node Req)) (s : S) (e : Option Error) (m : Outcome S)
      → Fair events
      → IsFair (continue_with ops events s e m)
  continue_with-IsFair events s e (ok t) h = h
  continue_with-IsFair events s e (err f) h = h
  continue_with-IsFair events s e (panic p) h = h

  return_with-IsFair :
      (events : List (Event S Node Req)) (s : S) (m : Outcome (S × Result))
      → Fair events
      → IsFair (return_with ops events s m)
  return_with-IsFair events s (ok (t, result)) h = h
  return_with-IsFair events s (err f) h = h
  return_with-IsFair events s (panic p) h = h

  on_state-IsFair :
      (delay : ℤ) (events : List (Event S Node Req)) (s : S) (node : Node) (req : Req) (resp : Resp)
      (state : ExecutionState)
      → Fair events
      → IsFair (on_state ops delay events s node req resp state)
  on_state-IsFair delay events s node req resp retry (d, c) = (
    All-append IsDue events (delayed delay ∷ []) d (tt, tt),
    omega (arith, count_sent-append events (delayed delay ∷ [])),
  )
  on_state-IsFair delay events s node req resp expired h =
      elim (Bool-cases (ops.is_transaction && ops.may_regenerate s)) [
        | inl e ↦ rw e (continue_with-IsFair events s none (ops.regenerate s) h)
        | inr e ↦ rw e h
      ]
  on_state-IsFair delay events s node req resp error h = h
  on_state-IsFair delay events s node req resp finished h =
      return_with-IsFair events s (ops.map_response s resp node req) h

  on_reply-IsFair :
      (delay : ℤ) (events : List (Event S Node Req)) (node : Node) (req : Req)
      (reply : S × Reply Resp)
      → Fair events
      → IsFair (on_reply ops delay events node req reply)
  on_reply-IsFair delay events node req (s, failed code resets) h =
      elim (Bool-cases (default_retry_handler code resets)) [
        | inl e ↦ rw e (continue_with-IsFair events s _ (ops.increase_backoff node s) h)
        | inr e ↦ rw e h
      ]
  on_reply-IsFair delay events node req (s, answered resp) h =
      on_state-IsFair delay events (ops.decrease_backoff node s) node req resp _ h

  on_node-IsFair :
      (delay : ℤ) (s : S) (node : Node) (req : Req) → IsFair (on_node ops delay s node req)
  on_node-IsFair delay s node req = elim (Bool-cases (ops.is_healthy node s)) [
    | inr e ↦ rw e ((tt, tt), omega arith)
    | inl e ↦ rw e (elim (Bool-cases (ops.has_channel node (ops.advance_request s))) [
      | inr f ↦ rw f (continue_with-IsFair [] _ none _ (tt, omega arith))
      | inl f ↦
          rw f (on_reply-IsFair delay (sent s node req ∷ []) node req _ (((e, f), tt), omega arith))
    ])
  ]

  take_turn-IsFair : (delay : ℤ) (s : S) → IsFair (take_turn ops delay s)
  unfolding take_turn
  take_turn-IsFair delay s = by_selected (select ops s)
    where
      by_selected : (m : Outcome (S × Node × Req)) → IsFair (on_selected ops delay s m)
      by_selected (ok (t, node, req)) = on_node-IsFair delay (ops.in_use node t) node req
      by_selected (err e) = (tt, omega arith)
      by_selected (panic p) = (tt, omega arith)

  finish_turn-IsFair :
      (n : ℕ) (rest : S → Option Error → Run ops) (min_backoff : ℤ) (turn : Turn S Node Req Result)
      → IsFair turn
      → ((t : S) (f : Option Error)
          → All IsDue (rest t f).events × (count_sent (rest t f).events ≤ n))
      → All IsDue (finish_turn ops rest min_backoff turn).events
        × (count_sent (finish_turn ops rest min_backoff turn).events ≤ suc n)
  finish_turn-IsFair n rest min_backoff (returns events t result) (d, c) h = (d, omega (arith, c))
  finish_turn-IsFair n rest min_backoff (continues events t f) (d, c) h = (
    All-append IsDue events (rest t f).events d (h t f).0,
    omega (arith, count_sent-append events (rest t f).events, c, (h t f).1),
  )

  execute_from-IsFair :
      (max_backoff : ℤ) (n attempt : ℕ) (e : Option Error) (min_backoff : ℤ) (s : S)
      → All IsDue (execute_from ops max_backoff n attempt e min_backoff s).events
        × (count_sent (execute_from ops max_backoff n attempt e min_backoff s).events ≤ n)
  unfolding execute_from
  execute_from-IsFair max_backoff zero attempt e min_backoff s = (tt, omega arith)
  execute_from-IsFair max_backoff (suc n) attempt e min_backoff s =
      finish_turn-IsFair n
        (λ t f.
          execute_from ops max_backoff n (suc attempt) (keep_error f e)
            (add_int64 min_backoff min_backoff) t)
        min_backoff (take_turn ops (delay_for_attempt min_backoff max_backoff attempt) s)
        (take_turn-IsFair (delay_for_attempt min_backoff max_backoff attempt) s)
        (λ t f.
          execute_from-IsFair max_backoff n (suc attempt) (keep_error f e)
            (add_int64 min_backoff min_backoff) t)

  -- An execution makes no more calls than there are attempts, each to a node that it found healthy
  -- and that has a connection.
  pub execute-sent :
      (max_backoff min_backoff : ℤ) (max_attempts : ℕ) (s : S)
      → All IsDue (execute ops max_backoff min_backoff max_attempts s).events
        × (count_sent (execute ops max_backoff min_backoff max_attempts s).events ≤ max_attempts)
  unfolding execute
  execute-sent max_backoff min_backoff max_attempts s =
      execute_from-IsFair max_backoff max_attempts 0 none min_backoff s
