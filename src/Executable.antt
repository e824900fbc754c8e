-- ===== src/Executable.antt =====
-- executable.go: sending a request to nodes, with retries. The request, the client's network and
-- the world around them are one state S; `Operations` holds what `_Execute` calls on it, the
-- functions that it takes as arguments among them. The text of an error is left out.
pub mod Attempts
pub mod Delays
pub mod Retries
mod Examples
use hedera_sdk_go.Prelude.{
  ℕ, zero, suc, ◌+◌, ◌*◌, ◌/◌, ◌^◌, Bool, true, false, ◌&&◌, List, [], ◌∷◌, ◌++◌, Option, none,
  some, if◌then◌else◌,
}
use hedera_sdk_go.Prelude.Int.{ℤ, pos, negsuc, neg, ltb_ℤ}
use hedera_sdk_go.Prelude.Outcome.{
  Error, Outcome, ok, err, panic, invalid_node, grpc_failed, bad_status, attempts_exhausted, ◌>>=◌,
}
use hedera_sdk_go.ManagedNode.{add_int64}

pub data ExecutionState : Type 0 where
  retry finished error expired : ExecutionState

-- The status codes of grpc that `_ExecutableDefaultRetryHandler` tells apart.
pub data Code : Type 0 where
  resource_exhausted unavailable internal other : Code

-- `_ExecutableDefaultRetryHandler`, with the outcome of the match of the message.
unfoldable pub default_retry_handler : Code → Bool → Bool
default_retry_handler resource_exhausted resets = true
default_retry_handler unavailable resets = true
default_retry_handler internal resets = resets
default_retry_handler other resets = false

-- What a grpc call gives: an error with its code and whether its message is a stream reset, or a
-- response.
pub data Reply (Resp : Type 0) : Type 0 where
  failed : Code → Bool → Reply Resp
  answered : Resp → Reply Resp

pub record Operations (S Node Req Resp Result : Type 0) : Type 0 where
  pub is_transaction : Bool
  pub is_pinned : S → Bool  -- `nodeAccountIDs.locked && nodeAccountIDs._Length() > 0`
  pub make_request : S → Outcome (S × Req)
  pub node_for_request : S → Outcome (Option Node)
  pub get_node : S → Outcome (S × Node)
  pub make_request_for : Node → S → Outcome (S × Req)
  pub in_use : Node → S → S
  pub is_healthy : Node → S → Bool
  pub advance_request : S → S
  pub has_channel : Node → S → Bool
  pub increase_backoff : Node → S → Outcome S
  pub call : Node → Req → S → S × Reply Resp
  pub decrease_backoff : Node → S → S
  pub should_retry : S → Resp → ExecutionState
  pub may_regenerate : S → Bool
  pub regenerate : S → Outcome S
  pub map_response : S → Resp → Node → Req → Outcome (S × Result)

-- What an execution does to the outside: a call, with the state in which its node was found
-- healthy, or a delay in milliseconds.
pub data Event (S Node Req : Type 0) : Type 0 where
  sent : S → Node → Req → Event S Node Req
  delayed : ℤ → Event S Node Req

-- The new error, or the one that is kept.
abbrev pub keep_error : Option Error → Option Error → Option Error
keep_error none e = e
keep_error (some g) e = some g

-- The error of an execution whose attempts are used up.
abbrev pub last_error : Option Error → Error
last_error none = attempts_exhausted
last_error (some f) = f

-- How one round of the loop ends: with `continue`, and the error to keep if there is a new one, or
-- with `return`.
pub data Turn (S Node Req Result : Type 0) : Type 0 where
  continues : List (Event S Node Req) → S → Option Error → Turn S Node Req Result
  returns : List (Event S Node Req) → S → Outcome Result → Turn S Node Req Result

-- `Duration.Milliseconds()`
abbrev pub milliseconds : ℤ → ℤ
milliseconds (pos n) = pos (n / 1000000)
milliseconds (negsuc n) = neg (pos (suc n / 1000000))

abbrev pub times_pow : ℤ → ℕ → ℤ
times_pow (pos n) k = pos (n * 2 ^ k)
times_pow (negsuc n) k = neg (pos (suc n * 2 ^ k))

-- `_DelayForAttempt`, in milliseconds. The source computes with floats, exactly in the range of
-- int64 seconds.
unfoldable pub delay_for_attempt : ℤ → ℤ → ℕ → ℤ
delay_for_attempt min_backoff max_backoff attempt =
    let d = times_pow (milliseconds min_backoff) attempt in
    if ltb_ℤ (milliseconds max_backoff) d then milliseconds max_backoff else d

module _ {S Node Req Resp Result : Type 0} (ops : Operations S Node Req Resp Result) where
  -- The node and the request of a round.
  unfoldable pub select : S → Outcome (S × Node × Req)
  select s =
      if ops.is_pinned s
      then (do
        made ← ops.make_request s
        found ← ops.node_for_request made.0
        elim found [ none ↦ err invalid_node | some node ↦ ok (made.0, node, made.1) ])
      else (do
        picked ← ops.get_node s
        made ← ops.make_request_for picked.1 picked.0
        ok (made.0, picked.1, made.1))

  -- The end of a round that does no more than change the state.
  abbrev pub continue_with :
      List (Event S Node Req) → S → Option Error → Outcome S → Turn S Node Req Result
  continue_with events s e (ok t) = continues events t e
  continue_with events s e (err f) = returns events s (err f)
  continue_with events s e (panic p) = returns events s (panic p)

  abbrev pub return_with :
      List (Event S Node Req) → S → Outcome (S × Result) → Turn S Node Req Result
  return_with events s (ok (t, result)) = returns events t (ok result)
  return_with events s (err f) = returns events s (err f)
  return_with events s (panic p) = returns events s (panic p)

  -- The switch over `shouldRetry`; `delay` is the delay of this round.
  abbrev pub on_state :
      ℤ → List (Event S Node Req) → S → Node → Req → Resp → ExecutionState → Turn S Node Req Result
  on_state delay events s node req resp retry =
      continues (events ++ delayed delay ∷ []) s (some bad_status)
  on_state delay events s node req resp expired =
      if ops.is_transaction && ops.may_regenerate s
      then continue_with events s none (ops.regenerate s)
      else returns events s (err bad_status)
  on_state delay events s node req resp error = returns events s (err bad_status)
  on_state delay events s node req resp finished =
      return_with events s (ops.map_response s resp node req)

  abbrev pub on_reply :
      ℤ → List (Event S Node Req) → Node → Req → S × Reply Resp → Turn S Node Req Result
  on_reply delay events node req (s, failed code resets) =
      if default_retry_handler code resets
      then continue_with events s (some grpc_failed) (ops.increase_backoff node s)
      else returns events s (err grpc_failed)
  on_reply delay events node req (s, answered resp) =
      let t = ops.decrease_backoff node s in
      on_state delay events t node req resp (ops.should_retry t resp)

  -- A round behind the choice of the node.
  abbrev pub on_node : ℤ → S → Node → Req → Turn S Node Req Result
  on_node delay s node req =
      if ops.is_healthy node s
      then (if ops.has_channel node (ops.advance_request s)
          then on_reply delay (sent s node req ∷ []) node req
              (ops.call node req (ops.advance_request s))
          else continue_with [] (ops.advance_request s) none
              (ops.increase_backoff node (ops.advance_request s)))
      else continues (delayed delay ∷ []) s none

  abbrev pub on_selected : ℤ → S → Outcome (S × Node × Req) → Turn S Node Req Result
  on_selected delay s (ok (t, node, req)) = on_node delay (ops.in_use node t) node req
  on_selected delay s (err e) = returns [] s (err e)
  on_selected delay s (panic p) = returns [] s (panic p)

  -- One round of the loop.
  unfoldable pub take_turn : ℤ → S → Turn S Node Req Result
  unfolding select
  take_turn delay s = on_selected delay s (select s)

  pub record Run : Type 0 where
    pub events : List (Event S Node Req)
    pub state : S
    pub min_backoff : ℤ
    pub result : Outcome Result

  -- What a round makes of the run of the rounds behind it.
  abbrev pub finish_turn : (S → Option Error → Run) → ℤ → Turn S Node Req Result → Run
  finish_turn rest min_backoff (returns events t result) = record {
    events = events;
    state = t;
    min_backoff = min_backoff;
    result = result;
  }
  finish_turn rest min_backoff (continues events t f) = record (rest t f) {
    events = events ++ (rest t f).events;
  }

  -- The loop, with the number of rounds left, the number of the round, the error that is kept and
  -- the minimal backoff: `currentBackoff` is a copy of its pointer, so each round that continues
  -- doubles it.
  unfoldable pub execute_from : ℤ → ℕ → ℕ → Option Error → ℤ → S → Run
  unfolding take_turn
  execute_from max_backoff zero attempt e min_backoff s = record {
    events = [];
    state = s;
    min_backoff = min_backoff;
    result = err (last_error e);
  }
  execute_from max_backoff (suc n) attempt e min_backoff s =
      finish_turn
        (λ t f.
          execute_from max_backoff n (suc attempt) (keep_error f e)
            (add_int64 min_backoff min_backoff) t)
        min_backoff (take_turn (delay_for_attempt min_backoff max_backoff attempt) s)

  -- `_Execute`, with the number of attempts that the client or the request allows.
  unfoldable pub execute : ℤ → ℤ → ℕ → S → Run
  unfolding execute_from
  execute max_backoff min_backoff max_attempts s =
      execute_from max_backoff max_attempts 0 none min_backoff s
