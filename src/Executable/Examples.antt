-- ===== src/Executable/Examples.antt =====
-- A request of executable.go to one node: the state is the number of answers that still say to wait.
use hedera_sdk_go.Prelude.{
  ℕ, zero, suc, ◌≤◌, ◌*◌, ◌≡◌, refl, true, false, [], ◌∷◌, none, some, All, ◌-◌,
}
use hedera_sdk_go.Prelude.Int.{pos, ◌+ℤ◌}
use hedera_sdk_go.Prelude.Outcome.{ok, bad_status}
use hedera_sdk_go.Executable.{
  Operations, ExecutionState, retry, finished, answered, execute, delay_for_attempt, continues,
  sent, delayed, take_turn, select,
}
use hedera_sdk_go.Executable.Attempts.{IsDue, count_sent, execute-sent}
use hedera_sdk_go.Executable.Retries.{Round, Retries, here, next}

abbrev state_of : ℕ → ExecutionState
state_of zero = finished
state_of (suc n) = retry

-- The node answers `busy` as often as the state says.
abbrev busy_node : Operations ℕ ℕ ℕ ℕ ℕ
busy_node = record {
  is_transaction = true;
  is_pinned = λ s. true;
  make_request = λ s. ok (s, 7);
  node_for_request = λ s. ok (some 3);
  get_node = λ s. ok (s, 3);
  make_request_for = λ n s. ok (s, 7);
  in_use = λ n s. s;
  is_healthy = λ n s. true;
  advance_request = λ s. s;
  has_channel = λ n s. true;
  increase_backoff = λ n s. ok s;
  call = λ n q s. (s - 1, answered s);
  decrease_backoff = λ n s. s;
  should_retry = λ s resp. state_of resp;
  may_regenerate = λ s. false;
  regenerate = λ s. ok s;
  map_response = λ s resp n q. ok (s, n);
}

execute-sent_example :
    All (IsDue busy_node) (execute busy_node (pos 8000000000) (pos 250000000) 10 2).events
    × (count_sent (execute busy_node (pos 8000000000) (pos 250000000) 10 2).events ≤ 10)
execute-sent_example = execute-sent busy_node (pos 8000000000) (pos 250000000) 10 2

abbrev first_round : Round ℕ
first_round = record { attempt = 0; kept = none; min_backoff = pos (1000000 * 250); state = 1 }

abbrev second_round : Round ℕ
second_round = record {
  attempt = 1;
  kept = some bad_status;
  min_backoff = pos 500000000;
  state = 0;
}

first_turn :
    take_turn busy_node (delay_for_attempt (pos 250000000) (pos (1000000 * 8000)) 0) 1
    ≡ continues (sent 1 3 7 ∷ delayed (pos 250) ∷ []) 0 (some bad_status)
unfolding take_turn select delay_for_attempt
first_turn = refl

one_retry : Retries busy_node (pos (1000000 * 8000)) 1 first_round second_round
unfolding ◌+ℤ◌
one_retry = next (sent 1 3 7 ∷ delayed (pos 250) ∷ []) 0 (some bad_status) first_turn here
