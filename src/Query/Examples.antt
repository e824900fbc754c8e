-- ===== src/Query/Examples.antt =====
-- Queries and their payments at concrete values: accounts, ids and signatures are numbers.
use hedera_sdk_go.Prelude.{ℕ, ◌+◌, ◌≡◌, refl, true, false, [], ◌∷◌, none, some}
use hedera_sdk_go.Prelude.Int.{pos}
use hedera_sdk_go.Prelude.Outcome.{ok, ◌>>=◌}
use hedera_sdk_go.Executable.{answered}
use hedera_sdk_go.Query.{
  Header, Query, Operator, status_ok, answer_only, make_payment_transaction,
  query_generate_payments, query_make_request, query_advance_request, query_get_node_account_id,
}
use hedera_sdk_go.Query.Sending.{NetworkOperations, make_request_for}
use hedera_sdk_go.Query.Cost.{Setting, choose_cost}
use hedera_sdk_go.Query.Laws.{payments_for, second_node-first_payment, picked_node-signature}

-- The signature of a body is the account of its node.
abbrev payer : Operator ℕ ℕ ℕ
payer = record { account_id = 1001; sign = λ body. body.node_account_id }

abbrev empty_header : Header ℕ ℕ ℕ
empty_header = record { payment = none; response_type = answer_only }

abbrev for_two : Query ℕ ℕ ℕ
for_two = record {
  payment_transaction_ids = record { slice = some 77 ∷ []; locked = false; index = 0 };
  node_account_ids = record { slice = some 3 ∷ some 4 ∷ []; locked = true; index = 0 };
  max_query_payment = pos 0;
  query_payment = pos 0;
  payment_transactions = [];
  is_payment_required = true;
  max_retry = pos 10;
  pb_header = empty_header;
}

abbrev for_any : Query ℕ ℕ ℕ
for_any = record for_two {
  node_account_ids = record { slice = []; locked = false; index = 0 };
  payment_transactions = make_payment_transaction 77 0 payer (pos 25) ∷ [];
}

second_node-first_payment_example :
    (paid : Query ℕ ℕ ℕ) × (query_generate_payments payer (pos 25) for_two ≡ ok paid)
    × (paid.payment_transactions ≡ payments_for payer (pos 25) 77 (3 ∷ 4 ∷ []))
    × (query_get_node_account_id (query_advance_request paid) ≡ ok 4)
    × ((query_make_request (query_advance_request paid) >>= λ r. ok r.1.payment)
        ≡ ok (some (make_payment_transaction 77 3 payer (pos 25))))
second_node-first_payment_example =
    second_node-first_payment payer (pos 25) 77 3 4 [] for_two refl refl refl refl refl refl

picked_node-signature_example :
    (make_request_for query_make_request 5 for_any >>= λ r. ok r.1.payment)
    ≡ ok (
        some (record {
          body = (make_payment_transaction 77 5 payer (pos 25)).body;
          sig_pair = payer.sign (make_payment_transaction 77 0 payer (pos 25)).body;
        }))
picked_node-signature_example =
    picked_node-signature payer (pos 25) 77 0 5 for_any refl refl refl refl refl

-- A network whose nodes are their accounts, and answer a query for 40 tinybars.
abbrev one_answer : NetworkOperations ℕ ℕ ℕ (Header ℕ ℕ ℕ) ℕ
one_answer = record {
  account_id = λ n. n;
  get_node_for_account_id = λ id w. some id;
  get_node = λ w. ok (w, 3);
  in_use = λ n w. w + 1;
  is_healthy = λ n w. true;
  has_channel = λ n w. true;
  increase_backoff = λ n w. ok w;
  decrease_backoff = λ n w. w;
  call = λ n req w. (w, answered 40);
}

abbrev at_most_100 : Setting ℕ ℕ ℕ
at_most_100 = record {
  operator = some payer;
  client_max_query_payment = pos 100;
  valid = ok tt;
  generated = 78;
  zero_id = 0;
  zero_account = 0;
  max_attempts = 10;
  max_backoff = pos 8000000000;
}

asks_40 :
    (choose_cost at_most_100 one_answer
      (λ resp. status_ok)
      (λ resp. resp)
      (pos 250000000)
      for_two
      0).result
    ≡ ok (pos 40)
unfolding choose_cost
asks_40 = refl
